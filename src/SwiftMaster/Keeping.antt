-- ===== src/SwiftMaster/Keeping.antt =====
-- What the operations of the master leave alone: the messages that it has sent, its classes and tasks.
use swift_snails.Base.{
  ℕ, ◌+◌, ◌≡◌, refl, sym, ap, subst, ◌∙◌, arith, List, [], ◌∷◌, ◌++◌, some, ok, >>=-eq-ok, Bool,
  true, false, Bool-cases, if-true, if-false, inl, inr, ◌==◌, All, check, or_abort, check_failed, ℤ,
  eq_int, pos, negsuc, ltb, null_pointer, not, if◌then◌else◌,
}
use swift_snails.Base.Map.{lookup, nat_ordered}
use swift_snails.Buffer
use swift_snails.Message.{
  Request, Package, of_package, to_package, is_response, set_client, set_response, set_msg_id,
  new_request,
}
use swift_snails.Transfer
use swift_snails.Transfer.{
  Transfer, Task, serve, call_back, add, get, receive, handle_request, handle_response,
  serve_request, send_response, as_index,
}
use swift_snails.Framework.Keeping.{of_package-meta}
use swift_snails.Route.{put_route}
use swift_snails.Master.{Master, init_msg_id, send_routes}
use swift_snails.SwiftMaster.{Handler, init_address, askfor, finish_work, Callback}

-- No message is the order to end.
abbrev pub NoOrder : List (ℕ × Package) → Type 0
NoOrder = All (λ p. eq_int p.1.meta.message_class (pos 5) ≡ false)

NoOrder-append :
    (l : List (ℕ × Package)) (p : ℕ × Package)
    → eq_int p.1.meta.message_class (pos 5) ≡ false
    → NoOrder l
    → NoOrder (l ++ p ∷ [])
NoOrder-append [] p e _ = (e, tt)
NoOrder-append (q ∷ l) p e (h, hs) = (h, NoOrder-append l p e hs)

abbrev pub is_finish : Handler → Bool
is_finish init_address = false
is_finish askfor = false
is_finish finish_work = true

-- The workers' last message, of class 4, is the only one with its handler.
abbrev pub Right : List (ℕ × Handler) → Type 0
Right c = (id : ℕ) (h : Handler) → lookup id c ≡ some h → is_finish h ≡ (id == 4)

-- The last messages of workers and the answers of servers that wait as tasks.
abbrev pub finish_tasks : List (Task Handler Callback) → ℕ
finish_tasks [] = 0
finish_tasks (serve h q ∷ tasks) = (if is_finish h then 1 else 0) + finish_tasks tasks
finish_tasks (call_back b q ∷ tasks) = finish_tasks tasks

abbrev pub answer_tasks : List (Task Handler Callback) → ℕ
answer_tasks [] = 0
answer_tasks (serve h q ∷ tasks) = answer_tasks tasks
answer_tasks (call_back b q ∷ tasks) = 1 + answer_tasks tasks

-- A package that is the last message of a worker, and one that is an answer.
abbrev pub finish_msg : Package → ℕ
finish_msg pkg =
    if eq_int pkg.meta.message_class (negsuc 0)
    then 0
    else if as_index pkg.meta.message_class == 4
    then 1
    else 0

abbrev pub answer_msg : Package → ℕ
answer_msg pkg = if eq_int pkg.meta.message_class (negsuc 0) then 1 else 0

finish_tasks-append :
    (tasks : List (Task Handler Callback)) (task : Task Handler Callback)
    → finish_tasks (tasks ++ task ∷ []) ≡ finish_tasks tasks + finish_tasks (task ∷ [])
finish_tasks-append [] task = omega arith
finish_tasks-append (serve h q ∷ tasks) task = omega (arith, finish_tasks-append tasks task)
finish_tasks-append (call_back b q ∷ tasks) task = finish_tasks-append tasks task

answer_tasks-append :
    (tasks : List (Task Handler Callback)) (task : Task Handler Callback)
    → answer_tasks (tasks ++ task ∷ []) ≡ answer_tasks tasks + answer_tasks (task ∷ [])
answer_tasks-append [] task = omega arith
answer_tasks-append (serve h q ∷ tasks) task = answer_tasks-append tasks task
answer_tasks-append (call_back b q ∷ tasks) task = omega (arith, answer_tasks-append tasks task)

-- The classes and tasks are as before, and no order was sent.
abbrev pub Quiet : Transfer Handler Callback → Transfer Handler Callback → Type 0
Quiet t t' =
    (t'.message_class ≡ t.message_class) × (t'.tasks ≡ t.tasks) × (NoOrder t.sent → NoOrder t'.sent)

to_package-meta : (r : Request) (p : Package) → to_package r ≡ ok p → p.meta ≡ r.meta
unfolding to_package
to_package-meta r p run = ground arith

module _ {A : Type 0} (addrs : List (ℕ × A)) where
  send_response-Quiet :
      (r : Request) (to : ℤ) (t t' : Transfer Handler Callback)
      → eq_int r.meta.message_class (pos 5) ≡ false
      → send_response addrs r to t ≡ ok t'
      → Quiet t t'
  unfolding send_response set_client
  send_response-Quiet r (pos to) t t' e run =
      let (p, packs, run₁) = >>=-eq-ok (to_package (set_client (pos to) r)) _ run in
      let (a, _, last) = >>=-eq-ok (or_abort (lookup to addrs) null_pointer) _ run₁ in
      let meta = to_package-meta (set_client (pos to) r) p packs in
      let no_order : eq_int p.meta.message_class (pos 5) ≡ false =
        ap (λ m. eq_int m.message_class (pos 5)) meta ∙ e in
      let now : record t { sent = t.sent ++ (to, p) ∷ [] } ≡ t' = cc in
      subst (Quiet t) now (refl, refl, NoOrder-append t.sent (to, p) no_order)
  send_response-Quiet r (negsuc n) t t' e run =
      let (p, packs, run₁) = >>=-eq-ok (to_package (set_client (negsuc n) r)) _ run in cc

  pub serve_request-Quiet :
      (made q : Request) (t t' : Transfer Handler Callback)
      → serve_request (λ request response. ok made) addrs q t ≡ ok t'
      → Quiet t t'
  unfolding serve_request
  serve_request-Quiet made q t t' run =
      let response = record made {
        meta = record made.meta {
          message_id = q.meta.message_id;
          client_id = q.meta.client_id;
          message_class = negsuc 0;
        };
      } in
      elim (Bool-cases (ltb 0 (Buffer.size made.cont))) [
        | inl full ↦
            send_response-Quiet response q.meta.client_id t t' refl
              (if-true (ltb 0 (Buffer.size made.cont)) _ _ full run)
        | inr nothing ↦
            let same : ok t ≡ ok t' = if-false (ltb 0 (Buffer.size made.cont)) _ _ nothing run in
            let now : t ≡ t' = cc in subst (Quiet t) now (refl, refl, λ n. n)
      ]

pub both_silent : (t₁ t₂ t₃ : Transfer Handler Callback) → Quiet t₁ t₂ → Quiet t₂ t₃ → Quiet t₁ t₃
both_silent t₁ t₂ t₃ (a, b, c) (a', b', c') = (a' ∙ a, b' ∙ b, λ n. c' (c n))

pub send_routes-Quiet :
    (rcds : List (ℕ × List ℕ)) (m : Master) (t t' : Transfer Handler Callback)
    → send_routes rcds m t ≡ ok t'
    → Quiet t t'
unfolding send_routes set_response set_msg_id new_request
send_routes-Quiet [] m t t' run = let now : t ≡ t' = cc in subst (Quiet t) now (refl, refl, λ n. n)
send_routes-Quiet ((id, addr) ∷ rcds) m t t' run =
    let (cont, _, run₁) = >>=-eq-ok (put_route m.route Buffer.new) _ run in
    let response =
      set_msg_id (init_msg_id id m) (set_response (record new_request { cont = cont })) in
    let (t₁, sends, rest) =
      >>=-eq-ok
        (if id == 0 then ok t else send_response m.route.base.send_addrs response (pos id) t) _
        run₁ in
    elim (Bool-cases (id == 0)) [
      | inl master ↦
          let same : ok t ≡ ok t₁ = if-true (id == 0) _ _ master sends in
          let now : t ≡ t₁ = cc in
          both_silent t t₁ t' (subst (Quiet t) now (refl, refl, λ n. n))
            (send_routes-Quiet rcds m t₁ t' rest)
      | inr other ↦
          both_silent t t₁ t'
            (send_response-Quiet m.route.base.send_addrs _ (pos id) t t₁ refl
              (if-false (id == 0) _ _ other sends))
            (send_routes-Quiet rcds m t₁ t' rest)
    ]

-- A package that is received: no order is sent, and it becomes one task of its kind.
pub receive-Quiet :
    (pkg : Package) (t t' : Transfer Handler Callback)
    → receive pkg t ≡ ok t'
    → (t'.message_class ≡ t.message_class)
      × (t'.sent ≡ t.sent)
      × (answer_tasks t'.tasks ≡ answer_tasks t.tasks + answer_msg pkg)
      × (Right t.message_class → finish_tasks t'.tasks ≡ finish_tasks t.tasks + finish_msg pkg)
unfolding receive handle_request handle_response get is_response
receive-Quiet pkg t t' run =
    let (q, unpacks, handled) = >>=-eq-ok (of_package pkg) _ run in
    let meta = of_package-meta pkg q unpacks in
    let class : eq_int q.meta.message_class (negsuc 0) ≡ eq_int pkg.meta.message_class (negsuc 0) =
      ap (λ m. eq_int m.message_class (negsuc 0)) meta in
    elim (Bool-cases (is_response q)) [
      | inl e ↦
          let run₁ = if-true (is_response q) _ _ e handled in
          let (_, _, run₂) = >>=-eq-ok (check (Transfer.addressed q t)) _ run₁ in
          let (b, _, last) =
            >>=-eq-ok (or_abort (lookup q.meta.message_id t.msg_handlers) check_failed) _ run₂ in
          let more : t'.tasks ≡ t.tasks ++ call_back b q ∷ [] = ground (arith, last) in
          let answer : eq_int pkg.meta.message_class (negsuc 0) ≡ true = sym class ∙ e in
          (
            ground (arith, last),
            ground (arith, last),
            ground
                (arith, ap answer_tasks more, answer_tasks-append t.tasks (call_back b q), answer),
            λ right.
                ground (
                  arith,
                  ap finish_tasks more,
                  finish_tasks-append t.tasks (call_back b q),
                  answer,
                ),
          )
      | inr e ↦
          let run₁ = if-false (is_response q) _ _ e handled in
          let (h, found, run₂) =
            >>=-eq-ok
              (or_abort (lookup (as_index q.meta.message_class) t.message_class) check_failed) _
              run₁ in
          let (_, _, last) = >>=-eq-ok (check (not t.closed)) _ run₂ in
          let there : lookup (as_index q.meta.message_class) t.message_class ≡ some h =
            ground (arith, found) in
          let more : t'.tasks ≡ t.tasks ++ serve h q ∷ [] = ground (arith, last) in
          let request : eq_int pkg.meta.message_class (negsuc 0) ≡ false = sym class ∙ e in
          (
            ground (arith, last),
            ground (arith, last),
            ground (arith, ap answer_tasks more, answer_tasks-append t.tasks (serve h q), request),
            λ right.
                let kind : is_finish h ≡ (as_index pkg.meta.message_class == 4) =
                  right _ h there ∙ ap (λ m. as_index m.message_class == 4) meta in
                ground (
                  arith,
                  ap finish_tasks more,
                  finish_tasks-append t.tasks (serve h q),
                  request,
                  kind,
                ),
          )
    ]
