-- ===== src/Framework/Keeping.antt =====
-- What the operations of a Transfer and of a joining node leave alone.
use swift_snails.Base.{
  ℕ, ◌≡◌, refl, sym, ◌∙◌, arith, List, [], ◌∷◌, ◌++◌, Result, ok, >>=-eq-ok, Bool, true, Bool-cases,
  inl, inr, ◌≢◌, check, or_abort, check_failed, not, ap, some, if-false,
}
use swift_snails.Base.Map.{lookup, nat_ordered}
use swift_snails.Message.{Request, Package, of_package, is_response}
use swift_snails.Transfer
use swift_snails.Transfer.{
  Transfer, Task, serve, call_back, add, get, send, emplace, send_response, handle_request,
  as_index, handle_response, receive, serve_request, set_client_id,
}
use swift_snails.NodeInit.{
  Node, register_master, register_local_node_to_master, route_response, askfor_hashfrag,
  hashfrag_response,
}
use swift_snails.Addr.{from_string, put_addr}
use swift_snails.Buffer
use swift_snails.Buffer.Words.{put_word}

-- The classes and the tasks are as before.
abbrev pub Kept : {H B : Type 0} → Transfer H B → Transfer H B → Type 0
Kept t t' = (t'.message_class ≡ t.message_class) × (t'.tasks ≡ t.tasks)

-- Only callbacks wait.
abbrev pub OnlyCallbacks : {H B : Type 0} → List (Task H B) → Type 0
OnlyCallbacks [] = Unit
OnlyCallbacks (serve h q ∷ tasks) = ⊥
OnlyCallbacks (call_back b q ∷ tasks) = OnlyCallbacks tasks

pub of_package-meta : (pkg : Package) (q : Request) → of_package pkg ≡ ok q → q.meta ≡ pkg.meta
unfolding of_package
of_package-meta pkg q run = ground arith

module _ {H B : Type 0} where
  pub OnlyCallbacks-append :
      (tasks : List (Task H B)) (b : B) (q : Request)
      → OnlyCallbacks tasks
      → OnlyCallbacks (tasks ++ call_back b q ∷ [])
  OnlyCallbacks-append [] b q only = tt
  OnlyCallbacks-append (serve h q' ∷ tasks) b q only = absurd only
  OnlyCallbacks-append (call_back b' q' ∷ tasks) b q only = OnlyCallbacks-append tasks b q only

  pub send-Kept :
      {A : Type 0} (addrs : List (ℕ × A)) (r : Request) (b : B) (to : ℕ) (t t' : Transfer H B)
      → send addrs r b to t ≡ ok t'
      → Kept t t'
  unfolding send emplace
  send-Kept addrs r b to t t' run = ground arith

  pub serve_request-Kept :
      {A : Type 0} (handler : Request → Request → Result Request) (addrs : List (ℕ × A))
      (q : Request) (t t' : Transfer H B)
      → serve_request handler addrs q t ≡ ok t'
      → Kept t t'
  unfolding serve_request send_response
  serve_request-Kept handler addrs q t t' run = ground arith

  handle_request-keeps :
      (q : Request) (t t' : Transfer H B)
      → handle_request q t ≡ ok t'
      → (t'.message_class ≡ t.message_class) × (t.message_class ≢ [])
  unfolding handle_request get lookup
  handle_request-keeps q t t' run = (ground arith, λ e. ground (arith, e))

  handle_response-keeps :
      (q : Request) (t t' : Transfer H B)
      → handle_response q t ≡ ok t'
      → (t'.message_class ≡ t.message_class)
        × ((b : B) × (t'.tasks ≡ t.tasks ++ call_back b q ∷ []))
  unfolding handle_response
  handle_response-keeps q t t' run =
      let (u, addressed, run') = >>=-eq-ok (check (Transfer.addressed q t)) _ run in
      let (b, waits, last) =
        >>=-eq-ok (or_abort (lookup q.meta.message_id t.msg_handlers) check_failed) _ run' in
      (ground (arith, last), (b, ground (arith, last)))

  -- A package that is received becomes one task: a callback, or the handler of its class.
  abbrev pub Becomes : Transfer H B → Package → Task H B → Type 0
  Becomes t pkg (serve h q) = lookup (as_index pkg.meta.message_class) t.message_class ≡ some h
  Becomes t pkg (call_back b q) = Unit

  pub receive-keeps :
      (pkg : Package) (t t' : Transfer H B)
      → receive pkg t ≡ ok t'
      → (t'.message_class ≡ t.message_class)
        × (t.message_class ≡ [] → OnlyCallbacks t.tasks → OnlyCallbacks t'.tasks)
        × ((task : Task H B) × (t'.tasks ≡ t.tasks ++ task ∷ []) × Becomes t pkg task)
  unfolding receive handle_request get
  receive-keeps pkg t t' run =
      let (q, unpacks, handled) = >>=-eq-ok (of_package pkg) _ run in
      elim (Bool-cases (is_response q)) [
        | inl e ↦
            let (same, (b, more)) = handle_response-keeps q t t' (sym (rw e refl) ∙ handled) in
            (
              same,
              λ none_registered only. rw more (OnlyCallbacks-append t.tasks b q only),
              (call_back b q, more, tt),
            )
        | inr e ↦
            let run₁ = if-false (is_response q) _ _ e handled in
            let (same, some_class) = handle_request-keeps q t t' run₁ in
            let (h, found, run₂) =
              >>=-eq-ok
                (or_abort (lookup (as_index q.meta.message_class) t.message_class) check_failed) _
                run₁ in
            let (_, _, last) = >>=-eq-ok (check (not t.closed)) _ run₂ in
            let there : lookup (as_index q.meta.message_class) t.message_class ≡ some h =
              ground (arith, found) in
            let meta = of_package-meta pkg q unpacks in
            (
              same,
              λ none_registered only. absurd (some_class none_registered),
              (
                serve h q,
                ground (arith, last),
                ap (λ m. lookup (as_index m.message_class) t.message_class) (sym meta) ∙ there,
              ),
            )
      ]

-- The classes, the tasks and the flags of a node are as before.
abbrev pub NodeKept : {H : Type 0} → Node H → Node H → Type 0
NodeKept n n' =
    Kept n.transfer n'.transfer
    × (n'.route_init ≡ n.route_init)
    × (n'.hashfrag_init ≡ n.hashfrag_init)

module _ {H : Type 0} where
  pub register_master-Kept :
      (addr : List ℕ) (n n' : Node H) → register_master addr n ≡ ok n' → NodeKept n n'
  unfolding register_master
  register_master-Kept addr n n' run = ground arith

  pub register_local-Kept :
      (server : Bool) (addr : List ℕ) (n n' : Node H)
      → register_local_node_to_master server addr n ≡ ok n'
      → NodeKept n n'
  unfolding register_local_node_to_master set_client_id
  register_local-Kept server addr n n' run =
      let (ip, _, run₁) = >>=-eq-ok (from_string addr) _ run in
      let (cont, _, run₂) = >>=-eq-ok (put_addr ip Buffer.new) _ run₁ in
      let (t, sends, last) = >>=-eq-ok (send _ _ _ _ _) _ run₂ in
      let (classes, tasks) = send-Kept _ _ _ _ _ _ sends in
      (
        (ground (arith, last, classes), ground (arith, last, tasks)),
        ground (arith, last),
        ground (arith, last),
      )

  pub askfor_hashfrag-Kept : (n n' : Node H) → askfor_hashfrag n ≡ ok n' → NodeKept n n'
  unfolding askfor_hashfrag
  askfor_hashfrag-Kept n n' run =
      let (cont, _, run₁) = >>=-eq-ok (put_word 4 123 Buffer.new) _ run in
      let (t, sends, last) = >>=-eq-ok (send _ _ _ _ _) _ run₁ in
      let (classes, tasks) = send-Kept _ _ _ _ _ _ sends in
      (
        (ground (arith, last, classes), ground (arith, last, tasks)),
        ground (arith, last),
        ground (arith, last),
      )

  pub route_response-Kept :
      (q : Request) (n n' : Node H)
      → route_response q n ≡ ok n'
      → Kept n.transfer n'.transfer × (n'.route_init ≡ true) × (n'.hashfrag_init ≡ n.hashfrag_init)
  unfolding route_response set_client_id
  route_response-Kept q n n' run = ground arith

  pub hashfrag_response-Kept :
      (q : Request) (n n' : Node H)
      → hashfrag_response q n ≡ ok n'
      → (n'.transfer ≡ n.transfer) × (n'.route_init ≡ n.route_init) × (n'.hashfrag_init ≡ true)
  unfolding hashfrag_response
  hashfrag_response-Kept q n n' run = ground arith
