-- ===== src/Terminate/Telling.antt =====
-- The requests to the servers.
use swift_snails.Base.{
  ℕ, zero, suc, ◌+◌, ◌<◌, ◌≡◌, ◌≢◌, ◌^◌, refl, ap, sym, subst, ◌∙◌, arith, List, [], ◌∷◌, ◌++◌,
  none, some, ◌>>=◌, ◌==◌, leb, if◌then◌else◌, false, Returns, All, length, length-append,
  append_assoc, append-nil, pos, negsuc, eq_int, Option-cases, Bool-cases, inl, inr,
}
use swift_snails.Base.Map.{lookup, nat_ordered}
use swift_snails.Buffer
use swift_snails.Buffer.Words.{le_bytes, put_word-Holds}
use swift_snails.Buffer.Contents.{new-Holds}
use swift_snails.Message.{Package, new_request}
use swift_snails.Transfer.{Transfer}
use swift_snails.Transfer.Calls
use swift_snails.Transfer.Calls.{send-run, after_send, after_send-IsValid, sent_as}
use swift_snails.Master.{Master, MsgCls, number}
use swift_snails.Master.Nodes
use swift_snails.Master.Nodes.{upto}
use swift_snails.NodeInit.{set_class}
use swift_snails.Terminate.{
  MasterTerminate, tell_server, tell_servers, tell_all_servers_to_terminate,
}
use swift_snails.Terminate.Counting.{servers, servers-finished}

-- The order to a server, under the number k.
abbrev pub told : ℕ → ℕ → Package
told c k = record {
  meta = record {
    message_class = pos (number MsgCls.server_told_to_terminate);
    client_id = pos c;
    message_id = k;
  };
  cont = le_bytes 4 1234;
}

-- The orders to the servers, with numbers from k on.
abbrev pub orders : ℕ → ℕ → List ℕ → List (ℕ × Package)
orders c k [] = []
orders c k (id ∷ ids) = if id == 0 then orders c k ids else (id, told c k) ∷ orders c (k + 1) ids

orders_snoc :
    (c k n : ℕ) (ids : List ℕ)
    → length (orders c k (ids ++ n ∷ [])) ≡ length (orders c k ids) + (if n == 0 then 0 else 1)
orders_snoc c k n [] = ground arith
orders_snoc c k n (id ∷ ids) = elim (Bool-cases (id == 0)) [
  | inl e ↦ rw e (orders_snoc c k n ids)
  | inr e ↦ rw e (omega (arith, orders_snoc c (k + 1) n ids))
]

-- One order to each server but the first.
orders-upto : (c k n : ℕ) → length (orders c k (upto (suc n))) ≡ n
orders-upto c k zero = ground arith
orders-upto c k (suc n) =
    let other : (suc n == 0) ≡ false = ground arith in
    orders_snoc c k (suc n) (upto (suc n)) ∙ rw other (omega (arith, orders-upto c k n))

All_snoc : (P : ℕ → Type 0) (xs : List ℕ) {y : ℕ} → All P xs → P y → All P (xs ++ y ∷ [])
All_snoc P [] _ q = (q, tt)
All_snoc P (x ∷ xs) (p, ps) q = (p, All_snoc P xs ps q)

All_upto : (P : ℕ → Type 0) (n : ℕ) → ((i : ℕ) → i < n → P i) → All P (upto n)
All_upto P zero f = tt
All_upto P (suc n) f =
    All_snoc P (upto n) (All_upto P n (λ i lt. f i (omega arith))) (f n (omega arith))

length-upto : (n : ℕ) → length (upto n) ≡ n
length-upto zero = refl
length-upto (suc n) = omega (arith, length-append (upto n) (n ∷ []), length-upto n)

module _ {H B A : Type 0} (addrs : List (ℕ × A)) (callback : B) (c : ℕ) where
  order-sent :
      {a : A} (id : ℕ) (t : Transfer H B)
      → Calls.IsValid t
      → t.client ≡ pos c
      → t.msg_id_counter + 1 < 2 ^ 32
      → lookup id addrs ≡ some a
      → Returns (tell_server addrs callback id t) λ t'.
        Calls.IsValid t'
        × (t'.client ≡ pos c)
        × (t'.msg_id_counter ≡ t.msg_id_counter + 1)
        × (t'.sent ≡ t.sent ++ (id, told c t.msg_id_counter) ∷ [])
  unfolding tell_server
  order-sent id t v mine few there =
      let (b, put, h) = put_word-Holds 4 1234 Buffer.new new-Holds (omega arith) in
      let r = set_class MsgCls.server_told_to_terminate (record new_request { cont = b }) in
      let known : eq_int t.client (negsuc 2) ≡ false = ap (λ i. eq_int i (negsuc 2)) mine in
      let signed : sent_as t r (le_bytes 4 1234) ≡ told c t.msg_id_counter = rw mine refl in
      (
        after_send id r (le_bytes 4 1234) callback t,
        rw (put, ◌>>=◌) (send-run addrs r callback id t v known there h),
        (
          after_send-IsValid id r (le_bytes 4 1234) callback t v few,
          mine,
          omega arith,
          ap (λ p. t.sent ++ (id, p) ∷ []) signed,
        ),
      )

  tell_servers-orders :
      (ids : List ℕ) (t : Transfer H B)
      → All (λ id. lookup id addrs ≢ none) ids
      → Calls.IsValid t
      → t.client ≡ pos c
      → t.msg_id_counter + length ids < 2 ^ 32
      → Returns
          (tell_servers addrs callback ids t)
          λ t'. t'.sent ≡ t.sent ++ orders c t.msg_id_counter ids
  unfolding tell_servers
  tell_servers-orders [] t _ v mine few = (t, refl, sym (append-nil t.sent))
  tell_servers-orders (id ∷ ids) t (here, known) v mine few = elim (Bool-cases (id == 0)) [
    | inl e ↦
        let (t', run, sent) = tell_servers-orders ids t known v mine (omega arith) in
        (t', rw e run, rw e sent)
    | inr e ↦ elim (Option-cases (lookup id addrs)) [
      | inl absent ↦ absurd (here absent)
      | inr (a, there) ↦
          let (t₁, run₁, (v₁, mine₁, next, sent₁)) = order-sent id t v mine (omega arith) there in
          let (t', run, sent) = tell_servers-orders ids t₁ known v₁ mine₁ (omega arith) in
          (
            t',
            rw (e, run₁, ◌>>=◌) run,
            rw e (
                sent
                ∙ ap (λ k. t₁.sent ++ orders c k ids) next
                ∙ ap (λ l. l ++ orders c (t.msg_id_counter + 1) ids) sent₁
                ∙ append_assoc t.sent _ _),
          )
    ]
  ]

-- The master, in its invariant and with the number of the servers set, tells the servers to end: it
-- succeeds, sends one order to each server but itself, as many as there are registered servers, and
-- it stops waiting exactly when as many servers as were told have responded.
pub tell_all_servers_to_terminate-ends :
    {H B : Type 0} (callback : B) (c : ℕ) (m : Master) (mt : MasterTerminate) (t : Transfer H B)
    → Nodes.IsValid m
    → mt.server_num ≡ m.registered_server_num
    → 0 < mt.server_num
    → mt.servers_finished ≡ false
    → Calls.IsValid t
    → t.client ≡ pos c
    → t.msg_id_counter + m.registered_server_num + 1 < 2 ^ 32
    → Returns
        (tell_all_servers_to_terminate m.route.base.send_addrs callback m.route.server_ids mt t)
        λ p.
          (p.1.sent ≡ t.sent ++ orders c t.msg_id_counter m.route.server_ids)
          × (length (orders c t.msg_id_counter m.route.server_ids) ≡ m.registered_server_num)
          × ((k : ℕ) → (servers k p.0).servers_finished ≡ leb m.registered_server_num k)
unfolding tell_all_servers_to_terminate
tell_all_servers_to_terminate-ends callback c m mt t vm counted some_server unset v mine few =
    let next : m.route.server_num ≡ suc m.registered_server_num = omega (arith, vm.servers) in
    let ids : m.route.server_ids ≡ upto (suc m.registered_server_num) = vm.ids ∙ ap upto next in
    let addrs = m.route.base.send_addrs in
    let known : All (λ id. lookup id addrs ≢ none) m.route.server_ids =
      subst (All (λ id. lookup id addrs ≢ none)) (sym vm.ids)
        (All_upto (λ id. lookup id addrs ≢ none) m.route.server_num vm.served) in
    let size : length m.route.server_ids ≡ suc m.registered_server_num =
      ap length ids ∙ length-upto (suc m.registered_server_num) in
    let (t', run, sent) =
      tell_servers-orders addrs callback c m.route.server_ids t known v mine
        (omega (arith, size)) in
    let mt' = record mt { num_finished_servers = 0 } in
    (
      (mt', t'),
      rw (run, ◌>>=◌) refl,
      (
        sent,
        ap (λ l. length (orders c t.msg_id_counter l)) ids
            ∙ orders-upto c t.msg_id_counter m.registered_server_num,
        λ k. servers-finished k mt' some_server refl unset ∙ ap (λ n. leb n k) counted,
      ),
    )
