-- ===== src/Worker/Calling/Sending.antt =====
-- What a blocking call sends, what it registers, and when it comes back.
use swift_snails.Base.{
  ℕ, suc, ◌+◌, ◌^◌, ◌<◌, ◌≤◌, ◌≡◌, ◌≢◌, refl, ap, sym, ◌∙◌, arith, List, [], ◌∷◌, ◌++◌, map, none,
  some, ok, ◌>>=◌, ◌==◌, ◌&&◌, ltb, leb, if◌then◌else◌, Returns, All, length, pos, false, subst,
  negsuc, eq_int, Option-cases, inl, inr, append_assoc, append-nil,
}
use mathlib.Core.List.{map-append}
use swift_snails.Base.HashMap.{HashMap}
use swift_snails.Base.Map.{lookup, nat_ordered, lookup-assign}
use swift_snails.Buffer
use swift_snails.Buffer.{Buffer}
use swift_snails.Buffer.Contents.{Holds, new-Holds}
use swift_snails.Buffer.Codec.{Codec, put_records-Holds}
use swift_snails.HashFrag.{HashFrag}
use swift_snails.Message.{new_request}
use swift_snails.Transfer.{Transfer}
use swift_snails.Transfer.Calls
use swift_snails.Transfer.Calls.{send-run, after_send, after_send-IsValid}
use swift_snails.Master.{MsgCls}
use swift_snails.NodeInit.{set_class}
use swift_snails.Worker.{
  NodeReqs, start, ParamCache, arrange_local_vals, arrange_local_grads, pull_requests,
  push_requests,
}
use swift_snails.Worker.Countdown.{respond}
use swift_snails.Worker.Blocking.{filled, pull_requests-unblock, push_requests-unblock}
use swift_snails.Worker.Calling.{send_requests, pull_with_barrier, push_with_barrier}

abbrev pub node_ids : {A : Type 0} → List (ℕ × A) → List ℕ
node_ids l = map (λ p. p.0) l

-- Each content holds some bytes that are not yet read.
abbrev Held : List (ℕ × Buffer) → Type 0
Held = All (λ p. (w : List ℕ) × Holds w w p.1)

-- The nodes whose group is not empty.
abbrev pub filled_ids : {A : Type 0} → NodeReqs A → List ℕ
filled_ids [] = []
filled_ids ((id, []) ∷ reqs) = filled_ids reqs
filled_ids ((id, item ∷ items) ∷ reqs) = id ∷ filled_ids reqs

length-ids : {X : Type 0} (l : List (ℕ × X)) → length l ≡ length (node_ids l)
length-ids [] = refl
length-ids (x ∷ l) = ap suc (length-ids l)

filled-ids : {X : Type 0} (reqs : NodeReqs X) → filled reqs ≡ length (filled_ids reqs)
filled-ids [] = refl
filled-ids ((id, []) ∷ reqs) = filled-ids reqs
filled-ids ((id, item ∷ items) ∷ reqs) = ap suc (filled-ids reqs)

filled_ids_le : {X : Type 0} (reqs : NodeReqs X) → length (filled_ids reqs) ≤ length reqs
filled_ids_le [] = omega arith
filled_ids_le ((id, []) ∷ reqs) = omega (arith, filled_ids_le reqs)
filled_ids_le ((id, item ∷ items) ∷ reqs) = omega (arith, filled_ids_le reqs)

module _ {V : Type 0} (CK : Codec ℕ) (CV : Codec V) where
  pull_requests-Held :
      (reqs : NodeReqs (ℕ × V))
      → Returns
          (pull_requests CK CV reqs)
          λ contents. Held contents × (node_ids contents ≡ node_ids reqs)
  unfolding pull_requests
  pull_requests-Held [] = ([], refl, (tt, refl))
  pull_requests-Held ((id, items) ∷ reqs) =
      let (cont, put, held) = put_records-Holds CK CV items Buffer.new new-Holds in
      let (rest, run, (helds, ids)) = pull_requests-Held reqs in
      ((id, cont) ∷ rest, rw (put, ◌>>=◌, run) refl, (((_, held), helds), ap (λ l. id ∷ l) ids))

  push_requests-Held :
      (reqs : NodeReqs (ℕ × V))
      → Returns
          (push_requests CK CV reqs)
          λ contents. Held contents × (node_ids contents ≡ filled_ids reqs)
  unfolding push_requests
  push_requests-Held [] = ([], refl, (tt, refl))
  push_requests-Held ((id, []) ∷ reqs) = push_requests-Held reqs
  push_requests-Held ((id, item ∷ items) ∷ reqs) =
      let (cont, put, held) = put_records-Holds CK CV (item ∷ items) Buffer.new new-Holds in
      let (rest, run, (helds, ids)) = push_requests-Held reqs in
      ((id, cont) ∷ rest, rw (put, ◌>>=◌, run) refl, (((_, held), helds), ap (λ l. id ∷ l) ids))

module _ {H B A : Type 0} (addrs : List (ℕ × A)) (handler : B) where
  -- From `t` one package is sent to each of the nodes, in order, and the callback waits under as many
  -- new numbers; no other call changes.
  pub record Called (ids : List ℕ) (t t' : Transfer H B) : Type 0 where
    pub sent_to : node_ids t'.sent ≡ node_ids t.sent ++ ids
    pub pending :
        (j : ℕ)
        → lookup j t'.msg_handlers ≡ (
            if leb t.msg_id_counter j && ltb j (t.msg_id_counter + length ids)
            then some handler
            else lookup j t.msg_handlers)

  send_requests-Called :
      (class : MsgCls) (c : ℕ) (contents : List (ℕ × Buffer)) (t : Transfer H B)
      → Held contents
      → All (λ id. lookup id addrs ≢ none) (node_ids contents)
      → Calls.IsValid t
      → t.client ≡ pos c
      → t.msg_id_counter + length (node_ids contents) < 2 ^ 32
      → Returns (send_requests addrs handler class contents t) (Called (node_ids contents) t)
  unfolding send_requests
  send_requests-Called class c [] t _ _ v mine few =
      (t, refl, record { sent_to = sym (append-nil _); pending = λ j. ground arith })
  send_requests-Called class c ((id, cont) ∷ contents) t ((w, held), helds) (here, known) v mine
        few =
      elim (Option-cases (lookup id addrs)) [
        | inl absent ↦ absurd (here absent)
        | inr (a, there) ↦
            let r = set_class class (record new_request { cont = cont }) in
            let set_id : eq_int t.client (negsuc 2) ≡ false = ap (λ i. eq_int i (negsuc 2)) mine in
            let t₁ = after_send id r w handler t in
            let v₁ = after_send-IsValid id r w handler t v (omega arith) in
            let next : t₁.msg_id_counter ≡ t.msg_id_counter + 1 = omega arith in
            let (t', run, called) =
              send_requests-Called class c contents t₁ helds known v₁ mine (omega arith) in
            (
              t',
              rw (send-run addrs r handler id t v set_id there held, ◌>>=◌) run,
              record {
                sent_to =
                    called.sent_to
                    ∙ ap (λ l. l ++ node_ids contents) (map-append (λ p. p.0) t.sent _)
                    ∙ append_assoc (node_ids t.sent) (id ∷ []) (node_ids contents);
                pending = λ j. ground (
                  arith,
                  next,
                  called.pending j,
                  lookup-assign t.msg_id_counter j handler t.msg_handlers,
                );
              },
            )
      ]

  -- A worker with an id pulls keys that are split into groups, all of nodes of its route: the call sends
  -- one package to the node of each group, the callback waits under as many numbers, and after that
  -- many answers the worker goes on, if there is a group at all; with no keys it waits for ever.
  pub pull_with_barrier-Called :
      {V : Type 0} (CK : Codec ℕ) (CV : Codec V) (empty_val : V) (frag : HashFrag) (keys : List ℕ)
      (c : ℕ) (reqs : NodeReqs (ℕ × V)) (t : Transfer H B)
      → arrange_local_vals empty_val frag keys [] ≡ ok reqs
      → All (λ id. lookup id addrs ≢ none) (node_ids reqs)
      → Calls.IsValid t
      → t.client ≡ pos c
      → t.msg_id_counter + length (node_ids reqs) < 2 ^ 32
      → Returns (pull_with_barrier addrs handler CK CV empty_val frag keys t) λ r.
        Called (node_ids reqs) t r.0
        × ((respond (length (node_ids reqs)) r.1).unblock_state ≡ ltb 0 (length reqs))
  unfolding pull_with_barrier
  pull_with_barrier-Called CK CV empty_val frag keys c reqs t split known v mine few =
      let (contents, made, (held, ids)) = pull_requests-Held CK CV reqs in
      let (t', run, called) =
        send_requests-Called MsgCls.worker_pull_request c contents t held
          (subst (All (λ id. lookup id addrs ≢ none)) (sym ids) known) v mine
          (subst (λ l. t.msg_id_counter + length l < 2 ^ 32) (sym ids) few) in
      let sizes : length contents ≡ length (node_ids reqs) = length-ids contents ∙ ap length ids in
      let small : length reqs < 2 ^ 64 = omega (arith, length-ids reqs, few) in
      (
        (t', start (length reqs)),
        rw (split, ◌>>=◌, made, run) refl,
        (
          subst (λ l. Called l t t') ids called,
          ap (λ n. (respond n (start (length reqs))).unblock_state) (sym sizes)
              ∙ pull_requests-unblock CK CV reqs small made,
        ),
      )

  -- A worker with an id pushes the gradients of keys that are split into groups, those that are not
  -- empty of nodes of its route: the call sends one package to each node whose group is not empty, and
  -- the callback waits under as many numbers. After that many answers the worker goes on exactly when
  -- it has a group and none is empty: the groups are counted, and an empty one is never answered.
  pub push_with_barrier-Called :
      {V G : Type 0} (HV : HashMap V) (HG : HashMap G) (empty_val : V) (empty_grad : G)
      (CK : Codec ℕ) (CG : Codec G) (reset : G → G) (frag : HashFrag) (keys : List ℕ)
      (cache cache' : ParamCache HV HG empty_val empty_grad) (c : ℕ) (reqs : NodeReqs (ℕ × G))
      (t : Transfer H B)
      → arrange_local_grads HV HG empty_val empty_grad reset frag keys cache [] ≡ ok (reqs, cache')
      → All (λ id. lookup id addrs ≢ none) (filled_ids reqs)
      → Calls.IsValid t
      → t.client ≡ pos c
      → t.msg_id_counter + length reqs < 2 ^ 32
      → Returns
          (push_with_barrier addrs handler HV HG empty_val empty_grad CK CG reset frag keys cache t)
          λ r.
            Called (filled_ids reqs) t r.0.0
            × (r.1 ≡ cache')
            × ((respond (length (filled_ids reqs)) r.0.1).unblock_state
                ≡ (ltb 0 (length reqs) && (length (filled_ids reqs) == length reqs)))
  unfolding push_with_barrier
  push_with_barrier-Called HV HG empty_val empty_grad CK CG reset frag keys cache cache' c reqs t
        split known v mine few =
      let (contents, made, (held, ids)) = push_requests-Held CK CG reqs in
      let few' : t.msg_id_counter + length (filled_ids reqs) < 2 ^ 32 =
        omega (arith, filled_ids_le reqs, few) in
      let (t', run, called) =
        send_requests-Called MsgCls.worker_push_request c contents t held
          (subst (All (λ id. lookup id addrs ≢ none)) (sym ids) known) v mine
          (subst (λ l. t.msg_id_counter + length l < 2 ^ 32) (sym ids) few') in
      let sizes : length contents ≡ length (filled_ids reqs) =
        length-ids contents ∙ ap length ids in
      (
        ((t', start (length reqs)), cache'),
        rw (split, ◌>>=◌, made, run) refl,
        (
          subst (λ l. Called l t t') ids called,
          refl,
          ap (λ n. (respond n (start (length reqs))).unblock_state) (sym sizes)
              ∙ push_requests-unblock CK CG reqs (omega (arith, few)) made
              ∙ ap (λ n. ltb 0 (length reqs) && (n == length reqs)) (filled-ids reqs),
        ),
      )
