-- ===== src/Framework/Ordering.antt =====
-- The order in which a server starts.
use swift_snails.Base.{
  ℕ, ◌<◌, ◌⊎◌, ◌≡◌, refl, sym, ap, subst, ◌∙◌, arith, ok, >>=-eq-ok, true, Bool-cases, if-true, inl,
  inr,
}
use swift_snails.Base.Map.{nat_ordered}
use swift_snails.Master.{MsgCls}
use swift_snails.NodeInit.{Node, register_master, register_local_node_to_master, askfor_hashfrag}
use swift_snails.Framework.{
  Handler, pull, push, told, Phase, fresh, joining, asking, pulling, pushing, serving, ended,
  ServerSetup, SwiftServer, register_handler, go_on,
}
use swift_snails.Framework.Keeping.{
  OnlyCallbacks, register_master-Kept, register_local-Kept, askfor_hashfrag-Kept,
}
use swift_snails.Framework.Classes.{
  early, classes, told_tasks, Waited, register-keeps, pull-classes, push-classes, told-classes,
}

module _ (C : ServerSetup) (start : SwiftServer C) where
  -- The classes are those of the phase. Before the first is registered the server runs callbacks only
  -- and keeps its table. It is only told to end by an order to end, of which a have arrived.
  pub record Ordered (a : ℕ) (s : SwiftServer C) : Type 0 where
    pub waited : Waited s.phase s.node s.told_to_end
    pub classed : s.node.transfer.message_class ≡ classes s.phase
    pub only_callbacks : early s.phase ≡ true → OnlyCallbacks s.node.transfer.tasks
    pub untouched :
        early s.phase ≡ true
        → (s.push_state ≡ start.push_state)
          × (s.printed ≡ start.printed)
          × (s.told_to_end ≡ start.told_to_end)
    pub order_waits : 0 < told_tasks s.node.transfer.tasks → 0 < a
    pub order_obeyed : s.told_to_end ≡ true → (start.told_to_end ≡ true) ⊎ (0 < a)

  -- The main thread goes on to the phase p.
  moved :
      (a : ℕ) (s : SwiftServer C) (n : Node Handler) (p : Phase)
      → n.transfer.tasks ≡ s.node.transfer.tasks
      → n.transfer.message_class ≡ classes p
      → Waited p n s.told_to_end
      → (early p ≡ true → early s.phase ≡ true)
      → Ordered a s
      → Ordered a (record s { node = n; phase = p })
  moved a s n p tasks at w back v = record {
    waited = w;
    classed = at;
    only_callbacks = λ soon. subst OnlyCallbacks (sym tasks) (v.only_callbacks (back soon));
    untouched = λ soon. v.untouched (back soon);
    order_waits = λ some_order. v.order_waits (subst (λ l. 0 < told_tasks l) tasks some_order);
    order_obeyed = v.order_obeyed;
  }

  pub go_on-Ordered :
      (a : ℕ) (p : Phase) (s s' : SwiftServer C)
      → s.phase ≡ p
      → Ordered a s
      → go_on C p s ≡ ok s'
      → Ordered a s'
  unfolding go_on
  go_on-Ordered a fresh s s' e v run =
      let (n₁, joins, run₁) = >>=-eq-ok (register_master C.master_addr s.node) _ run in
      let (n₂, sends, last) =
        >>=-eq-ok (register_local_node_to_master true C.recv_addr n₁) _ run₁ in
      let (kept, _, _) = register_master-Kept C.master_addr s.node n₁ joins in
      let (kept', _, _) = register_local-Kept true C.recv_addr n₁ n₂ sends in
      let now : record s { node = n₂; phase = joining } ≡ s' = cc in
      subst (Ordered a) now (
        moved a s n₂ joining (kept'.1 ∙ kept.1) (kept'.0 ∙ kept.0 ∙ v.classed ∙ ap classes e) tt
          (λ _. ap early e) v)
  go_on-Ordered a joining s s' e v run = elim (Bool-cases s.node.route_init) [
    | inr waits ↦ let now : s ≡ s' = ground (arith, waits) in subst (Ordered a) now v
    | inl known ↦
        let (n, sends, last) =
          >>=-eq-ok (askfor_hashfrag s.node) _ (if-true s.node.route_init _ _ known run) in
        let (kept, same, _) = askfor_hashfrag-Kept s.node n sends in
        let now : record s { node = n; phase = asking } ≡ s' = cc in
        subst (Ordered a) now (
          moved a s n asking kept.1 (kept.0 ∙ v.classed ∙ ap classes e) (same ∙ known)
            (λ _. ap early e) v)
  ]
  go_on-Ordered a asking s s' e v run = elim (Bool-cases s.node.hashfrag_init) [
    | inr waits ↦ let now : s ≡ s' = ground (arith, waits) in subst (Ordered a) now v
    | inl known ↦
        let (t, registers, last) =
          >>=-eq-ok (register_handler MsgCls.worker_pull_request pull s.node.transfer) _
            (if-true s.node.hashfrag_init _ _ known run) in
        let (at, tasks) =
          register-keeps MsgCls.worker_pull_request pull asking pulling s.node.transfer t
            (v.classed ∙ ap classes e) pull-classes registers in
        let n = record s.node { transfer = t } in
        let now : record s { node = n; phase = pulling } ≡ s' = cc in
        let joined : s.node.route_init ≡ true =
          subst (λ p. Waited p s.node s.told_to_end) e v.waited in
        subst (Ordered a) now (moved a s n pulling tasks at (joined, known) (λ soon. cc) v)
  ]
  go_on-Ordered a pulling s s' e v run =
      let (t, registers, last) =
        >>=-eq-ok (register_handler MsgCls.worker_push_request push s.node.transfer) _ run in
      let (at, tasks) =
        register-keeps MsgCls.worker_push_request push pulling pushing s.node.transfer t
          (v.classed ∙ ap classes e) push-classes registers in
      let n = record s.node { transfer = t } in
      let now : record s { node = n; phase = pushing } ≡ s' = cc in
      let w : Waited pulling s.node s.told_to_end =
        subst (λ p. Waited p s.node s.told_to_end) e v.waited in
      subst (Ordered a) now (moved a s n pushing tasks at w (λ soon. cc) v)
  go_on-Ordered a pushing s s' e v run =
      let (t, registers, last) =
        >>=-eq-ok (register_handler MsgCls.server_told_to_terminate told s.node.transfer) _ run in
      let (at, tasks) =
        register-keeps MsgCls.server_told_to_terminate told pushing serving s.node.transfer t
          (v.classed ∙ ap classes e) told-classes registers in
      let n = record s.node { transfer = t } in
      let now : record s { node = n; phase = serving } ≡ s' = cc in
      let w : Waited pushing s.node s.told_to_end =
        subst (λ p. Waited p s.node s.told_to_end) e v.waited in
      subst (Ordered a) now (moved a s n serving tasks at w (λ soon. cc) v)
  go_on-Ordered a serving s s' e v run = elim (Bool-cases s.told_to_end) [
    | inr waits ↦ let now : s ≡ s' = ground (arith, waits) in subst (Ordered a) now v
    | inl told_so ↦
        let now : record s { node = s.node; phase = ended } ≡ s' = ground (arith, told_so) in
        let (joined, known) = subst (λ p. Waited p s.node s.told_to_end) e v.waited in
        subst (Ordered a) now (
          moved a s s.node ended refl (v.classed ∙ ap classes e) (joined, known, told_so)
            (λ soon. cc) v)
  ]
  go_on-Ordered a ended s s' e v run = let now : s ≡ s' = cc in subst (Ordered a) now v
