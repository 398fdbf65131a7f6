-- ===== src/Framework/Running.antt =====
-- What the tasks and the packages of a server leave of its order.
use swift_snails.Base.{
  ℕ, ◌+◌, ◌<◌, ◌⊎◌, ◌≡◌, refl, sym, ap, subst, ◌∙◌, arith, List, [], ◌∷◌, ok, >>=-eq-ok, true,
  false, Bool-cases, inl, inr,
}
use swift_snails.Base.Map.{lookup, nat_ordered}
use swift_snails.Message.{Request, Package}
use swift_snails.Transfer.{Task, serve, call_back, receive, serve_request, as_index}
use swift_snails.NodeInit.{Node, Callback, route_response, hashfrag_response}
use swift_snails.Terminate.{server_told}
use swift_snails.Framework.{
  Handler, pull, push, told, Event, goes_on, arrives, runs_task, ServerSetup, SwiftServer, handle,
  called_back, run_task, run_next, step, run_events,
}
use swift_snails.Framework.Keeping.{
  Kept, OnlyCallbacks, Becomes, receive-keeps, serve_request-Kept, route_response-Kept,
  hashfrag_response-Kept,
}
use swift_snails.Framework.Classes.{
  early, early-classes, told_tasks, told_tasks-append, told_msg, told_of, Waited, Waited-more,
  Waited-transfer, classes,
}
use swift_snails.Framework.Ordering.{Ordered, go_on-Ordered}

told_tasks-cons :
    (task : Task Handler Callback) (rest : List (Task Handler Callback))
    → told_tasks (task ∷ rest) ≡ told_tasks (task ∷ []) + told_tasks rest
told_tasks-cons (serve h q) rest = omega arith
told_tasks-cons (call_back b q) rest = omega arith

-- The orders to end among the packages of some events.
abbrev pub told_event : Event → ℕ
told_event goes_on = 0
told_event (arrives pkg) = told_msg pkg
told_event runs_task = 0

abbrev pub told_arrivals : List Event → ℕ
told_arrivals [] = 0
told_arrivals (e ∷ es) = told_event e + told_arrivals es

module _ (C : ServerSetup) (start : SwiftServer C) where
  arrives-Ordered :
      (a : ℕ) (pkg : Package) (s s' : SwiftServer C)
      → Ordered C start a s
      → step C (arrives pkg) s ≡ ok s'
      → Ordered C start (a + told_msg pkg) s'
  unfolding step
  arrives-Ordered a pkg s s' v run =
      let (t, got, last) = >>=-eq-ok (receive pkg s.node.transfer) _ run in
      let (same, only, (task, more, kind)) = receive-keeps pkg s.node.transfer t got in
      let now : record s { node = record s.node { transfer = t } } ≡ s' = cc in
      let counted : told_tasks t.tasks ≡ told_tasks s.node.transfer.tasks + told_tasks (task ∷ []) =
        ap told_tasks more ∙ told_tasks-append s.node.transfer.tasks task in
      subst (Ordered C start (a + told_msg pkg)) now (record {
        waited = Waited-transfer s.phase s.node t s.told_to_end v.waited;
        classed = same ∙ v.classed;
        only_callbacks =
            λ soon. only (v.classed ∙ early-classes s.phase soon) (v.only_callbacks soon);
        untouched = v.untouched;
        order_waits = λ some_order. waits task kind (subst (λ n. 0 < n) counted some_order);
        order_obeyed = λ flag. elim (v.order_obeyed flag) [
          | inl before ↦ inl before
          | inr came ↦ inr (omega (arith, came))
        ];
      })
    where
      waits :
          (task : Task Handler Callback)
          → Becomes s.node.transfer pkg task
          → 0 < told_tasks s.node.transfer.tasks + told_tasks (task ∷ [])
          → 0 < a + told_msg pkg
      waits (serve pull q) kind h =
          let came = v.order_waits (omega (arith, h)) in omega (arith, came)
      waits (serve push q) kind h =
          let came = v.order_waits (omega (arith, h)) in omega (arith, came)
      waits (serve told q) kind h =
          let one =
            told_of s.phase pkg told
              (ap (lookup (as_index pkg.meta.message_class)) (sym v.classed) ∙ kind) refl in
          omega (arith, one)
      waits (call_back b q) kind h =
          let came = v.order_waits (omega (arith, h)) in omega (arith, came)

  -- A handler runs on the table, and leaves the node and the main thread; only that of the order to end
  -- sets the flag.
  handle-keeps :
      (h : Handler) (q made : Request) (rest : List (Task Handler Callback)) (s s' : SwiftServer C)
      → handle C h q s ≡ ok (made, s')
      → (s'.node ≡ s.node)
        × (s'.phase ≡ s.phase)
        × (s.told_to_end ≡ true → s'.told_to_end ≡ true)
        × (s'.told_to_end ≡ true → (s.told_to_end ≡ true) ⊎ (0 < told_tasks (serve h q ∷ rest)))
  unfolding handle server_told
  handle-keeps pull q made rest s s' run =
      (ground arith, ground arith, λ t. ground (arith, t), λ t. inl (ground (arith, t)))
  handle-keeps push q made rest s s' run =
      (ground arith, ground arith, λ t. ground (arith, t), λ t. inl (ground (arith, t)))
  handle-keeps told q made rest s s' run =
      (ground arith, ground arith, λ t. ground (arith, t), λ t. inr (omega arith))

  -- The state once the oldest task has been taken.
  taken-Ordered :
      (a : ℕ) (s : SwiftServer C) (task : Task Handler Callback)
      (rest : List (Task Handler Callback))
      → s.node.transfer.tasks ≡ task ∷ rest
      → (early s.phase ≡ true → OnlyCallbacks rest)
      → Ordered C start a s
      → Ordered C start a
          (record s { node = record s.node { transfer = record s.node.transfer { tasks = rest } } })
  taken-Ordered a s task rest here only v = record {
    waited =
        Waited-transfer s.phase s.node (record s.node.transfer { tasks = rest }) s.told_to_end
          v.waited;
    classed = v.classed;
    only_callbacks = only;
    untouched = v.untouched;
    order_waits =
        λ h. v.order_waits (omega (arith, h, ap told_tasks here, told_tasks-cons task rest));
    order_obeyed = v.order_obeyed;
  }

  -- A task is run when a class is registered, or it is a callback.
  serve-Ordered :
      (a : ℕ) (h : Handler) (q : Request) (rest : List (Task Handler Callback))
      (s s' : SwiftServer C)
      → early s.phase ≡ false
      → (0 < told_tasks (serve h q ∷ rest) → 0 < a)
      → Ordered C start a s
      → run_task C (serve h q) s ≡ ok s'
      → Ordered C start a s'
  unfolding run_task
  serve-Ordered a h q rest s s' late came v run =
      let (r, handled, run₁) = >>=-eq-ok (handle C h q s) _ run in
      let (t, served, last) =
        >>=-eq-ok
          (serve_request (λ request response. ok r.0) r.1.node.route.base.send_addrs q
            r.1.node.transfer)
          _ run₁ in
      let (same, at, stays, sets) = handle-keeps h q r.0 rest s r.1 handled in
      let kept = serve_request-Kept _ _ q r.1.node.transfer t served in
      let now : record r.1 { node = record r.1.node { transfer = t } } ≡ s' = cc in
      let still : early r.1.phase ≡ false = ap early at ∙ late in
      let tasks : t.tasks ≡ s.node.transfer.tasks = kept.1 ∙ ap (λ n. n.transfer.tasks) same in
      subst (Ordered C start a) now (record {
        waited =
            Waited-more r.1.phase s.node (record r.1.node { transfer = t }) s.told_to_end
              r.1.told_to_end (λ e. ap (λ n. n.route_init) same ∙ e)
              (λ e. ap (λ n. n.hashfrag_init) same ∙ e) stays
              (subst (λ p. Waited p s.node s.told_to_end) (sym at) v.waited);
        classed =
            kept.0 ∙ ap (λ n. n.transfer.message_class) same ∙ v.classed ∙ ap classes (sym at);
        only_callbacks = λ soon. cc;
        untouched = λ soon. cc;
        order_waits = λ some_order. v.order_waits (subst (λ l. 0 < told_tasks l) tasks some_order);
        order_obeyed = λ flag. elim (sets flag) [
          | inl before ↦ v.order_obeyed before
          | inr order ↦ inr (came order)
        ];
      })

  -- After a callback: the classes and tasks are kept and the flags only set.
  node-Ordered :
      (a : ℕ) (s : SwiftServer C) (n : Node Handler)
      → Kept s.node.transfer n.transfer
      → (s.node.route_init ≡ true → n.route_init ≡ true)
      → (s.node.hashfrag_init ≡ true → n.hashfrag_init ≡ true)
      → Ordered C start a s
      → Ordered C start a (record s { node = n })
  node-Ordered a s n kept r h v = record {
    waited = Waited-more s.phase s.node n s.told_to_end s.told_to_end r h (λ e. e) v.waited;
    classed = kept.0 ∙ v.classed;
    only_callbacks = λ soon. subst OnlyCallbacks (sym kept.1) (v.only_callbacks soon);
    untouched = v.untouched;
    order_waits = λ some_order. v.order_waits (subst (λ l. 0 < told_tasks l) kept.1 some_order);
    order_obeyed = v.order_obeyed;
  }

  called_back-Ordered :
      (a : ℕ) (b : Callback) (q : Request) (s s' : SwiftServer C)
      → Ordered C start a s
      → called_back C b q s ≡ ok s'
      → Ordered C start a s'
  unfolding called_back
  called_back-Ordered a Callback.init_route q s s' v run =
      let (n, answered, last) = >>=-eq-ok (route_response q s.node) _ run in
      let (kept, joined, same) = route_response-Kept q s.node n answered in
      let now : record s { node = n } ≡ s' = cc in
      subst (Ordered C start a) now (node-Ordered a s n kept (λ e. joined) (λ e. same ∙ e) v)
  called_back-Ordered a Callback.init_hashfrag q s s' v run =
      let (n, answered, last) = >>=-eq-ok (hashfrag_response q s.node) _ run in
      let (kept, same, known) = hashfrag_response-Kept q s.node n answered in
      let now : record s { node = n } ≡ s' = cc in
      subst (Ordered C start a) now (
        node-Ordered a s n (ap (λ t. t.message_class) kept, ap (λ t. t.tasks) kept) (λ e. same ∙ e)
          (λ e. known) v)

  run_next-Ordered :
      (a : ℕ) (tasks : List (Task Handler Callback)) (s s' : SwiftServer C)
      → s.node.transfer.tasks ≡ tasks
      → Ordered C start a s
      → run_next C tasks s ≡ ok s'
      → Ordered C start a s'
  unfolding run_next run_task
  run_next-Ordered a [] s s' e v run = let now : s ≡ s' = cc in subst (Ordered C start a) now v
  run_next-Ordered a (serve h q ∷ rest) s s' e v run = elim (Bool-cases (early s.phase)) [
    | inl soon ↦ absurd (subst OnlyCallbacks e (v.only_callbacks soon))
    | inr late ↦
        serve-Ordered a h q rest _ s' late
          (λ order. v.order_waits (subst (λ l. 0 < told_tasks l) (sym e) order))
          (taken-Ordered a s (serve h q) rest e (λ soon. cc) v) run
  ]
  run_next-Ordered a (call_back b q ∷ rest) s s' e v run =
      called_back-Ordered a b q _ s'
        (taken-Ordered a s (call_back b q) rest e
          (λ soon. subst OnlyCallbacks e (v.only_callbacks soon)) v)
        run

  step-Ordered :
      (a : ℕ) (e : Event) (s s' : SwiftServer C)
      → Ordered C start a s
      → step C e s ≡ ok s'
      → Ordered C start (a + told_event e) s'
  unfolding step
  step-Ordered a goes_on s s' v run =
      subst (λ n. Ordered C start n s') (omega arith)
        (go_on-Ordered C start a s.phase s s' refl v run)
  step-Ordered a (arrives pkg) s s' v run = arrives-Ordered a pkg s s' v run
  step-Ordered a runs_task s s' v run =
      subst (λ n. Ordered C start n s') (omega arith)
        (run_next-Ordered a s.node.transfer.tasks s s' refl v run)

  pub run_from-Ordered :
      (a : ℕ) (es : List Event) (s s' : SwiftServer C)
      → Ordered C start a s
      → run_events C es s ≡ ok s'
      → Ordered C start (a + told_arrivals es) s'
  unfolding run_events
  run_from-Ordered a [] s s' v run =
      let now : s ≡ s' = cc in
      subst (λ n. Ordered C start n s') (omega arith) (subst (Ordered C start a) now v)
  run_from-Ordered a (e ∷ es) s s' v run =
      let (s₁, steps, rest) = >>=-eq-ok (step C e s) _ run in
      subst (λ n. Ordered C start n s') (omega arith)
        (run_from-Ordered (a + told_event e) es s₁ s' (step-Ordered a e s s₁ v steps) rest)
