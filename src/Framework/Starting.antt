-- ===== src/Framework/Starting.antt =====
-- What a server is at each stage, and what it does with a request that comes too early.
use swift_snails.Base.{
  ℕ, ◌+◌, ◌∙◌, arith, inl, inr, ◌≡◌, refl, sym, ap, subst, List, [], ok, abort, check_failed, ◌>>=◌,
  true, false, ◌<◌, length, eq_int, negsuc,
}
use swift_snails.Base.Map.{lookup, nat_ordered}
use swift_snails.Message.{Package, is_response}
use swift_snails.Transfer.{get, receive, handle_request}
use swift_snails.Transfer.Dispatch.{unpacked}
use swift_snails.Framework.{
  Phase, fresh, joining, asking, pulling, pushing, serving, ended, Event, arrives, ServerSetup,
  SwiftServer, step, run_events,
}
use swift_snails.Framework.Keeping.{OnlyCallbacks}
use swift_snails.Framework.Classes.{early, early-classes, told_tasks, classes, Waited}
use swift_snails.Framework.Ordering.{Ordered}
use swift_snails.Framework.Running.{told_arrivals, run_from-Ordered}

-- A server before operator().
pub record IsFresh {C : ServerSetup} (s : SwiftServer C) : Type 0 where
  pub at_start : s.phase ≡ fresh
  pub no_class : s.node.transfer.message_class ≡ []
  pub no_task : s.node.transfer.tasks ≡ []

module _ (C : ServerSetup) (start : SwiftServer C) where
  fresh-Ordered : IsFresh start → Ordered C start 0 start
  fresh-Ordered f = record {
    waited = subst (λ p. Waited p start.node start.told_to_end) (sym f.at_start) tt;
    classed = f.no_class ∙ sym (ap classes f.at_start);
    only_callbacks = λ _. subst OnlyCallbacks (sym f.no_task) tt;
    untouched = λ _. (refl, refl, refl);
    order_waits = λ h. absurd (omega (arith, h, ap told_tasks f.no_task));
    order_obeyed = λ flag. inl flag;
  }

  -- The server has no class and only callbacks to run, and its parameters, its output and the flag for
  -- its end are those of the start.
  abbrev pub Unstarted : SwiftServer C → Type 0
  Unstarted s =
      (s.node.transfer.message_class ≡ [])
      × OnlyCallbacks s.node.transfer.tasks
      × (s.push_state ≡ start.push_state)
      × (s.printed ≡ start.printed)
      × (s.told_to_end ≡ start.told_to_end)

  -- The server has joined and has the table of fragments.
  abbrev pub Joined : SwiftServer C → Type 0
  Joined s = (s.node.route_init ≡ true) × (s.node.hashfrag_init ≡ true)

  -- What holds in each phase, when a orders to end have arrived.
  abbrev pub Stage : Phase → ℕ → SwiftServer C → Type 0
  Stage fresh a s = Unstarted s
  Stage joining a s = Unstarted s
  Stage asking a s = Unstarted s × (s.node.route_init ≡ true)
  Stage pulling a s = Joined s
  Stage pushing a s = Joined s
  Stage serving a s = Joined s
  Stage ended a s = Joined s × (s.told_to_end ≡ true) × (0 < a)

  Ordered-Unstarted :
      (a : ℕ) (s : SwiftServer C) → Ordered C start a s → early s.phase ≡ true → Unstarted s
  Ordered-Unstarted a s v soon =
      let (push_state, printed, flag) = v.untouched soon in
      (v.classed ∙ early-classes s.phase soon, v.only_callbacks soon, push_state, printed, flag)

  Ordered-Stage :
      (a : ℕ) (p : Phase) (s : SwiftServer C)
      → start.told_to_end ≡ false
      → s.phase ≡ p
      → Ordered C start a s
      → Stage p a s
  Ordered-Stage a fresh s untold e v = Ordered-Unstarted a s v (ap early e)
  Ordered-Stage a joining s untold e v = Ordered-Unstarted a s v (ap early e)
  Ordered-Stage a asking s untold e v =
      (Ordered-Unstarted a s v (ap early e), subst (λ p. Waited p s.node s.told_to_end) e v.waited)
  Ordered-Stage a pulling s untold e v = subst (λ p. Waited p s.node s.told_to_end) e v.waited
  Ordered-Stage a pushing s untold e v = subst (λ p. Waited p s.node s.told_to_end) e v.waited
  Ordered-Stage a serving s untold e v = subst (λ p. Waited p s.node s.told_to_end) e v.waited
  Ordered-Stage a ended s untold e v =
      let (joined, known, flag) = subst (λ p. Waited p s.node s.told_to_end) e v.waited in
      let came : 0 < a = elim (v.order_obeyed flag) [ inl before ↦ cc | inr came ↦ came ] in
      ((joined, known), flag, came)

  -- In every run of a server that was not told to end before, whatever packages come and whenever its
  -- tasks run: it asks for the table of fragments only when it has joined, registers its handlers, one
  -- after the other, only when it has the table too, and ends only when its flag is set and a message
  -- with the order to end has arrived. Before the first registration it has no class and only callbacks
  -- to run, and its parameters, its output and the flag for its end are those of the start; and its
  -- classes are in every phase those that it has registered by then, with their handlers.
  pub run_events-Stage :
      (es : List Event) (s : SwiftServer C)
      → IsFresh start
      → start.told_to_end ≡ false
      → run_events C es start ≡ ok s
      → (s.node.transfer.message_class ≡ classes s.phase) × Stage s.phase (told_arrivals es) s
  run_events-Stage es s f untold run =
      let v = run_from-Ordered C start 0 es start s (fresh-Ordered f) run in
      let stage = Ordered-Stage (0 + told_arrivals es) s.phase s untold refl v in
      (v.classed, subst (λ a. Stage s.phase a s) (omega arith) stage)

  -- A request with content that comes to a server before it has registered its handlers, in any run,
  -- ends the server by a failed CHECK.
  pub early_request-aborts :
      (es : List Event) (s : SwiftServer C) (pkg : Package)
      → IsFresh start
      → run_events C es start ≡ ok s
      → early s.phase ≡ true
      → 0 < length pkg.cont
      → eq_int pkg.meta.message_class (negsuc 0) ≡ false
      → step C (arrives pkg) s ≡ abort check_failed
  unfolding step receive is_response handle_request get lookup
  early_request-aborts es s pkg f run soon some_bytes request =
      let v = run_from-Ordered C start 0 es start s (fresh-Ordered f) run in
      let (q, unpacks, (meta, _)) = unpacked pkg some_bytes in
      rw (unpacks, ◌>>=◌, meta, request, v.classed ∙ early-classes s.phase soon) refl
