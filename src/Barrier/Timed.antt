-- ===== src/Barrier/Timed.antt =====
-- What a time limit does for a thread whose wake-up was lost, and for one whose flag is never set.
use swift_snails.Base.{ℕ, ◌+◌, ◌<◌, ◌≤◌, ◌≡◌, ◌≢◌, refl, ◌⊎◌, inl, inr, true, arith}
use swift_snails.Barrier.{
  Waiter, Setter, enters, tests, sleeps, set_state_valid, try_unblock, Timer, waiting, notifying,
  gave_up, rung, TimedBarrier, TimedStep, steps, rings, notifies, TimedSteps, begin, onwards,
}
use swift_snails.Barrier.Wakeup.{lost}

-- What the flag, the waiter and the timer of such a state are.
abbrev Shape : TimedBarrier → Type 0
Shape s =
    (s.barrier.unblock_state ≡ true)
    × (s.barrier.setter ≡ Setter.finished)
    × (((s.barrier.waiter ≡ Waiter.asleep) × ((s.timer ≡ waiting) ⊎ (s.timer ≡ notifying)))
        ⊎ (((s.barrier.waiter ≡ Waiter.testing) ⊎ (s.barrier.waiter ≡ Waiter.released))
            × (s.timer ≡ rung)))

Shape-step : (s s' : TimedBarrier) → TimedStep s s' → Shape s → Shape s'
Shape-step _ _ (steps s _ (enters b h)) (flag, set, at) = ground (arith, h)
Shape-step _ _ (steps s _ (tests b h)) (flag, set, at) = ground (arith, h)
Shape-step _ _ (steps s _ (sleeps b h)) (flag, set, at) = ground (arith, h)
Shape-step _ _ (steps s _ (set_state_valid b h)) (flag, set, at) = ground (arith, h)
Shape-step _ _ (steps s _ (try_unblock b h)) (flag, set, at) = ground (arith, h)
Shape-step _ _ (rings s h) (flag, set, at) = ground (arith, h)
Shape-step _ _ (notifies s h) (flag, set, at) = ground (arith, h)

Shape-steps : (s s' : TimedBarrier) → TimedSteps s s' → Shape s → Shape s'
Shape-steps s _ (begin _) v = v
Shape-steps s s' (onwards _ q _ before step) v = Shape-step q s' step (Shape-steps s q before v)

Shape-goes :
    (s : TimedBarrier)
    → Shape s
    → (s.barrier.waiter ≡ Waiter.released) ⊎ ((s' : TimedBarrier) × TimedStep s s')
Shape-goes s (flag, set, inl (dozes, inl rest)) = inr (_, rings s rest)
Shape-goes s (flag, set, inl (dozes, inr late)) = inr (_, notifies s late)
Shape-goes s (flag, set, inr (inl tries, over)) = inr (_, steps s _ (tests s.barrier tries))
Shape-goes s (flag, set, inr (inr free, over)) = inl free

Shape-in_time : (s : TimedBarrier) → Shape s → s.timer ≢ gave_up
Shape-in_time s (flag, set, inl (dozes, inl rest)) e = cc
Shape-in_time s (flag, set, inl (dozes, inr late)) e = cc
Shape-in_time s (flag, set, inr (awake, over)) e = cc

abbrev of_timer : Timer → ℕ
of_timer waiting = 3
of_timer notifying = 2
of_timer gave_up = 0
of_timer rung = 0

abbrev of_waiter : Waiter → ℕ
of_waiter Waiter.testing = 1
of_waiter _ = 0

-- The steps that are left before the thread is released.
abbrev pub left_to_do : TimedBarrier → ℕ
left_to_do s = of_timer s.timer + of_waiter s.barrier.waiter

Shape-nearer : (s s' : TimedBarrier) → TimedStep s s' → Shape s → left_to_do s' < left_to_do s
Shape-nearer _ _ (steps s _ (enters b h)) (flag, set, at) = ground (arith, h)
Shape-nearer _ _ (steps s _ (tests b h)) (flag, set, at) = ground (arith, h)
Shape-nearer _ _ (steps s _ (sleeps b h)) (flag, set, at) = ground (arith, h)
Shape-nearer _ _ (steps s _ (set_state_valid b h)) (flag, set, at) = ground (arith, h)
Shape-nearer _ _ (steps s _ (try_unblock b h)) (flag, set, at) = ground (arith, h)
Shape-nearer _ _ (rings s h) (flag, set, at) = ground (arith, h)
Shape-nearer _ _ (notifies s h) (flag, set, at) = ground (arith, h)

-- The wake-up of a thread was lost, and the time limit has not been reached. Whatever happens then:
-- the handler for the time-out is never called, and in each state that is reached the thread has been
-- released, or a step is possible and each step that is leaves fewer to do, of which there are three.
pub time_limit-rescues :
    (s : TimedBarrier)
    → TimedSteps (record { barrier = lost; timer = waiting }) s
    → (s.timer ≢ gave_up)
      × (left_to_do s ≤ 3)
      × ((s.barrier.waiter ≡ Waiter.released)
          ⊎ (((s' : TimedBarrier) × TimedStep s s')
              × ((s' : TimedBarrier) → TimedStep s s' → left_to_do s' < left_to_do s)))
time_limit-rescues s run =
    let v : Shape s = Shape-steps _ s run (refl, refl, inl (refl, inl refl)) in
    (
      Shape-in_time s v,
      ground (arith, v),
      elim (Shape-goes s v) [
        | inl free ↦ inl free
        | inr goes ↦ inr (goes, λ s' step. Shape-nearer s s' step v)
      ],
    )
