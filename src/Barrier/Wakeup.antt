-- ===== src/Barrier/Wakeup.antt =====
-- Whether the threads at a barrier wake up.
use swift_snails.Base.{
  ℕ, zero, suc, ◌+◌, ◌-◌, ◌<◌, ◌≤◌, ◌≡◌, refl, ap, ◌∙◌, true, ◌==◌, if◌then◌else◌, arith,
}
use swift_snails.Barrier.{
  Waiter, Setter, StateBarrier, new_barrier, Step, Steps, enters, tests, sleeps, set_state_valid,
  try_unblock, done, next, CounterBarrier, wait,
}

-- The state in which the thread sleeps, the flag is set and the notification is gone.
abbrev pub lost : StateBarrier
lost = record { waiter = Waiter.asleep; setter = Setter.finished; unblock_state = true }

stuck : (b c : StateBarrier) → Step b c → b ≡ lost → ⊥
stuck _ _ (enters b h) e = let w = ap (λ b. b.waiter) e in cc
stuck _ _ (tests b h) e = let w = ap (λ b. b.waiter) e in cc
stuck _ _ (sleeps b h) e = let w = ap (λ b. b.waiter) e in cc
stuck _ _ (set_state_valid b h) e = let w = ap (λ b. b.setter) e in cc
stuck _ _ (try_unblock b h) e = let w = ap (λ b. b.setter) e in cc

-- A StateBarrier can lose its wake-up: when the flag is set and the notification sent between the
-- waiting thread's test of the flag and its sleep, the thread sleeps with the flag set, and no step
-- is left that wakes it.
pub wakeup_lost : Steps new_barrier lost × ((c : StateBarrier) → ¬ Step lost c)
wakeup_lost = (
  next new_barrier unnotified lost
      (next new_barrier set_first unnotified
        (next new_barrier failed set_first
          (next new_barrier at_test failed
            (next new_barrier new_barrier at_test (done new_barrier) (enters new_barrier refl))
            (tests at_test refl))
          (set_state_valid failed refl))
        (try_unblock set_first refl))
      (sleeps unnotified refl),
  λ c s. stuck lost c s refl,
)
  where
    at_test : StateBarrier
    at_test = record new_barrier { waiter = Waiter.testing }

    failed : StateBarrier
    failed = record new_barrier { waiter = Waiter.refused }

    set_first : StateBarrier
    set_first = record {
      waiter = Waiter.refused;
      setter = Setter.before_notify;
      unblock_state = true;
    }

    unnotified : StateBarrier
    unnotified = record { waiter = Waiter.refused; setter = Setter.finished; unblock_state = true }

-- k calls of wait().
abbrev pub waits : ℕ → CounterBarrier → CounterBarrier
waits zero b = b
waits (suc k) b = waits k (wait b)

one_sleeps :
    (n asleep : ℕ)
    → 1 < n
    → wait (record { count = n; sleeping = asleep })
      ≡ record { count = n - 1; sleeping = asleep + 1 }
unfolding wait
one_sleeps n asleep more = ground arith

-- A CounterBarrier of n threads: after k of them have called wait(), all k sleep if k < n, and none
-- does if k is n.
pub waits-new_counter :
    (k n asleep : ℕ)
    → 0 < n
    → k ≤ n
    → (waits k (record { count = n; sleeping = asleep })).sleeping
      ≡ (if k == n then 0 else asleep + k)
unfolding wait
waits-new_counter zero n asleep pos le = ground arith
waits-new_counter (suc zero) n asleep pos le = ground arith
waits-new_counter (suc (suc k)) n asleep pos le =
    ap (λ b. (waits (suc k) b).sleeping) (one_sleeps n asleep (omega arith))
    ∙ waits-new_counter (suc k) (n - 1) (asleep + 1) (omega arith) (omega arith)
    ∙ ground arith
