-- ===== src/Barrier.antt =====
-- src/utils/Barrier.h: the waiting of a thread for a flag. StateBarrier is a step relation between one
-- thread in block() and one in set_state_valid() and then try_unblock(), which do not take the mutex;
-- a wait on the condition variable gives the mutex back and sleeps in one step. Wake-ups without a
-- notification, which the standard allows and does not promise, are left out.
pub mod Wakeup
pub mod Timed
mod Tests
use swift_snails.Base.{ℕ, zero, suc, ◌+◌, ◌-◌, ◌≡◌, ◌≢◌, Bool, true, false, ◌==◌, if◌then◌else◌}

-- The thread in block(): before it, at the test of the flag, after a test that failed, asleep, and
-- after block() has returned.
pub data Waiter : Type 0 where
  outside testing refused asleep released : Waiter

-- The thread that unblocks: before set_state_valid(), between the two calls, and after them.
pub data Setter : Type 0 where
  before_set before_notify finished : Setter

pub record StateBarrier : Type 0 where
  pub waiter : Waiter
  pub setter : Setter
  pub unblock_state : Bool

abbrev pub new_barrier : StateBarrier
new_barrier = record { waiter = Waiter.outside; setter = Setter.before_set; unblock_state = false }

-- cond.notify_one()
abbrev pub woken : Waiter → Waiter
woken Waiter.outside = Waiter.outside
woken Waiter.testing = Waiter.testing
woken Waiter.refused = Waiter.refused
woken Waiter.asleep = Waiter.testing
woken Waiter.released = Waiter.released

-- the test of `unblock_state == true` in wait()
abbrev pub tested : Bool → Waiter
tested true = Waiter.released
tested false = Waiter.refused

pub data Step : StateBarrier → StateBarrier → Type 0 where
  enters :
      (b : StateBarrier) → b.waiter ≡ Waiter.outside → Step b (record b { waiter = Waiter.testing })
  tests :
      (b : StateBarrier)
      → b.waiter ≡ Waiter.testing
      → Step b (record b { waiter = tested b.unblock_state })
  sleeps :
      (b : StateBarrier) → b.waiter ≡ Waiter.refused → Step b (record b { waiter = Waiter.asleep })
  set_state_valid :
      (b : StateBarrier)
      → b.setter ≡ Setter.before_set
      → Step b (record b { unblock_state = true; setter = Setter.before_notify })
  try_unblock :
      (b : StateBarrier)
      → b.setter ≡ Setter.before_notify
      → Step b (record b { waiter = woken b.waiter; setter = Setter.finished })

pub data Steps : StateBarrier → StateBarrier → Type 0 where
  done : (b : StateBarrier) → Steps b b
  next : (b c d : StateBarrier) → Steps b c → Step c d → Steps b d

-- The thread that time_limit() starts: asleep, after a test of the flag that succeeded, after one that
-- failed, when it has called out_time_handler(), and after try_unblock().
pub data Timer : Type 0 where
  waiting notifying gave_up rung : Timer

pub record TimedBarrier : Type 0 where
  pub barrier : StateBarrier
  pub timer : Timer

-- `if (unblock_state)` of the handler
abbrev pub ringing : Bool → Timer
ringing true = notifying
ringing false = gave_up

pub data TimedStep : TimedBarrier → TimedBarrier → Type 0 where
  steps :
      (s : TimedBarrier) (b : StateBarrier)
      → Step s.barrier b
      → TimedStep s (record s { barrier = b })
  rings :
      (s : TimedBarrier)
      → s.timer ≡ waiting
      → TimedStep s (record s { timer = ringing s.barrier.unblock_state })
  notifies :
      (s : TimedBarrier)
      → s.timer ≡ notifying
      → TimedStep s
          (record { barrier = record s.barrier { waiter = woken s.barrier.waiter }; timer = rung })

pub data TimedSteps : TimedBarrier → TimedBarrier → Type 0 where
  begin : (s : TimedBarrier) → TimedSteps s s
  onwards : (p q r : TimedBarrier) → TimedSteps p q → TimedStep q r → TimedSteps p r

-- CounterBarrier: the count, and the threads that sleep in wait()
pub record CounterBarrier : Type 0 where
  pub count : ℕ
  pub sleeping : ℕ

-- CounterBarrier(count)
abbrev pub new_counter : ℕ → CounterBarrier
new_counter n = record { count = n; sleeping = 0 }

-- wait(), under the mutex up to the sleep, when the count is not yet 0
unfoldable pub wait : CounterBarrier → CounterBarrier
wait b =
    let left = b.count - 1 in
    if left == 0
    then record { count = left; sleeping = 0 }
    else record { count = left; sleeping = b.sleeping + 1 }
