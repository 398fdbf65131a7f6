-- ===== src/Channel/Tests.antt =====
-- Runs of a pool.
use swift_snails.Base.{
  ℕ, ◌≡◌, ◌≤◌, ◌+◌, length, true, ◌++◌, refl, [], ◌∷◌, none, some, arith, false,
}
use swift_snails.Channel.{
  Bounded, Steps, may_push, push_bounded, end_input, Pool, open_pool, pushes, begins, pops, done,
  next, push_channel, pop_channel,
}
use swift_snails.Channel.Order.{weights, Steps-InOrder}
use swift_snails.Channel.Capacity.{Shared, Uses, unused, admits, enters, ends, held, Uses-bounded}
use swift_snails.Channel.Closing.{in_hand, closed-stops}

abbrev one : Pool ℕ
one = record (open_pool 1) { channel = push_channel 5 (open_pool 1).channel; pushed = [] ++ 5 ∷ [] }

abbrev two : Pool ℕ
two = record one { channel = push_channel 6 one.channel; pushed = one.pushed ++ 6 ∷ [] }

abbrev popped : Pool ℕ
popped = record two {
  channel = record { closed = false; data_queue = 6 ∷ [] };
  held = [] ++ 5 ∷ [];
  taken = two.taken ++ 5 ∷ [];
}

abbrev begun : Pool ℕ
begun = record popped { held = [] ++ []; running = 1; begun = popped.begun ++ 5 ∷ [] }

taken : pop_channel two.channel ≡ some (some 5, record { closed = false; data_queue = 6 ∷ [] })
unfolding pop_channel push_channel
taken = refl

Steps-InOrder_example :
    (begun.pushed ≡ begun.taken ++ begun.channel.data_queue)
    × ((f : ℕ → ℕ) → weights f begun.taken ≡ weights f begun.begun + weights f begun.held)
Steps-InOrder_example = Steps-InOrder 1 begun (
    next (open_pool 1) popped begun
      (next (open_pool 1) two popped
        (next (open_pool 1) one two
          (next (open_pool 1) (open_pool 1) one (done (open_pool 1)) (pushes 5 (open_pool 1)))
          (pushes 6 one))
        (pops two 5 (record { closed = false; data_queue = 6 ∷ [] }) taken (omega arith)))
      (begins popped [] [] 5 refl))

abbrev no_values : Bounded ℕ
no_values = record { queue = []; capacity = 0 }

-- A queue with capacity 0 takes a value, and one more by end_input().
abbrev entered : Shared ℕ
entered = record { bounded = record { queue = 5 ∷ 7 ∷ []; capacity = 0 }; entering = none }

entering_used : Uses 0 no_values 1 entered
unfolding push_bounded end_input may_push
entering_used =
    ends 7 0 (record { bounded = record { queue = 5 ∷ []; capacity = 0 }; entering = none })
      (enters 5 0 (record { bounded = no_values; entering = some 5 })
        (admits 5 0 (record { bounded = no_values; entering = none }) unused refl refl) refl)

Uses-bounded_example : (held entered ≤ 0 + 1 + 1) × (entered.bounded.capacity ≤ 0)
Uses-bounded_example = Uses-bounded 0 0 1 entered (omega arith) (omega arith) entering_used

-- The pool is closed when a thread has popped a task and another task waits.
abbrev stopped : Pool ℕ
stopped = record popped { channel = record { closed = true; data_queue = 6 ∷ [] } }

closed-stops_example :
    (stopped.taken ≡ stopped.taken)
    × (in_hand stopped ≡ in_hand stopped)
    × ((r : Pool ℕ) × Steps stopped r
        × (r.alive_workers_num ≡ 0)
        × (r.held ≡ [])
        × (r.taken ≡ 5 ∷ [])
        × (length r.begun ≡ 1))
closed-stops_example = closed-stops stopped stopped refl (done stopped)
