-- ===== src/ThreadPool/Tests.antt =====
-- Three threads: when the pool is closed one has popped a value and one is about to call.
use swift_snails.Base.{ℕ, ◌<◌, ◌≡◌, ◌⊎◌, refl, [], ◌∷◌, ok, true}
use swift_snails.ThreadPool.{
  ThreadPool, popping, popped, calling, exited, new_pool, start_pool, test_closed, call_func,
  PoolStep, tests, calls_func, done, next,
}
use swift_snails.ThreadPool.Stopping.{Since, all_steps_left, close-stops}

abbrev closed_pool : ThreadPool ℕ
closed_pool = record {
  thread_num = 3;
  threads = popped 5 ∷ calling 3 ∷ popping ∷ [];
  channel = record { closed = true; data_queue = 6 ∷ [] };
  closed = true;
  calls = 4 ∷ [];
}

abbrev dropped : ThreadPool ℕ
dropped = record closed_pool { threads = exited ∷ calling 3 ∷ popping ∷ [] }

abbrev called : ThreadPool ℕ
called = record closed_pool { threads = exited ∷ popping ∷ popping ∷ []; calls = 4 ∷ 3 ∷ [] }

started :
    start_pool (new_pool {T = ℕ} 2) ≡ ok (record (new_pool 2) { threads = popping ∷ popping ∷ [] })
unfolding start_pool
started = refl

drops_step : PoolStep closed_pool dropped
unfolding test_closed
drops_step = tests closed_pool 0 5 refl

calls_step : PoolStep dropped called
unfolding call_func
calls_step = calls_func dropped 1 3 refl

close-stops_example :
    Since closed_pool called
    × ((all_steps_left called.threads ≡ 0)
        ⊎ ((r : ThreadPool ℕ) × PoolStep called r
            × (all_steps_left r.threads < all_steps_left called.threads)))
close-stops_example =
    close-stops closed_pool called (record { pool = refl; channel = refl })
      (next closed_pool dropped called
        (next closed_pool closed_pool dropped (done closed_pool) drops_step) calls_step)
