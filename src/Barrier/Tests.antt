-- ===== src/Barrier/Tests.antt =====
-- The first step of the timer for a thread whose wake-up was lost.
use swift_snails.Base.{◌<◌, ◌≤◌, ◌≡◌, ◌≢◌, ◌⊎◌, refl}
use swift_snails.Barrier.{
  Waiter, gave_up, waiting, notifying, TimedBarrier, TimedStep, rings, begin, onwards,
}
use swift_snails.Barrier.Wakeup.{lost}
use swift_snails.Barrier.Timed.{left_to_do, time_limit-rescues}

abbrev late : TimedBarrier
late = record { barrier = lost; timer = waiting }

abbrev in_time : TimedBarrier
in_time = record { barrier = lost; timer = notifying }

time_limit-rescues_example :
    (in_time.timer ≢ gave_up)
    × (left_to_do in_time ≤ 3)
    × ((in_time.barrier.waiter ≡ Waiter.released)
        ⊎ (((s' : TimedBarrier) × TimedStep in_time s')
            × ((s' : TimedBarrier) → TimedStep in_time s' → left_to_do s' < left_to_do in_time)))
time_limit-rescues_example =
    time_limit-rescues in_time (onwards late late in_time (begin late) (rings late refl))
