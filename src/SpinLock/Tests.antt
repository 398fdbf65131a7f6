-- ===== src/SpinLock/Tests.antt =====
-- Two threads, of which one spins.
use swift_snails.Base.{◌≡◌, ◌≢◌, ◌⊎◌, refl, [], ◌∷◌, some, get_elem?, true, false}
use swift_snails.SpinLock.{SpinLock, idle, spinning, holding, unlocked, Step, locks, done, next}
use swift_snails.SpinLock.Exclusion.{holders, Steps-exclusive}

abbrev entered : SpinLock
entered = record { lck = false; threads = spinning ∷ idle ∷ [] }

Steps-exclusive_example :
    (holders entered.threads ≡ 0)
    × ((get_elem? entered.threads 0 ≢ some spinning)
        ⊎ Step entered (record { lck = true; threads = holding ∷ idle ∷ [] }))
Steps-exclusive_example =
    Steps-exclusive 2 0 entered
      (next (unlocked 2) (unlocked 2) entered (done (unlocked 2)) (locks (unlocked 2) 0 refl))
