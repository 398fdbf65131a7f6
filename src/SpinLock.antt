-- ===== src/SpinLock.antt =====
-- src/utils/SpinLock.h: any number of threads that lock and unlock, as a step relation.
-- test_and_set() and clear() of the atomic flag are single steps.
pub mod Exclusion
mod Tests
use swift_snails.Base.{
  ℕ, ◌≡◌, List, Option, some, Bool, true, false, get_elem?, set, replicate, if◌then◌else◌,
}

-- A thread before lock(), in its loop, with the lock held.
pub data Holder : Type 0 where
  idle spinning holding : Holder

pub record SpinLock : Type 0 where
  pub lck : Bool
  pub threads : List Holder

-- SpinLock() for n threads
abbrev pub unlocked : ℕ → SpinLock
unlocked n = record { lck = false; threads = replicate n idle }

-- test_and_set(): the old value, and the flag set
abbrev pub test_and_set : Bool → Bool × Bool
test_and_set flag = (flag, true)

-- what the loop of lock() makes of the old value
abbrev pub after_test : Bool → Holder
after_test old = if old then spinning else holding

pub data Step : SpinLock → SpinLock → Type 0 where
  locks :
      (s : SpinLock) (i : ℕ)
      → get_elem? s.threads i ≡ some idle
      → Step s (record s { threads = set s.threads i spinning })
  tests :
      (s : SpinLock) (i : ℕ)
      → get_elem? s.threads i ≡ some spinning
      → Step s (record {
        lck = (test_and_set s.lck).1;
        threads = set s.threads i (after_test (test_and_set s.lck).0);
      })
  unlocks :
      (s : SpinLock) (i : ℕ)
      → get_elem? s.threads i ≡ some holding
      → Step s (record { lck = false; threads = set s.threads i idle })

pub data Steps : SpinLock → SpinLock → Type 0 where
  done : (s : SpinLock) → Steps s s
  next : (p q r : SpinLock) → Steps p q → Step q r → Steps p r
