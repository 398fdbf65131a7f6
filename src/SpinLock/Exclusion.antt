-- ===== src/SpinLock/Exclusion.antt =====
-- At most one thread holds the lock, and the lock is never lost.
use swift_snails.Base.{
  ℕ, zero, suc, ◌+◌, ◌≡◌, ◌≢◌, refl, arith, List, [], ◌∷◌, Option, none, some, true, get_elem?, set,
  replicate, inl, inr, ◌⊎◌, if◌then◌else◌,
}
use swift_snails.SpinLock.{
  Holder, idle, spinning, holding, SpinLock, unlocked, Step, locks, tests, unlocks, Steps, done,
  next,
}

abbrev holds : Holder → ℕ
holds idle = 0
holds spinning = 0
holds holding = 1

-- The threads that hold the lock.
abbrev pub holders : List Holder → ℕ
holders [] = 0
holders (t ∷ ts) = holds t + holders ts

holders-set :
    (ts : List Holder) (i : ℕ) (t t' : Holder)
    → get_elem? ts i ≡ some t
    → holders (set ts i t') + holds t ≡ holders ts + holds t'
holders-set [] i t t' e = cc
holders-set (x ∷ ts) zero t t' e = ground arith
holders-set (x ∷ ts) (suc i) t t' e = omega (arith, holders-set ts i t t' e)

holders-replicate : (n : ℕ) → holders (replicate n idle) ≡ 0
holders-replicate zero = refl
holders-replicate (suc n) = omega (arith, holders-replicate n)

abbrev Exact : SpinLock → Type 0
Exact s = holders s.threads ≡ (if s.lck then 1 else 0)

Step-Exact : (s s' : SpinLock) → Step s s' → Exact s → Exact s'
Step-Exact _ _ (locks s i there) v = ground (arith, holders-set s.threads i idle spinning there)
Step-Exact _ _ (tests s i there) v = ground (
  arith,
  holders-set s.threads i spinning spinning there,
  holders-set s.threads i spinning holding there,
)
Step-Exact _ _ (unlocks s i there) v = ground (arith, holders-set s.threads i holding idle there)

Steps-Exact : (s s' : SpinLock) → Steps s s' → Exact s → Exact s'
Steps-Exact s _ (done _) v = v
Steps-Exact s s' (next _ q _ run step) v = Step-Exact q s' step (Steps-Exact s q run v)

spins : (o : Option Holder) → (o ≡ some spinning) ⊎ (o ≢ some spinning)
spins none = inr (λ e. cc)
spins (some idle) = inr (λ e. cc)
spins (some spinning) = inl refl
spins (some holding) = inr (λ e. cc)

-- However n threads lock and unlock: when the flag is set exactly one thread holds the lock, and when
-- it is not none does. And each thread i that spins can make its next test, by which it gets the lock
-- when the flag is not set, and otherwise spins on.
pub Steps-exclusive :
    (n i : ℕ) (s : SpinLock)
    → Steps (unlocked n) s
    → (holders s.threads ≡ (if s.lck then 1 else 0))
      × ((get_elem? s.threads i ≢ some spinning)
          ⊎ Step s (record {
            lck = true;
            threads = set s.threads i (if s.lck then spinning else holding);
          }))
Steps-exclusive n i s run = (
  Steps-Exact (unlocked n) s run (holders-replicate n),
  elim (spins (get_elem? s.threads i)) [
    | inl there ↦ inr (tests s i there)
    | inr other ↦ inl other
  ],
)
