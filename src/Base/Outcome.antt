-- ===== src/Base/Outcome.antt =====
-- A run of the C++ code: a value, or the way in which it ends.
use mathlib.Core.Path.{◌≡◌, refl}
use mathlib.Core.Bool.{Bool, true, false}
use mathlib.Core.Option.{Option, none, some}

-- `check_failed`: a glog CHECK that aborts the process. `exception`: a C++ exception that leaves the
-- function. `terminated`: std::terminate. `division_by_zero`, `out_of_bounds`, `double_free`,
-- `null_pointer`: undefined behaviour of the code.
pub data Abort : Type 0 where
  check_failed exception terminated division_by_zero out_of_bounds double_free null_pointer : Abort

pub data Result {ℓ} (A : Type ℓ) : Type ℓ where
  ok : A → Result A
  abort : Abort → Result A

-- What follows a run that ends normally.
infixl 5 ◌>>=◌
abbrev pub ◌>>=◌ {ℓ κ} : {X : Type ℓ} {Y : Type κ} (run : Result X) (rest : X → Result Y) → Result Y
ok x >>= rest = rest x
abort why >>= rest = abort why

infixl 5 ◌>>◌
abbrev pub ◌>>◌ {ℓ} : {Y : Type ℓ} (run : Result (Unit {0})) (rest : Result Y) → Result Y
run >> rest = run >>= (λ done. rest)

-- CHECK(b)
abbrev pub check : Bool → Result (Unit {0})
check true = ok tt
check false = abort check_failed

abbrev pub guard : Bool → Abort → Result (Unit {0})
guard true e = ok tt
guard false e = abort e

abbrev pub or_abort {ℓ} : {A : Type ℓ} → Option A → Abort → Result A
or_abort none e = abort e
or_abort (some a) e = ok a

-- The run ends normally, in a value that satisfies `P`.
abbrev pub Returns {ℓ κ} : {A : Type ℓ} → Result A → (A → Type κ) → Type (ℓ ⊔ κ)
Returns {A} r P = (a : A) × (r ≡ ok a) × P a

-- If the whole ends normally, so does its first part.
pub >>=-eq-ok {ℓ κ} :
    {X : Type ℓ} {Y : Type κ} (run : Result X) (rest : X → Result Y) {y : Y}
    → (run >>= rest) ≡ ok y
    → (x : X) × (run ≡ ok x) × (rest x ≡ ok y)
>>=-eq-ok (ok x) rest e = (x, refl, e)
>>=-eq-ok (abort why) rest e = cc
