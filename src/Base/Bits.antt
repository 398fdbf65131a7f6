-- ===== src/Base/Bits.antt =====
-- Exclusive or at variables: the step on the lowest digit, and the laws that follow by strong induction.
use Prim.Native.Nat.{digits, bitwise, differ, bit_xor-bitwise}
use mathlib.Core.WellFounded
use native.Mathlib.Nat.{le_refl, pow-suc, div-div-eq-div-mul, div-one, pow-succ'}
use swift_snails.Base.Order.{lt_wf}
use Prim.Native.Nat.{ℕ, zero, suc, ◌+◌, ◌*◌, ◌/◌, ◌%◌, ◌^◌, ◌≤◌, ◌<◌, bit_xor}
use mathlib.Core.Path.{◌≡◌, refl, ap, sym}
use native.Mathlib.Omega.{arith}

digits_fuel :
    (z : ℕ → ℕ) (f : ℕ → ℕ → ℕ) (n m a b : ℕ) → a ≤ n → a ≤ m → digits z f n a b ≡ digits z f m a b
digits_fuel z f zero zero a b p q = refl
digits_fuel z f zero (suc m) zero b p q = refl
digits_fuel z f zero (suc m) (suc a) b p q = absurd (omega arith)
digits_fuel z f (suc n) zero zero b p q = refl
digits_fuel z f (suc n) zero (suc a) b p q = absurd (omega arith)
digits_fuel z f (suc n) (suc m) zero b p q = refl
digits_fuel z f (suc n) (suc m) (suc a) b p q =
    rw (digits_fuel z f n m (suc a / 2) (b / 2) (omega arith) (omega arith))

zero-xor : (b : ℕ) → bit_xor 0 b ≡ b
zero-xor b = bit_xor-bitwise 0 b

differ_digit : (x y : ℕ) → x < 2 → y < 2 → differ x y ≡ (x + y) % 2
differ_digit zero y p q = omega arith
differ_digit (suc zero) zero p q = refl
differ_digit (suc zero) (suc zero) p q = refl
differ_digit (suc zero) (suc (suc y)) p q = absurd (omega arith)
differ_digit (suc (suc x)) y p q = absurd (omega arith)

differ_mod : (a b : ℕ) → differ (a % 2) (b % 2) ≡ (a + b) % 2
differ_mod a b = omega (arith, differ_digit (a % 2) (b % 2) (omega arith) (omega arith))

bitwise-suc :
    (a b : ℕ)
    → bitwise (λ y. y) differ (suc a) b
      ≡ bitwise (λ y. y) differ (suc a / 2) (b / 2) * 2 + differ (suc a % 2) (b % 2)
bitwise-suc a b =
    omega (
      arith,
      digits_fuel (λ y. y) differ a (suc a / 2) (suc a / 2) (b / 2) (omega arith) (le_refl _),
    )

pub xor_step : (a b : ℕ) → bit_xor a b ≡ bit_xor (a / 2) (b / 2) * 2 + (a + b) % 2
xor_step zero b = simp zero-xor (omega arith)
xor_step (suc a) b = rw (← differ_mod (suc a) b) (simp bit_xor-bitwise (bitwise-suc a b))

-- Strong induction that halves.
halving {ℓ} : (P : ℕ → Type ℓ) → P 0 → ((n : ℕ) → P (suc n / 2) → P (suc n)) → (n : ℕ) → P n
halving P z s n = WellFounded.induction lt_wf {C = P} n step
  where
    step : (k : ℕ) → ((m : ℕ) → m < k → P m) → P k
    step zero ih = z
    step (suc k) ih = s k (ih (suc k / 2) (omega arith))

pub xor_self : (a : ℕ) → bit_xor a a ≡ 0
xor_self = halving (λ a. bit_xor a a ≡ 0) refl λ n ih. omega (arith, xor_step (suc n) (suc n))

pub xor-zero : (a : ℕ) → bit_xor a 0 ≡ a
xor-zero = halving (λ a. bit_xor a 0 ≡ a) refl λ n ih. omega (arith, xor_step (suc n) 0)

xor-half : (a b : ℕ) → bit_xor a b / 2 ≡ bit_xor (a / 2) (b / 2)
xor-half a b = omega (arith, xor_step a b)

pub xor_assoc : (a b c : ℕ) → bit_xor (bit_xor a b) c ≡ bit_xor a (bit_xor b c)
xor_assoc =
    halving (λ a. (b c : ℕ) → bit_xor (bit_xor a b) c ≡ bit_xor a (bit_xor b c))
      (λ b c. simp zero-xor)
      λ n ih b c.
        let a : ℕ = suc n in
        omega (
          arith,
          xor_step (bit_xor a b) c,
          xor_step a (bit_xor b c),
          xor_step a b,
          xor_step b c,
          ap (λ (t : ℕ). bit_xor t (c / 2)) (xor-half a b),
          ap (bit_xor (a / 2)) (xor-half b c),
          ih (b / 2) (c / 2),
        )

half_shift : (x k : ℕ) → x / 2 ^ suc k ≡ x / 2 / 2 ^ k
half_shift x k = rw pow-succ' (sym (div-div-eq-div-mul x 2 (2 ^ k)))

-- A shift to the right goes inside.
pub xor-shift : (k a b : ℕ) → bit_xor a b / 2 ^ k ≡ bit_xor (a / 2 ^ k) (b / 2 ^ k)
xor-shift zero a b = simp div-one refl
xor-shift (suc k) a b = simp half_shift (rw xor-half (xor-shift k (a / 2) (b / 2)))

pub xor-lt : (k a b : ℕ) → a < 2 ^ k → b < 2 ^ k → bit_xor a b < 2 ^ k
xor-lt zero zero b p q = rw zero-xor q
xor-lt zero (suc a) b p q = absurd (omega arith)
xor-lt (suc k) a b p q = omega (
  arith,
  xor_step a b,
  pow-suc 2 k,
  xor-lt k (a / 2) (b / 2) (omega (arith, pow-suc 2 k)) (omega (arith, pow-suc 2 k)),
)
