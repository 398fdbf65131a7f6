-- ===== src/Hash/Mixing.antt =====
-- No two 64-bit keys share a hash code: each step of the mix can be undone.
use swift_snails.Base.{ℕ, ◌/◌, ◌^◌, ◌<◌, ◌≡◌, ◌≢◌, sym, ap, ◌∙◌, arith}
use swift_snails.Base.Bits.{xor_self, xor-zero, xor_assoc, xor-shift, xor-lt}
use swift_snails.Hash.{xor_shift, mul64, get_hash_code}

shifted_lt : (x : ℕ) → x < 2 ^ 64 → x / 2 ^ 33 < 2 ^ 64
shifted_lt x h = omega arith

xor_shift-lt : (x : ℕ) → x < 2 ^ 64 → xor_shift x < 2 ^ 64
unfolding xor_shift
xor_shift-lt x h = xor-lt 64 x (x / 2 ^ 33) h (shifted_lt x h)

shift_twice : (x : ℕ) → x < 2 ^ 64 → x / 2 ^ 33 / 2 ^ 33 ≡ 0
shift_twice x h = omega arith

-- The shift is over half of the width, so the step is its own inverse.
xor_shift_twice : (x : ℕ) → x < 2 ^ 64 → xor_shift (xor_shift x) ≡ x
unfolding xor_shift
xor_shift_twice x h =
    let s = x / 2 ^ 33 in
    rw (xor-shift 33 x s, shift_twice x h, xor-zero s, xor_assoc x s s, xor_self s) (xor-zero x)

mul64-lt : (x c : ℕ) → mul64 x c < 2 ^ 64
unfolding mul64
mul64-lt x c = omega arith

unmix_first : (x : ℕ) → x < 2 ^ 64 → mul64 (mul64 x 0xff51afd7ed558ccd) 0x4f74430c22a54005 ≡ x
unfolding mul64
unmix_first x h = omega arith

unmix_second : (x : ℕ) → x < 2 ^ 64 → mul64 (mul64 x 0xc4ceb9fe1a85ec53) 0x9cb4b2f8129337db ≡ x
unfolding mul64
unmix_second x h = omega arith

-- The inverse of the mix, its steps in reverse.
unmix : ℕ → ℕ
unmix h = xor_shift (mul64 (xor_shift (mul64 (xor_shift h) 0x9cb4b2f8129337db)) 0x4f74430c22a54005)

unmix-get_hash_code : (x : ℕ) → x < 2 ^ 64 → unmix (get_hash_code x) ≡ x
unfolding unmix get_hash_code
unmix-get_hash_code x h =
    let a = xor_shift x in
    let b = mul64 a 0xff51afd7ed558ccd in
    let c = mul64 (xor_shift b) 0xc4ceb9fe1a85ec53 in
    rw
      (
        xor_shift_twice c (mul64-lt _ _),
        unmix_second (xor_shift b) (xor_shift-lt b (mul64-lt _ _)),
        xor_shift_twice b (mul64-lt _ _),
        unmix_first a (xor_shift-lt x h),
      )
      (xor_shift_twice x h)

-- Distinct 64-bit keys have distinct hash codes.
pub get_hash_code-injective :
    (x y : ℕ) → x < 2 ^ 64 → y < 2 ^ 64 → x ≢ y → get_hash_code x ≢ get_hash_code y
get_hash_code-injective x y p q apart e =
    apart (sym (unmix-get_hash_code x p) ∙ ap unmix e ∙ unmix-get_hash_code y q)
