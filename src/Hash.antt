-- ===== src/Hash.antt =====
-- utils/HashFunction.h: the 64-bit finalizer that maps a key to its hash code.
-- Both the fragment of a key (core/parameter/hashfrag.h) and its shard
-- (core/parameter/sparsetable.h) are remainders of this code.
pub mod Mixing
mod Tests
use swift_snails.Base.{ℕ, ◌*◌, ◌/◌, ◌%◌, ◌^◌, bit_xor}

-- x ^= x >> 33
xor_shift : ℕ → ℕ
xor_shift x = bit_xor x (x / 2 ^ 33)

-- x *= c, on 64 bits
mul64 : ℕ → ℕ → ℕ
mul64 x c = x * c % 2 ^ 64

unfoldable pub get_hash_code : ℕ → ℕ
unfolding xor_shift mul64
get_hash_code x =
    xor_shift (mul64 (xor_shift (mul64 (xor_shift x) 0xff51afd7ed558ccd)) 0xc4ceb9fe1a85ec53)
