-- ===== src/Hash/Tests.antt =====
-- Runs of the hash function.
use swift_snails.Base.{◌≡◌, ◌≢◌, refl, arith}
use swift_snails.Hash.{get_hash_code}
use swift_snails.Hash.Mixing.{get_hash_code-injective}

code_zero : get_hash_code 0 ≡ 0
unfolding get_hash_code
code_zero = refl

code_one : get_hash_code 1 ≡ 0xb456bcfc34c2cb2c
unfolding get_hash_code
code_one = refl

get_hash_code-injective_example : get_hash_code 1 ≢ get_hash_code 2323
get_hash_code-injective_example =
    get_hash_code-injective 1 2323 (omega arith) (omega arith) (omega arith)
