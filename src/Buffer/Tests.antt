-- ===== src/Buffer/Tests.antt =====
-- Runs of the buffer.
use swift_snails.Base.{
  some, ok, ℕ, ◌≡◌, ◌++◌, double_free, refl, List, [], ◌∷◌, abort, ◌>>=◌, arith, Returns,
}
use swift_snails.Buffer.{Buffer, new, set}
use swift_snails.Buffer.Contents.{Holds, new-Holds}
use swift_snails.Buffer.Words.{Value, values, wire, put_word, put_all, get_all, get_all-put_all}
use swift_snails.Buffer.Replace.{set-Holds}
use swift_snails.Strings.Numerals.{decimal}
use swift_snails.Buffer.Ownership.{Owner, remove_block, move_construct, move_assign, destroy}
use swift_snails.Buffer.Ownership.Twice.{move_assign-double_free}

abbrev mixed : List Value
mixed =
    record { width = 4; bits = 123 }
    ∷ record { width = 2; bits = 8080 }
    ∷ record { width = 8; bits = 0xb456bcfc34c2cb2c }
    ∷ []

-- The bytes of the values in the order of the machine.
mixed_wire :
    wire mixed
    ≡ 123 ∷ 0 ∷ 0 ∷ 0 ∷ 0x90 ∷ 0x1f ∷ 0x2c ∷ 0xcb ∷ 0xc2 ∷ 0x34 ∷ 0xfc ∷ 0xbc ∷ 0x56 ∷ 0xb4 ∷ []
unfolding put_word
mixed_wire = refl

get_all-put_all_example :
    Returns
      (put_all mixed new >>= get_all mixed)
      λ r. (r.0 ≡ values mixed) × Holds (wire mixed) [] r.1
get_all-put_all_example = get_all-put_all mixed new new-Holds (omega arith)

abbrev eight : List ℕ
eight = 1 ∷ 2 ∷ 0 ∷ 0 ∷ 0 ∷ 0 ∷ 0 ∷ 0 ∷ []

abbrev two_left : Buffer
two_left = record { block = some eight; cursor = 0; end = 2; capacity = 8 }

two_left-Holds : Holds (1 ∷ 2 ∷ []) (1 ∷ 2 ∷ []) two_left
two_left-Holds = record {
  bytes = eight;
  valid = record {
    owned = refl;
    sized = refl;
    readable = omega arith;
    fits = omega arith;
    roomy = omega arith;
  };
  written = refl;
  unread = refl;
}

abbrev message : List ℕ
message = 7 ∷ 8 ∷ 9 ∷ []

-- The number 7 and a space.
abbrev seven :
    Returns
      (set (decimal 20 7 ++ 32 ∷ []) new)
      (Holds (decimal 20 7 ++ 32 ∷ []) (decimal 20 7 ++ 32 ∷ []))
unfolding decimal
seven = set-Holds (decimal 20 7 ++ 32 ∷ []) new new-Holds (omega arith)

-- Two buffers and their blocks.
abbrev first : Owner
first = record { address = some 1; cursor = 0; end = 4; capacity = 1024 }

abbrev second : Owner
second = record { address = some 2; cursor = 0; end = 9; capacity = 1024 }

move_assign-double_free_example :
    ((move_assign first second (1 ∷ 2 ∷ []) >>= (λ p. destroy p.0 p.1 >>= destroy second))
      ≡ abort double_free)
    × ((move_assign first second (1 ∷ 2 ∷ []) >>= (λ p. destroy second p.1 >>= destroy p.0))
        ≡ abort double_free)
    × ((destroy (move_construct second).0 (1 ∷ 2 ∷ []) >>= destroy (move_construct second).1)
        ≡ ok (remove_block 2 (1 ∷ 2 ∷ [])))
    × (move_assign first second (1 ∷ 2 ∷ [])
        ≡ ok (record second { capacity = 0 }, remove_block 1 (1 ∷ 2 ∷ [])))
move_assign-double_free_example =
    move_assign-double_free first second 1 2 (1 ∷ 2 ∷ []) refl refl (λ e. omega (arith, e)) refl
      refl
