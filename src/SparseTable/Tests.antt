-- ===== src/SparseTable/Tests.antt =====
-- Runs of the table, over a concrete hash map and access methods that add.
use swift_snails.Base.{
  ℕ, ◌+◌, ◌-◌, ◌%◌, ◌^◌, ◌≡◌, refl, [], ◌∷◌, length, some, Result, ok, ◌>>=◌, ◌==◌, if◌then◌else◌,
  arith, Returns,
}
use swift_snails.Base.HashMap.{HashMap, list_map, find_in, assign_in}
use swift_snails.Hash.{get_hash_code}
use swift_snails.SparseTable.{
  PullMethod, PushMethod, SparseTable, new, find, assign, size, get_pull_value, apply_push_value,
  output,
}
use swift_snails.SparseTable.Sharding.{IsValid, view, new-IsValid, assign-view}
use swift_snails.Strings.Numerals.{decimal}
use swift_snails.SparseTable.Output.{
  entries, lines_of, Sharded, new-Sharded, assign-Sharded, output-entries,
}

-- 32-bit keys, the largest reserved.
abbrev keyed : HashMap ℕ
keyed = list_map ℕ (2 ^ 32 - 1)

abbrev pulls : PullMethod ℕ ℕ
pulls = record { init_param = λ key p. key + p; get_pull_value = λ key p val. p }

abbrev pushes : PushMethod ℕ ℕ
pushes = record { merge_push_value = λ key g h. g + h; apply_push_value = λ key p g. p + g }

two_shards : SparseTable keyed
two_shards = new keyed 2

two_shards-IsValid : IsValid keyed two_shards
unfolding two_shards
two_shards-IsValid = (new-IsValid keyed 2 (omega arith)).0

session : Result (ℕ × ℕ × ℕ)
session = do
  (p, t) ← get_pull_value keyed pulls 0 7 0 two_shards
  t' ← apply_push_value keyed pushes 7 5 t
  (q, t'') ← get_pull_value keyed pulls 0 7 0 t'
  ok (p, q, size keyed t'')

push_after_pull : session ≡ ok (7, 12, 1)
unfolding session two_shards new get_pull_value apply_push_value find assign size find_in assign_in
    get_hash_code
push_after_pull = refl

assign-view_example : Returns (assign keyed 7 70 two_shards) λ t'.
    IsValid keyed t'
    × ((j : ℕ) → view keyed t' j ≡ (if j == 7 then some 70 else view keyed two_shards j))
assign-view_example = assign-view keyed 7 70 two_shards two_shards-IsValid (omega arith)

-- The table after one assignment.
filled : SparseTable keyed
filled = record { shards = [] ∷ ((7, 70) ∷ []) ∷ []; shard_num = 2 }

filled-assign : assign keyed 7 70 two_shards ≡ ok filled
unfolding filled two_shards new assign assign_in get_hash_code
filled-assign = refl

filled-IsValid : IsValid keyed filled
unfolding filled
filled-IsValid = record { sized = refl; some_shard = omega arith }

two_shards-Sharded : Sharded keyed two_shards
unfolding two_shards
two_shards-Sharded = new-Sharded keyed 2

filled-Sharded : Sharded keyed filled
filled-Sharded =
    assign-Sharded keyed 7 70 two_shards filled two_shards-IsValid (omega arith) filled-assign
      two_shards-Sharded

output-entries_example :
    (output keyed (decimal 5) filled ≡ lines_of keyed (decimal 5) (entries keyed filled.shards))
    × (size keyed filled ≡ length (entries keyed filled.shards) % 2 ^ 32)
    × ((k : ℕ) → find_in k (entries keyed filled.shards) ≡ view keyed filled k)
output-entries_example = output-entries keyed (decimal 5) filled filled-IsValid filled-Sharded

printed : output keyed (decimal 5) filled ≡ 55 ∷ 9 ∷ 55 ∷ 48 ∷ 10 ∷ []
unfolding output filled decimal
printed = refl
