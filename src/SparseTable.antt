-- ===== src/SparseTable.antt =====
-- src/core/parameter/sparsetable.h: the parameter table of a server, split into shards by the hash
-- code of the key. A shard is a google::dense_hash_map behind a read-write lock; each operation below
-- is one critical section of its shard. Whose largest key is reserved as the map's empty key.
-- The access methods of src/core/parameter/sparse_access_method.h, which a program supplies, are the
-- fields of `PullMethod` and `PushMethod`.
pub mod Sharding
pub mod Access
pub mod Output
mod Tests
use swift_snails.Base.{
  ℕ, zero, suc, ◌+◌, ◌%◌, ◌^◌, ◌≡◌, List, [], ◌∷◌, ◌++◌, Option, none, some, Result, ok, abort,
  check, guard, or_abort, check_failed, division_by_zero, out_of_bounds, ◌>>=◌, ◌>>◌, ltb,
  get_elem?, set, replicate, Bool, true, false,
}
use swift_snails.Base.HashMap.{HashMap}
use swift_snails.Hash.{get_hash_code}
use swift_snails.Strings.Numerals.{decimal}

pub record PullMethod (Param Val : Type 0) : Type 0 where
  -- init_param(key, param): the new value of the default `param`
  pub init_param : ℕ → Param → Param
  -- get_pull_value(key, param, val): the new value of `val`
  pub get_pull_value : ℕ → Param → Val → Val

pub record PushMethod (Param Grad : Type 0) : Type 0 where
  pub merge_push_value : ℕ → Grad → Grad → Grad
  pub apply_push_value : ℕ → Param → Grad → Param

module _ {V : Type 0} (H : HashMap V) where
  -- The array `_shards`, `_shard_num` long.
  pub record SparseTable : Type 0 where
    pub shards : List H.Table
    pub shard_num : ℕ

  -- SparseTable(), at the configured `shard_num`
  unfoldable pub new : ℕ → SparseTable
  new shard_num = record { shards = replicate shard_num H.empty; shard_num = shard_num }

  pub to_shard_id : ℕ → SparseTable → Result ℕ
  to_shard_id key t = do
    guard (ltb 0 t.shard_num) division_by_zero
    ok (get_hash_code key % t.shard_num)

  -- shard(shard_id)
  shard : ℕ → SparseTable → Result H.Table
  shard id t = or_abort (get_elem? t.shards id) out_of_bounds

  -- find(key, val): the value that `val` is set to, if the key is there
  unfoldable pub find : ℕ → SparseTable → Result (Option V)
  unfolding to_shard_id shard
  find key t = do id ← to_shard_id key t; s ← shard id t; ok (H.find key s)

  unfoldable pub assign : ℕ → V → SparseTable → Result SparseTable
  unfolding to_shard_id shard
  assign key val t = do
    id ← to_shard_id key t
    s ← shard id t
    ok (record t { shards = set t.shards id (H.assign key val s) })

  -- operator<< of a shard, where `show` is that of a value
  unfoldable pub print_items : (V → List ℕ) → List (ℕ × V) → List ℕ
  print_items show [] = []
  print_items show ((key, val) ∷ items) =
      decimal 20 key ++ 9 ∷ (show val ++ 10 ∷ print_items show items)

  unfoldable pub print_shard : (V → List ℕ) → H.Table → List ℕ
  unfolding print_items
  print_shard show s = print_items show (H.items s)

  -- output(), and the text of a backup: the shards in order
  unfoldable pub print_shards : (V → List ℕ) → List H.Table → List ℕ
  unfolding print_shard
  print_shards show [] = []
  print_shards show (s ∷ ss) = print_shard show s ++ print_shards show ss

  unfoldable pub output : (V → List ℕ) → SparseTable → List ℕ
  unfolding print_shards
  output show t = print_shards show t.shards

  -- the loop of size(), in 32 bits
  pub sum_sizes : ℕ → List H.Table → ℕ
  sum_sizes res [] = res
  sum_sizes res (s ∷ rest) = sum_sizes ((res + H.size s % 2 ^ 32) % 2 ^ 32) rest

  unfoldable pub size : SparseTable → ℕ
  unfolding sum_sizes
  size t = sum_sizes 0 t.shards

  -- PullAccessAgent::get_pull_value, at the default `pull_param_t` and the `val` that came in
  unfoldable pub get_pull_value :
      {Val : Type 0} → PullMethod V Val → V → ℕ → Val → SparseTable → Result (Val × SparseTable)
  get_pull_value method default key val t = do
    known ← find key t
    elim known [
      | some param ↦ ok (method.get_pull_value key param val, t)
      | none ↦ do
        let param = method.init_param key default
        t' ← assign key param t
        ok (method.get_pull_value key param val, t')
    ]

  -- PushAccessAgent::apply_push_value: the parameter is changed through its address in the table
  unfoldable pub apply_push_value :
      {Grad : Type 0} → PushMethod V Grad → ℕ → Grad → SparseTable → Result SparseTable
  apply_push_value method key grad t = do
    known ← find key t
    param ← or_abort known check_failed
    assign key (method.apply_push_value key param grad) t
