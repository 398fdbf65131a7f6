-- ===== src/Base/HashMap.antt =====
-- google::dense_hash_map, which the code uses and does not contain: its operations, with what its
-- documentation promises. `reserved` is the key given to `set_empty_key`, which must not be inserted.
-- `data()[k] = v` is `assign`, `size` counts the keys, and an iteration meets the entries in the order
-- of `items`.
use Prim.Native.Nat.{ℕ, ◌+◌}
use mathlib.Core.Path.{◌≡◌, refl}
use mathlib.Core.Logic.{◌≢◌}
use mathlib.Core.List.{List, [], ◌∷◌}
use mathlib.Core.Option.{Option, none, some}
use native.Mathlib.Omega.{arith}
use swift_snails.Base.Bools.{if◌then◌else◌, ◌==◌}
use swift_snails.Base.Lists.{length}

-- The first entry of a list at a key.
module _ {V : Type 0} where
  unfoldable pub find_in : ℕ → List (ℕ × V) → Option V
  find_in k [] = none
  find_in k ((j, w) ∷ m) = if k == j then some w else find_in k m

pub record HashMap (V : Type 0) : Type 1 where
  pub Table : Type 0
  pub reserved : ℕ
  pub empty : Table
  pub find : ℕ → Table → Option V
  pub assign : ℕ → V → Table → Table
  pub size : Table → ℕ
  pub items : Table → List (ℕ × V)
  pub find-empty : (k : ℕ) → find k empty ≡ none
  pub find-assign_self : (k : ℕ) (v : V) (t : Table) → k ≢ reserved → find k (assign k v t) ≡ some v
  pub find-assign_ne :
      (k j : ℕ) (v : V) (t : Table) → k ≢ reserved → k ≢ j → find j (assign k v t) ≡ find j t
  pub size-empty : size empty ≡ 0
  pub size-assign_new :
      (k : ℕ) (v : V) (t : Table)
      → k ≢ reserved
      → find k t ≡ none
      → size (assign k v t) ≡ size t + 1
  pub size-assign_old :
      (k : ℕ) (v w : V) (t : Table)
      → k ≢ reserved
      → find k t ≡ some w
      → size (assign k v t) ≡ size t
  pub find-items : (k : ℕ) (t : Table) → find k t ≡ find_in k (items t)
  pub size-items : (t : Table) → size t ≡ length (items t)

-- An assignment, with the test that `ground` reads.
pub find-assign :
    {W : Type 0} (H : HashMap W) (key : ℕ) (w : W) (t : H.Table)
    → key ≢ H.reserved
    → (j : ℕ) → H.find j (H.assign key w t) ≡ (if j == key then some w else H.find j t)
find-assign H key w t usable j = ground (
  arith,
  H.find-assign_self key w t usable,
  λ (apart : key ≢ j). H.find-assign_ne key j w t usable apart,
)

-- A table that meets these promises: the keys in the order of their insertion.
module _ {V : Type 0} where
  unfoldable pub assign_in : ℕ → V → List (ℕ × V) → List (ℕ × V)
  assign_in k v [] = (k, v) ∷ []
  assign_in k v ((j, w) ∷ m) = if k == j then (k, v) ∷ m else (j, w) ∷ assign_in k v m

  pub find_in-nil : (k : ℕ) → find_in {V = V} k [] ≡ none
  unfolding find_in
  find_in-nil k = refl

  pub find_in-assign_in :
      (k j : ℕ) (v : V) (m : List (ℕ × V))
      → find_in j (assign_in k v m) ≡ (if j == k then some v else find_in j m)
  unfolding find_in assign_in
  find_in-assign_in k j v [] = refl
  find_in-assign_in k j v ((i, w) ∷ m) = ground (arith, find_in-assign_in k j v m)

  pub find_in_self : (k : ℕ) (v : V) (m : List (ℕ × V)) → find_in k (assign_in k v m) ≡ some v
  find_in_self k v m = ground (arith, find_in-assign_in k k v m)

  pub find_in-ne :
      (k j : ℕ) (v : V) (m : List (ℕ × V)) → k ≢ j → find_in j (assign_in k v m) ≡ find_in j m
  find_in-ne k j v m apart = ground (arith, find_in-assign_in k j v m)

  pub length-assign_in :
      (k : ℕ) (v : V) (m : List (ℕ × V))
      → length (assign_in k v m) ≡ (elim (find_in k m) [ none ↦ length m + 1 | some _ ↦ length m ])
  unfolding find_in assign_in
  length-assign_in k v [] = refl
  length-assign_in k v ((i, w) ∷ m) = ground (arith, length-assign_in k v m)

  pub length_new :
      (k : ℕ) (v : V) (m : List (ℕ × V))
      → find_in k m ≡ none
      → length (assign_in k v m) ≡ length m + 1
  length_new k v m e = ground (arith, length-assign_in k v m)

  pub length_old :
      (k : ℕ) (v w : V) (m : List (ℕ × V))
      → find_in k m ≡ some w
      → length (assign_in k v m) ≡ length m
  length_old k v w m e = ground (arith, length-assign_in k v m)

abbrev pub list_map : (V : Type 0) → ℕ → HashMap V
list_map V reserved = record {
  Table = List (ℕ × V);
  reserved = reserved;
  empty = [];
  find = find_in;
  assign = assign_in;
  size = length;
  items = λ t. t;
  find-empty = find_in-nil;
  find-assign_self = λ k v t _. find_in_self k v t;
  find-assign_ne = λ k j v t _ apart. find_in-ne k j v t apart;
  size-empty = refl;
  size-assign_new = λ k v t _ absent. length_new k v t absent;
  size-assign_old = λ k v w t _ there. length_old k v w t there;
  find-items = λ k t. refl;
  size-items = λ t. refl;
}
