-- ===== src/SparseTable/Sharding.antt =====
-- The shards together are one map: no client sees which shard a key is in.
use native.Mathlib.Nat.{mod-lt}
use swift_snails.Base.{
  ℕ, zero, suc, ◌+◌, ◌%◌, ◌^◌, ◌≡◌, ◌≢◌, ◌<◌, refl, ◌∙◌, List, [], ◌∷◌, Option, none, some, ok,
  ◌==◌, if◌then◌else◌, get_elem?, set, replicate, length, length-set, length-replicate, arith,
  Returns, Option-cases, inl, inr,
}
use swift_snails.Base.HashMap.{HashMap}
use swift_snails.Hash.{get_hash_code}
use swift_snails.SparseTable.{SparseTable, new, find, assign, size, sum_sizes}

module _ {A : Type 0} where
  pub get_elem?-lt : (xs : List A) (i : ℕ) → i < length xs → (x : A) × (get_elem? xs i ≡ some x)
  get_elem?-lt [] i h = absurd (omega arith)
  get_elem?-lt (x ∷ xs) zero h = (x, refl)
  get_elem?-lt (x ∷ xs) (suc i) h = get_elem?-lt xs i (omega arith)

  get_elem?-set :
      (xs : List A) (i j : ℕ) (v : A)
      → i < length xs
      → get_elem? (set xs i v) j ≡ (if i == j then some v else get_elem? xs j)
  get_elem?-set [] i j v h = absurd (omega arith)
  get_elem?-set (x ∷ xs) zero zero v h = refl
  get_elem?-set (x ∷ xs) zero (suc j) v h = ground arith
  get_elem?-set (x ∷ xs) (suc i) zero v h = ground arith
  get_elem?-set (x ∷ xs) (suc i) (suc j) v h = ground (arith, get_elem?-set xs i j v)

  get_elem?-replicate : (n i : ℕ) (a : A) → i < n → get_elem? (replicate n a) i ≡ some a
  get_elem?-replicate zero i a h = absurd (omega arith)
  get_elem?-replicate (suc n) zero a h = refl
  get_elem?-replicate (suc n) (suc i) a h = get_elem?-replicate n i a (omega arith)

module _ {V : Type 0} (H : HashMap V) where
  pub record IsValid (t : SparseTable H) : Type 0 where
    pub sized : length t.shards ≡ t.shard_num
    pub some_shard : 0 < t.shard_num

  unfoldable pub in_shard : ℕ → Option H.Table → Option V
  in_shard key none = none
  in_shard key (some s) = H.find key s

  -- The table as one map.
  unfoldable pub view : SparseTable H → ℕ → Option V
  view t key = in_shard key (get_elem? t.shards (get_hash_code key % t.shard_num))

  pub slot-lt :
      (t : SparseTable H) (key : ℕ) → IsValid t → get_hash_code key % t.shard_num < length t.shards
  slot-lt t key v = omega (arith, v.sized, mod-lt (get_hash_code key) v.some_shard)

  pub find-view : (key : ℕ) (t : SparseTable H) → IsValid t → find H key t ≡ ok (view t key)
  unfolding find view in_shard
  find-view key t v =
      let (s, e) = get_elem?-lt t.shards _ (slot-lt t key v) in ground (arith, e, v.some_shard)

  pub new-IsValid : (n : ℕ) → 0 < n → IsValid (new H n) × ((key : ℕ) → view (new H n) key ≡ none)
  unfolding new view in_shard
  new-IsValid n pos = (
    record { sized = length-replicate n H.empty; some_shard = pos },
    λ key. rw (get_elem?-replicate n _ H.empty (mod-lt (get_hash_code key) pos)) (H.find-empty key),
  )

  view-set :
      (t : SparseTable H) (key j : ℕ) (val : V) (s : H.Table)
      → IsValid t
      → key ≢ H.reserved
      → get_elem? t.shards (get_hash_code key % t.shard_num) ≡ some s
      → view
          (record t {
            shards = set t.shards (get_hash_code key % t.shard_num) (H.assign key val s);
          })
          j
        ≡ (if j == key then some val else view t j)
  unfolding view in_shard
  view-set t key j val s v usable e =
      let at = get_hash_code key % t.shard_num in
      let there : get_elem? (set t.shards at (H.assign key val s)) (get_hash_code j % t.shard_num)
          ≡ (if at == get_hash_code j % t.shard_num
              then some (H.assign key val s)
              else get_elem? t.shards (get_hash_code j % t.shard_num)) =
        get_elem?-set t.shards at _ _ (slot-lt t key v) in
      ground (
        arith,
        there,
        H.find-assign_self key val s usable,
        λ (apart : key ≢ j). H.find-assign_ne key j val s usable apart,
      )

  -- An assignment to a key that is not the reserved one succeeds, keeps the shards in order, and
  -- changes what the table holds at that key and nowhere else.
  pub assign-view :
      (key : ℕ) (val : V) (t : SparseTable H)
      → IsValid t
      → key ≢ H.reserved
      → Returns
          (assign H key val t)
          λ t'. IsValid t' × ((j : ℕ) → view t' j ≡ (if j == key then some val else view t j))
  unfolding assign
  assign-view key val t v usable =
      let (s, e) = get_elem?-lt t.shards _ (slot-lt t key v) in
      (
        record t { shards = set t.shards (get_hash_code key % t.shard_num) (H.assign key val s) },
        ground (arith, e, v.some_shard),
        (
          record { sized = length-set t.shards _ _ ∙ v.sized; some_shard = v.some_shard },
          λ j. view-set t key j val s v usable e,
        ),
      )

  unfoldable pub total : List H.Table → ℕ
  total [] = 0
  total (s ∷ rest) = H.size s + total rest

  pub sum_sizes-total :
      (res : ℕ) (ss : List H.Table) → res < 2 ^ 32 → sum_sizes H res ss ≡ (res + total ss) % 2 ^ 32
  unfolding sum_sizes total
  sum_sizes-total res [] h = omega arith
  sum_sizes-total res (s ∷ rest) h =
      omega (arith, sum_sizes-total ((res + H.size s % 2 ^ 32) % 2 ^ 32) rest (omega arith))

  total-set :
      (ss : List H.Table) (i : ℕ) (s s' : H.Table)
      → get_elem? ss i ≡ some s
      → total (set ss i s') + H.size s ≡ total ss + H.size s'
  unfolding total
  total-set [] i s s' e = cc
  total-set (x ∷ ss) zero s s' e = ground arith
  total-set (x ∷ ss) (suc i) s s' e = omega (arith, total-set ss i s s' e)

  pub added : Option V → ℕ
  added none = 1
  added (some v) = 0

  size-assign_shard :
      (key : ℕ) (val : V) (s : H.Table)
      → key ≢ H.reserved
      → H.size (H.assign key val s) ≡ H.size s + added (H.find key s)
  unfolding added
  size-assign_shard key val s usable = elim (Option-cases (H.find key s)) [
    | inl e ↦ rw (e, added) (H.size-assign_new key val s usable e)
    | inr (w, e) ↦ rw (e, added) (omega (arith, H.size-assign_old key val w s usable e))
  ]

  -- size() is the number of keys in 32 bits: an assignment adds one to it exactly when the key is new.
  pub size-assign :
      (key : ℕ) (val : V) (t : SparseTable H)
      → IsValid t
      → key ≢ H.reserved
      → Returns (assign H key val t) λ t'. size H t' ≡ (size H t + added (view t key)) % 2 ^ 32
  unfolding assign size view in_shard
  size-assign key val t v usable =
      let (s, e) = get_elem?-lt t.shards _ (slot-lt t key v) in
      (
        record t { shards = set t.shards (get_hash_code key % t.shard_num) (H.assign key val s) },
        ground (arith, e, v.some_shard),
        rw e (
            omega (
              arith,
              sum_sizes-total 0 t.shards (omega arith),
              sum_sizes-total 0
                  (set t.shards (get_hash_code key % t.shard_num) (H.assign key val s))
                  (omega arith),
              total-set t.shards _ s (H.assign key val s) e,
              size-assign_shard key val s usable,
            )),
      )
