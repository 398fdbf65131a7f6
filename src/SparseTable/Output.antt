-- ===== src/SparseTable/Output.antt =====
-- What the table prints: each entry once, and the table is what is printed.
use swift_snails.Base.{
  ℕ, zero, suc, ◌+◌, ◌-◌, ◌%◌, ◌^◌, ◌≡◌, ◌≢◌, ◌<◌, refl, ap, sym, subst, ◌∙◌, List, [], ◌∷◌, ◌++◌,
  none, some, ok, ltb, if◌then◌else◌, get_elem?, set, replicate, length, length-append,
  append_assoc, arith, inl, inr, ◌⊎◌,
}
use swift_snails.Base.HashMap.{HashMap, find_in, find-assign}
use swift_snails.Hash.{get_hash_code}
use swift_snails.Strings.Numerals.{decimal}
use swift_snails.SparseTable.{SparseTable, new, assign, size, print_items, print_shards, output}
use swift_snails.SparseTable.Sharding.{
  IsValid, view, in_shard, get_elem?-lt, slot-lt, total, sum_sizes-total,
}

module _ {V : Type 0} where
  find_in-append :
      (k : ℕ) (xs ys : List (ℕ × V))
      → find_in k (xs ++ ys) ≡ (elim (find_in k xs) [ none ↦ find_in k ys | some v ↦ some v ])
  unfolding find_in
  find_in-append k [] ys = refl
  find_in-append k ((j, w) ∷ xs) ys = ground (arith, find_in-append k xs ys)

module _ {V : Type 0} (H : HashMap V) where
  print_items-append :
      (show : V → List ℕ) (xs ys : List (ℕ × V))
      → print_items H show (xs ++ ys) ≡ print_items H show xs ++ print_items H show ys
  unfolding print_items
  print_items-append show [] ys = refl
  print_items-append show ((k, v) ∷ xs) ys = simp (print_items-append show xs ys, append_assoc) refl

  -- The entries of the shards, in order.
  pub entries : List H.Table → List (ℕ × V)
  entries [] = []
  entries (s ∷ ss) = H.items s ++ entries ss

  -- The text of entries: for each its key, a tab, its value and a newline.
  abbrev pub lines_of : (V → List ℕ) → List (ℕ × V) → List ℕ
  lines_of show [] = []
  lines_of show ((k, v) ∷ es) = (decimal 20 k ++ 9 ∷ []) ++ (show v ++ 10 ∷ []) ++ lines_of show es

  print_items-lines_of :
      (show : V → List ℕ) (es : List (ℕ × V)) → print_items H show es ≡ lines_of show es
  unfolding print_items
  print_items-lines_of show [] = refl
  print_items-lines_of show ((k, v) ∷ es) = simp (print_items-lines_of show es, append_assoc) refl

  print_shards-entries :
      (show : V → List ℕ) (ss : List H.Table)
      → print_shards H show ss ≡ print_items H show (entries ss)
  unfolding print_shards entries print_items
  print_shards-entries show [] = refl
  print_shards-entries show (s ∷ ss) =
      ap (λ l. print_items H show (H.items s) ++ l) (print_shards-entries show ss)
      ∙ sym (print_items-append show (H.items s) (entries ss))

  length-entries : (ss : List H.Table) → length (entries ss) ≡ total H ss
  unfolding entries total
  length-entries [] = refl
  length-entries (s ∷ ss) =
      omega (arith, length-append (H.items s) (entries ss), H.size-items s, length-entries ss)

  -- From shard b on, each key that a shard holds belongs there.
  abbrev pub Placed : (ℕ → ℕ) → ℕ → List H.Table → Type 0
  Placed slot b [] = Unit
  Placed slot b (s ∷ ss) = ((k : ℕ) → H.find k s ≢ none → slot k ≡ b) × Placed slot (suc b) ss

  abbrev pub Sharded : SparseTable H → Type 0
  Sharded t = Placed (λ k. get_hash_code k % t.shard_num) 0 t.shards

  get_elem?-shift :
      (s : H.Table) (ss : List H.Table) (d b : ℕ)
      → b < d
      → get_elem? (s ∷ ss) (d - b) ≡ get_elem? ss (d - suc b)
  get_elem?-shift s ss d b h = let e : d - b ≡ suc (d - suc b) = omega arith in rw e refl

  get_elem?-head :
      (s : H.Table) (ss : List H.Table) (d b : ℕ) → d ≡ b → get_elem? (s ∷ ss) (d - b) ≡ some s
  get_elem?-head s ss d b h = let e : d - b ≡ 0 = omega arith in rw e refl

  pub find_in-entries :
      (slot : ℕ → ℕ) (b : ℕ) (ss : List H.Table) (k : ℕ)
      → Placed slot b ss
      → find_in k (entries ss)
        ≡ (if ltb (slot k) b then none else in_shard H k (get_elem? ss (slot k - b)))
  unfolding entries find_in in_shard
  find_in-entries slot b [] k p = ground arith
  find_in-entries slot b (s ∷ ss) k (here, p) =
      let joined = find_in-append k (H.items s) (entries ss) in
      let later = find_in-entries slot (suc b) ss k p in
      ground (
        arith,
        joined,
        later,
        H.find-items k s,
        here k,
        get_elem?-shift s ss (slot k) b,
        get_elem?-head s ss (slot k) b,
      )

  Placed-set :
      (slot : ℕ → ℕ) (b i : ℕ) (ss : List H.Table) (s s' : H.Table)
      → get_elem? ss i ≡ some s
      → ((k : ℕ) → H.find k s' ≢ none → (slot k ≡ b + i) ⊎ (H.find k s ≢ none))
      → Placed slot b ss
      → Placed slot b (set ss i s')
  Placed-set slot b i [] s s' e new p = tt
  Placed-set slot b zero (x ∷ ss) s s' e new (here, p) = (
    λ k there. elim (new k there) [
      | inl at ↦ omega (arith, at)
      | inr old ↦ here k (λ absent. old (ground (arith, e, absent)))
    ],
    p,
  )
  Placed-set slot b (suc i) (x ∷ ss) s s' e new (here, p) = (
    here,
    Placed-set slot (suc b) i ss s s' e
        (λ k there. elim (new k there) [ inl at ↦ inl (omega (arith, at)) | inr old ↦ inr old ]) p,
  )

  Placed-replicate : (slot : ℕ → ℕ) (b n : ℕ) → Placed slot b (replicate n H.empty)
  Placed-replicate slot b zero = tt
  Placed-replicate slot b (suc n) =
      ((λ k there. absurd (there (H.find-empty k))), Placed-replicate slot (suc b) n)

  -- A table is made with each key in the shard of its hash code, and an assignment keeps it so.
  pub new-Sharded : (n : ℕ) → Sharded (new H n)
  unfolding new
  new-Sharded n = Placed-replicate (λ k. get_hash_code k % n) 0 n

  pub assign-Sharded :
      (key : ℕ) (val : V) (t t' : SparseTable H)
      → IsValid H t
      → key ≢ H.reserved
      → assign H key val t ≡ ok t'
      → Sharded t
      → Sharded t'
  unfolding assign
  assign-Sharded key val t t' v usable run p =
      let slot = λ (k : ℕ). get_hash_code k % t.shard_num in
      let (s, e) = get_elem?-lt t.shards (slot key) (slot-lt H t key v) in
      let after = record t { shards = set t.shards (slot key) (H.assign key val s) } in
      let ends : assign H key val t ≡ ok after = ground (arith, e, v.some_shard) in
      let same : ok after ≡ ok t' = sym ends ∙ run in
      let is : after ≡ t' = cc in
      subst Sharded is (
        Placed-set slot 0 (slot key) t.shards s (H.assign key val s) e
          (λ k there. ground (arith, there, find-assign H key val s usable k)) p)

  -- output() prints the entries of a list, for each the decimal digits of its key, a tab, its value and
  -- a newline; in the list there are as many
  -- entries as size() counts, in 32 bits, and what it has for a key is what the table holds.
  pub output-entries :
      (show : V → List ℕ) (t : SparseTable H)
      → IsValid H t
      → Sharded t
      → (output H show t ≡ lines_of show (entries t.shards))
        × (size H t ≡ length (entries t.shards) % 2 ^ 32)
        × ((k : ℕ) → find_in k (entries t.shards) ≡ view H t k)
  unfolding output size view
  output-entries show t v p = (
    print_shards-entries show t.shards ∙ print_items-lines_of show (entries t.shards),
    omega (arith, sum_sizes-total H 0 t.shards (omega arith), length-entries t.shards),
    λ k. find_in-entries (λ k. get_hash_code k % t.shard_num) 0 t.shards k p ∙ ground arith,
  )
