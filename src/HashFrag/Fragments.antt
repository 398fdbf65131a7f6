-- ===== src/HashFrag/Fragments.antt =====
-- How `init` shares the fragments out.
use native.Mathlib.Nat.{
  div-eq_of_lt-le, mul-div-le, div-eq_of_lt, le-div_iff_mul-le, div-mul-le_self, lt-div-mul-add,
  le_trans, mul-le-mul_right,
}
use swift_snails.Base.{
  ℕ, zero, suc, ◌+◌, ◌-◌, ◌*◌, ◌/◌, ◌≡◌, ◌≤◌, ◌<◌, refl, ap, ◌∙◌, List, [], ◌∷◌, some, ok, abort,
  check_failed, division_by_zero, if◌then◌else◌, length, get_elem?, arith, Returns, ◌⊎◌, inl, inr,
  ◌==◌, ◌||◌,
}
use swift_snails.HashFrag.{HashFrag, frag_owner, fill, init}

-- `table` holds the owners of the fragments from i on.
record Owners (nodes each i n : ℕ) (table : List ℕ) : Type 0 where
  sized : length table ≡ n
  owner : (j : ℕ) → j < n → get_elem? table j ≡ some (frag_owner nodes each (i + j))

owner_cons :
    (nodes each i n : ℕ) (t : List ℕ)
    → Owners nodes each (i + 1) n t
    → (j : ℕ) → j < suc n
    → get_elem? (frag_owner nodes each i ∷ t) j ≡ some (frag_owner nodes each (i + j))
owner_cons nodes each i n t o zero lt = ap (λ k. some (frag_owner nodes each k)) (omega arith)
owner_cons nodes each i n t o (suc j) lt =
    o.owner j (omega arith) ∙ ap (λ k. some (frag_owner nodes each k)) (omega arith)

fill-Owners :
    (nodes each n i : ℕ) → 0 < each → Returns (fill nodes each n i) (Owners nodes each i n)
unfolding fill
fill-Owners nodes each zero i pos =
    ([], refl, record { sized = refl; owner = λ j lt. absurd (omega arith) })
fill-Owners nodes each (suc n) i pos =
    let (t, run, o) = fill-Owners nodes each n (i + 1) pos in
    (
      frag_owner nodes each i ∷ t,
      ground (arith, run),
      record { sized = ap suc o.sized; owner = owner_cons nodes each i n t o },
    )

share_pos : {d n : ℕ} → 0 < d → d ≤ n → 0 < n / d
share_pos p q = (le-div_iff_mul-le p).1 (omega arith)

in_table : (n nodes d j : ℕ) → d < nodes → j < n / nodes → d * (n / nodes) + j < n
in_table n nodes d j lt small =
    let rows : (d + 1) * (n / nodes) ≤ nodes * (n / nodes) = mul-le-mul_right _ lt' in
    omega (arith, rows, mul-div-le n nodes)
  where
    lt' : d + 1 ≤ nodes
    lt' = omega arith

-- The run of `init` where there is a fragment for each node.
init-runs :
    (frag_num : ℕ) (h : HashFrag)
    → 0 < h.nodes
    → h.nodes ≤ frag_num
    → Returns (fill h.nodes (frag_num / h.nodes) frag_num 0) λ t.
      (init frag_num h ≡ ok (record h { frags = frag_num; map_table = some t }))
      × (length t ≡ frag_num)
      × ((j : ℕ) → j < frag_num → get_elem? t j ≡ some (frag_owner h.nodes (frag_num / h.nodes) j))
unfolding init
init-runs frag_num h pos enough =
    let (t, run, o) = fill-Owners h.nodes (frag_num / h.nodes) frag_num 0 (share_pos pos enough) in
    (
      t,
      run,
      (
        ground (arith, run),
        o.sized,
        λ j lt.
            o.owner j lt ∙ ap (λ k. some (frag_owner h.nodes (frag_num / h.nodes) k)) (omega arith),
      ),
    )

frag_owner_cases :
    (nodes each i : ℕ)
    → ((i / each < nodes) × (frag_owner nodes each i ≡ i / each + 1))
      ⊎ ((nodes ≤ i / each) × (frag_owner nodes each i ≡ nodes))
unfolding frag_owner
frag_owner_cases nodes each i = ground arith

-- The owner of fragment i is the server d of the interval that i lies in; the last takes the rest.
pub record InShare (nodes each i d : ℕ) : Type 0 where
  pub first_server : 1 ≤ d
  pub last_server : d ≤ nodes
  pub from : (d - 1) * each ≤ i
  pub below : (d ≡ nodes) ⊎ (i < d * each)

frag_owner-InShare :
    (nodes each i : ℕ) → 0 < nodes → 0 < each → InShare nodes each i (frag_owner nodes each i)
frag_owner-InShare nodes each i some_node some_frag = elim (frag_owner_cases nodes each i) [
  | inl (lt, e) ↦ rw e (record {
    first_server = omega arith;
    last_server = omega arith;
    from = let e' : i / each + 1 - 1 ≡ i / each = omega arith in rw e' lo;
    below = inr (omega (arith, hi));
  })
  | inr (le, e) ↦ rw e (record {
    first_server = some_node;
    last_server = omega arith;
    from = le_trans (mul-le-mul_right each (omega arith)) lo;
    below = inl refl;
  })
]
  where
    lo : i / each * each ≤ i
    lo = div-mul-le_self i each

    hi : i < i / each * each + each
    hi = lt-div-mul-add some_frag

owner_of_interval :
    (nodes each d j : ℕ) → d < nodes → j < each → frag_owner nodes each (d * each + j) ≡ d + 1
owner_of_interval nodes each d j lt small =
    let q : (d * each + j) / each ≡ d = div-eq_of_lt-le each (omega arith) (omega arith) in
    grind (arith, frag_owner_cases nodes each (d * each + j))

-- `init` with at least one node and a fragment for each node succeeds, keeps the number of nodes, and
-- gives fragment i to the server in whose interval of `frag_num / nodes` fragments it lies; what the
-- division leaves over goes to the last server.
pub init-InShare :
    (frag_num : ℕ) (h : HashFrag) (i : ℕ)
    → 0 < h.nodes
    → h.nodes ≤ frag_num
    → i < frag_num
    → Returns (init frag_num h) λ h'.
      (t : List ℕ) × (d : ℕ) × (h' ≡ record h { frags = frag_num; map_table = some t })
      × (length t ≡ frag_num)
      × (get_elem? t i ≡ some d)
      × InShare h.nodes (frag_num / h.nodes) i d
init-InShare frag_num h i pos enough lt =
    let (t, _, (run, len, owners)) = init-runs frag_num h pos enough in
    (
      record h { frags = frag_num; map_table = some t },
      run,
      (
        t,
        frag_owner h.nodes (frag_num / h.nodes) i,
        refl,
        len,
        owners i lt,
        frag_owner-InShare h.nodes _ i pos (share_pos pos enough),
      ),
    )

-- Every server d + 1 gets the `frag_num / nodes` fragments from d times that number on: no server is
-- left without a fragment.
pub init_covers :
    (frag_num : ℕ) (h : HashFrag) (d j : ℕ)
    → h.nodes ≤ frag_num
    → d < h.nodes
    → j < frag_num / h.nodes
    → Returns (init frag_num h) λ h'.
      (t : List ℕ) × (h'.map_table ≡ some t)
      × (get_elem? t (d * (frag_num / h.nodes) + j) ≡ some (d + 1))
init_covers frag_num h d j enough lt small =
    let (t, _, (run, len, owners)) = init-runs frag_num h (omega arith) enough in
    let at = d * (frag_num / h.nodes) + j in
    (
      record h { frags = frag_num; map_table = some t },
      run,
      (
        t,
        refl,
        owners at (in_table frag_num h.nodes d j lt small)
            ∙ ap some (owner_of_interval h.nodes (frag_num / h.nodes) d j lt small),
      ),
    )

-- Without a node or a fragment `init` fails a CHECK; with fewer fragments than nodes it divides by
-- zero, since each node's share is then 0.
pub init_refuses :
    (frag_num : ℕ) (h : HashFrag)
    → frag_num < h.nodes ⊎ h.nodes ≡ 0
    → init frag_num h
      ≡ abort (if (h.nodes == 0) || (frag_num == 0) then check_failed else division_by_zero)
unfolding init fill
init_refuses zero h few = ground arith
init_refuses (suc n) h (inr none_there) = ground arith
init_refuses (suc n) h (inl few) = ground (arith, div-eq_of_lt few)
