-- ===== src/Worker/Arrange.antt =====
-- How the keys of a pull are split among the servers: GlobalPullAccess::arrange_local_vals of
-- src/core/parameter/global_pull_access.h.
use swift_snails.Base.{
  ℕ, ◌≡◌, refl, ◌∙◌, sym, List, [], ◌∷◌, ◌++◌, ok, ◌>>=◌, ◌==◌, if◌then◌else◌, arith, Returns, All,
  append-nil, append_assoc,
}
use swift_snails.Base.Map.{lookup, lookup-assign, nat_ordered}
use swift_snails.HashFrag.{HashFrag, to_node_id}
use swift_snails.Worker.{NodeReqs, ensure, group, push_back, arrange_local_vals}

-- What the keys of node `id` contribute to its group, each key with its item.
abbrev pub share_of : {A : Type 0} → (ℕ → ℕ) → (ℕ → A) → ℕ → List ℕ → List A
share_of node_of item id [] = []
share_of node_of item id (key ∷ keys) =
    if id == node_of key
    then item key ∷ share_of node_of item id keys
    else share_of node_of item id keys

module _ {A : Type 0} where
  pub group-ensure : (id j : ℕ) (reqs : NodeReqs A) → group j (ensure id reqs) ≡ group j reqs
  unfolding ensure
  group-ensure id j reqs = ground (arith, lookup-assign id j [] reqs)

  pub group-push_back :
      (id j : ℕ) (item : A) (reqs : NodeReqs A)
      → group j (push_back id item reqs)
        ≡ (if j == id then group id reqs ++ item ∷ [] else group j reqs)
  unfolding push_back
  group-push_back id j item reqs =
      ground (arith, lookup-assign id j (group id reqs ++ item ∷ []) reqs)

pub grouped-step :
    {A : Type 0} (node_of : ℕ → ℕ) (id key : ℕ) (item : A) (reqs : NodeReqs A) (items : List A)
    → group id (push_back (node_of key) item (ensure (node_of key) reqs)) ++ items
      ≡ group id reqs ++ (if id == node_of key then item ∷ items else items)
grouped-step node_of id key item reqs items = ground (
  arith,
  group-push_back (node_of key) id item (ensure (node_of key) reqs),
  group-ensure (node_of key) id reqs,
  group-ensure (node_of key) (node_of key) reqs,
  append_assoc (group id reqs) (item ∷ []) items,
)

module _ {V : Type 0} (empty_val : V) (frag : HashFrag) (node_of : ℕ → ℕ) where
  arrange_from :
      (keys : List ℕ) (reqs : NodeReqs (ℕ × V))
      → All (λ key. to_node_id key frag ≡ ok (node_of key)) keys
      → Returns (arrange_local_vals empty_val frag keys reqs) λ r.
        (id : ℕ) → group id r ≡ group id reqs ++ share_of node_of (λ key. (key, empty_val)) id keys
  unfolding arrange_local_vals
  arrange_from [] reqs routed = (reqs, refl, λ id. sym (append-nil _))
  arrange_from (key ∷ keys) reqs (at, routed) =
      let reqs' = push_back (node_of key) (key, empty_val) (ensure (node_of key) reqs) in
      let (r, run, groups) = arrange_from keys reqs' routed in
      (r, rw (at, ◌>>=◌) run, λ id. groups id ∙ regroup id)
    where
      regroup :
          (id : ℕ)
          → group id (push_back (node_of key) (key, empty_val) (ensure (node_of key) reqs))
              ++ share_of node_of (λ key. (key, empty_val)) id keys
            ≡ group id reqs ++ share_of node_of (λ key. (key, empty_val)) id (key ∷ keys)
      regroup id =
          grouped-step node_of id key (key, empty_val) reqs
            (share_of node_of (λ key. (key, empty_val)) id keys)

  -- When the fragment table sends each key to a node, the keys of a pull are split among the nodes:
  -- the group of a node is its keys, in the order of the loop, each once and with the empty value.
  pub arrange_local_vals-splits :
      (keys : List ℕ)
      → All (λ key. to_node_id key frag ≡ ok (node_of key)) keys
      → Returns
          (arrange_local_vals empty_val frag keys [])
          λ r. (id : ℕ) → group id r ≡ share_of node_of (λ key. (key, empty_val)) id keys
  unfolding lookup
  arrange_local_vals-splits keys routed = arrange_from keys [] routed
