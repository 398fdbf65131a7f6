-- ===== src/Worker/Tests.antt =====
-- Runs of the worker's side.
use swift_snails.Base.{
  ℕ, ◌-◌, ◌^◌, ◌≡◌, refl, [], ◌∷◌, some, ok, arith, Returns, ◌==◌, if◌then◌else◌,
}
use swift_snails.Base.HashMap.{HashMap, list_map}
use swift_snails.Base.Map.{nat_ordered}
use swift_snails.Hash.{get_hash_code}
use swift_snails.HashFrag.{HashFrag, to_node_id}
use swift_snails.Worker.{ParamCache, arrange_local_grads, new_cache, group, arrange_local_vals}
use swift_snails.Worker.Grads.{grads_of, pushed, arrange_local_grads-splits}
use swift_snails.Worker.Arrange.{share_of, arrange_local_vals-splits}

abbrev two_servers : HashFrag
two_servers = record { nodes = 2; frags = 2; map_table = some (1 ∷ 2 ∷ []) }

abbrev node_of : ℕ → ℕ
node_of key = if key == 3 then 1 else 2

t7 : to_node_id 7 two_servers ≡ ok 2
unfolding to_node_id get_hash_code
t7 = refl

t9 : to_node_id 9 two_servers ≡ ok 2
unfolding to_node_id get_hash_code
t9 = refl

t3 : to_node_id 3 two_servers ≡ ok 1
unfolding to_node_id get_hash_code
t3 = refl

abbrev keyed : HashMap ℕ
keyed = list_map ℕ (2 ^ 32 - 1)

arrange_local_vals-splits_example :
    Returns
      (arrange_local_vals {V = ℕ} 0 two_servers (7 ∷ 3 ∷ 9 ∷ []) [])
      λ r. (id : ℕ) → group id r ≡ share_of node_of (λ key. (key, 0)) id (7 ∷ 3 ∷ 9 ∷ [])
arrange_local_vals-splits_example =
    arrange_local_vals-splits {V = ℕ} 0 two_servers node_of (7 ∷ 3 ∷ 9 ∷ []) (t7, (t3, (t9, tt)))

-- Keys 7 and 9 have a gradient, key 3 has none.
abbrev with_grads : ParamCache keyed keyed 0 0
with_grads = record (new_cache keyed keyed 0 0) {
  grads = keyed.assign 9 60 (keyed.assign 7 50 keyed.empty);
}

arrange_local_grads-splits_example :
    Returns
      (arrange_local_grads keyed keyed 0 0 (λ g. 0) two_servers (7 ∷ 3 ∷ 9 ∷ []) with_grads [])
      λ r.
        ((id : ℕ)
          → group id r.0
            ≡ grads_of node_of (λ k. keyed.find k with_grads.grads) id (7 ∷ 3 ∷ 9 ∷ []))
        × ((j : ℕ)
            → keyed.find j r.1.grads
              ≡ pushed (λ g. 0) (λ k. keyed.find k with_grads.grads) (7 ∷ 3 ∷ 9 ∷ []) j)
        × (r.1.params ≡ with_grads.params)
arrange_local_grads-splits_example =
    arrange_local_grads-splits keyed keyed 0 0 (λ g. 0) two_servers node_of (7 ∷ 3 ∷ 9 ∷ [])
      with_grads
      (
        ((λ e. omega (arith, e)), ((λ e. omega (arith, e)), tt)),
        (((λ e. omega (arith, e)), tt), (tt, tt)),
      )
      (
        ((λ e. omega (arith, e)), t7),
        (((λ e. omega (arith, e)), t3), (((λ e. omega (arith, e)), t9), tt)),
      )
