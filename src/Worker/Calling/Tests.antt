-- ===== src/Worker/Calling/Tests.antt =====
-- A pull of two servers, and a push for which one server has no gradient.
use swift_snails.Base.{
  ℕ, ◌-◌, ◌^◌, ◌≡◌, refl, List, [], ◌∷◌, some, ok, arith, Returns, pos, true, false,
}
use swift_snails.Base.HashMap.{HashMap, list_map, find_in, assign_in}
use swift_snails.Base.Map.{lookup, assign, nat_ordered}
use swift_snails.Hash.{get_hash_code}
use swift_snails.HashFrag.{HashFrag, to_node_id}
use swift_snails.Buffer.Codec.{word32}
use swift_snails.Transfer.{Transfer, opened}
use swift_snails.Transfer.Calls
use swift_snails.Worker.{
  NodeReqs, ParamCache, arrange_local_vals, arrange_local_grads, ensure, push_back,
}
use swift_snails.Worker.Countdown.{respond}
use swift_snails.Worker.Calling.{pull_with_barrier, push_with_barrier}
use swift_snails.Worker.Calling.Sending.{Called, pull_with_barrier-Called, push_with_barrier-Called}

abbrev two_servers : HashFrag
two_servers = record { nodes = 2; frags = 2; map_table = some (1 ∷ 2 ∷ []) }

abbrev keyed : HashMap ℕ
keyed = list_map ℕ (2 ^ 32 - 1)

abbrev addrs : List (ℕ × ℕ)
addrs = (1, 101) ∷ (2, 102) ∷ []

abbrev worker : Transfer ℕ ℕ
worker = record opened { client = pos 8 }

worker-IsValid : Calls.IsValid worker
unfolding lookup
worker-IsValid id there = absurd (there refl)

abbrev asked : NodeReqs (ℕ × ℕ)
asked = (1, (3, 0) ∷ []) ∷ (2, (7, 0) ∷ (9, 0) ∷ []) ∷ []

splits : arrange_local_vals 0 two_servers (7 ∷ 3 ∷ 9 ∷ []) [] ≡ ok asked
unfolding arrange_local_vals to_node_id get_hash_code ensure push_back lookup assign
splits = refl

known_1 : lookup 1 addrs ≡ some 101
unfolding lookup
known_1 = refl

known_2 : lookup 2 addrs ≡ some 102
unfolding lookup
known_2 = refl

pull_with_barrier-Called_example :
    Returns
      (pull_with_barrier addrs 5 word32 word32 0 two_servers (7 ∷ 3 ∷ 9 ∷ []) worker)
      λ r. Called addrs 5 (1 ∷ 2 ∷ []) worker r.0 × ((respond 2 r.1).unblock_state ≡ true)
pull_with_barrier-Called_example =
    pull_with_barrier-Called addrs 5 word32 word32 0 two_servers (7 ∷ 3 ∷ 9 ∷ []) 8 asked worker
      splits ((λ e. ground (arith, e, known_1)), ((λ e. ground (arith, e, known_2)), tt))
      worker-IsValid refl (omega arith)

-- Keys 7 and 9 have a gradient, key 3 has none.
abbrev with_grads : List (ℕ × ℕ) → ParamCache keyed keyed 0 0
with_grads grads = record { params = []; grads = grads; num_iters = 0; terminate_flag = false }

abbrev pushed : NodeReqs (ℕ × ℕ)
pushed = (1, []) ∷ (2, (7, 50) ∷ (9, 60) ∷ []) ∷ []

splits_grads :
    arrange_local_grads keyed keyed 0 0
      (λ g. 0)
      two_servers
      (7 ∷ 3 ∷ 9 ∷ [])
      (with_grads ((7, 50) ∷ (9, 60) ∷ []))
      []
    ≡ ok (pushed, with_grads ((7, 0) ∷ (9, 0) ∷ []))
unfolding arrange_local_grads to_node_id get_hash_code ensure push_back lookup assign find_in
    assign_in
splits_grads = refl

push_with_barrier-Called_example :
    Returns
      (push_with_barrier addrs 5 keyed keyed 0 0 word32 word32
        (λ g. 0)
        two_servers
        (7 ∷ 3 ∷ 9 ∷ [])
        (with_grads ((7, 50) ∷ (9, 60) ∷ []))
        worker)
      λ r.
        Called addrs 5 (2 ∷ []) worker r.0.0
        × (r.1 ≡ with_grads ((7, 0) ∷ (9, 0) ∷ []))
        × ((respond 1 r.0.1).unblock_state ≡ false)
push_with_barrier-Called_example =
    push_with_barrier-Called addrs 5 keyed keyed 0 0 word32 word32 (λ g. 0) two_servers
      (7 ∷ 3 ∷ 9 ∷ []) (with_grads ((7, 50) ∷ (9, 60) ∷ [])) (with_grads ((7, 0) ∷ (9, 0) ∷ [])) 8
      pushed worker splits_grads ((λ e. ground (arith, e, known_2)), tt) worker-IsValid refl
      (omega arith)
