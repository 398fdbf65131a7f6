-- ===== src/HashFrag/Routing.antt =====
-- Where a key is kept.
use native.Mathlib.Nat.{mod-lt}
use swift_snails.Base.{ℕ, ◌%◌, ◌≡◌, ◌≤◌, ◌<◌, ◌>>=◌, arith, Returns, abort, check_failed, none}
use swift_snails.Hash.{get_hash_code}
use swift_snails.HashFrag.{HashFrag, init, to_node_id}
use swift_snails.HashFrag.Fragments.{init-InShare}

-- After `init` every key, whatever its hash code, is mapped to a server: an id from 1 to the number of
-- nodes, so never the master's id 0.
pub to_node_id-init :
    (frag_num key : ℕ) (h : HashFrag)
    → 0 < h.nodes
    → h.nodes ≤ frag_num
    → Returns (init frag_num h >>= to_node_id key) λ id. (1 ≤ id) × (id ≤ h.nodes)
unfolding to_node_id
to_node_id-init frag_num key h pos enough =
    let (h', run, (t, d, e, _, at, share)) =
      init-InShare frag_num h (get_hash_code key % frag_num) pos enough (mod-lt _ (omega arith)) in
    (d, rw (run, ◌>>=◌, e) (ground (arith, at)), (share.first_server, share.last_server))

-- Before the table is there, a lookup fails a CHECK.
to_node_id-no_table :
    (key : ℕ) (h : HashFrag) → h.map_table ≡ none → to_node_id key h ≡ abort check_failed
unfolding to_node_id
to_node_id-no_table key h e = rw e
