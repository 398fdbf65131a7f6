-- ===== src/HashFrag/Tests.antt =====
-- Runs of the fragment table.
use swift_snails.Base.{
  ℕ, ◌≡◌, ◌≤◌, inl, refl, List, [], ◌∷◌, ◌++◌, some, none, ok, abort, division_by_zero, ◌>>=◌,
  arith, Returns,
}
use swift_snails.Buffer.{new}
use swift_snails.Buffer.Contents.{Holds, new-Holds}
use swift_snails.HashFrag.{
  HashFrag, empty, init, fill, frag_owner, to_node_id, serialize, deserialize,
}
use swift_snails.HashFrag.Routing.{to_node_id-init}
use swift_snails.HashFrag.Wire.{frag_wire, deserialize-serialize}

abbrev three_servers : HashFrag
three_servers = record { nodes = 3; frags = 0; map_table = none }

abbrev ten : HashFrag
ten = record {
  nodes = 3;
  frags = 10;
  map_table = some (1 ∷ 1 ∷ 1 ∷ 2 ∷ 2 ∷ 2 ∷ 3 ∷ 3 ∷ 3 ∷ 3 ∷ []);
}

init-ten : init 10 three_servers ≡ ok ten
unfolding init fill frag_owner
init-ten = refl

init-two : init 2 three_servers ≡ abort division_by_zero
unfolding init fill
init-two = refl

to_node_id-init_example :
    Returns (init 10 three_servers >>= to_node_id 2323) λ id. (1 ≤ id) × (id ≤ 3)
to_node_id-init_example = to_node_id-init 10 2323 three_servers (omega arith) (omega arith)

abbrev ten_table : List ℕ
ten_table = 1 ∷ 1 ∷ 1 ∷ 2 ∷ 2 ∷ 2 ∷ 3 ∷ 3 ∷ 3 ∷ 3 ∷ []

deserialize-serialize_example :
    Returns
      (serialize ten new >>= λ b'. deserialize b' empty)
      λ r. (r.0 ≡ ten) × Holds ([] ++ frag_wire ten ten_table) [] r.1
unfolding empty
deserialize-serialize_example =
    deserialize-serialize ten empty ten_table new
      (record {
        present = refl;
        sized = refl;
        some_frag = omega arith;
        frags_fit = omega arith;
        nodes_fit = omega arith;
        ids_fit = omega arith;
      })
      (inl (refl, refl)) new-Holds
