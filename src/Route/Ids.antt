-- ===== src/Route/Ids.antt =====
-- The ids that the route gives.
use swift_snails.Base.{
  ℕ, ◌+◌, ◌-◌, ◌<◌, ◌≤◌, ◌≡◌, ◌≢◌, ◌⊎◌, inl, inr, refl, List, [], ◌∷◌, ◌++◌, none, some, ok, ◌>>=◌,
  ◌==◌, leb, if◌then◌else◌, Returns, arith, Bool, true, false, Option-cases,
}
use swift_snails.Base.Map.{lookup, nat_ordered, lookup-assign}
use swift_snails.Route.{ServerWorkerRoute, id_max_range, register_node_}
use swift_snails.Route.Entries.{
  IsConsistent, with_node, with_node-IsConsistent, register_node-with_node,
}

-- The ids of the servers count up from 0, those of the workers down from below the largest int, and
-- the route has no other id.
pub record IsValid (r : ServerWorkerRoute) : Type 0 where
  pub consistent : IsConsistent r.base
  pub given :
      (id : ℕ)
      → lookup id r.base.send_addrs ≢ none
      → (id < r.server_num) ⊎ ((id_max_range ≤ id + r.worker_num) × (id < id_max_range))

free_id :
    (id : ℕ) (r : ServerWorkerRoute)
    → IsValid r
    → r.server_num ≤ id
    → id + r.worker_num < id_max_range
    → lookup id r.base.send_addrs ≡ none
free_id id r v low high = elim (Option-cases (lookup id r.base.send_addrs)) [
  | inl e ↦ e
  | inr (addr, e) ↦ elim (v.given id (λ absent. cc)) [
    | inl less ↦ absurd (omega arith)
    | inr (more, _) ↦ absurd (omega arith)
  ]
]

-- The id that is given to the next node, and the route with that node.
abbrev pub given_id : Bool → ServerWorkerRoute → ℕ
given_id server r = if server then r.server_num else id_max_range - (r.worker_num + 1)

abbrev pub grown : Bool → List ℕ → ServerWorkerRoute → ServerWorkerRoute
grown true addr r = record r {
  base = with_node r.server_num addr r.base;
  server_num = r.server_num + 1;
  server_ids = r.server_ids ++ r.server_num ∷ [];
}
grown false addr r = record r {
  base = with_node (id_max_range - (r.worker_num + 1)) addr r.base;
  worker_num = r.worker_num + 1;
  worker_ids = r.worker_ids ++ (id_max_range - (r.worker_num + 1)) ∷ [];
}

pub given_id-free :
    (server : Bool) (r : ServerWorkerRoute)
    → IsValid r
    → r.server_num + r.worker_num + 1 < id_max_range
    → lookup (given_id server r) r.base.send_addrs ≡ none
given_id-free true r v few = free_id r.server_num r v (omega arith) (omega arith)
given_id-free false r v few =
    free_id (id_max_range - (r.worker_num + 1)) r v (omega arith) (omega arith)

pub register_node_-grown :
    (server : Bool) (addr : List ℕ) (r : ServerWorkerRoute)
    → IsValid r
    → r.server_num + r.worker_num + 1 < id_max_range
    → register_node_ server addr r ≡ ok (given_id server r, grown server addr r)
unfolding register_node_
register_node_-grown true addr r v few =
    rw (register_node-with_node _ addr r.base v.consistent (given_id-free true r v few), ◌>>=◌) refl
register_node_-grown false addr r v few =
    let room : leb (r.worker_num + 1) id_max_range ≡ true = ground arith in
    rw
      (
        register_node-with_node _ addr r.base v.consistent (given_id-free false r v few),
        ◌>>=◌,
        room,
      )
      refl

pub grown-reads :
    (server : Bool) (addr : List ℕ) (r : ServerWorkerRoute) (j : ℕ)
    → lookup j (grown server addr r).base.send_addrs
      ≡ (if j == given_id server r then some addr else lookup j r.base.send_addrs)
unfolding with_node
grown-reads true addr r j = lookup-assign r.server_num j addr r.base.send_addrs
grown-reads false addr r j =
    lookup-assign (id_max_range - (r.worker_num + 1)) j addr r.base.send_addrs

pub grown-IsValid :
    (server : Bool) (addr : List ℕ) (r : ServerWorkerRoute)
    → IsValid r
    → r.server_num + r.worker_num + 1 < id_max_range
    → IsValid (grown server addr r)
grown-IsValid true addr r v few = record {
  consistent = with_node-IsConsistent _ addr r.base v.consistent;
  given = λ j there. ground (arith, grown-reads true addr r j, v.given j);
}
grown-IsValid false addr r v few = record {
  consistent = with_node-IsConsistent _ addr r.base v.consistent;
  given = λ j there. ground (arith, grown-reads false addr r j, v.given j);
}

-- As long as the nodes are fewer than the largest int, a registration succeeds with an id that no node
-- of the route has (the number of servers so far, or the largest id below those of the workers), adds
-- the address under it and changes no other id.
pub register_node_-fresh :
    (server : Bool) (addr : List ℕ) (r : ServerWorkerRoute)
    → IsValid r
    → r.server_num + r.worker_num + 1 < id_max_range
    → Returns (register_node_ server addr r) λ p.
      (p.0 ≡ (if server then r.server_num else id_max_range - (r.worker_num + 1)))
      × (lookup p.0 r.base.send_addrs ≡ none)
      × IsValid p.1
      × ((j : ℕ)
          → lookup j p.1.base.send_addrs
            ≡ (if j == p.0 then some addr else lookup j r.base.send_addrs))
register_node_-fresh server addr r v few = (
  (given_id server r, grown server addr r),
  register_node_-grown server addr r v few,
  (
    refl,
    given_id-free server r v few,
    grown-IsValid server addr r v few,
    grown-reads server addr r,
  ),
)
