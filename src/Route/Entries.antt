-- ===== src/Route/Entries.antt =====
-- The entries of the route: an address, a mutex and a sender for each id.
use swift_snails.Base.{
  ℕ, ◌≡◌, ◌≢◌, ◌⊎◌, inl, inr, refl, ap, List, [], none, some, ok, abort, check_failed, ◌>>=◌, ◌==◌,
  if◌then◌else◌, Returns, arith, Option-cases,
}
use mathlib.Core.Option
use swift_snails.Base.Map.{
  lookup, assign, erase, nat_ordered, lookup-assign, lookup-erase, lookup-assign_self,
}
use swift_snails.Route.{BaseRoute, emplace, register_node, erase_there, delete_node}

-- The three maps have the same ids, and a sender is connected to the address of its id.
pub record IsConsistent (r : BaseRoute) : Type 0 where
  pub connected : (id : ℕ) → lookup id r.senders ≡ lookup id r.send_addrs
  pub locked :
      (id : ℕ) → lookup id r.send_mutexes ≡ Option.map (λ addr. tt) (lookup id r.send_addrs)

-- The route with one more node.
unfoldable pub with_node : ℕ → List ℕ → BaseRoute → BaseRoute
with_node id addr r = record {
  senders = assign id addr r.senders;
  send_addrs = assign id addr r.send_addrs;
  send_mutexes = assign id tt r.send_mutexes;
}

pub register_node-with_node :
    (id : ℕ) (addr : List ℕ) (r : BaseRoute)
    → IsConsistent r
    → lookup id r.send_addrs ≡ none
    → register_node id addr r ≡ ok (with_node id addr r)
unfolding register_node with_node
register_node-with_node id addr r c free =
    ground (arith, free, c.connected id, c.locked id, lookup-assign_self id addr r.send_addrs)

pub with_node-IsConsistent :
    (id : ℕ) (addr : List ℕ) (r : BaseRoute) → IsConsistent r → IsConsistent (with_node id addr r)
unfolding with_node
with_node-IsConsistent id addr r c = record {
  connected = λ j. ground (
    arith,
    c.connected j,
    lookup-assign id j addr r.senders,
    lookup-assign id j addr r.send_addrs,
  );
  locked = λ j. ground (
    arith,
    c.locked j,
    lookup-assign id j tt r.send_mutexes,
    lookup-assign id j addr r.send_addrs,
  );
}

-- A node is registered under an id that is not in the route: the id has its address, no other id
-- changes, there are still a sender and a mutex for each id, and a second registration of the id
-- fails a CHECK.
pub register_node-adds :
    (id : ℕ) (addr : List ℕ) (r : BaseRoute)
    → IsConsistent r
    → lookup id r.send_addrs ≡ none
    → Returns (register_node id addr r) λ r'.
      IsConsistent r'
      × ((j : ℕ) → lookup j r'.send_addrs ≡ (if j == id then some addr else lookup j r.send_addrs))
      × ((other : List ℕ) → register_node id other r' ≡ abort check_failed)
unfolding with_node register_node
register_node-adds id addr r c free = (
  with_node id addr r,
  register_node-with_node id addr r c free,
  (
    with_node-IsConsistent id addr r c,
    (λ j. lookup-assign id j addr r.send_addrs),
    λ other. rw (register_node, lookup-assign_self id addr r.send_addrs) refl,
  ),
)

emplace-new :
    {V : Type 0} (id : ℕ) (v : V) (m : List (ℕ × V))
    → lookup id m ≡ none
    → emplace id v m ≡ assign id v m
emplace-new id v m e = rw (emplace, e) refl

emplace-old :
    {V : Type 0} (id : ℕ) (v : V) (m : List (ℕ × V)) {w : V}
    → lookup id m ≡ some w
    → emplace id v m ≡ m
emplace-old id v m e = rw (emplace, e) refl

-- The deletion of a node that is in the route leaves the others; that of one that is not fails a CHECK.
pub delete_node-removes :
    (id : ℕ) (r : BaseRoute)
    → IsConsistent r
    → ((lookup id r.send_addrs ≢ none)
        × Returns (delete_node id r) λ r'.
          IsConsistent r'
          × ((j : ℕ) → lookup j r'.send_addrs ≡ (if j == id then none else lookup j r.send_addrs)))
      ⊎ ((lookup id r.send_addrs ≡ none) × (delete_node id r ≡ abort check_failed))
unfolding delete_node erase_there
delete_node-removes id r c = elim (Option-cases (lookup id r.send_addrs)) [
  | inl e ↦ inr (
    e,
    rw
        (
          emplace-new id [] r.send_addrs e,
          lookup-assign_self id [] r.send_addrs,
          ◌>>=◌,
          c.locked id,
          e,
        )
        refl,
  )
  | inr (addr, e) ↦ inl (
    (λ absent. cc),
    (
      record {
        senders = erase id r.senders;
        send_addrs = erase id r.send_addrs;
        send_mutexes = erase id r.send_mutexes;
      },
      rw (emplace-old id [] r.send_addrs e, e, ◌>>=◌, c.locked id, c.connected id, e)
          (ap
            (λ m. ok (record {
              senders = erase id r.senders;
              send_addrs = erase id m;
              send_mutexes = erase id r.send_mutexes;
            }))
            (emplace-old id [] r.send_addrs e)),
      (
        record {
          connected = λ j.
              ground
                (arith, c.connected j, lookup-erase id j r.senders, lookup-erase id j r.send_addrs);
          locked = λ j.
              ground (
                arith,
                c.locked j,
                lookup-erase id j r.send_mutexes,
                lookup-erase id j r.send_addrs,
              );
        },
        λ j. lookup-erase id j r.send_addrs,
      ),
    ),
  )
]
