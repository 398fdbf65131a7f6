-- ===== src/Route/Wire.antt =====
-- The route as one node writes it and another reads it.
use swift_snails.Base.{
  ℕ, zero, suc, ◌+◌, ◌^◌, ◌<◌, ◌≡◌, ◌≢◌, refl, ap, ◌∙◌, arith, List, [], ◌∷◌, ◌++◌, none, some,
  Result, ok, abort, ◌>>=◌, ◌==◌, if◌then◌else◌, append_assoc, append-nil, Returns, All, length,
  length-append, drop, true, false, Option,
}
use swift_snails.Base.Map.{lookup, nat_ordered}
use swift_snails.Base.Ascending.{Ascending, lookup-Above}
use swift_snails.Strings.{headswith}
use swift_snails.Addr.{Addr, to_string, from_string, tcp_head}
use swift_snails.Addr.Parsing.{Fits, from_string-to_string}
use swift_snails.Addr.Wire.{addr_wire, put_addr-Holds, get_addr-eq}
use swift_snails.Buffer.{Buffer}
use swift_snails.Buffer.Contents.{Holds}
use swift_snails.Buffer.Words.{le_bytes, length-le_bytes, put_word-Holds, get_word-eq}
use swift_snails.Route.{
  BaseRoute, ServerWorkerRoute, register_node, put_nodes, put_route, get_nodes, get_route, rounds,
}
use swift_snails.Route.Entries.{IsConsistent, register_node-adds}

-- An entry of the route as the nodes are registered: an id that is an int, and a printed address.
pub record Printed (rcd : ℕ × List ℕ) : Type 0 where
  pub ip : Addr
  pub fits : Fits ip
  pub printed : rcd.1 ≡ tcp_head ++ to_string ip
  pub small : rcd.0 < 2 ^ 31

-- What `bb >> route` makes of the entries: each but that of the master is registered.
abbrev register_all : List (ℕ × List ℕ) → BaseRoute → Result BaseRoute
register_all [] r = ok r
register_all ((id, addr) ∷ rcds) r = do
  r' ← if id == 0 then ok r else register_node id addr r
  register_all rcds r'

-- The bytes of the entries: they are what is written, and what is read as the entries.
record Written (m : List (ℕ × List ℕ)) : Type 0 where
  bytes : List ℕ
  puts :
      (stored rest : List ℕ) (b : Buffer)
      → Holds stored rest b
      → Returns (put_nodes m b) (Holds (stored ++ bytes) (rest ++ bytes))
  gets :
      (stored rest : List ℕ) (b : Buffer)
      → Holds stored (bytes ++ rest) b
      → (b' : Buffer) × ((r : BaseRoute)
          → get_nodes (length m) b r ≡ (register_all m r >>= (λ r'. ok (r', b'))))
        × Holds stored rest b'

bind_same :
    {A B C : Type 0} (x : Result A) (f : A → Result C) (g : A → Result B) (k : B → Result C)
    → ((a : A) → f a ≡ (g a >>= k))
    → (x >>= f) ≡ ((x >>= g) >>= k)
bind_same (ok a) f g k h = h a
bind_same (abort why) f g k h = refl

headswith-tcp : (rest : List ℕ) → headswith (tcp_head ++ rest) tcp_head ≡ true
unfolding headswith
headswith-tcp rest = refl

nodes-Written : (m : List (ℕ × List ℕ)) → All Printed m → Written m
unfolding put_nodes get_nodes
nodes-Written [] _ = record {
  bytes = [];
  puts = λ stored rest b h. (b, refl, rw (append-nil stored, append-nil rest) h);
  gets = λ stored rest b h. (b, (λ r. refl), h);
}
nodes-Written ((id, addr) ∷ m) (p, ps) =
    let w = nodes-Written m ps in
    record {
      bytes = le_bytes 4 id ++ (addr_wire p.ip ++ w.bytes);
      puts = λ stored rest b h.
          let (b₁, r₁, h₁) = put_word-Holds 4 id b h (omega arith) in
          let (b₂, r₂, h₂) = put_addr-Holds p.ip b₁ h₁ in
          let (b₃, r₃, h₃) = w.puts _ _ b₂ h₂ in
          let parsed : from_string (drop 6 addr) ≡ ok p.ip =
            ap (λ s. from_string (drop 6 s)) p.printed ∙ (from_string-to_string p.ip p.fits).0 in
          let headed : headswith addr tcp_head ≡ true =
            ap (λ s. headswith s tcp_head) p.printed ∙ headswith-tcp _ in
          (
            b₃,
            rw (r₁, ◌>>=◌, headed, parsed, r₂) r₃,
            rw (append_assoc, append_assoc, append_assoc, append_assoc) at h₃,
          );
      gets = λ stored rest b h.
          let (b₁, r₁, h₁) =
            get_word-eq 4 id b (rw append_assoc at h) (omega arith) (omega (arith, p.small)) in
          let (b₂, r₂, h₂) = get_addr-eq p.ip b₁ (rw append_assoc at h₁) p.fits in
          let (b₃, r₃, h₃) = w.gets stored rest b₂ h₂ in
          (
            b₃,
            (λ r.
                rw (r₁, ◌>>=◌, r₂, p.printed)
                  (bind_same
                    (if id == 0 then ok r else register_node id (tcp_head ++ to_string p.ip) r)
                    (get_nodes (length m) b₂) (register_all m) (λ r'. ok (r', b₃)) r₃)),
            h₃,
          );
    }

-- The entries that are registered: the addresses of all but the master, which keeps its own.
abbrev pub joined : List (ℕ × List ℕ) → BaseRoute → ℕ → Option (List ℕ)
joined m r j =
    if j == 0
    then lookup 0 r.send_addrs
    else elim (lookup j m) [ none ↦ lookup j r.send_addrs | some addr ↦ some addr ]

register_all-joined :
    (m : List (ℕ × List ℕ)) (r : BaseRoute)
    → IsConsistent r
    → Ascending m
    → ((j : ℕ) → 0 < j → lookup j m ≢ none → lookup j r.send_addrs ≡ none)
    → Returns
        (register_all m r)
        λ r'. IsConsistent r' × ((j : ℕ) → lookup j r'.send_addrs ≡ joined m r j)
unfolding lookup
register_all-joined [] r c _ free = (r, refl, (c, λ j. ground arith))
register_all-joined ((zero, addr) ∷ m) r c (above, up) free =
    let (r', run, (c', reads)) =
      register_all-joined m r c up (λ j pos there. ground (arith, free j)) in
    (r', run, (c', λ j. ground (arith, reads j)))
register_all-joined ((suc id, addr) ∷ m) r c (above, up) free =
    let (r₁, run₁, (c₁, reads₁, _)) =
      register_node-adds (suc id) addr r c (ground (arith, free (suc id))) in
    let (r', run, (c', reads)) =
      register_all-joined m r₁ c₁ up
        (λ j pos there. ground (arith, reads₁ j, free j, lookup-Above j (suc id) m above)) in
    let other : (suc id == 0) ≡ false = ground arith in
    (
      r',
      rw (other, run₁, ◌>>=◌) run,
      (c', λ j. ground (arith, reads j, reads₁ j, lookup-Above j (suc id) m above)),
    )

-- A route that can be written: its ids ascend, as those of a map do, each address is printed, and the
-- counts of the nodes are right.
pub record Sendable (r : ServerWorkerRoute) : Type 0 where
  pub ascending : Ascending r.base.send_addrs
  pub printed : All Printed r.base.send_addrs
  pub sized : length r.base.send_addrs ≡ r.server_num + r.worker_num
  pub few : r.server_num + r.worker_num < 2 ^ 31

-- A node that knows no other node than the master.
pub record IsNew (r : ServerWorkerRoute) : Type 0 where
  pub consistent : IsConsistent r.base
  pub alone : (j : ℕ) → 0 < j → lookup j r.base.send_addrs ≡ none

-- The route of a node after it has read that of the master.
pub record Joined (master before after : ServerWorkerRoute) : Type 0 where
  pub consistent : IsConsistent after.base
  pub servers : after.server_num ≡ master.server_num
  pub workers : after.worker_num ≡ master.worker_num
  pub addrs :
      (j : ℕ)
      → lookup j after.base.send_addrs
        ≡ (if j == 0 then lookup 0 before.base.send_addrs else lookup j master.base.send_addrs)
  pub server_ids : after.server_ids ≡ before.server_ids
  pub worker_ids : after.worker_ids ≡ before.worker_ids

-- The bytes of a route: they are what is written, and a node that reads them joins.
pub record RouteWritten (r : ServerWorkerRoute) : Type 0 where
  pub bytes : List ℕ
  pub some_bytes : 0 < length bytes
  pub puts :
      (stored rest : List ℕ) (b : Buffer)
      → Holds stored rest b
      → Returns (put_route r b) (Holds (stored ++ bytes) (rest ++ bytes))
  pub gets :
      (stored rest : List ℕ) (b : Buffer) (node : ServerWorkerRoute)
      → Holds stored (bytes ++ rest) b
      → IsNew node
      → Returns (get_route b node) λ p. Joined r node p.0 × Holds stored rest p.1

pub route-RouteWritten : (r : ServerWorkerRoute) → Sendable r → RouteWritten r
unfolding put_route get_route
route-RouteWritten r v =
    let w = nodes-Written r.base.send_addrs v.printed in
    record {
      bytes = le_bytes 4 r.server_num ++ (le_bytes 4 r.worker_num ++ w.bytes);
      some_bytes = omega (
        arith,
        length-le_bytes 4 r.server_num,
        length-append (le_bytes 4 r.server_num) (le_bytes 4 r.worker_num ++ w.bytes),
      );
      puts = λ stored rest b h.
          let (b₁, r₁, h₁) = put_word-Holds 4 r.server_num b h (omega arith) in
          let (b₂, r₂, h₂) = put_word-Holds 4 r.worker_num b₁ h₁ (omega arith) in
          let (b₃, r₃, h₃) = w.puts _ _ b₂ h₂ in
          let counted : (length r.base.send_addrs == r.server_num + r.worker_num) ≡ true =
            ground (arith, v.sized) in
          (
            b₃,
            rw (r₁, ◌>>=◌, r₂, counted) r₃,
            rw (append_assoc, append_assoc, append_assoc, append_assoc) at h₃,
          );
      gets = λ stored rest b node h new.
          let (b₁, r₁, h₁) =
            get_word-eq 4 r.server_num b (rw append_assoc at h) (omega arith)
              (omega (arith, v.few)) in
          let (b₂, r₂, h₂) =
            get_word-eq 4 r.worker_num b₁ (rw append_assoc at h₁) (omega arith)
              (omega (arith, v.few)) in
          let (b₃, r₃, h₃) = w.gets stored rest b₂ h₂ in
          let (base, joins, (c, reads)) =
            register_all-joined r.base.send_addrs node.base new.consistent v.ascending
              (λ j pos there. new.alone j pos) in
          let turns : rounds r.server_num r.worker_num ≡ length r.base.send_addrs =
            ground (arith, v.sized, v.few) in
          (
            (record node { base = base; server_num = r.server_num; worker_num = r.worker_num }, b₃),
            rw (r₁, ◌>>=◌, r₂, turns, r₃ node.base, joins) refl,
            (
              record {
                consistent = c;
                servers = refl;
                workers = refl;
                addrs = λ j. ground (arith, reads j, new.alone j);
                server_ids = refl;
                worker_ids = refl;
              },
              h₃,
            ),
          );
    }

-- A route is written to a buffer with nothing unread and read by a node that knows only the master:
-- both succeed and leave nothing unread, and the node has the counts, the master's address that it
-- had, and every other address of the route. Its lists of server and worker ids stay as they were.
pub get_route-put_route :
    {stored : List ℕ} (r node : ServerWorkerRoute) (b : Buffer)
    → Sendable r
    → IsNew node
    → Holds stored [] b
    → Returns
        (put_route r b >>= (λ b'. get_route b' node))
        λ p. Joined r node p.0 × ((bytes : List ℕ) × Holds (stored ++ bytes) [] p.1)
get_route-put_route r node b v new h =
    let w = route-RouteWritten r v in
    let (b₁, r₁, h₁) = w.puts _ _ b h in
    let (p, r₂, (joins, held)) = w.gets _ [] b₁ node (rw append-nil h₁) new in
    (p, rw (r₁, ◌>>=◌) r₂, (joins, (w.bytes, held)))
