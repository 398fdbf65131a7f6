-- ===== src/Route.antt =====
-- src/core/transfer/Route.h and src/core/system/ServerWorkerRoute.h: the addresses, mutexes and sockets
-- by node id, and the giving of ids. A socket of the network library is known by the address to which it
-- is connected; an address is its characters.
pub mod Entries
pub mod Ids
pub mod Wire
mod Tests
use swift_snails.Base.{
  ℕ, ◌+◌, ◌-◌, List, [], ◌∷◌, ◌++◌, Option, none, some, Result, ok, abort, ◌>>=◌, ◌>>◌, check,
  or_abort, check_failed, null_pointer, ◌==◌, ltb, length, drop, zero, suc, Bool, true, false, leb,
  if◌then◌else◌, ◌^◌, ◌%◌,
}
use swift_snails.Base.Map.{lookup, assign, erase, nat_ordered}
use swift_snails.Strings.{headswith}
use swift_snails.Addr.{to_string, from_string, put_addr, get_addr, tcp_head}
use swift_snails.Buffer.{Buffer}
use swift_snails.Buffer.Words.{put_word, get_word}

pub record BaseRoute : Type 0 where
  pub senders : List (ℕ × List ℕ)
  pub send_addrs : List (ℕ × List ℕ)
  pub send_mutexes : List (ℕ × Unit {0})

abbrev pub no_route : BaseRoute
no_route = record { senders = []; send_addrs = []; send_mutexes = [] }

-- `emplace`: a key that is there keeps its value
abbrev pub emplace : {V : Type 0} → ℕ → V → List (ℕ × V) → List (ℕ × V)
emplace id v m = elim (lookup id m) [ none ↦ assign id v m | some _ ↦ m ]

-- connect(id), from the address in the route, where operator[] makes an empty one
abbrev pub addr_of : ℕ → BaseRoute → List ℕ
addr_of id r = elim (lookup id r.send_addrs) [ none ↦ [] | some addr ↦ addr ]

-- register_node(id, addr)
unfoldable pub register_node : ℕ → List ℕ → BaseRoute → Result BaseRoute
register_node id addr r = elim (lookup id r.send_addrs) [
  | some _ ↦ abort check_failed
  | none ↦ ok (record r {
    send_addrs = emplace id addr r.send_addrs;
    send_mutexes = emplace id tt r.send_mutexes;
    senders =
        emplace id (addr_of id (record r { send_addrs = emplace id addr r.send_addrs })) r.senders;
  })
]

-- `CHECK(it != m.end()); m.erase(it)`
unfoldable pub erase_there : {V : Type 0} → ℕ → List (ℕ × V) → Result (List (ℕ × V))
erase_there id m = elim (lookup id m) [ none ↦ abort check_failed | some _ ↦ ok (erase id m) ]

-- delete_node(id): the log line reads the address by operator[], which makes an empty one
unfoldable pub delete_node : ℕ → BaseRoute → Result BaseRoute
unfolding erase_there
delete_node id r = do
  addrs ← erase_there id (emplace id [] r.send_addrs)
  mutexes ← erase_there id r.send_mutexes
  senders ← erase_there id r.senders
  ok (record { senders = senders; send_addrs = addrs; send_mutexes = mutexes })

-- ServerWorkerRoute, with `id_max_range` below
pub record ServerWorkerRoute : Type 0 where
  pub base : BaseRoute
  pub server_num : ℕ
  pub worker_num : ℕ
  pub server_ids : List ℕ
  pub worker_ids : List ℕ

abbrev pub id_max_range : ℕ
id_max_range = 2147483647

abbrev pub new_route : ServerWorkerRoute
new_route = record {
  base = no_route;
  server_num = 0;
  worker_num = 0;
  server_ids = [];
  worker_ids = [];
}

-- register_node_(is_server, addr), with `CHECK_GE(id, 0)` as the test that the subtraction has a result
unfoldable pub register_node_ : Bool → List ℕ → ServerWorkerRoute → Result (ℕ × ServerWorkerRoute)
unfolding register_node
register_node_ true addr r = do
  let id = r.server_num
  base ← register_node id addr r.base
  ok (id, record r { base = base; server_num = id + 1; server_ids = r.server_ids ++ id ∷ [] })
register_node_ false addr r = do
  let id = id_max_range - (r.worker_num + 1)
  base ← register_node id addr r.base
  check (leb (r.worker_num + 1) id_max_range)
  ok (
    id,
    record r { base = base; worker_num = r.worker_num + 1; worker_ids = r.worker_ids ++ id ∷ [] },
  )

-- the loop of `bb << route`, over the addresses
unfoldable pub put_nodes : List (ℕ × List ℕ) → Buffer → Result Buffer
put_nodes [] b = ok b
put_nodes ((id, addr) ∷ rcds) b = do
  b₁ ← put_word 4 id b
  check (headswith addr tcp_head)
  ip ← from_string (drop 6 addr)
  b₂ ← put_addr ip b₁
  put_nodes rcds b₂

-- bb << route
unfoldable pub put_route : ServerWorkerRoute → Buffer → Result Buffer
unfolding put_nodes
put_route r b = do
  b₁ ← put_word 4 r.server_num b
  b₂ ← put_word 4 r.worker_num b₁
  check (length r.base.send_addrs == r.server_num + r.worker_num)
  put_nodes r.base.send_addrs b₂

-- the loop of `bb >> route`, with the rounds left; the master, which is there already, is skipped
pub get_nodes : ℕ → Buffer → BaseRoute → Result (BaseRoute × Buffer)
get_nodes zero b r = ok (r, b)
get_nodes (suc n) b r = do
  (id, b₁) ← get_word 4 b
  (ip, b₂) ← get_addr b₁
  r' ← if id == 0 then ok r else register_node id (tcp_head ++ to_string ip) r
  get_nodes n b₂ r'

-- `_server_num + _worker_num` rounds, of two ints
abbrev pub rounds : ℕ → ℕ → ℕ
rounds servers workers = let n = (servers + workers) % 2 ^ 32 in if ltb n (2 ^ 31) then n else 0

-- bb >> route
unfoldable pub get_route : Buffer → ServerWorkerRoute → Result (ServerWorkerRoute × Buffer)
unfolding get_nodes
get_route b r = do
  (servers, b₁) ← get_word 4 b
  (workers, b₂) ← get_word 4 b₁
  (base, b₃) ← get_nodes (rounds servers workers) b₂ r.base
  ok (record r { base = base; server_num = servers; worker_num = workers }, b₃)
