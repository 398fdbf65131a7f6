-- ===== src/Master/Nodes.antt =====
-- The nodes that the master knows.
use swift_snails.Base.{
  ℕ, zero, suc, ◌+◌, ◌-◌, ◌<◌, ◌≡◌, ◌≢◌, refl, ap, ◌∙◌, arith, List, [], ◌∷◌, ◌++◌, none, some, ok,
  not, ltb, ◌||◌, nonneg, eq_int, pos, ◌>>=◌, ◌==◌, if◌then◌else◌, Returns, negsuc, true, false,
  Bool,
}
use swift_snails.Base.Map.{
  lookup, assign, nat_ordered, lookup-assign, lookup-assign_self, length-assign,
}
use swift_snails.Base.Ascending.{assign-Ascending, All-assign}
use swift_snails.Buffer.Contents.{Holds}
use swift_snails.Addr.{Addr, to_string, tcp_head}
use swift_snails.Addr.Parsing.{Fits}
use swift_snails.Addr.Wire.{addr_wire, get_addr-eq}
use swift_snails.Message.{Request, is_server}
use swift_snails.Route.{ServerWorkerRoute, id_max_range}
use swift_snails.Route.Entries.{with_node}
use swift_snails.Route.Ids
use swift_snails.Route.Ids.{
  given_id, grown, given_id-free, grown-IsValid, grown-reads, register_node_-grown,
}
use swift_snails.Route.Wire.{Printed, Sendable}
use swift_snails.Master.{Master, node_init_address}

-- The numbers below n.
abbrev pub upto : ℕ → List ℕ
upto zero = []
upto (suc n) = upto n ++ n ∷ []

-- The route can be sent and has the master and the servers under the ids from 0 on, the counts are
-- those of the route without the master, and each other node waits for the answer to a message.
pub record IsValid (m : Master) : Type 0 where
  pub route : Ids.IsValid m.route
  pub sendable : Sendable m.route
  pub servers : m.registered_server_num + 1 ≡ m.route.server_num
  pub nodes : m.registered_node_num + 1 ≡ m.route.server_num + m.route.worker_num
  pub ids : m.route.server_ids ≡ upto m.route.server_num
  pub served : (id : ℕ) → id < m.route.server_num → lookup id m.route.base.send_addrs ≢ none
  pub waits :
      (id : ℕ) → 0 < id → lookup id m.route.base.send_addrs ≢ none → lookup id m.init_msg_ids ≢ none

grown-Sendable :
    (server : Bool) (ip : Addr) (r : ServerWorkerRoute)
    → Ids.IsValid r
    → Sendable r
    → Fits ip
    → r.server_num + r.worker_num + 1 < id_max_range
    → Sendable (grown server (tcp_head ++ to_string ip) r)
unfolding with_node
grown-Sendable true ip r v s f few =
    let new = given_id-free true r v few in
    record {
      ascending = assign-Ascending _ _ _ s.ascending;
      printed =
          All-assign Printed _ _ _ s.printed
            (record { ip = ip; fits = f; printed = refl; small = omega arith });
      sized = omega (
        arith,
        length-assign r.server_num (tcp_head ++ to_string ip) r.base.send_addrs new,
        s.sized,
      );
      few = omega arith;
    }
grown-Sendable false ip r v s f few =
    let new = given_id-free false r v few in
    record {
      ascending = assign-Ascending _ _ _ s.ascending;
      printed =
          All-assign Printed _ _ _ s.printed
            (record { ip = ip; fits = f; printed = refl; small = omega arith });
      sized = omega (
        arith,
        length-assign (id_max_range - (r.worker_num + 1)) (tcp_head ++ to_string ip)
            r.base.send_addrs new,
        s.sized,
      );
      few = omega arith;
    }

-- The master after a node has registered.
abbrev pub after_init : Request → Addr → Master → Master
after_init request ip m =
    let server = is_server request in
    let nodes = m.registered_node_num + 1 in
    record {
      route = grown server (tcp_head ++ to_string ip) m.route;
      hashfrag = m.hashfrag;
      init_msg_ids = assign (given_id server m.route) request.meta.message_id m.init_msg_ids;
      registered_node_num = nodes;
      registered_server_num =
          if server then m.registered_server_num + 1 else m.registered_server_num;
      expected_node_num = m.expected_node_num;
      route_init = if nodes == m.expected_node_num then true else m.route_init;
    }

grown_servers :
    (server : Bool) (addr : List ℕ) (m : Master)
    → IsValid m
    → (if server then m.registered_server_num + 1 else m.registered_server_num) + 1
      ≡ (grown server addr m.route).server_num
grown_servers true addr m v = ap (λ k. k + 1) v.servers
grown_servers false addr m v = v.servers

grown_nodes :
    (server : Bool) (addr : List ℕ) (m : Master)
    → IsValid m
    → m.registered_node_num + 1 + 1
      ≡ (grown server addr m.route).server_num + (grown server addr m.route).worker_num
grown_nodes true addr m v = omega (arith, v.nodes)
grown_nodes false addr m v = omega (arith, v.nodes)

grown_served :
    (server : Bool) (addr : List ℕ) (m : Master)
    → IsValid m
    → (id : ℕ) → id < (grown server addr m.route).server_num
    → lookup id (grown server addr m.route).base.send_addrs ≢ none
grown_served true addr m v id lt = ground (arith, grown-reads true addr m.route id, v.served id)
grown_served false addr m v id lt = ground (arith, grown-reads false addr m.route id, v.served id)

grown_ids :
    (server : Bool) (addr : List ℕ) (m : Master)
    → IsValid m
    → (grown server addr m.route).server_ids ≡ upto (grown server addr m.route).server_num
grown_ids true addr m v =
    let next : suc m.route.server_num ≡ m.route.server_num + 1 = omega arith in
    ap (λ l. l ++ m.route.server_num ∷ []) v.ids ∙ ap upto next
grown_ids false addr m v = v.ids

given_pos :
    (server : Bool) (m : Master)
    → IsValid m
    → m.registered_node_num + 2 < id_max_range
    → 0 < given_id server m.route
given_pos server m v few = ground (arith, v.nodes, v.servers)

module _ (request : Request) (ip : Addr) (m : Master) (v : IsValid m)
    (few : m.registered_node_num + 2 < id_max_range) (f : Fits ip) where
  pub after_init-IsValid : IsValid (after_init request ip m)
  after_init-IsValid =
      let server = is_server request in
      let addr = tcp_head ++ to_string ip in
      let room : m.route.server_num + m.route.worker_num + 1 < id_max_range =
        omega (arith, v.nodes) in
      let reads = grown-reads server addr m.route in
      record {
        route = grown-IsValid server addr m.route v.route room;
        sendable = grown-Sendable server ip m.route v.route v.sendable f room;
        servers = grown_servers server addr m v;
        nodes = grown_nodes server addr m v;
        ids = grown_ids server addr m v;
        served = grown_served server addr m v;
        waits = λ id pos there. ground (
          arith,
          reads id,
          lookup-assign (given_id server m.route) id request.meta.message_id m.init_msg_ids,
          v.waits id,
        );
      }

  pub node_init_address-run :
      {stored : List ℕ} (rest : List ℕ) (n : ℕ)
      → Holds stored (addr_wire ip ++ rest) request.cont
      → request.meta.client_id ≡ negsuc n
      → node_init_address request m ≡ ok (after_init request ip m)
  unfolding node_init_address is_server
  node_init_address-run rest n h unset =
      let (b, read, held) = get_addr-eq ip request.cont h f in
      let id = request.meta.client_id in
      let passes : (not (nonneg id) || eq_int id (pos 0)) ≡ true = rw unset refl in
      let pos : ltb 0 (given_id (is_server request) m.route) ≡ true =
        ground (arith, given_pos (is_server request) m v few) in
      rw
        (
          read,
          ◌>>=◌,
          passes,
          register_node_-grown (is_server request) (tcp_head ++ to_string ip) m.route v.route
              (omega (arith, v.nodes)),
          pos,
        )
        refl

  -- A node that has no id yet registers with the master, which has room for it: the invariant of the
  -- master is kept, and the node has a fresh id other than the master's, its address in the route and
  -- its message to answer; the other addresses are as they were and one more node is counted.
  pub node_init_address-IsValid :
      {stored : List ℕ} (rest : List ℕ) (n : ℕ)
      → Holds stored (addr_wire ip ++ rest) request.cont
      → request.meta.client_id ≡ negsuc n
      → Returns (node_init_address request m) λ m'.
        IsValid m'
        × ((id : ℕ) × (0 < id)
            × (lookup id m.route.base.send_addrs ≡ none)
            × ((j : ℕ)
                → lookup j m'.route.base.send_addrs ≡ (
                    if j == id
                    then some (tcp_head ++ to_string ip)
                    else lookup j m.route.base.send_addrs))
            × (lookup id m'.init_msg_ids ≡ some request.meta.message_id))
        × (m'.registered_node_num ≡ m.registered_node_num + 1)
  node_init_address-IsValid rest n h unset =
      let server = is_server request in
      let id = given_id server m.route in
      (
        after_init request ip m,
        node_init_address-run rest n h unset,
        (
          after_init-IsValid,
          (
            id,
            given_pos server m v few,
            given_id-free server m.route v.route (omega (arith, v.nodes)),
            grown-reads server (tcp_head ++ to_string ip) m.route,
            lookup-assign_self id request.meta.message_id m.init_msg_ids,
          ),
          refl,
        ),
      )
