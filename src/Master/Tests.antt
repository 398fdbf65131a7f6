-- ===== src/Master/Tests.antt =====
-- Runs of the master.
use swift_snails.Base.{
  ℕ, ◌+◌, ◌<◌, ◌≡◌, ◌≢◌, refl, arith, [], ◌++◌, none, some, ok, abort, check_failed, false, ◌==◌,
  if◌then◌else◌, Returns, pos, negsuc, append-nil,
}
use swift_snails.Base.Map.{lookup, nat_ordered}
use swift_snails.Buffer
use swift_snails.Buffer.Contents.{Holds, new-Holds}
use swift_snails.HashFrag.{set_num_nodes, to_node_id}
use swift_snails.Addr.{to_string, put_addr, tcp_head}
use swift_snails.Addr.Wire.{addr_wire, put_addr-Holds}
use swift_snails.Message.{Request}
use swift_snails.Transfer.{opened}
use swift_snails.Route.{new_route}
use swift_snails.Route.Wire.{RouteWritten}
use swift_snails.Master.{Master, init_hashfrag, node_init_address, send_route_to_workers}
use swift_snails.Master.Nodes.{IsValid, node_init_address-IsValid}
use swift_snails.Master.Examples.{ip, fits, listed, one_server, one_server-IsValid}
use swift_snails.Master.Replies.{route_replies, send_route_to_workers-sends, init_hashfrag-routed}

abbrev no_nodes : Master
no_nodes = record {
  route = new_route;
  hashfrag = record { nodes = 0; frags = 0; map_table = none };
  init_msg_ids = [];
  registered_node_num = 0;
  registered_server_num = 0;
  expected_node_num = 10;
  route_init = false;
}

init-no_nodes : init_hashfrag 100 no_nodes ≡ abort check_failed
unfolding init_hashfrag set_num_nodes
init-no_nodes = refl

abbrev written :
    Returns (put_addr (ip 3) Buffer.new) (Holds ([] ++ addr_wire (ip 3)) ([] ++ addr_wire (ip 3)))
written = put_addr-Holds (ip 3) Buffer.new new-Holds

-- A worker that registers.
abbrev registering : Request
registering = record {
  meta = record { message_class = pos 0; client_id = negsuc 0; message_id = 4 };
  cont = written.0;
}

node_init_address-IsValid_example : Returns (node_init_address registering one_server) λ m'.
    IsValid m'
    × ((id : ℕ) × (0 < id)
        × (lookup id one_server.route.base.send_addrs ≡ none)
        × ((j : ℕ)
            → lookup j m'.route.base.send_addrs ≡ (
                if j == id
                then some (tcp_head ++ to_string (ip 3))
                else lookup j one_server.route.base.send_addrs))
        × (lookup id m'.init_msg_ids ≡ some 4))
    × (m'.registered_node_num ≡ 1 + 1)
node_init_address-IsValid_example =
    node_init_address-IsValid registering (ip 3) one_server one_server-IsValid (omega arith)
      (fits 3 (omega arith)) {stored = addr_wire (ip 3)} [] 0 (rw append-nil written.2) refl

send_route_to_workers-sends_example :
    (w : RouteWritten one_server.route) × (send_route_to_workers one_server (opened {H = ℕ} {B = ℕ})
      ≡ ok (record opened { sent = [] ++ route_replies w.bytes one_server listed }))
send_route_to_workers-sends_example =
    send_route_to_workers-sends one_server opened one_server-IsValid

init_hashfrag-routed_example : Returns (init_hashfrag 4 one_server) λ m'.
    Returns (to_node_id 99 m'.hashfrag) λ id. (0 < id) × (lookup id m'.route.base.send_addrs ≢ none)
init_hashfrag-routed_example =
    init_hashfrag-routed 4 99 one_server one_server-IsValid (omega arith) (omega arith)
