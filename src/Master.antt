-- ===== src/Master.antt =====
-- src/core/system/master/init.h and message_classes.h: how the master registers the nodes, divides the fragments among the
-- servers and answers who asks for the table. The barrier is the flag that it waits for.
pub mod Nodes
pub mod Replies
pub mod Examples
mod Tests
use swift_snails.Base.{
  ℕ, zero, suc, ◌+◌, ◌-◌, List, [], ◌∷◌, ◌++◌, none, some, Result, ok, abort, ◌>>=◌, ◌>>◌, check,
  ltb, ◌==◌, ◌||◌, Bool, true, false, if◌then◌else◌, ℤ, pos, negsuc, eq_int, nonneg, not,
}
use swift_snails.Base.Map.{lookup, assign, nat_ordered}
use swift_snails.Addr.{Addr, tcp_head, to_string, get_addr}
use swift_snails.Buffer
use swift_snails.HashFrag.{HashFrag, set_num_nodes, init, serialize}
use swift_snails.Message.{MetaMessage, Request, new_request, set_msg_id, set_response, is_server}
use swift_snails.Transfer.{Transfer, add, send_response}
use swift_snails.Route.{ServerWorkerRoute, register_node_, put_route}

-- MSG_CLS of src/core/system/message_classes.h, and its values.
pub data MsgCls : Type 0 where
  node_init node_askfor worker_pull_request worker_push_request worker_finish_work
        server_told_to_terminate :
      MsgCls

abbrev pub number : MsgCls → ℕ
number node_init = 0
number node_askfor = 1
number worker_pull_request = 2
number worker_push_request = 3
number worker_finish_work = 4
number server_told_to_terminate = 5

-- register_message_class(), with the two handlers
unfoldable pub register_message_class :
    {H B : Type 0} → H → H → Transfer H B → Result (Transfer H B)
register_message_class init_address askfor_hashfrag t = do
  c₁ ← add (number node_init) init_address t.message_class
  c₂ ← add (number node_askfor) askfor_hashfrag c₁
  ok (record t { message_class = c₂ })

pub record Master : Type 0 where
  pub route : ServerWorkerRoute
  pub hashfrag : HashFrag
  pub init_msg_ids : List (ℕ × ℕ)
  pub registered_node_num : ℕ
  pub registered_server_num : ℕ
  pub expected_node_num : ℕ
  pub route_init : Bool

-- MasterTransferInit(): the master is the server with id 0
unfoldable pub register_master : List ℕ → Master → Result Master
register_master addr m = do
  (_, route) ← register_node_ true addr m.route
  ok (record m { route = route })

-- node_init_address(request, response); the response stays empty
unfoldable pub node_init_address : Request → Master → Result Master
unfolding is_server
node_init_address request m = do
  (ip, _) ← get_addr request.cont
  check (not (nonneg request.meta.client_id) || eq_int request.meta.client_id (pos 0))
  (id, route) ← register_node_ (is_server request) (tcp_head ++ to_string ip) m.route
  check (ltb 0 id)
  let nodes = m.registered_node_num + 1
  ok (record {
    route = route;
    hashfrag = m.hashfrag;
    init_msg_ids = assign id request.meta.message_id m.init_msg_ids;
    registered_node_num = nodes;
    registered_server_num =
        if is_server request then m.registered_server_num + 1 else m.registered_server_num;
    expected_node_num = m.expected_node_num;
    route_init = if nodes == m.expected_node_num then true else m.route_init;
  })

-- server_num() and worker_num()
abbrev pub server_num : Master → ℕ
server_num m = m.registered_server_num

abbrev pub worker_num : Master → ℕ
worker_num m = m.registered_node_num - m.registered_server_num

-- init_hashfrag(), with frag_num from the configuration
unfoldable pub init_hashfrag : ℕ → Master → Result Master
init_hashfrag frag_num m = do
  h ← set_num_nodes m.registered_server_num m.hashfrag
  h' ← init frag_num h
  ok (record m { hashfrag = h' })

-- node_askfor_hashfrag(request, response)
unfoldable pub node_askfor_hashfrag : Request → Request → Master → Result Request
node_askfor_hashfrag request response m = do
  cont ← serialize m.hashfrag response.cont
  ok (record response { cont = cont })

-- init_msg_ids[id]
abbrev pub init_msg_id : ℕ → Master → ℕ
init_msg_id id m = elim (lookup id m.init_msg_ids) [ none ↦ 0 | some message ↦ message ]

-- the loop of send_route_to_workers() over the addresses; the master is skipped
unfoldable pub send_routes :
    {H B : Type 0} → List (ℕ × List ℕ) → Master → Transfer H B → Result (Transfer H B)
send_routes [] m t = ok t
send_routes ((id, addr) ∷ rcds) m t = do
  cont ← put_route m.route Buffer.new
  let response = set_msg_id (init_msg_id id m) (set_response (record new_request { cont = cont }))
  t' ← if id == 0 then ok t else send_response m.route.base.send_addrs response (pos id) t
  send_routes rcds m t'

unfoldable pub send_route_to_workers :
    {H B : Type 0} → Master → Transfer H B → Result (Transfer H B)
unfolding send_routes
send_route_to_workers m t = send_routes m.route.base.send_addrs m t
