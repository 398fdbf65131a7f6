-- ===== src/NodeInit.antt =====
-- src/core/system/node_init.h: how a server or a worker joins (NodeTransferInit) and asks for the table
-- of fragments (NodeHashfragInit). What the callback of a call does is known by its name, of the type
-- Callback; the barrier that it sets is the flag of the node.
pub mod Joining
pub mod Sharing
mod Tests
use swift_snails.Base.{ℕ, List, Result, ok, ◌>>=◌, Bool, true, false, if◌then◌else◌, ℤ, pos, negsuc}
use swift_snails.Addr.{from_string, put_addr}
use swift_snails.Buffer
use swift_snails.Buffer.Words.{put_word}
use swift_snails.HashFrag.{HashFrag, deserialize}
use swift_snails.Message.{Request, new_request, set_server, set_worker}
use swift_snails.Transfer.{Transfer, set_client_id, send}
use swift_snails.Route.{ServerWorkerRoute, register_node, get_route}
use swift_snails.Master.{MsgCls, number}

-- The callbacks of the two calls.
pub data Callback : Type 0 where
  init_route init_hashfrag : Callback

pub record Node (H : Type 0) : Type 0 where
  pub route : ServerWorkerRoute
  pub transfer : Transfer H Callback
  pub hashfrag : HashFrag
  pub route_init : Bool
  pub hashfrag_init : Bool

-- the class of a request
abbrev pub set_class : MsgCls → Request → Request
set_class c r = record r { meta = record r.meta { message_class = pos (number c) } }

module _ {H : Type 0} where
  -- register_master(), with master_addr from the configuration
  unfoldable pub register_master : List ℕ → Node H → Result (Node H)
  register_master master_addr node = do
    base ← register_node 0 master_addr node.route.base
    ok (record node { route = record node.route { base = base } })

  -- register_local_node_to_master(), with the address that the node listens to
  unfoldable pub register_local_node_to_master : Bool → List ℕ → Node H → Result (Node H)
  register_local_node_to_master is_server recv_addr node = do
    ip ← from_string recv_addr
    cont ← put_addr ip Buffer.new
    let request = set_class MsgCls.node_init (record new_request { cont = cont })
    let signed = if is_server then set_server request else set_worker request
    let t = set_client_id (negsuc 0) node.transfer
    t' ← send node.route.base.send_addrs signed Callback.init_route 0 t
    ok (record node { transfer = t' })

  -- the callback of it
  unfoldable pub route_response : Request → Node H → Result (Node H)
  route_response response node = do
    (route, _) ← get_route response.cont node.route
    ok (record node {
      route = route;
      transfer = set_client_id response.meta.client_id node.transfer;
      route_init = true;
    })

  -- askfor_hashfrag()
  unfoldable pub askfor_hashfrag : Node H → Result (Node H)
  askfor_hashfrag node = do
    cont ← put_word 4 123 Buffer.new
    let request = set_class MsgCls.node_askfor (record new_request { cont = cont })
    t' ← send node.route.base.send_addrs request Callback.init_hashfrag 0 node.transfer
    ok (record node { transfer = t' })

  -- the callback of it
  unfoldable pub hashfrag_response : Request → Node H → Result (Node H)
  hashfrag_response response node = do
    (hashfrag, _) ← deserialize response.cont node.hashfrag
    ok (record node { hashfrag = hashfrag; hashfrag_init = true })
