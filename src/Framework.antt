-- ===== src/Framework.antt =====
-- src/core/framework/SwiftServer.h: the main thread of a server, which joins, asks for the table of
-- fragments, registers its handlers and waits to be told to end, beside the threads of its listener,
-- which receive packages, and those of its channel, which run the tasks. A package is received, and a
-- task is run, in one step; the main thread stops where it waits for a flag and goes on in a later step.
pub mod Classes
pub mod Ordering
pub mod Keeping
pub mod Running
pub mod Starting
mod Tests
use swift_snails.Base.{ℕ, List, [], ◌∷◌, ◌++◌, Result, ok, ◌>>=◌, Bool, true, false, if◌then◌else◌}
use swift_snails.Base.HashMap.{HashMap}
use swift_snails.Buffer.Codec.{Codec}
use swift_snails.Message.{Request, Package, new_request}
use swift_snails.Transfer.{Transfer, Task, serve, call_back, add, receive, serve_request}
use swift_snails.SparseTable
use swift_snails.SparseTable.{PullMethod, PushMethod}
use swift_snails.Server.{PushState, pull_handler, push_handler}
use swift_snails.Master.{MsgCls, number}
use swift_snails.NodeInit.{
  Node, Callback, register_master, register_local_node_to_master, route_response, askfor_hashfrag,
  hashfrag_response,
}
use swift_snails.Terminate.{server_told}

-- The handlers that a server registers.
pub data Handler : Type 0 where
  pull push told : Handler

-- Where the main thread is in operator(): before it, in the wait to have joined and the one for the
-- table, after the registration of one and of two handlers, in the last wait, and after it.
pub data Phase : Type 0 where
  fresh joining asking pulling pushing serving ended : Phase

-- What a server does next: its main thread, a listener thread with a package, or a channel thread.
pub data Event : Type 0 where
  goes_on : Event
  arrives : Package → Event
  runs_task : Event

-- a registration: that of init_pull_method(), of init_push_method() or of terminate()
unfoldable pub register_handler :
    {B : Type 0} → MsgCls → Handler → Transfer Handler B → Result (Transfer Handler B)
register_handler class h t = do
  classes ← add (number class) h t.message_class
  ok (record t { message_class = classes })

-- What a program and its configuration supply: the types of parameters and gradients with their map
-- and codecs, the access methods, the default parameter, the printing of a parameter, and the addresses.
pub record ServerSetup : Type 1 where
  pub V : Type 0
  pub G : Type 0
  pub hash_map : HashMap V
  pub key_codec : Codec ℕ
  pub val_codec : Codec V
  pub grad_codec : Codec G
  pub pull_method : PullMethod V V
  pub push_method : PushMethod V G
  pub default : V
  pub show : V → List ℕ
  pub master_addr : List ℕ
  pub recv_addr : List ℕ

module _ (C : ServerSetup) where
  open C use {
    hash_map, key_codec, val_codec, grad_codec, pull_method, push_method, default, show,
    master_addr, recv_addr,
  }

  pub record SwiftServer : Type 0 where
    pub node : Node Handler
    pub push_state : PushState hash_map key_codec grad_codec push_method
    pub printed : List ℕ
    pub told_to_end : Bool
    pub phase : Phase

  -- operator(), from where it is to the next wait or registration
  unfoldable pub go_on : Phase → SwiftServer → Result SwiftServer
  unfolding register_handler
  go_on fresh s = do
    node₁ ← register_master master_addr s.node
    node₂ ← register_local_node_to_master true recv_addr node₁
    ok (record s { node = node₂; phase = joining })
  go_on joining s =
      if s.node.route_init
      then (do node ← askfor_hashfrag s.node; ok (record s { node = node; phase = asking }))
      else ok s
  go_on asking s =
      if s.node.hashfrag_init
      then (do
        t ← register_handler MsgCls.worker_pull_request pull s.node.transfer
        ok (record s { node = record s.node { transfer = t }; phase = pulling }))
      else ok s
  go_on pulling s = do
    t ← register_handler MsgCls.worker_push_request push s.node.transfer
    ok (record s { node = record s.node { transfer = t }; phase = pushing })
  go_on pushing s = do
    t ← register_handler MsgCls.server_told_to_terminate told s.node.transfer
    ok (record s { node = record s.node { transfer = t }; phase = serving })
  go_on serving s = if s.told_to_end then ok (record s { phase = ended }) else ok s
  go_on ended s = ok s

  -- a handler on a request and a new response; the one of SERVER_TOLD_TO_TERMINATE prints the table
  unfoldable pub handle : Handler → Request → SwiftServer → Result (Request × SwiftServer)
  handle pull q s = do
    (cont, table) ←
        pull_handler hash_map key_codec val_codec pull_method default q.cont new_request.cont
          s.push_state.table
    ok (
      record new_request { cont = cont },
      record s { push_state = record s.push_state { table = table } },
    )
  handle push q s = do
    (cont, push_state) ←
        push_handler hash_map key_codec grad_codec push_method q.cont new_request.cont s.push_state
    ok (record new_request { cont = cont }, record s { push_state = push_state })
  handle told q s = do
    let text = SparseTable.output hash_map show s.push_state.table
    (made, flag) ← server_told q new_request s.told_to_end
    ok (made, record s { printed = s.printed ++ text; told_to_end = flag })

  -- a callback of the node's own calls
  unfoldable pub called_back : Callback → Request → SwiftServer → Result SwiftServer
  called_back Callback.init_route q s = do
    node ← route_response q s.node
    ok (record s { node = node })
  called_back Callback.init_hashfrag q s = do
    node ← hashfrag_response q s.node
    ok (record s { node = node })

  -- a task of the channel
  unfoldable pub run_task : Task Handler Callback → SwiftServer → Result SwiftServer
  unfolding handle called_back
  run_task (serve h q) s = do
    (made, s') ← handle h q s
    t ← serve_request (λ request response. ok made) s'.node.route.base.send_addrs q s'.node.transfer
    ok (record s' { node = record s'.node { transfer = t } })
  run_task (call_back b q) s = called_back b q s

  -- the oldest task, if there is one
  unfoldable pub run_next : List (Task Handler Callback) → SwiftServer → Result SwiftServer
  unfolding run_task
  run_next [] s = ok s
  run_next (task ∷ rest) s =
      run_task task
        (record s { node = record s.node { transfer = record s.node.transfer { tasks = rest } } })

  unfoldable pub step : Event → SwiftServer → Result SwiftServer
  unfolding go_on run_next
  step goes_on s = go_on s.phase s
  step (arrives pkg) s = do
    t ← receive pkg s.node.transfer
    ok (record s { node = record s.node { transfer = t } })
  step runs_task s = run_next s.node.transfer.tasks s

  unfoldable pub run_events : List Event → SwiftServer → Result SwiftServer
  unfolding step
  run_events [] s = ok s
  run_events (e ∷ es) s = do s' ← step e s; run_events es s'
