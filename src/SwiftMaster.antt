-- ===== src/SwiftMaster.antt =====
-- src/core/framework/SwiftMaster.h: the main thread of the master beside its listener and its channel, in
-- steps as those of a server in Framework.antt. It waits until all the nodes have registered, shares the
-- fragments and the route, waits until the workers have finished, and tells the servers to end.
pub mod Keeping
pub mod Order
pub mod Advancing
pub mod Running
mod Tests
use swift_snails.Base.{
  ℕ, List, [], ◌∷◌, Result, ok, ◌>>=◌, ◌>>◌, check, Bool, true, false, not, if◌then◌else◌,
}
use swift_snails.Message.{Request, Package, new_request}
use swift_snails.Transfer.{Transfer, Task, serve, call_back, receive, serve_request}
use swift_snails.Master.{
  Master, register_message_class, node_init_address, node_askfor_hashfrag, init_hashfrag,
  send_route_to_workers,
}
use swift_snails.Terminate.{
  MasterTerminate, set_counts, check_counts, get_worker_finish_work, server_response,
  wait_for_all_workers_finish, tell_all_servers_to_terminate,
}

-- The handlers of the master, and its one callback.
pub data Handler : Type 0 where
  init_address askfor finish_work : Handler

pub data Callback : Type 0 where
  told_server : Callback

-- Where the main thread is: before operator(), in the waits for the nodes, for the workers and for the
-- servers, and after it.
pub data Phase : Type 0 where
  fresh registering collecting telling ended : Phase

pub data Event : Type 0 where
  goes_on : Event
  arrives : Package → Event
  runs_task : Event

pub record SwiftMaster : Type 0 where
  pub transfer : Transfer Handler Callback
  pub master_init : Master
  pub terminate : MasterTerminate
  pub phase : Phase

-- master_transfer_init() from the end of its wait, the two counts, and terminate() up to its first wait;
-- frag_num is from the configuration
unfoldable pub share_out : ℕ → SwiftMaster → Result SwiftMaster
share_out frag_num s = do
  m ← init_hashfrag frag_num s.master_init
  t ← send_route_to_workers m s.transfer
  counted ← set_counts m s.terminate
  e ← check_counts counted
  t' ← wait_for_all_workers_finish finish_work t
  ok (record { transfer = t'; master_init = m; terminate = e; phase = collecting })

-- tell_all_servers_to_terminate() up to its wait
unfoldable pub tell_all : SwiftMaster → Result SwiftMaster
tell_all s = do
  (e, t) ←
      tell_all_servers_to_terminate s.master_init.route.base.send_addrs told_server
        s.master_init.route.server_ids s.terminate s.transfer
  ok (record s { transfer = t; terminate = e; phase = telling })

-- operator(), from where it is to the next wait
unfoldable pub go_on : ℕ → Phase → SwiftMaster → Result SwiftMaster
unfolding share_out tell_all
go_on frag_num fresh s = do
  t ← register_message_class init_address askfor s.transfer
  check (not t.closed)
  ok (record s { transfer = t; phase = registering })
go_on frag_num registering s = if s.master_init.route_init then share_out frag_num s else ok s
go_on frag_num collecting s = if s.terminate.workers_finished then tell_all s else ok s
go_on frag_num telling s =
    if s.terminate.servers_finished then ok (record s { phase = ended }) else ok s
go_on frag_num ended s = ok s

-- a handler on a request and a new response
unfoldable pub handle : Handler → Request → SwiftMaster → Result (Request × SwiftMaster)
handle init_address q s = do
  m ← node_init_address q s.master_init
  ok (new_request, record s { master_init = m })
handle askfor q s = do made ← node_askfor_hashfrag q new_request s.master_init; ok (made, s)
handle finish_work q s = do
  (made, e) ← get_worker_finish_work q new_request s.terminate
  ok (made, record s { terminate = e })

-- a task of the channel
unfoldable pub run_task : Task Handler Callback → SwiftMaster → Result SwiftMaster
unfolding handle
run_task (serve h q) s = do
  (made, s') ← handle h q s
  t ← serve_request (λ request response. ok made) s'.master_init.route.base.send_addrs q s'.transfer
  ok (record s' { transfer = t })
run_task (call_back told_server q) s = ok (record s { terminate = server_response s.terminate })

-- the oldest task, if there is one
unfoldable pub run_next : List (Task Handler Callback) → SwiftMaster → Result SwiftMaster
unfolding run_task
run_next [] s = ok s
run_next (task ∷ rest) s =
    run_task task (record s { transfer = record s.transfer { tasks = rest } })

unfoldable pub step : ℕ → Event → SwiftMaster → Result SwiftMaster
unfolding go_on run_next
step frag_num goes_on s = go_on frag_num s.phase s
step frag_num (arrives pkg) s = do t ← receive pkg s.transfer; ok (record s { transfer = t })
step frag_num runs_task s = run_next s.transfer.tasks s

unfoldable pub run_events : ℕ → List Event → SwiftMaster → Result SwiftMaster
unfolding step
run_events frag_num [] s = ok s
run_events frag_num (e ∷ es) s = do s' ← step frag_num e s; run_events frag_num es s'
