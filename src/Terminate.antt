-- ===== src/Terminate.antt =====
-- The end of a run: src/core/system/master/terminate.h (the master waits until all the workers have
-- finished and then tells the servers), server/terminate.h and worker/terminate.h, with
-- src/core/framework/SwiftMaster.h. A barrier is the
-- flag that it waits for; the printing of the parameters by a server is left out.
pub mod Counting
pub mod Telling
pub mod Finishing
mod Tests
use swift_snails.Base.{
  ℕ, ◌+◌, List, [], ◌∷◌, Result, ok, ◌>>=◌, ◌>>◌, check, ltb, ◌==◌, Bool, true, false,
  if◌then◌else◌,
}
use swift_snails.Buffer
use swift_snails.Buffer.Words.{put_word}
use swift_snails.Message.{Request, new_request}
use swift_snails.Transfer.{Transfer, add, send}
use swift_snails.Master
use swift_snails.Master.{Master, MsgCls, number}
use swift_snails.NodeInit.{set_class}

pub record MasterTerminate : Type 0 where
  pub worker_num : ℕ
  pub server_num : ℕ
  pub num_finished_workers : ℕ
  pub num_finished_servers : ℕ
  pub workers_finished : Bool
  pub servers_finished : Bool

unfoldable pub new_terminate : MasterTerminate
new_terminate = record {
  worker_num = 0;
  server_num = 0;
  num_finished_workers = 0;
  num_finished_servers = 0;
  workers_finished = false;
  servers_finished = false;
}

unfoldable pub set_worker_num : ℕ → MasterTerminate → Result MasterTerminate
set_worker_num x m = do check (ltb 0 x); ok (record m { worker_num = x })

unfoldable pub set_server_num : ℕ → MasterTerminate → Result MasterTerminate
set_server_num x m = do check (ltb 0 x); ok (record m { server_num = x })

-- SwiftMaster, between its two parts: the counts of the nodes that have registered
unfoldable pub set_counts : Master → MasterTerminate → Result MasterTerminate
unfolding set_worker_num set_server_num
set_counts master m = do
  m' ← set_worker_num (Master.worker_num master) m
  set_server_num (Master.server_num master) m'

-- the CHECKs with which operator() begins
unfoldable pub check_counts : MasterTerminate → Result MasterTerminate
check_counts m = do check (ltb 0 m.worker_num); check (ltb 0 m.server_num); ok m

-- _num_finished_workers++, and the test of it
unfoldable pub count_worker : MasterTerminate → MasterTerminate
count_worker m =
    let n = m.num_finished_workers + 1 in
    record m {
      num_finished_workers = n;
      workers_finished = if n == m.worker_num then true else m.workers_finished;
    }

-- the handler of WORKER_FINISH_WORK
unfoldable pub get_worker_finish_work :
    Request → Request → MasterTerminate → Result (Request × MasterTerminate)
unfolding count_worker
get_worker_finish_work request response m = do
  cont ← put_word 4 1234 response.cont
  ok (record response { cont = cont }, count_worker m)

-- the callback of a request to a server
unfoldable pub server_response : MasterTerminate → MasterTerminate
server_response m =
    let n = m.num_finished_servers + 1 in
    record m {
      num_finished_servers = n;
      servers_finished = if n == m.server_num then true else m.servers_finished;
    }

module _ {H B : Type 0} where
  -- wait_for_all_workers_finish(), up to the wait
  unfoldable pub wait_for_all_workers_finish : H → Transfer H B → Result (Transfer H B)
  wait_for_all_workers_finish handler t = do
    classes ← add (number MsgCls.worker_finish_work) handler t.message_class
    ok (record t { message_class = classes })

  -- the request to one server
  unfoldable pub tell_server :
      {A : Type 0} → List (ℕ × A) → B → ℕ → Transfer H B → Result (Transfer H B)
  tell_server addrs callback id t = do
    cont ← put_word 4 1234 Buffer.new
    let req = set_class MsgCls.server_told_to_terminate (record new_request { cont = cont })
    send addrs req callback id t

  -- the loop of tell_all_servers_to_terminate() over the ids of the servers; the master is skipped
  unfoldable pub tell_servers :
      {A : Type 0} → List (ℕ × A) → B → List ℕ → Transfer H B → Result (Transfer H B)
  unfolding tell_server
  tell_servers addrs callback [] t = ok t
  tell_servers addrs callback (id ∷ ids) t = do
    t' ← if id == 0 then ok t else tell_server addrs callback id t
    tell_servers addrs callback ids t'

  -- tell_all_servers_to_terminate(), up to the wait
  unfoldable pub tell_all_servers_to_terminate :
      {A : Type 0}
      → List (ℕ × A)
      → B
      → List ℕ
      → MasterTerminate
      → Transfer H B
      → Result (MasterTerminate × Transfer H B)
  unfolding tell_servers
  tell_all_servers_to_terminate addrs callback ids m t = do
    t' ← tell_servers addrs callback ids t
    ok (record m { num_finished_servers = 0 }, t')

  -- worker_send_finish_message(), up to the wait
  unfoldable pub worker_send_finish_message :
      {A : Type 0} → List (ℕ × A) → B → Transfer H B → Result (Transfer H B)
  worker_send_finish_message addrs callback t = do
    cont ← put_word 4 1234 Buffer.new
    let req = set_class MsgCls.worker_finish_work (record new_request { cont = cont })
    send addrs req callback 0 t

-- the handler of SERVER_TOLD_TO_TERMINATE: the flag of the server is set before the response is made
unfoldable pub server_told : Request → Request → Bool → Result (Request × Bool)
server_told request response waits = do
  cont ← put_word 4 1234 response.cont
  ok (record response { cont = cont }, true)
