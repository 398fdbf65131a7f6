-- ===== src/SwiftMaster/Order.antt =====
-- The order in which the master runs: no server is told to end before all the workers have finished.
use swift_snails.Base.{ℕ, ◌+◌, ◌≡◌, sym, ap, subst, arith, List, ◌∷◌, true, false, ◌≤◌, ◌<◌}
use swift_snails.Base.Map.{nat_ordered}
use swift_snails.Message.{Request}
use swift_snails.Transfer.{Transfer, Task, call_back}
use swift_snails.Terminate.{MasterTerminate, count_worker, server_response}
use swift_snails.SwiftMaster.{
  Handler, Callback, Phase, fresh, registering, collecting, telling, ended, SwiftMaster,
}
use swift_snails.SwiftMaster.Keeping.{NoOrder, Right, finish_tasks, answer_tasks}

-- There are workers and servers, and as many last messages of workers have been counted as there are
-- workers.
abbrev pub AllFinished : MasterTerminate → Type 0
AllFinished e = (0 < e.worker_num) × (0 < e.server_num) × (e.worker_num ≤ e.num_finished_workers)

-- The numbers of the nodes are not set, and so neither is a flag.
abbrev pub Early : MasterTerminate → Type 0
Early e =
    (e.worker_num ≡ 0)
    × (e.server_num ≡ 0)
    × (e.workers_finished ≡ false)
    × (e.servers_finished ≡ false)

-- What each phase keeps.
abbrev pub Ordered : Phase → Transfer Handler Callback → MasterTerminate → Type 0
Ordered fresh t e = NoOrder t.sent × Early e
Ordered registering t e = NoOrder t.sent × Early e
Ordered collecting t e =
    NoOrder t.sent
    × (0 < e.worker_num)
    × (0 < e.server_num)
    × (e.workers_finished ≡ true → e.worker_num ≤ e.num_finished_workers)
Ordered telling t e = AllFinished e
Ordered ended t e = AllFinished e × (e.servers_finished ≡ true)

-- Of the a last messages of workers that have arrived each is counted or waits, and of the b answers no
-- more are counted or wait than have arrived.
pub record Counts (a b : ℕ) (t : Transfer Handler Callback) (e : MasterTerminate) : Type 0 where
  pub right : Right t.message_class
  pub workers : e.num_finished_workers + finish_tasks t.tasks ≡ a
  pub servers : e.num_finished_servers + answer_tasks t.tasks ≤ b
  pub all_servers : e.servers_finished ≡ true → e.server_num ≤ b

abbrev pub Kept : ℕ → ℕ → SwiftMaster → Type 0
Kept a b s = Counts a b s.transfer s.terminate × Ordered s.phase s.transfer s.terminate

-- A change of the messages and tasks alone.
pub transfer-Ordered :
    (p : Phase) (t t' : Transfer Handler Callback) (e : MasterTerminate)
    → (NoOrder t.sent → NoOrder t'.sent)
    → Ordered p t e
    → Ordered p t' e
transfer-Ordered fresh t t' e same (o, w) = (same o, w)
transfer-Ordered registering t t' e same (o, w) = (same o, w)
transfer-Ordered collecting t t' e same (o, w, s, f) = (same o, w, s, f)
transfer-Ordered telling t t' e same k = k
transfer-Ordered ended t t' e same k = k

pub transfer-Counts :
    (a b : ℕ) (t t' : Transfer Handler Callback) (e : MasterTerminate)
    → t'.message_class ≡ t.message_class
    → t'.tasks ≡ t.tasks
    → Counts a b t e
    → Counts a b t' e
transfer-Counts a b t t' e classes tasks c = record {
  right = subst Right (sym classes) c.right;
  workers = omega (arith, c.workers, ap finish_tasks tasks);
  servers = omega (arith, c.servers, ap answer_tasks tasks);
  all_servers = c.all_servers;
}

-- The count of the workers.
pub count-Ordered :
    (p : Phase) (t t' : Transfer Handler Callback) (e : MasterTerminate)
    → (NoOrder t.sent → NoOrder t'.sent)
    → Ordered p t e
    → Ordered p t' (count_worker e)
unfolding count_worker
count-Ordered fresh t t' e same (o, (w, s, f, g)) = (same o, (w, s, ground (arith, w, f), g))
count-Ordered registering t t' e same (o, (w, s, f, g)) = (same o, (w, s, ground (arith, w, f), g))
count-Ordered collecting t t' e same (o, some, some', w) =
    (same o, some, some', λ done. ground (arith, w, done))
count-Ordered telling t t' e same (some, some', all) = (some, some', omega (arith, all))
count-Ordered ended t t' e same ((some, some', all), flag) =
    ((some, some', omega (arith, all)), flag)

-- The count of the servers.
pub server-Ordered :
    (p : Phase) (t : Transfer Handler Callback) (e : MasterTerminate)
    → Ordered p t e
    → Ordered p t (server_response e)
unfolding server_response
server-Ordered fresh t e (o, (w, s, f, g)) = (o, (w, s, f, ground (arith, s, g)))
server-Ordered registering t e (o, (w, s, f, g)) = (o, (w, s, f, ground (arith, s, g)))
server-Ordered collecting t e k = k
server-Ordered telling t e k = k
server-Ordered ended t e (all, flag) = (all, ground (arith, flag))

pub server-Counts :
    (a b : ℕ) (c : Callback) (q : Request) (rest : List (Task Handler Callback))
    (t : Transfer Handler Callback) (e : MasterTerminate)
    → t.tasks ≡ call_back c q ∷ rest
    → Counts a b t e
    → Counts a b (record t { tasks = rest }) (server_response e)
unfolding server_response
server-Counts a b c q rest t e here k = record {
  right = k.right;
  workers = omega (arith, k.workers, ap finish_tasks here);
  servers = omega (arith, k.servers, ap answer_tasks here);
  all_servers = λ flag. ground (arith, k.servers, ap answer_tasks here, k.all_servers, flag);
}
