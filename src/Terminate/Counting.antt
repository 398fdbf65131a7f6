-- ===== src/Terminate/Counting.antt =====
-- The counting of those that have finished.
use swift_snails.Base.{ℕ, zero, suc, ◌<◌, ◌≡◌, refl, arith, leb, false}
use swift_snails.Terminate.{MasterTerminate, count_worker, server_response}

-- The state after k workers have finished, and after k servers have responded.
abbrev pub workers : ℕ → MasterTerminate → MasterTerminate
workers zero m = m
workers (suc k) m = count_worker (workers k m)

abbrev pub servers : ℕ → MasterTerminate → MasterTerminate
servers zero m = m
servers (suc k) m = server_response (servers k m)

workers_counted :
    (k : ℕ) (m : MasterTerminate)
    → 0 < m.worker_num
    → m.num_finished_workers ≡ 0
    → m.workers_finished ≡ false
    → ((workers k m).worker_num ≡ m.worker_num)
      × ((workers k m).num_finished_workers ≡ k)
      × ((workers k m).workers_finished ≡ leb m.worker_num k)
unfolding count_worker
workers_counted zero m some_worker none_yet unset = (refl, none_yet, ground arith)
workers_counted (suc k) m some_worker none_yet unset =
    let (same, count, set) = workers_counted k m some_worker none_yet unset in
    (same, omega (arith, count), ground (arith, same, count, set))

-- From a state in which none has finished, the master goes on to the end of the servers exactly when
-- as many workers have finished as there are.
workers-finished :
    (k : ℕ) (m : MasterTerminate)
    → 0 < m.worker_num
    → m.num_finished_workers ≡ 0
    → m.workers_finished ≡ false
    → (workers k m).workers_finished ≡ leb m.worker_num k
workers-finished k m some_worker none_yet unset = (workers_counted k m some_worker none_yet unset).2

servers_counted :
    (k : ℕ) (m : MasterTerminate)
    → 0 < m.server_num
    → m.num_finished_servers ≡ 0
    → m.servers_finished ≡ false
    → ((servers k m).server_num ≡ m.server_num)
      × ((servers k m).num_finished_servers ≡ k)
      × ((servers k m).servers_finished ≡ leb m.server_num k)
unfolding server_response
servers_counted zero m some_server none_yet unset = (refl, none_yet, ground arith)
servers_counted (suc k) m some_server none_yet unset =
    let (same, count, set) = servers_counted k m some_server none_yet unset in
    (same, omega (arith, count), ground (arith, same, count, set))

-- The same of the servers that respond.
pub servers-finished :
    (k : ℕ) (m : MasterTerminate)
    → 0 < m.server_num
    → m.num_finished_servers ≡ 0
    → m.servers_finished ≡ false
    → (servers k m).servers_finished ≡ leb m.server_num k
servers-finished k m some_server none_yet unset = (servers_counted k m some_server none_yet unset).2
