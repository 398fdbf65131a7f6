-- ===== src/Terminate/Tests.antt =====
-- The end of a run with one server.
use swift_snails.Base.{
  ℕ, ◌≡◌, refl, arith, List, [], ◌∷◌, ◌++◌, some, true, false, leb, Returns, pos, length,
}
use swift_snails.Message.{Request, Package, new_request}
use swift_snails.Base.Map.{lookup, nat_ordered}
use swift_snails.Transfer.{Transfer, opened, serve, call_back, receive, serve_request}
use swift_snails.Transfer.Calls
use swift_snails.Master.Examples.{one_server, one_server-IsValid}
use swift_snails.Terminate.{
  MasterTerminate, tell_all_servers_to_terminate, worker_send_finish_message,
  get_worker_finish_work, tell_server, server_told,
}
use swift_snails.Terminate.Finishing.{
  OneMore, handle_finish, handle_told, finish-counted, order-obeyed,
}
use swift_snails.Terminate.Counting.{servers}
use swift_snails.Terminate.Telling.{orders, tell_all_servers_to_terminate-ends}

abbrev one_each : MasterTerminate
one_each = record {
  worker_num = 1;
  server_num = 1;
  num_finished_workers = 0;
  num_finished_servers = 0;
  workers_finished = false;
  servers_finished = false;
}

abbrev at_work : Transfer ℕ ℕ
at_work = record opened { client = pos 0 }

at_work-IsValid : Calls.IsValid at_work
unfolding lookup
at_work-IsValid id there = absurd (there refl)

tell_all_servers_to_terminate-ends_example :
    Returns
      (tell_all_servers_to_terminate one_server.route.base.send_addrs 5
        (0 ∷ 1 ∷ [])
        one_each
        at_work)
      λ p.
        (p.1.sent ≡ [] ++ orders 0 0 (0 ∷ 1 ∷ []))
        × (length (orders 0 0 (0 ∷ 1 ∷ [])) ≡ 1)
        × ((k : ℕ) → (servers k p.0).servers_finished ≡ leb 1 k)
tell_all_servers_to_terminate-ends_example =
    tell_all_servers_to_terminate-ends 5 0 one_server one_each at_work one_server-IsValid refl
      (omega arith) refl at_work-IsValid refl (omega arith)

-- The master 0, with worker 8 and server 1 in its route, and their Transfers.
abbrev nodes : List (ℕ × ℕ)
nodes = (0, 100) ∷ (1, 101) ∷ (8, 108) ∷ []

abbrev worker_8 : Transfer ℕ ℕ
worker_8 = record opened { client = pos 8 }

abbrev waiting_master : Transfer ℕ ℕ
waiting_master = record at_work { message_class = (4, 40) ∷ [] }

abbrev server_1 : Transfer ℕ ℕ
server_1 = record opened { client = pos 1; message_class = (5, 50) ∷ [] }

worker_8-IsValid : Calls.IsValid worker_8
unfolding lookup
worker_8-IsValid id there = absurd (there refl)

route_0 : lookup 0 nodes ≡ some 100
unfolding lookup
route_0 = refl

route_1 : lookup 1 nodes ≡ some 101
unfolding lookup
route_1 = refl

route_8 : lookup 8 nodes ≡ some 108
unfolding lookup
route_8 = refl

class_4 : lookup 4 waiting_master.message_class ≡ some 40
unfolding lookup
class_4 = refl

class_5 : lookup 5 server_1.message_class ≡ some 50
unfolding lookup
class_5 = refl

finish-counted_example : Returns (worker_send_finish_message nodes 7 worker_8) λ t₁.
    (pkg : Package) × (t₁.sent ≡ [] ++ (0, pkg) ∷ [])
    × Returns (receive pkg waiting_master) λ s₁.
      (q : Request) × (s₁.tasks ≡ [] ++ serve 40 q ∷ [])
      × Returns (get_worker_finish_work q new_request one_each) (λ r. OneMore one_each r.1)
      × Returns (serve_request (handle_finish one_each) nodes q s₁) λ s₂.
        (answer : Package) × (s₂.sent ≡ [] ++ (8, answer) ∷ [])
        × Returns (receive answer t₁) λ t₂.
          (q' : Request) × (t₂.tasks ≡ [] ++ call_back 7 q' ∷ [])
          × ((id : ℕ) → lookup id t₂.msg_handlers ≡ lookup id worker_8.msg_handlers)
finish-counted_example =
    finish-counted nodes nodes 7 8 worker_8 waiting_master 40 one_each worker_8-IsValid refl
      (omega arith) route_0 class_4 refl route_8

order-obeyed_example : Returns (tell_server nodes 6 1 at_work) λ t₁.
    (pkg : Package) × (t₁.sent ≡ [] ++ (1, pkg) ∷ [])
    × Returns (receive pkg server_1) λ s₁.
      (q : Request) × (s₁.tasks ≡ [] ++ serve 50 q ∷ [])
      × Returns (server_told q new_request false) (λ r. r.1 ≡ true)
      × Returns (serve_request (handle_told false) nodes q s₁) λ s₂.
        (answer : Package) × (s₂.sent ≡ [] ++ (0, answer) ∷ [])
        × Returns (receive answer t₁) λ t₂.
          (q' : Request) × (t₂.tasks ≡ [] ++ call_back 6 q' ∷ [])
          × ((id : ℕ) → lookup id t₂.msg_handlers ≡ lookup id at_work.msg_handlers)
order-obeyed_example =
    order-obeyed nodes nodes 6 0 at_work server_1 50 1 false at_work-IsValid refl (omega arith)
      route_1 class_5 refl route_0
