-- ===== src/Worker/Pushing/Tests.antt =====
-- A push of two gradients of one key.
use swift_snails.Base.{
  ℕ, ◌+◌, ◌-◌, ◌^◌, ◌≡◌, ◌≢◌, refl, arith, List, [], ◌∷◌, ◌++◌, none, some, ◌==◌, if◌then◌else◌,
  Returns, pos,
}
use swift_snails.Base.HashMap.{HashMap, list_map}
use swift_snails.Base.Map.{lookup, nat_ordered}
use swift_snails.Buffer
use swift_snails.Buffer.Codec.{word32}
use swift_snails.Message.{Request, Package, new_request}
use swift_snails.SparseTable
use swift_snails.SparseTable.{PushMethod, SparseTable}
use swift_snails.SparseTable.Sharding.{IsValid, view, new-IsValid, assign-view}
use swift_snails.Server.{PushState, push_handler}
use swift_snails.Server.Push
use swift_snails.Transfer.{Transfer, opened, serve, call_back, send, receive, serve_request}
use swift_snails.Transfer.Calls
use swift_snails.Master.{MsgCls}
use swift_snails.NodeInit.{set_class}
use swift_snails.Worker.{push_requests}
use swift_snails.Worker.Pushing.{handle_push, push-delivers}

abbrev keyed : HashMap ℕ
keyed = list_map ℕ (2 ^ 32 - 1)

abbrev pushes : PushMethod ℕ ℕ
pushes = record { merge_push_value = λ key g h. g + h; apply_push_value = λ key p g. p + g }

blank : SparseTable keyed
blank = SparseTable.new keyed 2

blank-IsValid : IsValid keyed blank
unfolding blank
blank-IsValid = (new-IsValid keyed 2 (omega arith)).0

-- The table with one parameter, 70 at key 7.
abbrev stocked : Returns (SparseTable.assign keyed 7 70 blank) λ t'.
    IsValid keyed t'
    × ((j : ℕ) → view keyed t' j ≡ (if j == 7 then some 70 else view keyed blank j))
stocked = assign-view keyed 7 70 blank blank-IsValid (omega arith)

abbrev before : PushState keyed word32 word32 pushes
before = record { table = stocked.0; push_counter = 9; param_backup_period = 10; backups = [] }

held_seven : view keyed stocked.0 7 ≢ none
held_seven = ground (arith, stocked.2.1 7)

abbrev addrs : List (ℕ × ℕ)
addrs = (1, 101) ∷ (8, 108) ∷ []

-- Worker 8 and server 1.
abbrev worker : Transfer ℕ ℕ
worker = record opened { client = pos 8 }

abbrev server : Transfer ℕ ℕ
server = record opened { client = pos 1; message_class = (3, 44) ∷ [] }

worker-IsValid : Calls.IsValid worker
unfolding lookup
worker-IsValid id there = absurd (there refl)

to_server : lookup 1 addrs ≡ some 101
unfolding lookup
to_server = refl

to_worker : lookup 8 addrs ≡ some 108
unfolding lookup
to_worker = refl

serves : lookup 3 server.message_class ≡ some 44
unfolding lookup
serves = refl

push-delivers_example :
    Returns (push_requests word32 word32 ((1, (7, 5) ∷ (7, 6) ∷ []) ∷ [])) λ contents.
      (cont : Buffer.Buffer) × (contents ≡ (1, cont) ∷ [])
      × Returns
          (send addrs
            (set_class MsgCls.worker_push_request (record new_request { cont = cont }))
            55
            1
            worker)
          λ t₁.
            (pkg : Package) × (t₁.sent ≡ [] ++ (1, pkg) ∷ [])
            × Returns (receive pkg server) λ s₁.
              (q : Request) × (s₁.tasks ≡ [] ++ serve 44 q ∷ [])
              × Returns
                  (push_handler keyed word32 word32 pushes q.cont new_request.cont before)
                  (λ r.
                    ((j : ℕ)
                      → view keyed r.1.table j
                        ≡ Push.pushed keyed word32 word32 pushes j
                            ((7, 5) ∷ (7, 6) ∷ [])
                            (view keyed stocked.0 j))
                    × Push.Counted keyed word32 word32 pushes before r.1)
              × Returns
                  (serve_request (handle_push keyed word32 word32 pushes before) addrs q s₁)
                  λ s₂.
                    (answer : Package) × (s₂.sent ≡ [] ++ (8, answer) ∷ [])
                    × Returns (receive answer t₁) λ t₂.
                      (q' : Request) × (t₂.tasks ≡ [] ++ call_back 55 q' ∷ [])
                      × ((id : ℕ) → lookup id t₂.msg_handlers ≡ lookup id worker.msg_handlers)
push-delivers_example =
    push-delivers keyed word32 word32 pushes 7 5 ((7, 6) ∷ []) addrs addrs 55 1 8 worker server 44
      before worker-IsValid refl (omega arith) to_server serves refl to_worker stocked.2.0
      ((omega arith, held_seven), ((omega arith, held_seven), tt)) (omega arith)
