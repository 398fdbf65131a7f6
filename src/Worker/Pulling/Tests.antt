-- ===== src/Worker/Pulling/Tests.antt =====
-- A pull of one key.
use swift_snails.Base.{
  ℕ, ◌+◌, ◌-◌, ◌<◌, ◌%◌, ◌^◌, ◌≡◌, ◌≢◌, refl, arith, List, [], ◌∷◌, ◌++◌, some, if◌then◌else◌,
  Returns, All, length, length-append, pos,
}
use swift_snails.Base.HashMap.{HashMap, list_map}
use swift_snails.Base.Map.{lookup, nat_ordered}
use swift_snails.Buffer
use swift_snails.Buffer.Codec.{word32, Fit, records_wire}
use swift_snails.Buffer.Words.{le_bytes, length-le_bytes}
use swift_snails.Message.{Request, Package, new_request}
use swift_snails.SparseTable
use swift_snails.SparseTable.{PullMethod, SparseTable}
use swift_snails.SparseTable.Sharding
use swift_snails.Server.Pull.{answers, has_key}
use swift_snails.Transfer.{Transfer, opened, serve, call_back, send, receive, serve_request}
use swift_snails.Transfer.Calls
use swift_snails.Master.{MsgCls}
use swift_snails.NodeInit.{set_class}
use swift_snails.Worker.{new_cache, start, pull_requests, pull_response}
use swift_snails.Worker.Pulling.{asked_for, pulled, handle_pull, pull-delivers}

abbrev keyed : HashMap ℕ
keyed = list_map ℕ (2 ^ 32 - 1)

abbrev pulls : PullMethod ℕ ℕ
pulls = record { init_param = λ key p. key + p; get_pull_value = λ key p val. p % 100 }

table : SparseTable keyed
table = SparseTable.new keyed 2

table-IsValid : Sharding.IsValid keyed table
unfolding table
table-IsValid = (Sharding.new-IsValid keyed 2 (omega arith)).0

abbrev addrs : List (ℕ × ℕ)
addrs = (1, 101) ∷ (8, 108) ∷ []

-- Worker 8 and server 1.
abbrev worker : Transfer ℕ ℕ
worker = record opened { client = pos 8 }

abbrev server : Transfer ℕ ℕ
server = record opened { client = pos 1; message_class = (2, 33) ∷ [] }

worker-IsValid : Calls.IsValid worker
unfolding lookup
worker-IsValid id there = absurd (there refl)

to_server : lookup 1 addrs ≡ some 101
unfolding lookup
to_server = refl

to_worker : lookup 8 addrs ≡ some 108
unfolding lookup
to_worker = refl

serves : lookup 2 server.message_class ≡ some 33
unfolding lookup
serves = refl

fits : Fit word32 word32 (answers keyed word32 word32 pulls 0 table (asked_for 0 (7 ∷ [])))
unfolding answers
fits = ((omega arith, omega arith), tt)

usable :
    All
      (λ item. (item.0 ≢ keyed.reserved) × (item.0 ≢ keyed.reserved))
      (answers keyed word32 word32 pulls 0 table (asked_for 0 (7 ∷ [])))
unfolding answers
usable = (((λ e. omega (arith, e)), (λ e. omega (arith, e))), tt)

some_bytes : (key : ℕ) (rest : List ℕ) → 0 < length (le_bytes 4 key ++ rest)
some_bytes key rest = omega (arith, length-append (le_bytes 4 key) rest, length-le_bytes 4 key)

some_answer :
    0
    < length (
        records_wire word32 word32
          (answers keyed word32 word32 pulls 0 table (asked_for 0 (7 ∷ []))))
unfolding answers
some_answer = some_bytes 7 _

pull-delivers_example : Returns (pull_requests word32 word32 ((1, (7, 0) ∷ []) ∷ [])) λ contents.
    (cont : Buffer.Buffer) × (contents ≡ (1, cont) ∷ [])
    × Returns
        (send addrs
          (set_class MsgCls.worker_pull_request (record new_request { cont = cont }))
          55
          1
          worker)
        λ t₁.
          (pkg : Package) × (t₁.sent ≡ [] ++ (1, pkg) ∷ [])
          × Returns (receive pkg server) λ s₁.
            (q : Request) × (s₁.tasks ≡ [] ++ serve 33 q ∷ [])
            × Returns
                (serve_request (handle_pull keyed word32 word32 pulls 0 0 table) addrs q s₁)
                λ s₂.
                  (answer : Package) × (s₂.sent ≡ [] ++ (8, answer) ∷ [])
                  × Returns (receive answer t₁) λ t₂.
                    (q' : Request) × (t₂.tasks ≡ [] ++ call_back 55 q' ∷ [])
                    × Returns
                        (pull_response keyed keyed 0 0 word32 word32 q'.cont
                          (new_cache keyed keyed 0 0)
                          (start 1))
                        λ r.
                          (j : ℕ)
                          → keyed.find j r.0.params ≡ (
                              if has_key {V = ℕ} j ((7, 0) ∷ [])
                              then some (pulled keyed word32 word32 pulls 0 0 table j)
                              else keyed.find j (new_cache keyed keyed 0 0).params)
pull-delivers_example =
    pull-delivers keyed keyed keyed word32 word32 pulls 0 0 0 (7 ∷ []) addrs addrs 55 1 8 worker
      server 33 table (new_cache keyed keyed 0 0) (start 1) worker-IsValid refl (omega arith)
      to_server serves refl to_worker table-IsValid ((λ e. omega (arith, e)), tt)
      ((omega arith, omega arith), tt) fits usable (some_bytes 7 _) some_answer
