-- ===== src/Server/Tests.antt =====
-- Runs of the two handlers.
use swift_snails.Base.{
  ℕ, ◌+◌, ◌-◌, ◌^◌, ◌≡◌, ◌≢◌, List, [], ◌∷◌, ◌++◌, none, some, arith, Returns, ◌==◌, if◌then◌else◌,
}
use swift_snails.Base.HashMap.{HashMap, list_map}
use swift_snails.Buffer.{new}
use swift_snails.Buffer.Contents.{Holds, new-Holds}
use swift_snails.Buffer.Codec.{word32, records_wire, put_records, put_records-Holds}
use swift_snails.Buffer.Words.{le_bytes}
use swift_snails.SparseTable
use swift_snails.SparseTable.{PullMethod, PushMethod, SparseTable}
use swift_snails.SparseTable.Sharding.{IsValid, view, new-IsValid, assign-view}
use swift_snails.Server.{PushState, pull_handler, push_handler}
use swift_snails.Server.Pull.{answers, Pulled, pull_handler-answers}
use swift_snails.Server.Push.{Counted, pushed, push_handler-applies}

abbrev keyed : HashMap ℕ
keyed = list_map ℕ (2 ^ 32 - 1)

abbrev pulls : PullMethod ℕ ℕ
pulls = record { init_param = λ key p. key + p; get_pull_value = λ key p val. p }

abbrev pushes : PushMethod ℕ ℕ
pushes = record { merge_push_value = λ key g h. g + h; apply_push_value = λ key p g. p + g }

two_shards : SparseTable keyed
two_shards = SparseTable.new keyed 2

two_shards-IsValid : IsValid keyed two_shards
unfolding two_shards
two_shards-IsValid = (new-IsValid keyed 2 (omega arith)).0

-- A key asked for twice.
abbrev asked : List (ℕ × ℕ)
asked = (7, 0) ∷ (9, 0) ∷ (7, 0) ∷ []

abbrev request :
    Returns
      (put_records word32 word32 asked new)
      (Holds ([] ++ records_wire word32 word32 asked) ([] ++ records_wire word32 word32 asked))
request = put_records-Holds word32 word32 asked new new-Holds

pull_handler-answers_example :
    Returns (pull_handler keyed word32 word32 pulls 0 request.0 new two_shards) λ r.
      Holds
        ([] ++ records_wire word32 word32 (answers keyed word32 word32 pulls 0 two_shards asked))
        (records_wire word32 word32 (answers keyed word32 word32 pulls 0 two_shards asked))
        r.0
      × IsValid keyed r.1
      × Pulled keyed word32 word32 pulls 0 two_shards asked r.1
pull_handler-answers_example =
    pull_handler-answers keyed word32 word32 pulls 0 asked request.0 new two_shards
      two_shards-IsValid (omega arith) (omega arith) request.2 new-Holds

-- The table with one parameter, 70 at key 7.
abbrev stocked : Returns (SparseTable.assign keyed 7 70 two_shards) λ t'.
    IsValid keyed t'
    × ((j : ℕ) → view keyed t' j ≡ (if j == 7 then some 70 else view keyed two_shards j))
stocked = assign-view keyed 7 70 two_shards two_shards-IsValid (omega arith)

abbrev grads : List (ℕ × ℕ)
grads = (7, 5) ∷ (7, 6) ∷ []

abbrev push_request :
    Returns
      (put_records word32 word32 grads new)
      (Holds ([] ++ records_wire word32 word32 grads) ([] ++ records_wire word32 word32 grads))
push_request = put_records-Holds word32 word32 grads new new-Holds

abbrev before : PushState keyed word32 word32 pushes
before = record { table = stocked.0; push_counter = 9; param_backup_period = 10; backups = [] }

held_seven : view keyed stocked.0 7 ≢ none
held_seven = ground (arith, stocked.2.1 7)

push_handler-applies_example :
    Returns (push_handler keyed word32 word32 pushes push_request.0 new before) λ r.
      Holds ([] ++ le_bytes 4 1234) (le_bytes 4 1234) r.0
      × IsValid keyed r.1.table
      × ((j : ℕ)
          → view keyed r.1.table j
            ≡ pushed keyed word32 word32 pushes j grads (view keyed stocked.0 j))
      × Counted keyed word32 word32 pushes before r.1
push_handler-applies_example =
    push_handler-applies keyed word32 word32 pushes grads push_request.0 new before stocked.2.0
      (omega arith) ((omega arith, held_seven), ((omega arith, held_seven), tt)) push_request.2
      new-Holds
