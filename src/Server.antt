-- ===== src/Server.antt =====
-- src/core/system/server/init.h: the handlers that a server registers for WORKER_PULL_REQUEST and
-- WORKER_PUSH_REQUEST. A handler gets the content of the request and of the response as buffers. The
-- access methods, the key and value types and the hash map are parameters.
pub mod Pull
pub mod Push
mod Tests
use swift_snails.Base.{
  ℕ, zero, suc, ◌+◌, ◌%◌, ◌≡◌, List, [], ◌∷◌, ◌++◌, Option, none, some, Result, ok, abort, ◌>>=◌,
  ltb, ◌==◌, ◌&&◌, if◌then◌else◌, true, false,
}
use swift_snails.Base.HashMap.{HashMap}
use swift_snails.Buffer.{Buffer, read_finished}
use swift_snails.Buffer.Codec.{Codec, get_records}
use swift_snails.Buffer.Words.{put_word}
use swift_snails.SparseTable.{PullMethod, PushMethod, SparseTable, get_pull_value, apply_push_value}

module _ {V : Type 0} (H : HashMap V) (CK : Codec ℕ) (CV : Codec V) (method : PullMethod V V)
    (default : V) where
  -- the loop `for (auto &item : req_items)`
  pub answer_items : List (ℕ × V) → Buffer → SparseTable H → Result (Buffer × SparseTable H)
  answer_items [] rsp t = ok (rsp, t)
  answer_items ((key, val) ∷ items) rsp t = do
    (val', t') ← get_pull_value H method default key val t
    rsp₁ ← CK.put key rsp
    rsp₂ ← CV.put val' rsp₁
    answer_items items rsp₂ t'

  -- the handler of WORKER_PULL_REQUEST
  unfoldable pub pull_handler : Buffer → Buffer → SparseTable H → Result (Buffer × SparseTable H)
  unfolding answer_items
  pull_handler req rsp t = do
    (items, _) ← get_records CK CV (req.end + 1) req
    answer_items items rsp t

module _ {V Grad : Type 0} (H : HashMap V) (CK : Codec ℕ) (CG : Codec Grad)
    (method : PushMethod V Grad) where
  -- `push_counter`, `param_backup_period` (0 or less switches the backups off), and the backups that
  -- were written: the counter in the file's name and the table then.
  pub record PushState : Type 0 where
    pub table : SparseTable H
    pub push_counter : ℕ
    pub param_backup_period : ℕ
    pub backups : List (ℕ × SparseTable H)

  -- the loop `while (!req->cont.read_finished())`; each round reads at least one byte
  pub apply_items : ℕ → Buffer → SparseTable H → Result (SparseTable H)
  apply_items zero req t = ok t
  apply_items (suc fuel) req t = do
    finished ← read_finished req
    elim finished [
      | true ↦ ok t
      | false ↦ do
        (key, req₁) ← CK.get req
        (grad, req₂) ← CG.get req₁
        t' ← apply_push_value H method key grad t
        apply_items fuel req₂ t'
    ]

  -- backup_param(), as the event that it leaves
  backup_param : PushState → PushState
  backup_param s = record s { backups = s.backups ++ (s.push_counter, s.table) ∷ [] }

  unfoldable pub count_push : PushState → PushState
  unfolding backup_param
  count_push s =
      let s' = record s { push_counter = s.push_counter + 1 } in
      if ltb 0 s.param_backup_period && (s'.push_counter % s.param_backup_period == 0)
      then backup_param s'
      else s'

  -- the handler of WORKER_PUSH_REQUEST
  unfoldable pub push_handler : Buffer → Buffer → PushState → Result (Buffer × PushState)
  unfolding apply_items
  push_handler req rsp s = do
    table ← apply_items (req.end + 1) req s.table
    rsp' ← put_word 4 1234 rsp
    ok (rsp', count_push (record s { table = table }))
