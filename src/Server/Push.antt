-- ===== src/Server/Push.antt =====
-- What a push does to the parameters.
use swift_snails.Base.{
  ℕ, zero, suc, ◌+◌, ◌%◌, ◌≡◌, ◌≢◌, ◌<◌, refl, ap, ◌∙◌, List, [], ◌∷◌, ◌++◌, Option, none, some,
  ◌>>=◌, ◌==◌, ◌&&◌, if◌then◌else◌, arith, Returns, All, length, inl, inr, ltb, Bool-cases,
}
use mathlib.Core.Option
use swift_snails.Base.HashMap.{HashMap}
use swift_snails.Buffer.{Buffer, read_finished}
use swift_snails.Buffer.Contents.{Holds, cursor-end}
use swift_snails.Buffer.Codec.{Codec, Fit, records_wire, record_size}
use swift_snails.Buffer.Words.{put_word-Holds, le_bytes}
use swift_snails.SparseTable.{PushMethod, SparseTable}
use swift_snails.SparseTable.Sharding.{IsValid, view}
use swift_snails.SparseTable.Access.{apply_push_value-view}
use swift_snails.Server.{PushState, apply_items, count_push, push_handler}

module _ {V Grad : Type 0} (H : HashMap V) (CK : Codec ℕ) (CG : Codec Grad)
    (method : PushMethod V Grad) where
  -- The gradients of the records at key j, applied one after another to what the table has there.
  abbrev pub pushed : ℕ → List (ℕ × Grad) → Option V → Option V
  pushed j [] o = o
  pushed j ((key, grad) ∷ items) o =
      pushed j items
        (if j == key then Option.map (λ p. method.apply_push_value key p grad) o else o)

  -- The table holds each key of the records, and none is the reserved one.
  abbrev pub Known : SparseTable H → List (ℕ × Grad) → Type 0
  Known t = All (λ item. (item.0 ≢ H.reserved) × (view H t item.0 ≢ none))

  Known-step :
      (t t' : SparseTable H) (key : ℕ) (p : V) (items : List (ℕ × Grad))
      → ((j : ℕ) → view H t' j ≡ (if j == key then some p else view H t j))
      → Known t items
      → Known t' items
  Known-step t t' key p [] reads known = tt
  Known-step t t' key p ((k, g) ∷ items) reads ((u, there), known) =
      ((u, ground (arith, reads k)), Known-step t t' key p items reads known)

  pushed-step :
      (t t' : SparseTable H) (key : ℕ) (p : V) (grad : Grad) (items : List (ℕ × Grad))
      → view H t key ≡ some p
      → ((j : ℕ)
          → view H t' j
            ≡ (if j == key then some (method.apply_push_value key p grad) else view H t j))
      → (j : ℕ) → pushed j items (view H t' j) ≡ pushed j ((key, grad) ∷ items) (view H t j)
  pushed-step t t' key p grad items there reads j = ap (pushed j items) here
    where
      here : view H t' j ≡ (
          if j == key
          then Option.map (λ p. method.apply_push_value key p grad) (view H t j)
          else view H t j)
      here = ground (arith, reads j, there)

  apply_items-pushed :
      (items : List (ℕ × Grad)) (fuel : ℕ) {stored : List ℕ} (req : Buffer) (t : SparseTable H)
      → IsValid H t
      → Fit CK CG items
      → Known t items
      → Holds stored (records_wire CK CG items) req
      → length (records_wire CK CG items) < fuel
      → Returns
          (apply_items H CK CG method fuel req t)
          λ t'. IsValid H t' × ((j : ℕ) → view H t' j ≡ pushed j items (view H t j))
  unfolding apply_items read_finished
  apply_items-pushed items zero req t v fits known h enough = absurd (omega arith)
  apply_items-pushed [] (suc fuel) req t v fits known h enough =
      (t, ground (arith, cursor-end req h), (v, λ j. refl))
  apply_items-pushed ((key, grad) ∷ items) (suc fuel) req t v (fit, fits) ((u, there), known) h
        enough =
      let (r, run, (x, held)) = CK.get-Holds key _ _ req fit.0 h in
      let (q, run', (y, held')) = CG.get-Holds grad _ _ r.1 fit.1 held in
      let less : length (records_wire CK CG items) < fuel =
        omega (arith, record_size CK CG key grad (records_wire CK CG items)) in
      let nonempty = record_size CK CG key grad (records_wire CK CG items) in
      elim (apply_push_value-view H method key grad t v u) [
        | inr (absent, _) ↦ absurd (there absent)
        | inl (p, present, (t', applied, (v', reads))) ↦
            let known' =
              Known-step t t' key (method.apply_push_value key p grad) items reads known in
            let (t'', runs, (v'', reads')) =
              apply_items-pushed items fuel q.1 t' v' fits known' held' less in
            (
              t'',
              ground (arith, cursor-end req h, nonempty, run, run', x, y, applied, runs),
              (v'', λ j. reads' j ∙ pushed-step t t' key p grad items present reads j),
            )
      ]

  -- What a push leaves of the server's state, the table aside.
  pub record Counted (s s' : PushState H CK CG method) : Type 0 where
    pub counter : s'.push_counter ≡ s.push_counter + 1
    pub period : s'.param_backup_period ≡ s.param_backup_period
    pub backups : s'.backups ≡ (
        if ltb 0 s.param_backup_period && ((s.push_counter + 1) % s.param_backup_period == 0)
        then s.backups ++ (s.push_counter + 1, s'.table) ∷ []
        else s.backups)

  count_push-Counted :
      (s : PushState H CK CG method) (t : SparseTable H)
      → Counted s (count_push H CK CG method (record s { table = t }))
        × ((count_push H CK CG method (record s { table = t })).table ≡ t)
  unfolding count_push
  count_push-Counted s t =
      let due =
        ltb 0 s.param_backup_period && ((s.push_counter + 1) % s.param_backup_period == 0) in
      elim (Bool-cases due) [
        | inl e ↦ rw e (record { counter = refl; period = refl; backups = rw e }, refl)
        | inr e ↦ rw e (record { counter = refl; period = refl; backups = rw e }, refl)
      ]

  -- The handler of a push request, on a request whose unread part is records of keys that the table
  -- holds, succeeds: it applies the gradients of each key to its parameter in the order of the request,
  -- changes no other key, answers with one number, and counts the push; the table is backed up under
  -- the new counter exactly when the period is positive and divides the counter.
  pub push_handler-applies :
      (items : List (ℕ × Grad)) {stored sent : List ℕ} (req rsp : Buffer)
      (s : PushState H CK CG method)
      → IsValid H s.table
      → Fit CK CG items
      → Known s.table items
      → Holds stored (records_wire CK CG items) req
      → Holds sent [] rsp
      → Returns (push_handler H CK CG method req rsp s) λ r.
        Holds (sent ++ le_bytes 4 1234) (le_bytes 4 1234) r.0
        × IsValid H r.1.table
        × ((j : ℕ) → view H r.1.table j ≡ pushed j items (view H s.table j))
        × Counted s r.1
  unfolding push_handler
  push_handler-applies items req rsp s v fits known asked answer =
      let (t, run, (v', reads)) =
        apply_items-pushed items (req.end + 1) req s.table v fits known asked
          (omega (arith, cursor-end req asked)) in
      let (rsp', run', held) = put_word-Holds 4 1234 rsp answer (omega arith) in
      let (counted, kept) = count_push-Counted s t in
      (
        (rsp', count_push H CK CG method (record s { table = t })),
        rw (run, ◌>>=◌, run'),
        (held, rw kept v', λ j. rw kept (reads j), counted),
      )
