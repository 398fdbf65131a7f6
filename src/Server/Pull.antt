-- ===== src/Server/Pull.antt =====
-- What a worker gets back from a pull.
use swift_snails.Base.{
  ℕ, ◌+◌, ◌≡◌, ◌≢◌, refl, List, [], ◌∷◌, ◌++◌, some, ◌>>=◌, ◌==◌, ◌||◌, Bool, false, if◌then◌else◌,
  arith, Returns, All, append-nil, append_assoc, subst,
}
use swift_snails.Base.HashMap.{HashMap}
use swift_snails.Buffer.{Buffer}
use swift_snails.Buffer.Contents.{Holds, cursor-end}
use swift_snails.Buffer.Codec.{Codec, Fit, records_wire, get_records-Holds}
use swift_snails.SparseTable.{PullMethod, SparseTable}
use swift_snails.SparseTable.Sharding.{IsValid, view}
use swift_snails.SparseTable.Access.{or_init, get_pull_value-view}
use swift_snails.Server.{answer_items, pull_handler}

abbrev pub has_key : {V : Type 0} → ℕ → List (ℕ × V) → Bool
has_key j [] = false
has_key j ((key, _) ∷ items) = (j == key) || has_key j items

module _ {V : Type 0} (H : HashMap V) (CK : Codec ℕ) (CV : Codec V) (method : PullMethod V V)
    (default : V) where
  -- The parameter that a pull of a key reads: what the table holds, or else the initialised default.
  abbrev pub param_of : SparseTable H → ℕ → V
  param_of t key = or_init method default key (view H t key)

  -- The records of the response, for the records of the request.
  unfoldable pub answers : SparseTable H → List (ℕ × V) → List (ℕ × V)
  answers t [] = []
  answers t ((key, val) ∷ items) =
      (key, method.get_pull_value key (param_of t key) val) ∷ answers t items

  -- The table afterwards: every key of the request is there.
  abbrev pub Pulled : SparseTable H → List (ℕ × V) → SparseTable H → Type 0
  Pulled t items t' =
      (j : ℕ) → view H t' j ≡ (if has_key j items then some (param_of t j) else view H t j)

  abbrev pub Usable : List (ℕ × V) → Type 0
  Usable = All (λ item. item.0 ≢ H.reserved)

  param_of-step :
      (t t' : SparseTable H) (key : ℕ)
      → ((j : ℕ) → view H t' j ≡ (if j == key then some (param_of t key) else view H t j))
      → (j : ℕ) → param_of t' j ≡ param_of t j
  param_of-step t t' key reads j = ground (arith, reads j)

  answers-step :
      (t t' : SparseTable H) (items : List (ℕ × V))
      → ((j : ℕ) → param_of t' j ≡ param_of t j)
      → answers t' items ≡ answers t items
  unfolding answers
  answers-step t t' [] same = refl
  answers-step t t' ((key, val) ∷ items) same =
      ground (arith, same key, answers-step t t' items same)

  answer_items-Pulled :
      (items : List (ℕ × V)) {stored rest : List ℕ} (rsp : Buffer) (t : SparseTable H)
      → IsValid H t
      → Usable items
      → Holds stored rest rsp
      → Returns (answer_items H CK CV method default items rsp t) λ r.
        Holds
          (stored ++ records_wire CK CV (answers t items))
          (rest ++ records_wire CK CV (answers t items))
          r.0
        × IsValid H r.1
        × Pulled t items r.1
  unfolding answer_items answers
  answer_items-Pulled [] {stored} {rest} rsp t v u h =
      ((rsp, t), refl, (rw (append-nil stored, append-nil rest) h, v, λ j. refl))
  answer_items-Pulled ((key, val) ∷ items) {stored} {rest} rsp t v (u, us) h =
      let (r, run, (value, v', reads)) = get_pull_value-view H method default key val t v u in
      let (c, run₁, held₁) = CK.put-Holds key stored rest rsp h in
      let (d, run₂, held₂) = CV.put-Holds r.0 _ _ c held₁ in
      let (e, runs, (held₃, v'', reads')) = answer_items-Pulled items d r.1 v' us held₂ in
      let same = param_of-step t r.1 key reads in
      let records : (key, r.0) ∷ answers r.1 items
          ≡ (key, method.get_pull_value key (param_of t key) val) ∷ answers t items =
        cc (value, answers-step t r.1 items same) in
      (
        e,
        rw (run, ◌>>=◌, run₁, ◌>>=◌, run₂) runs,
        (
          subst (λ a. Holds (stored ++ records_wire CK CV a) (rest ++ records_wire CK CV a) e.0)
              records (simp append_assoc at held₃),
          v'',
          λ j. ground (arith, reads j, reads' j, same j),
        ),
      )

  -- The handler of a pull request, on a request whose unread part is the records `items` with usable
  -- keys, succeeds: the response holds, in the order of the request and for repeated keys too, each key
  -- with the value that its parameter gives, and the table afterwards holds every requested key, with
  -- the parameter that it had or the initialised default.
  pub pull_handler-answers :
      (items : List (ℕ × V)) {stored sent : List ℕ} (req rsp : Buffer) (t : SparseTable H)
      → IsValid H t
      → Fit CK CV items
      → Usable items
      → Holds stored (records_wire CK CV items) req
      → Holds sent [] rsp
      → Returns (pull_handler H CK CV method default req rsp t) λ r.
        Holds
          (sent ++ records_wire CK CV (answers t items))
          (records_wire CK CV (answers t items))
          r.0
        × IsValid H r.1
        × Pulled t items r.1
  unfolding pull_handler
  pull_handler-answers items req rsp t v fits usable asked answer =
      let (q, run, (xs, _)) =
        get_records-Holds CK CV items (req.end + 1) req fits asked
          (omega (arith, cursor-end req asked)) in
      rw (run, ◌>>=◌, xs) (answer_items-Pulled items rsp t v usable answer)
