-- ===== src/Worker/Pulling.antt =====
-- A pull from the request of the worker to its cache, over the Transfer of both sides.
mod Tests
use swift_snails.Base.{
  ℕ, ◌+◌, ◌<◌, ◌≡◌, ◌≢◌, ◌^◌, refl, ap, ◌∙◌, arith, List, [], ◌∷◌, ◌++◌, Option, none, some, Result,
  ok, ◌>>=◌, ◌==◌, ◌||◌, if◌then◌else◌, Returns, All, map, length, Bool, false, true, pos,
}
use swift_snails.Base.HashMap.{HashMap}
use swift_snails.Base.Map.{lookup, nat_ordered}
use swift_snails.Buffer
use swift_snails.Buffer.Contents.{Holds, new-Holds}
use swift_snails.Buffer.Codec.{Codec, Fit, records_wire, put_records-Holds}
use swift_snails.Message.{Request, Package, new_request}
use swift_snails.SparseTable.{PullMethod, SparseTable}
use swift_snails.SparseTable.Sharding
use swift_snails.Server.{pull_handler}
use swift_snails.Server.Pull
use swift_snails.Server.Pull.{answers, param_of, has_key, pull_handler-answers}
use swift_snails.Transfer.{Transfer, serve, call_back, send, receive, serve_request}
use swift_snails.Transfer.Calls
use swift_snails.Transfer.Exchange.{Answers, call-answered}
use swift_snails.Master.{MsgCls, number}
use swift_snails.NodeInit.{set_class}
use swift_snails.Worker.{Pending, ParamCache, pull_response, pull_requests}
use swift_snails.Worker.Cache
use swift_snails.Worker.Cache.{latest, pull_response-latest}

-- The records of a pull: each key with the empty value.
abbrev pub asked_for : {V : Type 0} → V → List ℕ → List (ℕ × V)
asked_for empty_val [] = []
asked_for empty_val (key ∷ keys) = (key, empty_val) ∷ asked_for empty_val keys

module _ {V : Type 0} (S : HashMap V) (CK : Codec ℕ) (CV : Codec V) (method : PullMethod V V)
    (default empty_val : V) (table : SparseTable S) where
  -- What a pull gives for a key.
  abbrev pub pulled : ℕ → V
  pulled key = method.get_pull_value key (param_of S CK CV method default table key) empty_val

  latest-answers :
      (keys : List ℕ) (j : ℕ) (o : Option V)
      → latest j (answers S CK CV method default table (asked_for empty_val keys)) o
        ≡ (if has_key j (asked_for empty_val keys) then some (pulled j) else o)
  unfolding answers
  latest-answers [] j o = refl
  latest-answers (key ∷ keys) j o =
      latest-answers keys j (if j == key then some (pulled key) else o) ∙ ground arith

  -- the handler of the server as the Transfer runs it
  abbrev pub handle_pull : Request → Request → Result Request
  handle_pull q r = do
    (cont, _) ← pull_handler S CK CV method default q.cont r.cont table
    ok (record r { cont = cont })

  pull-Answers :
      (items : List (ℕ × V))
      → Sharding.IsValid S table
      → Fit CK CV items
      → All (λ item. item.0 ≢ S.reserved) items
      → Answers handle_pull
          (records_wire CK CV items)
          (records_wire CK CV (answers S CK CV method default table items))
  unfolding new_request
  pull-Answers items v fits usable q held =
      let (r, run, (h, _, _)) =
        pull_handler-answers S CK CV method default items q.cont Buffer.new table v fits usable held
          new-Holds in
      (record new_request { cont = r.0 }, rw (run, ◌>>=◌) refl, (_, h))

module _ {V G Hd B : Type 0} (S : HashMap V) (HV : HashMap V) (HG : HashMap G) (CK : Codec ℕ)
    (CV : Codec V) (method : PullMethod V V) (default empty_val : V) (empty_grad : G) where
  -- A worker with id c pulls keys that all are kept by the server `to` of its route; the server has
  -- its handler and the worker in its route. Then one request is made, sent, received and served, its
  -- answer comes back to the callback, and after it the cache of the worker has, for each key that was
  -- asked for, the value that the server's table gives, and for any other key what it had.
  pub pull-delivers :
      {A : Type 0} {a a' : A} (keys : List ℕ) (addrs addrs' : List (ℕ × A)) (handler : B) (to c : ℕ)
      (t s : Transfer Hd B) (h : Hd) (table : SparseTable S)
      (cache : ParamCache HV HG empty_val empty_grad) (p : Pending)
      → Calls.IsValid t
      → t.client ≡ pos c
      → t.msg_id_counter + 1 < 2 ^ 32
      → lookup to addrs ≡ some a
      → lookup (number MsgCls.worker_pull_request) s.message_class ≡ some h
      → s.closed ≡ false
      → lookup c addrs' ≡ some a'
      → Sharding.IsValid S table
      → All (λ item. item.0 ≢ S.reserved) (asked_for empty_val keys)
      → Fit CK CV (asked_for empty_val keys)
      → Fit CK CV (answers S CK CV method default table (asked_for empty_val keys))
      → Cache.Usable HV HG empty_val empty_grad
          (answers S CK CV method default table (asked_for empty_val keys))
      → 0 < length (records_wire CK CV (asked_for empty_val keys))
      → 0
        < length
            (records_wire CK CV (answers S CK CV method default table (asked_for empty_val keys)))
      → Returns (pull_requests CK CV ((to, asked_for empty_val keys) ∷ [])) λ contents.
        (cont : Buffer.Buffer) × (contents ≡ (to, cont) ∷ [])
        × Returns
            (send addrs
              (set_class MsgCls.worker_pull_request (record new_request { cont = cont }))
              handler
              to
              t)
            λ t₁.
              (pkg : Package) × (t₁.sent ≡ t.sent ++ (to, pkg) ∷ [])
              × Returns (receive pkg s) λ s₁.
                (q : Request) × (s₁.tasks ≡ s.tasks ++ serve h q ∷ [])
                × Returns
                    (serve_request (handle_pull S CK CV method default empty_val table) addrs' q s₁)
                    λ s₂.
                      (answer : Package) × (s₂.sent ≡ s.sent ++ (c, answer) ∷ [])
                      × Returns (receive answer t₁) λ t₂.
                        (q' : Request) × (t₂.tasks ≡ t.tasks ++ call_back handler q' ∷ [])
                        × Returns
                            (pull_response HV HG empty_val empty_grad CK CV q'.cont cache p)
                            λ r.
                              (j : ℕ)
                              → HV.find j r.0.params ≡ (
                                  if has_key j (asked_for empty_val keys)
                                  then some (pulled S CK CV method default empty_val table j)
                                  else HV.find j cache.params)
  unfolding pull_requests
  pull-delivers keys addrs addrs' handler to c t s h table cache p v mine few there class still_open
        there' vt usable fits fits' usable' some_bytes some_answer =
      let items = asked_for empty_val keys in
      let (cont, put, held) = put_records-Holds CK CV items Buffer.new new-Holds in
      let r = set_class MsgCls.worker_pull_request (record new_request { cont = cont }) in
      let (
        t₁,
        sends,
        (
          sent,
          (s₁, got, (q, served, _, (s₂, ran, (answered, (t₂, got', (q', pushed, held', _)))))),
        ),
      ) =
        call-answered addrs addrs' r handler to c t s h
          (handle_pull S CK CV method default empty_val table) v mine few there held some_bytes refl
          class still_open there'
          (pull-Answers S CK CV method default empty_val table items vt fits usable) some_answer in
      let (x, reads, (params, _, _, _)) =
        pull_response-latest HV HG empty_val empty_grad CK CV
          (answers S CK CV method default table items) q'.cont cache p fits' usable' held' in
      let delivered : (j : ℕ)
          → HV.find j x.0.params ≡ (
              if has_key j items
              then some (pulled S CK CV method default empty_val table j)
              else HV.find j cache.params) =
        λ j.
          params j
          ∙ latest-answers S CK CV method default empty_val table keys j (HV.find j cache.params) in
      (
        (to, cont) ∷ [],
        rw (put, ◌>>=◌) refl,
        (
          cont,
          refl,
          (
            t₁,
            sends,
            (
              _,
              sent,
              (
                s₁,
                got,
                (
                  q,
                  served,
                  (s₂, ran, (_, answered, (t₂, got', (q', pushed, (x, reads, delivered))))),
                ),
              ),
            ),
          ),
        ),
      )
