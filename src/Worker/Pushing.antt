-- ===== src/Worker/Pushing.antt =====
-- A push from the gradients of the worker to the table of the server, over the Transfer of both sides.
mod Tests
use swift_snails.Base.{
  ℕ, ◌+◌, ◌<◌, ◌≡◌, ◌^◌, refl, ◌∙◌, ap, arith, List, [], ◌∷◌, ◌++◌, none, some, Result, ok, ◌>>=◌,
  Returns, length, length-append, false, pos,
}
use swift_snails.Base.HashMap.{HashMap}
use swift_snails.Base.Map.{lookup, nat_ordered}
use swift_snails.Buffer
use swift_snails.Buffer.Contents.{Holds, new-Holds}
use swift_snails.Buffer.Codec.{Codec, Fit, records_wire, record_size, put_records-Holds}
use swift_snails.Buffer.Words.{le_bytes, length-le_bytes}
use swift_snails.Message.{Request, Package, new_request}
use swift_snails.SparseTable.{PushMethod, SparseTable}
use swift_snails.SparseTable.Sharding
use swift_snails.SparseTable.Sharding.{view}
use swift_snails.Server.{PushState, push_handler}
use swift_snails.Server.Push
use swift_snails.Server.Push.{Known, Counted, push_handler-applies}
use swift_snails.Transfer.{Transfer, serve, call_back, send, receive, serve_request}
use swift_snails.Transfer.Calls
use swift_snails.Transfer.Exchange.{Answers, call-answered}
use swift_snails.Master.{MsgCls, number}
use swift_snails.NodeInit.{set_class}
use swift_snails.Worker.{push_requests}

module _ {V G : Type 0} (S : HashMap V) (CK : Codec ℕ) (CG : Codec G)
    (method : PushMethod V G) where
  -- the handler of the server as the Transfer runs it
  abbrev pub handle_push : PushState S CK CG method → Request → Request → Result Request
  handle_push st q r = do
    (cont, _) ← push_handler S CK CG method q.cont r.cont st
    ok (record r { cont = cont })

  push-Answers :
      (items : List (ℕ × G)) (st : PushState S CK CG method)
      → Sharding.IsValid S st.table
      → Fit CK CG items
      → Known S CK CG method st.table items
      → Answers (handle_push st) (records_wire CK CG items) (le_bytes 4 1234)
  unfolding new_request
  push-Answers items st v fits known q held =
      let (r, run, (h, _, _, _)) =
        push_handler-applies S CK CG method items q.cont Buffer.new st v fits known held
          new-Holds in
      (record new_request { cont = r.0 }, rw (run, ◌>>=◌) refl, (_, h))

  -- A worker with id c pushes gradients, at least one, to the server `to` of its route, whose table
  -- holds their keys; the server has its handler and the worker in its route. Then one request is made,
  -- sent and received. The server's handler on it applies the gradients of each key to its parameter,
  -- in the order of the worker, changes no other key and counts one push; its answer is sent and comes
  -- back to the callback, and the calls of the worker that wait are those that waited before.
  pub push-delivers :
      {Hd B A : Type 0} {a a' : A} (key : ℕ) (grad : G) (more : List (ℕ × G))
      (addrs addrs' : List (ℕ × A)) (handler : B) (to c : ℕ) (t s : Transfer Hd B) (h : Hd)
      (st : PushState S CK CG method)
      → let items = (key, grad) ∷ more in
        Calls.IsValid t
        → t.client ≡ pos c
        → t.msg_id_counter + 1 < 2 ^ 32
        → lookup to addrs ≡ some a
        → lookup (number MsgCls.worker_push_request) s.message_class ≡ some h
        → s.closed ≡ false
        → lookup c addrs' ≡ some a'
        → Sharding.IsValid S st.table
        → Known S CK CG method st.table items
        → Fit CK CG items
        → Returns (push_requests CK CG ((to, items) ∷ [])) λ contents.
          (cont : Buffer.Buffer) × (contents ≡ (to, cont) ∷ [])
          × Returns
              (send addrs
                (set_class MsgCls.worker_push_request (record new_request { cont = cont }))
                handler
                to
                t)
              λ t₁.
                (pkg : Package) × (t₁.sent ≡ t.sent ++ (to, pkg) ∷ [])
                × Returns (receive pkg s) λ s₁.
                  (q : Request) × (s₁.tasks ≡ s.tasks ++ serve h q ∷ [])
                  × Returns (push_handler S CK CG method q.cont new_request.cont st) (λ r.
                    ((j : ℕ)
                      → view S r.1.table j ≡ Push.pushed S CK CG method j items (view S st.table j))
                    × Counted S CK CG method st r.1)
                  × Returns (serve_request (handle_push st) addrs' q s₁) λ s₂.
                    (answer : Package) × (s₂.sent ≡ s.sent ++ (c, answer) ∷ [])
                    × Returns (receive answer t₁) λ t₂.
                      (q' : Request) × (t₂.tasks ≡ t.tasks ++ call_back handler q' ∷ [])
                      × ((id : ℕ) → lookup id t₂.msg_handlers ≡ lookup id t.msg_handlers)
  unfolding push_requests new_request
  push-delivers key grad more addrs addrs' handler to c t s h st v mine few there class still_open
        there' vt known fits =
      let items = (key, grad) ∷ more in
      let (cont, put, held) = put_records-Holds CK CG items Buffer.new new-Holds in
      let r = set_class MsgCls.worker_push_request (record new_request { cont = cont }) in
      let (
        t₁,
        sends,
        (
          sent,
          (s₁, got, (q, served, arrived, (s₂, ran, (answered, (t₂, got', (q', pushed, _, left)))))),
        ),
      ) =
        call-answered addrs addrs' r handler to c t s h (handle_push st) v mine few there held
          (omega (arith, record_size CK CG key grad (records_wire CK CG more))) refl class
          still_open there' (push-Answers items st vt fits known)
          (omega (arith, length-le_bytes 4 1234)) in
      let (x, applies, (_, _, reads, counted)) =
        push_handler-applies S CK CG method items q.cont Buffer.new st vt fits known arrived
          new-Holds in
      (
        (to, cont) ∷ [],
        rw (put, ◌>>=◌) refl,
        (
          cont,
          refl,
          (
            t₁,
            sends,
            (
              _,
              sent,
              (
                s₁,
                got,
                (
                  q,
                  served,
                  (x, applies, (reads, counted)),
                  (s₂, ran, (_, answered, (t₂, got', (q', pushed, left)))),
                ),
              ),
            ),
          ),
        ),
      )
