-- ===== src/NodeInit/Sharing.antt =====
-- A node gets the table of fragments from the master.
use swift_snails.Base.{
  ℕ, ◌+◌, ◌<◌, ◌≡◌, ◌^◌, refl, arith, List, [], ◌∷◌, ◌++◌, some, ◌>>=◌, true, false, Returns, pos,
}
use swift_snails.Base.Map.{lookup, nat_ordered}
use swift_snails.Buffer
use swift_snails.Buffer.Words.{length-le_bytes, put_word-Holds}
use swift_snails.Buffer.Contents.{new-Holds}
use swift_snails.HashFrag.Wire.{
  IsSendable, Accepts, frag_wire, some_frag_wire, serialize-Holds, deserialize-Holds,
}
use swift_snails.Message.{Request, Package, new_request}
use swift_snails.Transfer.{Transfer, serve, call_back, receive, serve_request}
use swift_snails.Transfer.Calls
use swift_snails.Transfer.Exchange.{Answers, call-answered}
use swift_snails.Master.{Master, MsgCls, number, node_askfor_hashfrag}
use swift_snails.NodeInit.{Node, Callback, set_class, askfor_hashfrag, hashfrag_response}

askfor-Answers :
    (m : Master) (t stored : List ℕ)
    → IsSendable m.hashfrag t
    → Answers (λ q r. node_askfor_hashfrag q r m) stored (frag_wire m.hashfrag t)
unfolding node_askfor_hashfrag new_request
askfor-Answers m t stored v q held =
    let (b, run, h) = serialize-Holds m.hashfrag t Buffer.new v new-Holds in
    (record new_request { cont = b }, rw (run, ◌>>=◌) refl, (frag_wire m.hashfrag t, h))

module _ {H : Type 0} where
  -- A node that has its id asks the master, which has made the table and has the node in its route and
  -- its handler registered, for the table: the request is sent, received and served, the answer is sent
  -- and received, and the callback of the node succeeds, after which the node has the table of the
  -- master.
  pub hashfrag-shared :
      {a a' : List ℕ} (node : Node H) (m : Master) (s : Transfer H Callback) (h : H) (c : ℕ)
      (table : List ℕ)
      → Calls.IsValid node.transfer
      → node.transfer.client ≡ pos c
      → node.transfer.msg_id_counter + 1 < 2 ^ 32
      → lookup 0 node.route.base.send_addrs ≡ some a
      → lookup (number MsgCls.node_askfor) s.message_class ≡ some h
      → s.closed ≡ false
      → lookup c m.route.base.send_addrs ≡ some a'
      → IsSendable m.hashfrag table
      → Accepts m.hashfrag.frags node.hashfrag
      → Returns (askfor_hashfrag node) λ node₁.
        (pkg : Package) × (node₁.transfer.sent ≡ node.transfer.sent ++ (0, pkg) ∷ [])
        × Returns (receive pkg s) λ s₁.
          (q : Request) × (s₁.tasks ≡ s.tasks ++ serve h q ∷ [])
          × Returns
              (serve_request (λ q r. node_askfor_hashfrag q r m) m.route.base.send_addrs q s₁)
              λ s₂.
                (answer : Package) × (s₂.sent ≡ s.sent ++ (c, answer) ∷ [])
                × Returns (receive answer node₁.transfer) λ t₂.
                  (q' : Request) × (t₂.tasks
                    ≡ node.transfer.tasks ++ call_back Callback.init_hashfrag q' ∷ [])
                  × Returns
                      (hashfrag_response q' (record node₁ { transfer = t₂ }))
                      λ node₂. (node₂.hashfrag ≡ m.hashfrag) × (node₂.hashfrag_init ≡ true)
  unfolding askfor_hashfrag hashfrag_response
  hashfrag-shared node m s h c table v mine few there class still_open there' sendable accepts =
      let (b, put, held) = put_word-Holds 4 123 Buffer.new new-Holds (omega arith) in
      let r = set_class MsgCls.node_askfor (record new_request { cont = b }) in
      let (
        t₁,
        sends,
        (
          sent,
          (s₁, got, (q, served, _, (s₂, ran, (answered, (t₂, got', (q', pushed, q'_held, _)))))),
        ),
      ) =
        call-answered node.route.base.send_addrs m.route.base.send_addrs r Callback.init_hashfrag 0
          c node.transfer s h (λ q r. node_askfor_hashfrag q r m) v mine few there held
          (omega (arith, length-le_bytes 4 123)) refl class still_open there'
          (askfor-Answers m table _ sendable) (some_frag_wire m.hashfrag table) in
      let (p, read, (same, _)) =
        deserialize-Holds m.hashfrag node.hashfrag table q'.cont sendable accepts q'_held in
      (
        record node { transfer = t₁ },
        rw (put, ◌>>=◌, sends) refl,
        (
          _,
          sent,
          (
            s₁,
            got,
            (
              q,
              served,
              (
                s₂,
                ran,
                (
                  _,
                  answered,
                  (
                    t₂,
                    got',
                    (
                      q',
                      pushed,
                      (
                        record node { transfer = t₂; hashfrag = p.0; hashfrag_init = true },
                        rw (read, ◌>>=◌) refl,
                        (same, refl),
                      ),
                    ),
                  ),
                ),
              ),
            ),
          ),
        ),
      )
