-- ===== src/Transfer/Exchange.antt =====
-- A call from the sending of the request to the callback with its response, over the Transfer of the
-- client and the one of the server.
use swift_snails.Base.{
  ℕ, ◌+◌, ◌<◌, ◌≡◌, ◌^◌, refl, sym, ap, ◌∙◌, List, [], ◌∷◌, ◌++◌, none, some, Result, ◌==◌,
  if◌then◌else◌, Returns, arith, true, false, pos, negsuc, eq_int, nonneg, ltb, length,
}
use swift_snails.Base.Map.{lookup, nat_ordered, lookup-assign, lookup-assign_self}
use swift_snails.Buffer.Contents.{Holds}
use swift_snails.Message.{Request, Package, new_request}
use swift_snails.Transfer.{Transfer, serve, call_back, as_index, send, receive, serve_request}
use swift_snails.Transfer.Calls.{IsValid, sent_as, after_send, send-run, fresh}
use swift_snails.Transfer.Dispatch.{
  reply, receive-serves, receive-calls_back, serve_request-answers,
}

-- A handler answers each request with the content `stored` by a response with the content `answer`.
abbrev pub Answers : (Request → Request → Result Request) → List ℕ → List ℕ → Type 0
Answers run stored answer =
    (q : Request)
    → Holds stored stored q.cont
    → Returns (run q new_request) λ made. (rest : List ℕ) × Holds answer rest made.cont

module _ {H B : Type 0} where
  -- A server receives a request of client c and runs its handler: the response goes to c.
  server_side :
      {A : Type 0} {a : A} (addrs : List (ℕ × A)) (c : ℕ) (pkg : Package) (s : Transfer H B) (h : H)
      (run : Request → Request → Result Request) {answer : List ℕ}
      → 0 < length pkg.cont
      → eq_int pkg.meta.message_class (negsuc 0) ≡ false
      → lookup (as_index pkg.meta.message_class) s.message_class ≡ some h
      → s.closed ≡ false
      → pkg.meta.client_id ≡ pos c
      → lookup c addrs ≡ some a
      → Answers run pkg.cont answer
      → 0 < length answer
      → Returns (receive pkg s) λ s₁.
        (q : Request) × (s₁.tasks ≡ s.tasks ++ serve h q ∷ [])
        × (q.meta ≡ pkg.meta)
        × Holds pkg.cont pkg.cont q.cont
        × Returns
            (serve_request run addrs q s₁)
            λ s₂. s₂.sent ≡ s.sent ++ (c, reply c q answer) ∷ []
  server_side addrs c pkg s h run {answer} some_bytes class there still_open from routed answers
        full =
      let (s₁, got, (q, meta, held, s₁_is)) =
        receive-serves pkg s h some_bytes class there still_open in
      let (made, ran, (rest, made_held)) = answers q held in
      let some_answer : ltb 0 (length answer) ≡ true = ground arith in
      let served =
        serve_request-answers run addrs q made c s₁ ran made_held
          (ap (λ m. m.client_id) meta ∙ from) routed in
      (
        s₁,
        got,
        (
          q,
          ap (λ x. x.tasks) s₁_is,
          meta,
          held,
          (
            record s₁ { sent = s₁.sent ++ (c, reply c q answer) ∷ [] },
            served ∙ rw some_answer refl,
            ap (λ x. x.sent ++ (c, reply c q answer) ∷ []) s₁_is,
          ),
        ),
      )

  -- A client with id c sends a request with content to a node of its route; a server that has the
  -- class of the request and c in its route receives it, runs the handler and sends the response; the
  -- client receives that. Then each step succeeds, the handler is pushed with the content that was
  -- sent and the callback of the call with what the handler answered, the server is left with one
  -- package sent, and the calls that wait are those that waited before.
  pub call-answered :
      {A : Type 0} {a a' : A} (addrs addrs' : List (ℕ × A)) (r : Request) (handler : B) (to c : ℕ)
      (t s : Transfer H B) (h : H) (run : Request → Request → Result Request)
      {stored rest answer : List ℕ}
      → IsValid t
      → t.client ≡ pos c
      → t.msg_id_counter + 1 < 2 ^ 32
      → lookup to addrs ≡ some a
      → Holds stored rest r.cont
      → 0 < length stored
      → eq_int r.meta.message_class (negsuc 0) ≡ false
      → lookup (as_index r.meta.message_class) s.message_class ≡ some h
      → s.closed ≡ false
      → lookup c addrs' ≡ some a'
      → Answers run stored answer
      → 0 < length answer
      → Returns (send addrs r handler to t) λ t₁.
        (t₁.sent ≡ t.sent ++ (to, sent_as t r stored) ∷ [])
        × Returns (receive (sent_as t r stored) s) λ s₁.
          (q : Request) × (s₁.tasks ≡ s.tasks ++ serve h q ∷ [])
          × Holds stored stored q.cont
          × Returns (serve_request run addrs' q s₁) λ s₂.
            (s₂.sent ≡ s.sent ++ (c, reply c q answer) ∷ [])
            × Returns (receive (reply c q answer) t₁) λ t₂.
              (q' : Request) × (t₂.tasks ≡ t.tasks ++ call_back handler q' ∷ [])
              × Holds answer answer q'.cont
              × ((id : ℕ) → lookup id t₂.msg_handlers ≡ lookup id t.msg_handlers)
  call-answered addrs addrs' r handler to c t s h run {stored} {rest} {answer} v mine few there held
        full class there_class still_open there' answers full' =
      let known : eq_int t.client (negsuc 2) ≡ false = ap (λ i. eq_int i (negsuc 2)) mine in
      let signer : (if nonneg t.client then t.client else r.meta.client_id) ≡ pos c =
        rw mine refl in
      let t₁ = after_send to r stored handler t in
      let (s₁, got, (q, served, meta, arrived, (s₂, ran, answered))) =
        server_side addrs' c (sent_as t r stored) s h run full class there_class still_open signer
          there' answers full' in
      let (t₂, got', ((q', meta', q'_held, pushed), left)) =
        receive-calls_back (reply c q answer) t₁ handler full' refl
          (ap (λ m. lookup m.message_id t₁.msg_handlers) meta
            ∙ lookup-assign_self t.msg_id_counter handler t.msg_handlers)
          (sym mine) in
      let as_before : (id : ℕ) → lookup id t₂.msg_handlers ≡ lookup id t.msg_handlers = λ id.
        left id
        ∙ ap (λ m. if id == m.message_id then none else lookup id t₁.msg_handlers) meta
        ∙ ground (arith, fresh t v, lookup-assign t.msg_id_counter id handler t.msg_handlers) in
      (
        t₁,
        send-run addrs r handler to t v known there held,
        (
          refl,
          (
            s₁,
            got,
            (
              q,
              served,
              arrived,
              (s₂, ran, (answered, (t₂, got', (q', pushed, q'_held, as_before)))),
            ),
          ),
        ),
      )
