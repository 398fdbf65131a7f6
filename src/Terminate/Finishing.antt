-- ===== src/Terminate/Finishing.antt =====
-- The calls of the end over the Transfer of both sides: a worker's message to the master that it has
-- finished, and the master's order to a server.
use swift_snails.Base.{
  ℕ, ◌+◌, ◌<◌, ◌≡◌, ◌^◌, refl, arith, List, [], ◌∷◌, ◌++◌, some, Result, ok, ◌>>=◌, Bool, true,
  false, Returns, pos, ◌==◌, ◌||◌,
}
use swift_snails.Base.Map.{lookup, nat_ordered}
use swift_snails.Buffer
use swift_snails.Buffer.Contents.{new-Holds}
use swift_snails.Buffer.Words.{le_bytes, length-le_bytes, put_word-Holds}
use swift_snails.Message.{Request, Package, new_request}
use swift_snails.Transfer.{Transfer, serve, call_back, receive, serve_request}
use swift_snails.Transfer.Calls
use swift_snails.Transfer.Exchange.{Answers, call-answered}
use swift_snails.Master.{MsgCls, number}
use swift_snails.NodeInit.{set_class}
use swift_snails.Terminate.{
  MasterTerminate, count_worker, get_worker_finish_work, worker_send_finish_message, tell_server,
  server_told,
}

-- the handlers as the Transfer runs them
abbrev pub handle_finish : MasterTerminate → Request → Request → Result Request
handle_finish m q r = do (made, _) ← get_worker_finish_work q r m; ok made

abbrev pub handle_told : Bool → Request → Request → Result Request
handle_told flag q r = do (made, _) ← server_told q r flag; ok made

finish-Answers :
    (m : MasterTerminate) (asked : List ℕ) → Answers (handle_finish m) asked (le_bytes 4 1234)
unfolding get_worker_finish_work new_request
finish-Answers m asked q held =
    let (b, put, h) = put_word-Holds 4 1234 Buffer.new new-Holds (omega arith) in
    (record new_request { cont = b }, rw (put, ◌>>=◌) refl, (_, h))

told-Answers : (flag : Bool) (asked : List ℕ) → Answers (handle_told flag) asked (le_bytes 4 1234)
unfolding server_told new_request
told-Answers flag asked q held =
    let (b, put, h) = put_word-Holds 4 1234 Buffer.new new-Holds (omega arith) in
    (record new_request { cont = b }, rw (put, ◌>>=◌) refl, (_, h))

-- One worker more is counted, and the flag is set when that is the last one; nothing else is changed.
abbrev pub OneMore : MasterTerminate → MasterTerminate → Type 0
OneMore m m' =
    (m'.num_finished_workers ≡ m.num_finished_workers + 1)
    × (m'.workers_finished ≡ (m.num_finished_workers + 1 == m.worker_num || m.workers_finished))
    × (m'.worker_num ≡ m.worker_num)
    × (m'.server_num ≡ m.server_num)
    × (m'.num_finished_servers ≡ m.num_finished_servers)
    × (m'.servers_finished ≡ m.servers_finished)

count-OneMore : (m : MasterTerminate) → OneMore m (count_worker m)
unfolding count_worker
count-OneMore m = (refl, ground arith, refl, refl, refl, refl)

-- What the two handlers do to the states of the nodes.
finish-counts :
    (m : MasterTerminate) (q : Request)
    → Returns (get_worker_finish_work q new_request m) (λ r. OneMore m r.1)
unfolding get_worker_finish_work new_request
finish-counts m q =
    let (b, put, h) = put_word-Holds 4 1234 Buffer.new new-Holds (omega arith) in
    ((record new_request { cont = b }, count_worker m), rw (put, ◌>>=◌) refl, count-OneMore m)

told-sets : (flag : Bool) (q : Request) → Returns (server_told q new_request flag) λ r. r.1 ≡ true
unfolding server_told new_request
told-sets flag q =
    let (b, put, h) = put_word-Holds 4 1234 Buffer.new new-Holds (omega arith) in
    ((record new_request { cont = b }, true), rw (put, ◌>>=◌) refl, refl)

module _ {H B A : Type 0} {a a' : A} (addrs addrs' : List (ℕ × A)) (handler : B) (c : ℕ)
    (t s : Transfer H B) (h : H) where
  -- A worker with id c and the master in its route sends the message that it has finished, to a master
  -- that waits for such messages and has the worker in its route: the message is received, the handler
  -- counts one worker more and sets the flag for which the master waits when that is the last one, and
  -- changes no other part of the master, and its answer comes back to the callback for which the worker waits.
  pub finish-counted :
      (m : MasterTerminate)
      → Calls.IsValid t
      → t.client ≡ pos c
      → t.msg_id_counter + 1 < 2 ^ 32
      → lookup 0 addrs ≡ some a
      → lookup (number MsgCls.worker_finish_work) s.message_class ≡ some h
      → s.closed ≡ false
      → lookup c addrs' ≡ some a'
      → Returns (worker_send_finish_message addrs handler t) λ t₁.
        (pkg : Package) × (t₁.sent ≡ t.sent ++ (0, pkg) ∷ [])
        × Returns (receive pkg s) λ s₁.
          (q : Request) × (s₁.tasks ≡ s.tasks ++ serve h q ∷ [])
          × Returns (get_worker_finish_work q new_request m) (λ r. OneMore m r.1)
          × Returns (serve_request (handle_finish m) addrs' q s₁) λ s₂.
            (answer : Package) × (s₂.sent ≡ s.sent ++ (c, answer) ∷ [])
            × Returns (receive answer t₁) λ t₂.
              (q' : Request) × (t₂.tasks ≡ t.tasks ++ call_back handler q' ∷ [])
              × ((id : ℕ) → lookup id t₂.msg_handlers ≡ lookup id t.msg_handlers)
  unfolding worker_send_finish_message
  finish-counted m v mine few there class still_open there' =
      let (b, put, held) = put_word-Holds 4 1234 Buffer.new new-Holds (omega arith) in
      let r = set_class MsgCls.worker_finish_work (record new_request { cont = b }) in
      let (
        t₁,
        sends,
        (sent, (s₁, got, (q, served, _, (s₂, ran, (answered, (t₂, got', (q', pushed, _, left))))))),
      ) =
        call-answered addrs addrs' r handler 0 c t s h (handle_finish m) v mine few there held
          (omega (arith, length-le_bytes 4 1234)) refl class still_open there' (finish-Answers m _)
          (omega (arith, length-le_bytes 4 1234)) in
      (
        t₁,
        rw (put, ◌>>=◌) sends,
        (
          _,
          sent,
          (
            s₁,
            got,
            (
              q,
              served,
              finish-counts m q,
              (s₂, ran, (_, answered, (t₂, got', (q', pushed, left)))),
            ),
          ),
        ),
      )

  -- The master, with id c, orders the server `to` of its route to end; the server has the handler and
  -- the master in its route. Then the order is received, the flag for which the server waits is set by
  -- the handler, and its answer comes back to the callback that counts the servers.
  pub order-obeyed :
      (to : ℕ) (flag : Bool)
      → Calls.IsValid t
      → t.client ≡ pos c
      → t.msg_id_counter + 1 < 2 ^ 32
      → lookup to addrs ≡ some a
      → lookup (number MsgCls.server_told_to_terminate) s.message_class ≡ some h
      → s.closed ≡ false
      → lookup c addrs' ≡ some a'
      → Returns (tell_server addrs handler to t) λ t₁.
        (pkg : Package) × (t₁.sent ≡ t.sent ++ (to, pkg) ∷ [])
        × Returns (receive pkg s) λ s₁.
          (q : Request) × (s₁.tasks ≡ s.tasks ++ serve h q ∷ [])
          × Returns (server_told q new_request flag) (λ r. r.1 ≡ true)
          × Returns (serve_request (handle_told flag) addrs' q s₁) λ s₂.
            (answer : Package) × (s₂.sent ≡ s.sent ++ (c, answer) ∷ [])
            × Returns (receive answer t₁) λ t₂.
              (q' : Request) × (t₂.tasks ≡ t.tasks ++ call_back handler q' ∷ [])
              × ((id : ℕ) → lookup id t₂.msg_handlers ≡ lookup id t.msg_handlers)
  unfolding tell_server
  order-obeyed to flag v mine few there class still_open there' =
      let (b, put, held) = put_word-Holds 4 1234 Buffer.new new-Holds (omega arith) in
      let r = set_class MsgCls.server_told_to_terminate (record new_request { cont = b }) in
      let (
        t₁,
        sends,
        (sent, (s₁, got, (q, served, _, (s₂, ran, (answered, (t₂, got', (q', pushed, _, left))))))),
      ) =
        call-answered addrs addrs' r handler to c t s h (handle_told flag) v mine few there held
          (omega (arith, length-le_bytes 4 1234)) refl class still_open there' (told-Answers flag _)
          (omega (arith, length-le_bytes 4 1234)) in
      (
        t₁,
        rw (put, ◌>>=◌) sends,
        (
          _,
          sent,
          (
            s₁,
            got,
            (q, served, told-sets flag q, (s₂, ran, (_, answered, (t₂, got', (q', pushed, left))))),
          ),
        ),
      )
