-- ===== src/Transfer.antt =====
-- src/core/transfer/transfer.h: the table of message classes (MessageClass) and the sending and
-- receiving of requests and responses (Transfer). The route is a parameter of `send`: the ids that it
-- has. A message that is given to the network is added to `sent`, and a function that is pushed to the
-- asynchronous channel to `tasks`; `run_task` is one of them running on a thread of the channel. `H` is
-- the type of the message-class handlers and `B` that of the callbacks.
pub mod Classes
pub mod Calls
pub mod Dispatch
pub mod Exchange
mod Tests
use swift_snails.Base.{
  ℕ, ◌+◌, ◌-◌, ◌%◌, ◌^◌, ◌≡◌, List, [], ◌∷◌, ◌++◌, Option, none, some, Result, ok, abort, ◌>>=◌,
  ◌>>◌, check, or_abort, guard, check_failed, null_pointer, ◌==◌, ltb, Bool, true, false, not, ◌||◌,
  ℤ, pos, negsuc, eq_int, nonneg, if◌then◌else◌,
}
use swift_snails.Base.Map.{lookup, assign, erase, nat_ordered}
use swift_snails.Buffer
use swift_snails.Buffer.{Buffer}
use swift_snails.Message.{
  MetaMessage, Request, Package, new_request, set_msg_id, is_response, set_client, to_package,
  of_package,
}

-- an int as an index_t
abbrev pub as_index : ℤ → ℕ
as_index (pos n) = n
as_index (negsuc n) = 4294967295 - n

module _ {H : Type 0} where
  -- MessageClass::add
  unfoldable pub add : ℕ → H → List (ℕ × H) → Result (List (ℕ × H))
  add id handler classes = elim (lookup id classes) [
    | none ↦ ok (assign id handler classes)
    | some _ ↦ abort check_failed
  ]

  -- MessageClass::remove
  unfoldable pub remove : ℕ → List (ℕ × H) → Result (List (ℕ × H))
  remove id classes = elim (lookup id classes) [
    | none ↦ abort check_failed
    | some _ ↦ ok (erase id classes)
  ]

  -- MessageClass::get
  unfoldable pub get : ℕ → List (ℕ × H) → Result H
  get id classes = or_abort (lookup id classes) check_failed

-- What is pushed to the channel: the handler of a request, or the callback of a response.
pub data Task (H B : Type 0) : Type 0 where
  serve : H → Request → Task H B
  call_back : B → Request → Task H B

pub record Transfer (H B : Type 0) : Type 0 where
  pub client : ℤ
  pub msg_id_counter : ℕ
  pub msg_handlers : List (ℕ × B)
  pub message_class : List (ℕ × H)
  pub closed : Bool
  pub tasks : List (Task H B)
  pub sent : List (ℕ × Package)

module _ {H B : Type 0} where
  -- init_async_channel(n) has made the channel, with no handler and no message yet
  abbrev pub opened : Transfer H B
  opened = record {
    client = negsuc 1;
    msg_id_counter = 0;
    msg_handlers = [];
    message_class = [];
    closed = false;
    tasks = [];
    sent = [];
  }

  unfoldable pub set_client_id : ℤ → Transfer H B → Transfer H B
  set_client_id id t = record t { client = id }

  -- service_complete()
  unfoldable pub service_complete : Transfer H B → Bool
  service_complete t = elim t.msg_handlers [ [] ↦ true | _ ∷ _ ↦ false ]

  -- `if (client_id() >= 0)`: the client's own id goes with the request
  unfoldable pub signed : Transfer H B → Request → Request
  unfolding set_client
  signed t r = if nonneg t.client then set_client t.client r else r

  -- _msg_handlers.emplace(msg_id, handler), with its CHECK
  unfoldable pub emplace : ℕ → B → Transfer H B → Result (Transfer H B)
  emplace id handler t = elim (lookup id t.msg_handlers) [
    | none ↦ ok (record t { msg_handlers = assign id handler t.msg_handlers })
    | some _ ↦ abort check_failed
  ]

  -- send(request, to_id), with `handler` the call_back_handler of the request
  unfoldable pub send :
      {A : Type 0} → List (ℕ × A) → Request → B → ℕ → Transfer H B → Result (Transfer H B)
  unfolding set_msg_id signed emplace
  send addrs request handler to t = do
    let id = t.msg_id_counter
    let t₁ = record t { msg_id_counter = (id + 1) % 2 ^ 32 }
    check (not (eq_int t₁.client (negsuc 2)))
    pkg ← to_package (signed t₁ (set_msg_id id request))
    t₂ ← emplace id handler t₁
    _ ← or_abort (lookup to addrs) check_failed
    ok (record t₂ { sent = t₂.sent ++ (to, pkg) ∷ [] })

  -- send_response(request, to_id): the mutex of an id that is not in the route is a null pointer
  unfoldable pub send_response :
      {A : Type 0} → List (ℕ × A) → Request → ℤ → Transfer H B → Result (Transfer H B)
  unfolding set_client
  send_response addrs request (pos to) t = do
    pkg ← to_package (set_client (pos to) request)
    _ ← or_abort (lookup to addrs) null_pointer
    ok (record t { sent = t.sent ++ (to, pkg) ∷ [] })
  send_response addrs request (negsuc n) t = do
    _ ← to_package (set_client (negsuc n) request)
    abort null_pointer

  -- handle_request(request)
  unfoldable pub handle_request : Request → Transfer H B → Result (Transfer H B)
  unfolding get
  handle_request request t = do
    handler ← get (as_index request.meta.message_class) t.message_class
    check (not t.closed)
    ok (record t { tasks = t.tasks ++ serve handler request ∷ [] })

  -- the CHECK of handle_response: an id that is not yet given, or one's own
  unfoldable pub addressed : Request → Transfer H B → Bool
  addressed response t =
      eq_int t.client (negsuc 0)
      || eq_int t.client (pos 0)
      || eq_int response.meta.client_id t.client

  -- handle_response(response)
  unfoldable pub handle_response : Request → Transfer H B → Result (Transfer H B)
  unfolding addressed
  handle_response response t = do
    check (addressed response t)
    let id = response.meta.message_id
    handler ← or_abort (lookup id t.msg_handlers) check_failed
    ok (record t {
      msg_handlers = erase id t.msg_handlers;
      tasks = t.tasks ++ call_back handler response ∷ [];
    })

  -- one round of main_loop() on a package that is not the empty one
  unfoldable pub receive : Package → Transfer H B → Result (Transfer H B)
  unfolding is_response
  receive pkg t = do
    request ← of_package pkg
    if is_response request then handle_response request t else handle_request request t

  -- the task that handle_request pushes, with `run` what the handler makes of the request and a new
  -- response
  unfoldable pub serve_request :
      {A : Type 0}
      → (Request → Request → Result Request)
      → List (ℕ × A)
      → Request
      → Transfer H B
      → Result (Transfer H B)
  serve_request run addrs request t = do
    made ← run request new_request
    let response = record made {
      meta = record made.meta {
        message_id = request.meta.message_id;
        client_id = request.meta.client_id;
        message_class = negsuc 0;
      };
    }
    if ltb 0 (Buffer.size response.cont)
        then send_response addrs response request.meta.client_id t
        else ok t
