-- ===== src/Transfer/Calls.antt =====
-- A call and its response.
use swift_snails.Base.{
  ℕ, ◌+◌, ◌%◌, ◌^◌, ◌<◌, ◌≡◌, ◌≢◌, refl, List, [], ◌∷◌, ◌++◌, none, some, ok, abort, check_failed,
  ◌>>=◌, ◌==◌, if◌then◌else◌, Returns, arith, true, false, negsuc, eq_int, nonneg, Option-cases,
  inl, inr, Bool-cases,
}
use swift_snails.Base.Map.{
  lookup, assign, erase, nat_ordered, lookup-assign, lookup-erase, lookup-erase_self,
}
use swift_snails.Buffer.Contents.{Holds}
use swift_snails.Message.{Request, Package, to_package, set_msg_id, set_client}
use swift_snails.Message.Packing.{to_package-Holds}
use swift_snails.Transfer.{Transfer, call_back, send, addressed, handle_response, signed, emplace}

module _ {H B : Type 0} where
  -- The ids with a pending call have been counted already.
  abbrev pub IsValid : Transfer H B → Type 0
  IsValid t = (id : ℕ) → lookup id t.msg_handlers ≢ none → id < t.msg_id_counter

  pub fresh : (t : Transfer H B) → IsValid t → lookup t.msg_id_counter t.msg_handlers ≡ none
  fresh t v = elim (Option-cases (lookup t.msg_id_counter t.msg_handlers)) [
    | inl e ↦ e
    | inr (b, e) ↦ absurd (omega (arith, v t.msg_id_counter (λ absent. cc)))
  ]

  -- What is sent for a request: its class, the id of the client if it has one, the number of the call
  -- and the content.
  abbrev pub sent_as : Transfer H B → Request → List ℕ → Package
  sent_as t r stored = record {
    meta = record {
      message_class = r.meta.message_class;
      client_id = if nonneg t.client then t.client else r.meta.client_id;
      message_id = t.msg_id_counter;
    };
    cont = stored;
  }

  signed-package :
      (t : Transfer H B) (r : Request) {stored rest : List ℕ}
      → Holds stored rest r.cont
      → to_package (
          signed
            (record t { msg_id_counter = (t.msg_id_counter + 1) % 2 ^ 32 })
            (set_msg_id t.msg_id_counter r))
        ≡ ok (sent_as t r stored)
  unfolding signed set_msg_id set_client
  signed-package t r h = elim (Bool-cases (nonneg t.client)) [
    | inl e ↦ rw e (to_package-Holds _ h)
    | inr e ↦ rw e (to_package-Holds _ h)
  ]

  -- The client after it has sent `r`, whose content is `stored`, to the node `to`.
  abbrev pub after_send : ℕ → Request → List ℕ → B → Transfer H B → Transfer H B
  after_send to r stored handler t = record t {
    msg_id_counter = (t.msg_id_counter + 1) % 2 ^ 32;
    msg_handlers = assign t.msg_id_counter handler t.msg_handlers;
    sent = t.sent ++ (to, sent_as t r stored) ∷ [];
  }

  pub after_send-IsValid :
      (to : ℕ) (r : Request) (stored : List ℕ) (handler : B) (t : Transfer H B)
      → IsValid t
      → t.msg_id_counter + 1 < 2 ^ 32
      → IsValid (after_send to r stored handler t)
  after_send-IsValid to r stored handler t v few id here =
      ground (arith, v id, lookup-assign t.msg_id_counter id handler t.msg_handlers)

  module _ {A : Type 0} {a : A} (addrs : List (ℕ × A)) (r : Request) (handler : B) (to : ℕ)
      (t : Transfer H B) {stored rest : List ℕ} (v : IsValid t)
      (known : eq_int t.client (negsuc 2) ≡ false) where
    pub send-run :
        lookup to addrs ≡ some a
        → Holds stored rest r.cont
        → send addrs r handler to t ≡ ok (after_send to r stored handler t)
    unfolding send emplace
    send-run there h = rw (known, ◌>>=◌, signed-package t r h, fresh t v, there) refl

    -- A client with an id that is set sends a request to a node of the route, before 2^32 - 1 calls: it
    -- succeeds, the callback waits under the new number, one package goes to that node, and no other
    -- pending call changes.
    pub send-registers :
        t.msg_id_counter + 1 < 2 ^ 32
        → lookup to addrs ≡ some a
        → Holds stored rest r.cont
        → Returns (send addrs r handler to t) λ t'.
          IsValid t'
          × (t'.sent ≡ t.sent ++ (to, sent_as t r stored) ∷ [])
          × (t'.msg_id_counter ≡ t.msg_id_counter + 1)
          × ((id : ℕ)
              → lookup id t'.msg_handlers
                ≡ (if id == t.msg_id_counter then some handler else lookup id t.msg_handlers))
    send-registers few there h = (
      after_send to r stored handler t,
      send-run there h,
      (
        after_send-IsValid to r stored handler t v few,
        refl,
        omega arith,
        λ id. lookup-assign t.msg_id_counter id handler t.msg_handlers,
      ),
    )

  -- A response to a pending call, which is addressed to this client: the callback of that call is
  -- pushed to the channel with the response, the call is no longer pending, the others still are, and
  -- a second response to it fails a CHECK.
  pub handle_response-once :
      (response : Request) (t : Transfer H B) (handler : B)
      → lookup response.meta.message_id t.msg_handlers ≡ some handler
      → addressed response t ≡ true
      → Returns (handle_response response t) λ t'.
        (t'.tasks ≡ t.tasks ++ call_back handler response ∷ [])
        × ((id : ℕ)
            → lookup id t'.msg_handlers
              ≡ (if id == response.meta.message_id then none else lookup id t.msg_handlers))
        × (handle_response response t' ≡ abort check_failed)
  unfolding handle_response addressed
  handle_response-once response t handler pending ours =
      let id = response.meta.message_id in
      (
        record t {
          msg_handlers = erase id t.msg_handlers;
          tasks = t.tasks ++ call_back handler response ∷ [];
        },
        rw (ours, ◌>>=◌, pending) refl,
        (
          refl,
          (λ j. lookup-erase id j t.msg_handlers),
          rw (ours, ◌>>=◌, lookup-erase_self id t.msg_handlers) refl,
        ),
      )
