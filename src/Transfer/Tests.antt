-- ===== src/Transfer/Tests.antt =====
-- Runs of the transfer.
use swift_snails.Base.{
  ℕ, ◌≡◌, refl, List, [], ◌∷◌, ◌++◌, none, some, Result, ok, abort, check_failed, ◌==◌,
  if◌then◌else◌, Returns, arith, true, pos, negsuc,
}
use swift_snails.Base.Map.{lookup, nat_ordered}
use swift_snails.Buffer
use swift_snails.Buffer.{Buffer}
use swift_snails.Buffer.Contents.{Holds, new-Holds}
use swift_snails.Buffer.Replace.{set-Holds}
use swift_snails.Message.{Request, Package, new_request}
use swift_snails.Transfer.{
  Transfer, serve, call_back, opened, send, addressed, handle_response, receive, serve_request,
}
use swift_snails.Transfer.Calls.{IsValid, sent_as, handle_response-once}
use swift_snails.Transfer.Exchange.{Answers, call-answered}
use swift_snails.Transfer.Dispatch.{reply}

-- Some content.
abbrev filled : Returns (Buffer.set (5 ∷ 6 ∷ []) Buffer.new) (Holds (5 ∷ 6 ∷ []) (5 ∷ 6 ∷ []))
filled = set-Holds (5 ∷ 6 ∷ []) Buffer.new new-Holds (omega arith)

abbrev asking : Request
asking = record {
  meta = record { message_class = pos 3; client_id = pos 8; message_id = 40 };
  cont = filled.0;
}

abbrev answering : Package
answering = record {
  meta = record { message_class = negsuc 0; client_id = pos 8; message_id = 40 };
  cont = 5 ∷ 6 ∷ [];
}

abbrev addrs : List (ℕ × ℕ)
addrs = (0, 100) ∷ (8, 108) ∷ []

-- The callback 11 waits for call 40, and class 3 has the handler 33.
abbrev waiting : Transfer ℕ ℕ
waiting = record opened {
  client = pos 8;
  msg_id_counter = 41;
  msg_handlers = (40, 11) ∷ [];
  message_class = (3, 33) ∷ [];
}

waiting-IsValid : IsValid waiting
unfolding lookup
waiting-IsValid id there = ground arith

free_class : lookup 5 waiting.message_class ≡ none
unfolding lookup
free_class = refl

routed_master : lookup 0 addrs ≡ some 100
unfolding lookup
routed_master = refl

routed : lookup 8 addrs ≡ some 108
unfolding lookup
routed = refl

pending : lookup 40 waiting.msg_handlers ≡ some 11
unfolding lookup
pending = refl

registered : lookup 3 waiting.message_class ≡ some 33
unfolding lookup
registered = refl

ours : addressed asking waiting ≡ true
unfolding addressed
ours = refl

handle_response-once_example : Returns (handle_response asking waiting) λ t'.
    (t'.tasks ≡ [] ++ call_back 11 asking ∷ [])
    × ((id : ℕ)
        → lookup id t'.msg_handlers ≡ (if id == 40 then none else lookup id waiting.msg_handlers))
    × (handle_response asking t' ≡ abort check_failed)
handle_response-once_example = handle_response-once asking waiting 11 pending ours

abbrev asked : Package
asked = record { meta = asking.meta; cont = 5 ∷ 6 ∷ [] }

-- A handler that answers with what it was asked.
abbrev echo : Request → Request → Result Request
echo request response = ok (record response { cont = request.cont })

abbrev echoed : Request
echoed = record new_request { cont = filled.0 }

echo-Answers : Answers echo (5 ∷ 6 ∷ []) (5 ∷ 6 ∷ [])
echo-Answers q held = (record new_request { cont = q.cont }, refl, (5 ∷ 6 ∷ [], held))

-- Node 8 of the route asks itself for what its class 3 does.
call-answered_example : Returns (send addrs asking 12 0 waiting) λ t₁.
    (t₁.sent ≡ [] ++ (0, sent_as waiting asking (5 ∷ 6 ∷ [])) ∷ [])
    × Returns (receive (sent_as waiting asking (5 ∷ 6 ∷ [])) waiting) λ s₁.
      (q : Request) × (s₁.tasks ≡ [] ++ serve 33 q ∷ [])
      × Holds (5 ∷ 6 ∷ []) (5 ∷ 6 ∷ []) q.cont
      × Returns (serve_request echo addrs q s₁) λ s₂.
        (s₂.sent ≡ [] ++ (8, reply 8 q (5 ∷ 6 ∷ [])) ∷ [])
        × Returns (receive (reply 8 q (5 ∷ 6 ∷ [])) t₁) λ t₂.
          (q' : Request) × (t₂.tasks ≡ [] ++ call_back 12 q' ∷ [])
          × Holds (5 ∷ 6 ∷ []) (5 ∷ 6 ∷ []) q'.cont
          × ((id : ℕ) → lookup id t₂.msg_handlers ≡ lookup id waiting.msg_handlers)
call-answered_example =
    call-answered addrs addrs asking 12 0 8 waiting waiting 33 echo waiting-IsValid refl
      (omega arith) routed_master filled.2 (omega arith) refl registered refl routed echo-Answers
      (omega arith)
