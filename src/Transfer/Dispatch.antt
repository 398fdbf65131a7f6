-- ===== src/Transfer/Dispatch.antt =====
-- What becomes of a package that is received, and of a request that is served.
use swift_snails.Base.{
  ℕ, ◌<◌, ◌≡◌, refl, ap, ◌∙◌, List, [], ◌∷◌, ◌++◌, none, some, Result, ok, abort, null_pointer,
  ◌>>=◌, ◌==◌, if◌then◌else◌, Returns, arith, Bool, true, false, ℤ, pos, negsuc, eq_int, Bool-cases,
  length, length-take, ltb, inl, inr, ◌||◌,
}
use swift_snails.Base.Map.{lookup, nat_ordered}
use swift_snails.Buffer
use swift_snails.Buffer.{Buffer}
use swift_snails.Buffer.Contents.{Holds, new-Holds}
use swift_snails.Buffer.Replace.{set-Holds}
use swift_snails.Message.{
  Request, Package, new_request, of_package, to_package, is_response, set_client,
}
use swift_snails.Message.Packing.{to_package-Holds}
use swift_snails.Transfer.{
  Transfer, serve, call_back, as_index, get, addressed, handle_request, receive, send_response,
  serve_request,
}
use swift_snails.Transfer.Calls.{handle_response-once}

-- The request that a package with content is turned into.
pub unpacked :
    (pkg : Package)
    → 0 < length pkg.cont
    → Returns (of_package pkg) λ r. (r.meta ≡ pkg.meta) × Holds pkg.cont pkg.cont r.cont
unfolding of_package Buffer.new
unpacked pkg some_bytes =
    let (c, run, held) = set-Holds pkg.cont Buffer.new new-Holds some_bytes in
    (record { meta = pkg.meta; cont = c }, rw (run, ◌>>=◌) refl, (refl, held))

eq_int_refl : (a : ℤ) → eq_int a a ≡ true
eq_int_refl (pos n) = ground arith
eq_int_refl (negsuc n) = ground arith

or-true : (a b : Bool) → (a || b || true) ≡ true
or-true true true = refl
or-true true false = refl
or-true false true = refl
or-true false false = refl

end-length : {stored rest : List ℕ} (b : Buffer) → Holds stored rest b → b.end ≡ length stored
end-length b h =
    omega (arith, ap length h.written, length-take b.end h.bytes, h.valid.sized, h.valid.fits)

-- The response to a request, as it is sent.
abbrev pub reply : ℕ → Request → List ℕ → Package
reply c request answer = record {
  meta = record {
    message_class = negsuc 0;
    client_id = pos c;
    message_id = request.meta.message_id;
  };
  cont = answer;
}

replied :
    (c : ℕ) (request made : Request) {answer rest : List ℕ}
    → Holds answer rest made.cont
    → to_package
        (set_client (pos c) (record { meta = (reply c request answer).meta; cont = made.cont }))
      ≡ ok (reply c request answer)
unfolding set_client
replied c request made h = to_package-Holds _ h

module _ {H B : Type 0} where
  addressed_to :
      (t : Transfer H B) (r : Request) → r.meta.client_id ≡ t.client → addressed r t ≡ true
  unfolding addressed
  addressed_to t r e =
      rw (e, eq_int_refl t.client) (or-true (eq_int t.client (negsuc 0)) (eq_int t.client (pos 0)))

  -- A package with content whose class is registered, and is not the mark of a response, received while
  -- the channel is open: the handler of its class is pushed to the channel with a request that has the
  -- package's meta data and content.
  pub receive-serves :
      (pkg : Package) (t : Transfer H B) (handler : H)
      → 0 < length pkg.cont
      → eq_int pkg.meta.message_class (negsuc 0) ≡ false
      → lookup (as_index pkg.meta.message_class) t.message_class ≡ some handler
      → t.closed ≡ false
      → Returns (receive pkg t) λ t'.
        (r : Request) × (r.meta ≡ pkg.meta)
        × Holds pkg.cont pkg.cont r.cont
        × (t' ≡ record t { tasks = t.tasks ++ serve handler r ∷ [] })
  unfolding receive is_response handle_request get
  receive-serves pkg t handler some_bytes request there still_open =
      let (r, run, (same, held)) = unpacked pkg some_bytes in
      (
        record t { tasks = t.tasks ++ serve handler r ∷ [] },
        rw (run, ◌>>=◌, same, request, there, still_open) refl,
        (r, same, held, refl),
      )

  -- A response that the client may take, from its package to the callback.
  pub receive-response :
      (pkg : Package) (t : Transfer H B) (handler : B)
      → 0 < length pkg.cont
      → pkg.meta.message_class ≡ negsuc 0
      → lookup pkg.meta.message_id t.msg_handlers ≡ some handler
      → ((r : Request) → r.meta ≡ pkg.meta → addressed r t ≡ true)
      → Returns (receive pkg t) λ t'.
        ((r : Request) × (r.meta ≡ pkg.meta)
          × Holds pkg.cont pkg.cont r.cont
          × (t'.tasks ≡ t.tasks ++ call_back handler r ∷ []))
        × ((id : ℕ)
            → lookup id t'.msg_handlers
              ≡ (if id == pkg.meta.message_id then none else lookup id t.msg_handlers))
  unfolding receive is_response
  receive-response pkg t handler some_bytes response pending ours =
      let (r, run, (same, held)) = unpacked pkg some_bytes in
      let mark : eq_int pkg.meta.message_class (negsuc 0) ≡ true =
        ap (λ c. eq_int c (negsuc 0)) response in
      let waits : lookup r.meta.message_id t.msg_handlers ≡ some handler =
        ap (λ m. lookup m.message_id t.msg_handlers) same ∙ pending in
      let (t', done, (pushed, left, _)) = handle_response-once r t handler waits (ours r same) in
      (
        t',
        rw (run, ◌>>=◌, same, mark) done,
        (
          (r, same, held, pushed),
          λ id.
              left id
              ∙ ap (λ m. if id == m.message_id then none else lookup id t.msg_handlers) same,
        ),
      )

  -- A response with content to a pending call, which is addressed to this client, is received: the
  -- callback of that call, and no other, is pushed to the channel with the content of the package, and
  -- that call alone is no longer pending.
  pub receive-calls_back :
      (pkg : Package) (t : Transfer H B) (handler : B)
      → 0 < length pkg.cont
      → pkg.meta.message_class ≡ negsuc 0
      → lookup pkg.meta.message_id t.msg_handlers ≡ some handler
      → pkg.meta.client_id ≡ t.client
      → Returns (receive pkg t) λ t'.
        ((r : Request) × (r.meta ≡ pkg.meta)
          × Holds pkg.cont pkg.cont r.cont
          × (t'.tasks ≡ t.tasks ++ call_back handler r ∷ []))
        × ((id : ℕ)
            → lookup id t'.msg_handlers
              ≡ (if id == pkg.meta.message_id then none else lookup id t.msg_handlers))
  receive-calls_back pkg t handler some_bytes response pending ours =
      receive-response pkg t handler some_bytes response pending
        (λ r same. addressed_to t r (ap (λ m. m.client_id) same ∙ ours))

  -- A request of client c, an id of the route, is served by a handler that makes a response with the
  -- content `answer`: when there is content it is sent to c with the number of the request, marked as
  -- a response, and when there is none nothing is sent.
  pub serve_request-answers :
      {A : Type 0} {a : A} (run : Request → Request → Result Request) (addrs : List (ℕ × A))
      (request made : Request) (c : ℕ) (t : Transfer H B) {answer rest : List ℕ}
      → run request new_request ≡ ok made
      → Holds answer rest made.cont
      → request.meta.client_id ≡ pos c
      → lookup c addrs ≡ some a
      → serve_request run addrs request t
        ≡ ok (
            if ltb 0 (length answer)
            then record t { sent = t.sent ++ (c, reply c request answer) ∷ [] }
            else t)
  unfolding serve_request send_response set_client Buffer.size
  serve_request-answers run addrs request made c t {answer} served h from there =
      elim (Bool-cases (ltb 0 (length answer))) [
        | inl e ↦
            let full : ltb 0 made.cont.end ≡ true = ap (ltb 0) (end-length made.cont h) ∙ e in
            rw (served, ◌>>=◌, from, full, replied c request made h, there, e) refl
        | inr e ↦ rw (served, ◌>>=◌, from, end-length made.cont h, e) refl
      ]

  -- A request of a client that is not in the route, served by a handler whose response has content:
  -- the sending of the response goes through a null pointer.
  pub serve_request_stranger :
      {A : Type 0} (run : Request → Request → Result Request) (addrs : List (ℕ × A))
      (request made : Request) (c : ℕ) (t : Transfer H B) {answer rest : List ℕ}
      → run request new_request ≡ ok made
      → Holds answer rest made.cont
      → 0 < length answer
      → request.meta.client_id ≡ pos c
      → lookup c addrs ≡ none
      → serve_request run addrs request t ≡ abort null_pointer
  unfolding serve_request send_response set_client Buffer.size
  serve_request_stranger run addrs request made c t {answer} served h some_bytes from there =
      let full : ltb 0 made.cont.end ≡ true = ground (arith, end-length made.cont h) in
      rw (served, ◌>>=◌, from, full, replied c request made h, there) refl
