-- ===== src/Master/Replies.antt =====
-- What the master answers the nodes: the route, and the table of fragments.
use swift_snails.Base.{
  ℕ, ◌<◌, ◌≤◌, ◌≡◌, ◌≢◌, refl, ap, sym, ◌∙◌, arith, List, [], ◌∷◌, ◌++◌, none, some, ok, true,
  false, ◌>>=◌, ◌==◌, if◌then◌else◌, Returns, negsuc, pos, Option-cases, Bool-cases, All, ltb,
  append_assoc, append-nil, inl, inr,
}
use swift_snails.Base.Map.{lookup, nat_ordered, is_eq}
use swift_snails.Base.Ascending.{found}
use swift_snails.Buffer
use swift_snails.Buffer.Contents.{Holds, new-Holds}
use swift_snails.HashFrag.{to_node_id, set_num_nodes}
use swift_snails.HashFrag.Fragments.{init-InShare}
use swift_snails.HashFrag.Routing.{to_node_id-init}
use swift_snails.Message.{Package, Request, new_request, set_msg_id, set_response, set_client}
use swift_snails.Message.Packing.{to_package-Holds}
use swift_snails.Transfer.{Transfer, send_response}
use swift_snails.Route.Wire.{RouteWritten, route-RouteWritten}
use swift_snails.Master.{Master, init_msg_id, send_routes, send_route_to_workers, init_hashfrag}
use swift_snails.Master.Nodes.{IsValid}

-- The answer to the registration of the node `id`: the route, with the id of the node and the number
-- of its message.
abbrev pub route_reply : List ℕ → Master → ℕ → Package
route_reply bytes m id = record {
  meta = record { message_class = negsuc 0; client_id = pos id; message_id = init_msg_id id m };
  cont = bytes;
}

-- One answer for each entry but that of the master.
abbrev pub route_replies : List ℕ → Master → List (ℕ × List ℕ) → List (ℕ × Package)
route_replies bytes m [] = []
route_replies bytes m ((id, addr) ∷ rcds) =
    let rest = route_replies bytes m rcds in
    if id == 0 then rest else (id, route_reply bytes m id) ∷ rest

module _ {H B : Type 0} where
  send_response-sends :
      {a : List ℕ} {rest : List ℕ} (addrs : List (ℕ × List ℕ)) (bytes : List ℕ) (m : Master)
      (r : Request) (id : ℕ) (t : Transfer H B)
      → Holds bytes rest r.cont
      → lookup id addrs ≡ some a
      → send_response addrs
          (set_msg_id (init_msg_id id m) (set_response (record new_request { cont = r.cont })))
          (pos id)
          t
        ≡ ok (record t { sent = t.sent ++ (id, route_reply bytes m id) ∷ [] })
  unfolding send_response set_client set_msg_id set_response
  send_response-sends addrs bytes m r id t h there =
      rw
        (
          to_package-Holds (record { meta = (route_reply bytes m id).meta; cont = r.cont }) h,
          ◌>>=◌,
          there,
        )
        refl

  send_routes-sends :
      (rcds : List (ℕ × List ℕ)) (m : Master) (w : RouteWritten m.route) (t : Transfer H B)
      → All (λ rcd. lookup rcd.0 m.route.base.send_addrs ≢ none) rcds
      → send_routes rcds m t ≡ ok (record t { sent = t.sent ++ route_replies w.bytes m rcds })
  unfolding send_routes
  send_routes-sends [] m w t _ = rw (append-nil t.sent) refl
  send_routes-sends ((id, addr) ∷ rcds) m w t (here, known) =
      let (b, put, h) = w.puts [] [] Buffer.new new-Holds in
      elim (Bool-cases (id == 0)) [
        | inl e ↦ rw (put, ◌>>=◌, e) (send_routes-sends rcds m w t known)
        | inr e ↦ elim (Option-cases (lookup id m.route.base.send_addrs)) [
          | inl absent ↦ absurd (here absent)
          | inr (a, there) ↦
              let t₁ = record t { sent = t.sent ++ (id, route_reply w.bytes m id) ∷ [] } in
              rw
                (
                  put,
                  ◌>>=◌,
                  e,
                  send_response-sends m.route.base.send_addrs w.bytes m
                      (record new_request { cont = b }) id t h there,
                )
                (send_routes-sends rcds m w t₁ known
                  ∙ ap (λ l. ok (record t { sent = l })) (append_assoc t.sent _ _))
        ]
      ]

  -- The master, in its invariant, answers the nodes: it succeeds, and to each node of the route but
  -- the master one package is sent, in the order of the ids, with the same bytes, which are the route,
  -- and with the id of the node and the number of the message that it waits on. These bytes are read
  -- as the route by any node that knows only the master.
  pub send_route_to_workers-sends :
      (m : Master) (t : Transfer H B)
      → IsValid m
      → (w : RouteWritten m.route) × (send_route_to_workers m t
          ≡ ok (record t { sent = t.sent ++ route_replies w.bytes m m.route.base.send_addrs }))
  unfolding send_route_to_workers
  send_route_to_workers-sends m t v =
      let w = route-RouteWritten m.route v.sendable in
      (w, send_routes-sends m.route.base.send_addrs m w t (found m.route.base.send_addrs))

-- Among the answers is that to a node with an entry.
pub route_replies-at :
    {addr : List ℕ} (bytes : List ℕ) (m : Master) (id : ℕ) (rcds : List (ℕ × List ℕ))
    → 0 < id
    → lookup id rcds ≡ some addr
    → (l : List (ℕ × Package)) × (r : List (ℕ × Package)) × (route_replies bytes m rcds
        ≡ l ++ (id, route_reply bytes m id) ∷ r)
unfolding lookup
route_replies-at bytes m id [] some_id there = cc
route_replies-at bytes m id ((j, a) ∷ rcds) some_id there =
    elim (Bool-cases (is_eq (nat_ordered.cmp id j))) [
      | inl same ↦
          let here : id ≡ j = ground (arith, same, nat_ordered.cmp_eq id j) in
          let answers : (j == 0) ≡ false = ground (arith, here, some_id) in
          (
            [],
            route_replies bytes m rcds,
            rw answers
                (ap (λ i. (i, route_reply bytes m i) ∷ route_replies bytes m rcds) (sym here)),
          )
      | inr other ↦
          let (l, r, e) = route_replies-at bytes m id rcds some_id (sym (rw other refl) ∙ there) in
          elim (Bool-cases (j == 0)) [
            | inl master ↦ (l, r, rw master e)
            | inr node ↦ (
              (j, route_reply bytes m j) ∷ l,
              r,
              rw node (ap (λ x. (j, route_reply bytes m j) ∷ x) e),
            )
          ]
    ]

-- After the servers have registered and the table has been made, each key is kept by a server whose
-- address is in the route, if there is a fragment for each server.
pub init_hashfrag-routed :
    (frag_num key : ℕ) (m : Master)
    → IsValid m
    → 0 < m.registered_server_num
    → m.registered_server_num ≤ frag_num
    → Returns (init_hashfrag frag_num m) λ m'.
      Returns
        (to_node_id key m'.hashfrag)
        λ id. (0 < id) × (lookup id m'.route.base.send_addrs ≢ none)
unfolding init_hashfrag set_num_nodes
init_hashfrag-routed frag_num key m v some_server enough =
    let h = record m.hashfrag { nodes = m.registered_server_num } in
    let (h', run, _) = init-InShare frag_num h 0 some_server enough (omega arith) in
    let (id, kept, (first, last)) = to_node_id-init frag_num key h some_server enough in
    let positive : ltb 0 m.registered_server_num ≡ true = ground arith in
    (
      record m { hashfrag = h' },
      rw (positive, ◌>>=◌, run) refl,
      (
        id,
        ap (λ r. r >>= to_node_id key) (sym run) ∙ kept,
        (first, v.served id (omega (arith, v.servers))),
      ),
    )
