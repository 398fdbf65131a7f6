-- ===== src/NodeInit/Joining.antt =====
-- A node joins: it registers, and reads the answer of the master.
use swift_snails.Base.{
  ℕ, ◌+◌, ◌<◌, ◌≡◌, refl, ap, ◌∙◌, arith, List, [], ◌∷◌, ◌++◌, none, some, ok, ◌>>=◌, Bool, true,
  false, if◌then◌else◌, Returns, pos, negsuc, append-nil,
}
use swift_snails.Base.Map.{lookup, nat_ordered, lookup-assign_self}
use swift_snails.Addr.{Addr, to_string, from_string, tcp_head}
use swift_snails.Addr.Parsing.{Fits}
use swift_snails.Addr.Wire.{addr_wire, put_addr-Holds, some_addr_wire}
use swift_snails.Buffer
use swift_snails.Buffer.Contents.{Holds, new-Holds}
use swift_snails.Message.{
  Request, Package, new_request, of_package, set_server, set_worker, set_client,
}
use swift_snails.Transfer.{Transfer, call_back, receive, send, set_client_id, addressed}
use swift_snails.Transfer.Calls
use swift_snails.Transfer.Calls.{send-run, sent_as, after_send}
use swift_snails.Transfer.Dispatch.{unpacked, receive-response}
use swift_snails.Route.{id_max_range}
use swift_snails.Route.Wire.{IsNew, Joined}
use swift_snails.Master.{
  Master, MsgCls, number, init_msg_id, node_init_address, send_route_to_workers,
}
use swift_snails.Master.Nodes
use swift_snails.Master.Nodes.{node_init_address-IsValid}
use swift_snails.Master.Replies.{route_reply, route_replies-at, send_route_to_workers-sends}
use swift_snails.NodeInit.{Node, Callback, set_class, register_local_node_to_master, route_response}

-- What a node sends to register.
abbrev pub registration : Bool → Addr → ℕ → Package
registration server ip k = record {
  meta = record {
    message_class = pos (number MsgCls.node_init);
    client_id = if server then negsuc 1 else negsuc 0;
    message_id = k;
  };
  cont = addr_wire ip;
}

registration_unset :
    (server : Bool) → (if server then negsuc 1 else negsuc 0) ≡ negsuc (if server then 1 else 0)
registration_unset true = refl
registration_unset false = refl

module _ {H : Type 0} where
  -- The request of the node goes through `send`.
  registering :
      {a : List ℕ} (r : Request) (node : Node H) {bytes rest : List ℕ}
      → Calls.IsValid node.transfer
      → lookup 0 node.route.base.send_addrs ≡ some a
      → Holds bytes rest r.cont
      → Returns
          (send node.route.base.send_addrs r Callback.init_route 0
            (set_client_id (negsuc 0) node.transfer))
          λ t.
            (t.sent
              ≡ node.transfer.sent
                ++ (0, sent_as (set_client_id (negsuc 0) node.transfer) r bytes) ∷ [])
            × (t.client ≡ negsuc 0)
            × (lookup node.transfer.msg_id_counter t.msg_handlers ≡ some Callback.init_route)
  unfolding set_client_id
  registering r node {bytes} v there h =
      let t = record node.transfer { client = negsuc 0 } in
      (
        after_send 0 r bytes Callback.init_route t,
        send-run node.route.base.send_addrs r Callback.init_route 0 t v refl there h,
        (refl, refl, lookup-assign_self t.msg_id_counter Callback.init_route t.msg_handlers),
      )

  register-sends :
      {a : List ℕ} (server : Bool) (recv_addr : List ℕ) (ip : Addr) (node : Node H)
      → from_string recv_addr ≡ ok ip
      → Calls.IsValid node.transfer
      → lookup 0 node.route.base.send_addrs ≡ some a
      → Returns (register_local_node_to_master server recv_addr node) λ node₁.
        (node₁.transfer.sent
          ≡ node.transfer.sent ++ (0, registration server ip node.transfer.msg_id_counter) ∷ [])
        × (node₁.transfer.client ≡ negsuc 0)
        × (lookup node.transfer.msg_id_counter node₁.transfer.msg_handlers
            ≡ some Callback.init_route)
        × (node₁.route ≡ node.route)
  unfolding register_local_node_to_master set_client_id set_server set_worker set_client
  register-sends true recv_addr ip node parsed v there =
      let (b, put, h) = put_addr-Holds ip Buffer.new new-Holds in
      let r = set_server (set_class MsgCls.node_init (record new_request { cont = b })) in
      let (t, sends, (sent, client, waits)) = registering r node v there h in
      (
        record node { transfer = t },
        rw (parsed, ◌>>=◌, put, sends) refl,
        (sent, client, waits, refl),
      )
  register-sends false recv_addr ip node parsed v there =
      let (b, put, h) = put_addr-Holds ip Buffer.new new-Holds in
      let r = set_worker (set_class MsgCls.node_init (record new_request { cont = b })) in
      let (t, sends, (sent, client, waits)) = registering r node v there h in
      (
        record node { transfer = t },
        rw (parsed, ◌>>=◌, put, sends) refl,
        (sent, client, waits, refl),
      )

  -- A node that has the master's address registers while the master, in its invariant, has room: the
  -- node sends one package to the master, which accepts it and stays in its invariant; the node has a
  -- fresh id there, with its own address and with the number under which its callback waits.
  join-registers :
      {a : List ℕ} (server : Bool) (recv_addr : List ℕ) (ip : Addr) (node : Node H) (m : Master)
      → from_string recv_addr ≡ ok ip
      → Fits ip
      → Calls.IsValid node.transfer
      → lookup 0 node.route.base.send_addrs ≡ some a
      → Nodes.IsValid m
      → m.registered_node_num + 2 < id_max_range
      → Returns (register_local_node_to_master server recv_addr node) λ node₁.
        (pkg : Package) × (node₁.transfer.sent ≡ node.transfer.sent ++ (0, pkg) ∷ [])
        × Returns (of_package pkg >>= (λ q. node_init_address q m)) λ m'.
          Nodes.IsValid m'
          × ((id : ℕ) × (k : ℕ) × (lookup id m.route.base.send_addrs ≡ none)
              × (lookup id m'.route.base.send_addrs ≡ some (tcp_head ++ to_string ip))
              × (lookup id m'.init_msg_ids ≡ some k)
              × (lookup k node₁.transfer.msg_handlers ≡ some Callback.init_route))
  join-registers server recv_addr ip node m parsed f v there vm few =
      let (node₁, sends, (sent, client, waits, same)) =
        register-sends server recv_addr ip node parsed v there in
      let pkg = registration server ip node.transfer.msg_id_counter in
      let (q, unpacks, (meta, held)) = unpacked pkg (some_addr_wire ip) in
      let unset : q.meta.client_id ≡ negsuc (if server then 1 else 0) =
        ap (λ x. x.client_id) meta ∙ registration_unset server in
      let (m', run, (vm', (id, not_master, free, reads, msg), more)) =
        node_init_address-IsValid q ip m vm few f {stored = addr_wire ip} [] _ (rw append-nil held)
          unset in
      (
        node₁,
        sends,
        (
          pkg,
          sent,
          (
            m',
            rw (unpacks, ◌>>=◌) run,
            (
              vm',
              (
                id,
                node.transfer.msg_id_counter,
                free,
                ground (arith, reads id),
                msg ∙ ap (λ x. some x.message_id) meta,
                waits,
              ),
            ),
          ),
        ),
      )

  -- The master, in its invariant, answers the nodes, of which one has registered and still waits, and
  -- its route has only the master: the sending succeeds, and among what is sent is a package to that
  -- node. The node receives it and its callback succeeds, after which the node has the id that the
  -- master gave it, its own address under this id, and the route of the master.
  pub join-answered :
      {H' B' : Type 0} {addr : List ℕ} (m : Master) (s : Transfer H' B') (node : Node H) (id k : ℕ)
      → Nodes.IsValid m
      → lookup id m.route.base.send_addrs ≡ some addr
      → 0 < id
      → lookup id m.init_msg_ids ≡ some k
      → lookup k node.transfer.msg_handlers ≡ some Callback.init_route
      → node.transfer.client ≡ negsuc 0
      → IsNew node.route
      → Returns (send_route_to_workers m s) λ s₁.
        (pkg : Package) × (l : List (ℕ × Package)) × (r : List (ℕ × Package)) × (s₁.sent
          ≡ s.sent ++ (l ++ (id, pkg) ∷ r))
        × Returns (receive pkg node.transfer) λ t.
          (q : Request) × (t.tasks ≡ node.transfer.tasks ++ call_back Callback.init_route q ∷ [])
          × Returns (route_response q (record node { transfer = t })) λ node₁.
            (node₁.transfer.client ≡ pos id)
            × Joined m.route node.route node₁.route
            × (lookup id node₁.route.base.send_addrs ≡ some addr)
            × (node₁.route_init ≡ true)
  unfolding route_response set_client_id addressed
  join-answered m s node id k v there not_master asked waits unset new =
      let (w, sends) = send_route_to_workers-sends m s v in
      let (l, r, at) = route_replies-at w.bytes m id m.route.base.send_addrs not_master there in
      let number : init_msg_id id m ≡ k = rw (init_msg_id, asked) refl in
      let (t, got, ((q, meta, held, pushed), left)) =
        receive-response (route_reply w.bytes m id) node.transfer Callback.init_route w.some_bytes
          refl (ap (λ n. lookup n node.transfer.msg_handlers) number ∙ waits)
          (λ r same. rw unset refl) in
      let (p, read, (joins, _)) = w.gets w.bytes [] q.cont node.route (rw append-nil held) new in
      let joined : Node H = record node {
        route = p.0;
        transfer = record t { client = q.meta.client_id };
        route_init = true;
      } in
      (
        _,
        sends,
        (
          route_reply w.bytes m id,
          l,
          r,
          ap (λ x. s.sent ++ x) at,
          (
            t,
            got,
            (
              q,
              pushed,
              (
                joined,
                rw (read, ◌>>=◌) refl,
                (ap (λ x. x.client_id) meta, joins, ground (arith, joins.addrs id, there), refl),
              ),
            ),
          ),
        ),
      )
