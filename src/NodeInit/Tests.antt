-- ===== src/NodeInit/Tests.antt =====
-- Runs of the joining.
use swift_snails.Base.{
  ℕ, ◌≡◌, refl, arith, List, [], ◌∷◌, ◌++◌, none, some, true, false, Returns, pos, negsuc, inl,
}
use swift_snails.Base.Map.{lookup, nat_ordered}
use swift_snails.HashFrag.Wire.{IsSendable}
use swift_snails.Message.{Request, Package}
use swift_snails.Transfer.{Transfer, opened, call_back, serve, receive, serve_request}
use swift_snails.Transfer.Calls
use swift_snails.Route.{ServerWorkerRoute, new_route}
use swift_snails.Route.Wire.{IsNew, Joined}
use swift_snails.Master.{node_askfor_hashfrag, send_route_to_workers}
use swift_snails.Master.Examples.{address, listed, two_frags, one_server, one_server-IsValid}
use swift_snails.NodeInit.{Node, Callback, route_response, askfor_hashfrag, hashfrag_response}
use swift_snails.NodeInit.Joining.{join-answered}
use swift_snails.NodeInit.Sharing.{hashfrag-shared}

-- A node that knows the master, before and after it has sent its registration.
abbrev knowing : ServerWorkerRoute
knowing = record new_route {
  base = record {
    senders = (0, address 1) ∷ [];
    send_addrs = (0, address 1) ∷ [];
    send_mutexes = (0, tt) ∷ [];
  };
}

abbrev node : Node ℕ
node = record {
  route = knowing;
  transfer = opened;
  hashfrag = record { nodes = 0; frags = 0; map_table = none };
  route_init = false;
  hashfrag_init = false;
}

abbrev waiting : Node ℕ
waiting = record node {
  transfer = record opened {
    client = negsuc 0;
    msg_id_counter = 1;
    msg_handlers = (0, Callback.init_route) ∷ [];
  };
}

knowing-IsNew : IsNew knowing
unfolding lookup
knowing-IsNew = record {
  consistent = record { connected = λ id. refl; locked = λ id. ground arith };
  alone = λ j pos. ground arith;
}

opened-IsValid : Calls.IsValid (opened {H = ℕ} {B = Callback})
unfolding lookup
opened-IsValid id there = absurd (there refl)

knows : lookup 0 knowing.base.send_addrs ≡ some (address 1)
unfolding lookup
knows = refl

listed_one : lookup 1 listed ≡ some (address 2)
unfolding lookup
listed_one = refl

asked_one : lookup 1 one_server.init_msg_ids ≡ some 0
unfolding lookup
asked_one = refl

waits_zero : lookup 0 waiting.transfer.msg_handlers ≡ some Callback.init_route
unfolding lookup
waits_zero = refl

join-answered_example : Returns (send_route_to_workers one_server (opened {H = ℕ} {B = ℕ})) λ s₁.
    (pkg : Package) × (l : List (ℕ × Package)) × (r : List (ℕ × Package)) × (s₁.sent
      ≡ [] ++ (l ++ (1, pkg) ∷ r))
    × Returns (receive pkg waiting.transfer) λ t.
      (q : Request) × (t.tasks ≡ [] ++ call_back Callback.init_route q ∷ [])
      × Returns (route_response q (record waiting { transfer = t })) λ node₁.
        (node₁.transfer.client ≡ pos 1)
        × Joined one_server.route knowing node₁.route
        × (lookup 1 node₁.route.base.send_addrs ≡ some (address 2))
        × (node₁.route_init ≡ true)
join-answered_example =
    join-answered one_server opened waiting 1 0 one_server-IsValid listed_one (omega arith)
      asked_one waits_zero refl knowing-IsNew

-- Node 1, and the transfer of the master with its handler.
abbrev joined : Node ℕ
joined = record node { transfer = record opened { client = pos 1 } }

abbrev serving : Transfer ℕ Callback
serving = record opened { client = pos 0; message_class = (1, 77) ∷ [] }

serving_class : lookup 1 serving.message_class ≡ some 77
unfolding lookup
serving_class = refl

joined-IsValid : Calls.IsValid joined.transfer
unfolding lookup
joined-IsValid id there = absurd (there refl)

two_frags-IsSendable : IsSendable two_frags (1 ∷ 1 ∷ [])
two_frags-IsSendable = record {
  present = refl;
  sized = refl;
  some_frag = omega arith;
  frags_fit = omega arith;
  nodes_fit = omega arith;
  ids_fit = (omega arith, (omega arith, tt));
}

hashfrag-shared_example : Returns (askfor_hashfrag joined) λ node₁.
    (pkg : Package) × (node₁.transfer.sent ≡ [] ++ (0, pkg) ∷ [])
    × Returns (receive pkg serving) λ s₁.
      (q : Request) × (s₁.tasks ≡ [] ++ serve 77 q ∷ [])
      × Returns (serve_request (λ q r. node_askfor_hashfrag q r one_server) listed q s₁) λ s₂.
        (answer : Package) × (s₂.sent ≡ [] ++ (1, answer) ∷ [])
        × Returns (receive answer node₁.transfer) λ t₂.
          (q' : Request) × (t₂.tasks ≡ [] ++ call_back Callback.init_hashfrag q' ∷ [])
          × Returns
              (hashfrag_response q' (record node₁ { transfer = t₂ }))
              λ node₂. (node₂.hashfrag ≡ two_frags) × (node₂.hashfrag_init ≡ true)
hashfrag-shared_example =
    hashfrag-shared joined one_server serving 77 1 (1 ∷ 1 ∷ []) joined-IsValid refl (omega arith)
      knows serving_class refl listed_one two_frags-IsSendable (inl (refl, refl))
