-- ===== src/Master/Examples.antt =====
-- A master with one server, for the tests.
use swift_snails.Base.{ℕ, ◌<◌, ◌^◌, refl, arith, List, [], ◌∷◌, ◌++◌, some, false}
use swift_snails.Base.Map.{lookup, nat_ordered}
use swift_snails.HashFrag.{HashFrag}
use swift_snails.Addr.{Addr, to_string, tcp_head}
use swift_snails.Addr.Parsing.{Fits}
use swift_snails.Route.Wire.{Sendable}
use swift_snails.Master.{Master}
use swift_snails.Master.Nodes

-- 10.0.0.k:8000
abbrev pub ip : ℕ → Addr
ip k = record { addr_0 = 10; addr_1 = 0; addr_2 = 0; addr_3 = k; port = 8000 }

pub fits : (k : ℕ) → k < 2 ^ 16 → Fits (ip k)
fits k small = record {
  fits_0 = omega arith;
  fits_1 = omega arith;
  fits_2 = omega arith;
  fits_3 = small;
  port_fits = omega arith;
}

abbrev pub address : ℕ → List ℕ
address k = tcp_head ++ to_string (ip k)

abbrev pub listed : List (ℕ × List ℕ)
listed = (0, address 1) ∷ (1, address 2) ∷ []

abbrev pub two_frags : HashFrag
two_frags = record { nodes = 1; frags = 2; map_table = some (1 ∷ 1 ∷ []) }

-- The master with one server, which waits on message 0.
abbrev pub one_server : Master
one_server = record {
  route = record {
    base = record { senders = listed; send_addrs = listed; send_mutexes = (0, tt) ∷ (1, tt) ∷ [] };
    server_num = 2;
    worker_num = 0;
    server_ids = 0 ∷ 1 ∷ [];
    worker_ids = [];
  };
  hashfrag = two_frags;
  init_msg_ids = (1, 0) ∷ [];
  registered_node_num = 1;
  registered_server_num = 1;
  expected_node_num = 2;
  route_init = false;
}

pub one_server-Sendable : Sendable one_server.route
one_server-Sendable = record {
  ascending = ((omega arith, tt), (tt, tt));
  printed = (
    record { ip = ip 1; fits = fits 1 (omega arith); printed = refl; small = omega arith },
    (record { ip = ip 2; fits = fits 2 (omega arith); printed = refl; small = omega arith }, tt),
  );
  sized = refl;
  few = omega arith;
}

pub one_server-IsValid : Nodes.IsValid one_server
unfolding lookup
one_server-IsValid = record {
  route = record {
    consistent = record { connected = λ id. refl; locked = λ id. ground arith };
    given = λ id there. ground arith;
  };
  sendable = one_server-Sendable;
  servers = refl;
  nodes = refl;
  ids = refl;
  served = λ id lt. ground arith;
  waits = λ id pos there. ground arith;
}
