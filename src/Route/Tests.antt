-- ===== src/Route/Tests.antt =====
-- Runs of the route.
use swift_snails.Base.{ℕ, ◌<◌, ◌^◌, List, ◌++◌, ◌>>=◌, refl, [], ◌∷◌, Returns, arith}
use swift_snails.Base.Map.{lookup, nat_ordered}
use swift_snails.Route.{ServerWorkerRoute, new_route, put_route, get_route}
use swift_snails.Addr.Parsing.{Fits}
use swift_snails.Route.Ids.{IsValid}
use swift_snails.Route.Wire.{Sendable, IsNew, Joined, get_route-put_route}
use swift_snails.Addr.{Addr, to_string, tcp_head}
use swift_snails.Buffer
use swift_snails.Buffer.{Buffer}
use swift_snails.Buffer.Contents.{Holds, new-Holds}

new_route-IsValid : IsValid new_route
unfolding lookup
new_route-IsValid = record {
  consistent = record { connected = λ id. refl; locked = λ id. refl };
  given = λ id there. absurd (there refl);
}

-- 10.0.0.k:8000
abbrev ip : ℕ → Addr
ip k = record { addr_0 = 10; addr_1 = 0; addr_2 = 0; addr_3 = k; port = 8000 }

abbrev listed : List (ℕ × List ℕ)
listed = (0, tcp_head ++ to_string (ip 1)) ∷ (1, tcp_head ++ to_string (ip 2)) ∷ []

-- The master and one server.
abbrev two_nodes : ServerWorkerRoute
two_nodes = record {
  base = record { senders = listed; send_addrs = listed; send_mutexes = (0, tt) ∷ (1, tt) ∷ [] };
  server_num = 2;
  worker_num = 0;
  server_ids = 0 ∷ 1 ∷ [];
  worker_ids = [];
}

two_nodes-Sendable : Sendable two_nodes
two_nodes-Sendable =
    let fits : (k : ℕ) → k < 2 ^ 16 → Fits (ip k) = λ k small. record {
      fits_0 = omega arith;
      fits_1 = omega arith;
      fits_2 = omega arith;
      fits_3 = small;
      port_fits = omega arith;
    } in
    record {
      ascending = (((omega arith), tt), (tt, tt));
      printed = (
        record { ip = ip 1; fits = fits 1 (omega arith); printed = refl; small = omega arith },
        (
          record { ip = ip 2; fits = fits 2 (omega arith); printed = refl; small = omega arith },
          tt,
        ),
      );
      sized = refl;
      few = omega arith;
    }

new_route-IsNew : IsNew new_route
unfolding lookup
new_route-IsNew = record {
  consistent = record { connected = λ id. refl; locked = λ id. refl };
  alone = λ j pos. refl;
}

get_route-put_route_example :
    Returns
      (put_route two_nodes Buffer.new >>= (λ b'. get_route b' new_route))
      λ p. Joined two_nodes new_route p.0 × ((bytes : List ℕ) × Holds ([] ++ bytes) [] p.1)
get_route-put_route_example =
    get_route-put_route two_nodes new_route Buffer.new two_nodes-Sendable new_route-IsNew new-Holds
