-- ===== src/Sockets/Binding.antt =====
-- The address to which a node is bound, and what another node reads of it.
use swift_snails.Base.{
  ℕ, ◌≤◌, ◌<◌, ◌≡◌, refl, ap, ◌∙◌, arith, List, [], ◌∷◌, ◌++◌, map, some, ok, append_assoc,
}
use swift_snails.Strings.{String}
use swift_snails.Strings.Numerals.{decimal}
use swift_snails.Addr.{Addr, tcp_head, to_string, from_string}
use swift_snails.Addr.Parsing.{Fits, from_string-to_string}
use swift_snails.Sockets.{Bind, bound, in_use, random_port, address_of, zmq_bind_random_port}

-- The four numbers of an address, printed.
abbrev pub dotted : Addr → String
dotted a =
    decimal 5 a.addr_0
    ++ 46 ∷ (decimal 5 a.addr_1 ++ 46 ∷ (decimal 5 a.addr_2 ++ 46 ∷ decimal 5 a.addr_3))

dotted-to_string :
    (a : Addr) (port : ℕ) → dotted a ++ 58 ∷ decimal 5 port ≡ to_string (record a { port = port })
unfolding to_string
dotted-to_string a port = simp append_assoc refl

-- The tries before the first free port, each at a port in use.
abbrev pub busy : List ℕ → List (ℕ × Bind)
busy rands = map (λ r. (r, in_use)) rands

binds :
    (ip : String) (rands : List ℕ) (rand : ℕ) (tries : List (ℕ × Bind))
    → zmq_bind_random_port ip (busy rands ++ (rand, bound) ∷ tries)
      ≡ ok (some (address_of ip (random_port rand), random_port rand))
unfolding zmq_bind_random_port
binds ip [] rand tries = refl
binds ip (r ∷ rands) rand tries = binds ip rands rand tries

-- However many ports are in use, the first free one that is tried ends the loop. Its number is from
-- 1024 to 65535, and the address, for a node with the IP address `a`, is parsed by another node as
-- that IP address with that port.
pub zmq_bind_random_port-parses :
    (a : Addr) (rands : List ℕ) (rand : ℕ) (tries : List (ℕ × Bind))
    → Fits a
    → let port = random_port rand in
      let addr = address_of (dotted a) port in
      (zmq_bind_random_port (dotted a) (busy rands ++ (rand, bound) ∷ tries)
        ≡ ok (some (addr, port)))
      × (1024 ≤ port)
      × (port < 65536)
      × (from_string addr ≡ ok (record a { port = port }))
zmq_bind_random_port-parses a rands rand tries f = (
  binds (dotted a) rands rand tries,
  omega arith,
  omega arith,
  ap (λ s. from_string (tcp_head ++ s)) (dotted-to_string a (random_port rand))
      ∙ (from_string-to_string (record a { port = random_port rand })
          (record {
            fits_0 = f.fits_0;
            fits_1 = f.fits_1;
            fits_2 = f.fits_2;
            fits_3 = f.fits_3;
            port_fits = omega arith;
          })).1,
)
