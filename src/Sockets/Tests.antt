-- ===== src/Sockets/Tests.antt =====
-- A node that finds a port in use, and the choice of the local address.
use swift_snails.Base.{
  ◌≤◌, ◌<◌, ◌≡◌, refl, arith, [], ◌∷◌, ◌++◌, some, ok, true, false, pos, negsuc,
}
use swift_snails.Addr.{Addr, from_string}
use swift_snails.Sockets.{
  bound, random_port, address_of, zmq_bind_random_port, ignore_signal_call, inet, no_addr, loopback,
  get_local_ip,
}
use swift_snails.Sockets.Binding.{dotted, busy, zmq_bind_random_port-parses}

abbrev node : Addr
node = record { addr_0 = 10; addr_1 = 0; addr_2 = 0; addr_3 = 7; port = 0 }

zmq_bind_random_port-parses_example :
    (zmq_bind_random_port (dotted node) (busy (5 ∷ []) ++ (70000, bound) ∷ [])
      ≡ ok (some (address_of (dotted node) 6512, 6512)))
    × (1024 ≤ random_port 70000)
    × (random_port 70000 < 65536)
    × (from_string (address_of (dotted node) 6512) ≡ ok (record node { port = 6512 }))
zmq_bind_random_port-parses_example = zmq_bind_random_port-parses node (5 ∷ []) 70000 [] (record {
  fits_0 = omega arith;
  fits_1 = omega arith;
  fits_2 = omega arith;
  fits_3 = omega arith;
  port_fits = omega arith;
})

interrupted : ignore_signal_call ((negsuc 0, true) ∷ (pos 4, false) ∷ []) ≡ some (pos 4)
unfolding ignore_signal_call
interrupted = refl

last_address :
    get_local_ip (inet (49 ∷ []) ∷ no_addr ∷ inet (50 ∷ []) ∷ inet loopback ∷ []) ≡ 50 ∷ []
unfolding get_local_ip
last_address = refl
