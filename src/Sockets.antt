-- ===== src/Sockets.antt =====
-- src/core/common.h: the helpers of the nodes around the sockets. What zmq, rand() and getifaddrs()
-- answer, one call after another, is a list that the code reads.
pub mod Binding
mod Tests
use swift_snails.Base.{
  ℕ, ◌+◌, ◌-◌, ◌%◌, List, [], ◌∷◌, ◌++◌, Option, none, some, Result, ok, abort, check_failed, Bool,
  not, ◌&&◌, ℤ, nonneg, if◌then◌else◌,
}
use swift_snails.Strings.{String, eq_string}
use swift_snails.Strings.Numerals.{decimal}
use swift_snails.Addr.{tcp_head}

-- ignore_signal_call(func, args): each answer with whether errno is EINTR; `none` while it still calls
unfoldable pub ignore_signal_call : List (ℤ × Bool) → Option ℤ
ignore_signal_call [] = none
ignore_signal_call ((err, signal) ∷ calls) =
    let again = ignore_signal_call calls in if not (nonneg err) && signal then again else some err

-- What zmq_bind answers: 0, EADDRINUSE, or another error.
pub data Bind : Type 0 where
  bound in_use failed : Bind

-- 1024 + rand() % (65536 - 1024)
abbrev pub random_port : ℕ → ℕ
random_port rand = 1024 + rand % (65536 - 1024)

-- format_string(addr, "tcp://%s:%d", ip, port)
abbrev pub address_of : String → ℕ → String
address_of ip port = tcp_head ++ (ip ++ 58 ∷ decimal 5 port)

-- zmq_bind_random_port(ip, socket, addr, port): the values of rand(), each with what zmq_bind answers;
-- `ok none` while it still tries
unfoldable pub zmq_bind_random_port : String → List (ℕ × Bind) → Result (Option (String × ℕ))
zmq_bind_random_port ip [] = ok none
zmq_bind_random_port ip ((rand, answer) ∷ tries) =
    let port = random_port rand in
    let again = zmq_bind_random_port ip tries in
    elim answer [
      | bound ↦ ok (some (address_of ip port, port))
      | in_use ↦ again
      | failed ↦ abort check_failed
    ]

-- An entry of getifaddrs(): without an address, with one that is not IPv4, or with the text of one.
pub data Interface : Type 0 where
  no_addr other_family : Interface
  inet : String → Interface

-- "127.0.0.1"
abbrev pub loopback : String
loopback = 49 ∷ 50 ∷ 55 ∷ 46 ∷ 48 ∷ 46 ∷ 48 ∷ 46 ∷ 49 ∷ []

-- the loop of get_local_ip(), at what `ip` is before it
unfoldable pub local_ip_from : String → List Interface → String
local_ip_from ip [] = ip
local_ip_from ip (no_addr ∷ rest) = local_ip_from ip rest
local_ip_from ip (other_family ∷ rest) = local_ip_from ip rest
local_ip_from ip (inet text ∷ rest) =
    local_ip_from (if eq_string text loopback then ip else text) rest

-- get_local_ip()
unfoldable pub get_local_ip : List Interface → String
unfolding local_ip_from
get_local_ip interfaces = local_ip_from [] interfaces
