-- ===== src/Addr.antt =====
-- src/core/common.h: Addr, an IP address with its port, as it is written to and read from a buffer and
-- printed.
pub mod Parsing
pub mod Wire
mod Tests
use swift_snails.Base.{
  ℕ, zero, suc, ◌+◌, ◌/◌, ◌%◌, List, [], ◌∷◌, ◌++◌, Result, ok, abort, ◌>>=◌, ltb, ◌==◌, ◌^◌,
  if◌then◌else◌, exception, out_of_bounds, length, drop,
}
use swift_snails.Strings.{String}
use swift_snails.Strings.Numerals.{decimal, strtoul}
use swift_snails.Buffer.{Buffer}
use swift_snails.Buffer.Words.{put_word, get_word}

pub record Addr : Type 0 where
  pub addr_0 : ℕ
  pub addr_1 : ℕ
  pub addr_2 : ℕ
  pub addr_3 : ℕ
  pub port : ℕ

-- to_string()
unfoldable pub to_string : Addr → List ℕ
to_string a =
    decimal 5 a.addr_0
    ++ 46
      ∷ (decimal 5 a.addr_1
          ++ 46 ∷ (decimal 5 a.addr_2 ++ 46 ∷ (decimal 5 a.addr_3 ++ 58 ∷ decimal 5 a.port)))

-- "tcp://"
abbrev pub tcp_head : String
tcp_head = 116 ∷ 99 ∷ 112 ∷ 58 ∷ 47 ∷ 47 ∷ []

-- addr[i] = strtoul(begin, &end, 10); begin = end + 1. Past the end of the string nothing can be read.
unfoldable pub field : String → Result (ℕ × String)
field begin =
    let read = strtoul begin in
    elim read.1 [ [] ↦ abort out_of_bounds | _ ∷ next ↦ ok (read.0 % 2 ^ 16, next) ]

-- `if (_addr[0] == 't') ip = _addr.substr(6)`
unfoldable pub headless : String → Result String
headless [] = ok []
headless (c ∷ cs) =
    if c == 116
    then (if ltb (length (c ∷ cs)) 6 then abort exception else ok (drop 6 (c ∷ cs)))
    else ok (c ∷ cs)

-- from_string(_addr)
unfoldable pub from_string : String → Result Addr
unfolding field headless
from_string addr = do
  ip ← headless addr
  (a₀, s₀) ← field ip
  (a₁, s₁) ← field s₀
  (a₂, s₂) ← field s₁
  (a₃, s₃) ← field s₂
  ok (record { addr_0 = a₀; addr_1 = a₁; addr_2 = a₂; addr_3 = a₃; port = (strtoul s₃).0 % 2 ^ 16 })

-- bb << ip
unfoldable pub put_addr : Addr → Buffer → Result Buffer
put_addr a b = do
  b₁ ← put_word 2 a.addr_0 b
  b₂ ← put_word 2 a.addr_1 b₁
  b₃ ← put_word 2 a.addr_2 b₂
  b₄ ← put_word 2 a.addr_3 b₃
  put_word 2 a.port b₄

-- bb >> ip
unfoldable pub get_addr : Buffer → Result (Addr × Buffer)
get_addr b = do
  (a₀, b₁) ← get_word 2 b
  (a₁, b₂) ← get_word 2 b₁
  (a₂, b₃) ← get_word 2 b₂
  (a₃, b₄) ← get_word 2 b₃
  (port, b₅) ← get_word 2 b₄
  ok (record { addr_0 = a₀; addr_1 = a₁; addr_2 = a₂; addr_3 = a₃; port = port }, b₅)
