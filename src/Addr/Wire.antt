-- ===== src/Addr/Wire.antt =====
-- An address in a buffer.
use swift_snails.Base.{
  ℕ, ◌<◌, ◌≡◌, refl, arith, List, ◌++◌, ok, ◌>>=◌, append_assoc, Returns, length, length-append,
}
use swift_snails.Buffer.{Buffer}
use swift_snails.Buffer.Contents.{Holds}
use swift_snails.Buffer.Words.{le_bytes, length-le_bytes, put_word-Holds, get_word-eq}
use swift_snails.Addr.{Addr, put_addr, get_addr}
use swift_snails.Addr.Parsing.{Fits}

pub addr_wire : Addr → List ℕ
addr_wire a =
    le_bytes 2 a.addr_0
    ++ (le_bytes 2 a.addr_1 ++ (le_bytes 2 a.addr_2 ++ (le_bytes 2 a.addr_3 ++ le_bytes 2 a.port)))

pub put_addr-Holds :
    {stored rest : List ℕ} (a : Addr) (b : Buffer)
    → Holds stored rest b
    → Returns (put_addr a b) (Holds (stored ++ addr_wire a) (rest ++ addr_wire a))
unfolding put_addr addr_wire
put_addr-Holds a b h =
    let (b₁, r₁, h₁) = put_word-Holds 2 a.addr_0 b h (omega arith) in
    let (b₂, r₂, h₂) = put_word-Holds 2 a.addr_1 b₁ h₁ (omega arith) in
    let (b₃, r₃, h₃) = put_word-Holds 2 a.addr_2 b₂ h₂ (omega arith) in
    let (b₄, r₄, h₄) = put_word-Holds 2 a.addr_3 b₃ h₃ (omega arith) in
    let (b₅, r₅, h₅) = put_word-Holds 2 a.port b₄ h₄ (omega arith) in
    (b₅, rw (r₁, ◌>>=◌, r₂, r₃, r₄) r₅, simp (append_assoc) at h₅)

pub get_addr-eq :
    {stored rest : List ℕ} (a : Addr) (b : Buffer)
    → Holds stored (addr_wire a ++ rest) b
    → Fits a
    → (b' : Buffer) × (get_addr b ≡ ok (a, b')) × Holds stored rest b'
unfolding get_addr addr_wire
get_addr-eq a b h f =
    let h' = simp (append_assoc) at h in
    let (b₁, r₁, h₁) = get_word-eq 2 a.addr_0 b h' (omega arith) f.fits_0 in
    let (b₂, r₂, h₂) = get_word-eq 2 a.addr_1 b₁ h₁ (omega arith) f.fits_1 in
    let (b₃, r₃, h₃) = get_word-eq 2 a.addr_2 b₂ h₂ (omega arith) f.fits_2 in
    let (b₄, r₄, h₄) = get_word-eq 2 a.addr_3 b₃ h₃ (omega arith) f.fits_3 in
    let (b₅, r₅, h₅) = get_word-eq 2 a.port b₄ h₄ (omega arith) f.port_fits in
    (b₅, rw (r₁, ◌>>=◌, r₂, r₃, r₄, r₅) refl, h₅)

pub some_addr_wire : (a : Addr) → 0 < length (addr_wire a)
unfolding addr_wire
some_addr_wire a = omega (
  arith,
  length-le_bytes 2 a.addr_0,
  length-append (le_bytes 2 a.addr_0)
      (le_bytes 2 a.addr_1 ++ (le_bytes 2 a.addr_2 ++ (le_bytes 2 a.addr_3 ++ le_bytes 2 a.port))),
)
