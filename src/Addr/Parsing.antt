-- ===== src/Addr/Parsing.antt =====
-- What is read of a printed address, and of one that was written to a buffer.
use swift_snails.Base.{
  ℕ, suc, ◌%◌, ◌^◌, ◌<◌, ◌≡◌, inl, inr, refl, ap, sym, ◌∙◌, arith, [], ◌∷◌, ◌++◌, Result, ok, ◌>>=◌,
  ◌==◌, append-nil, false,
}
use swift_snails.Strings.{String, one_of}
use swift_snails.Strings.Numerals.{decimal, strtoul, numerals, strtoul-decimal, decimal_head}
use swift_snails.Addr.{Addr, tcp_head, to_string, field, headless, from_string}

-- Each part of an address is a uint16_t.
pub record Fits (a : Addr) : Type 0 where
  pub fits_0 : a.addr_0 < 2 ^ 16
  pub fits_1 : a.addr_1 < 2 ^ 16
  pub fits_2 : a.addr_2 < 2 ^ 16
  pub fits_3 : a.addr_3 < 2 ^ 16
  pub port_fits : a.port < 2 ^ 16

field-decimal :
    (n sep : ℕ) (rest : String)
    → n < 2 ^ 16
    → one_of numerals sep ≡ false
    → field (decimal 5 n ++ sep ∷ rest) ≡ ok (n, rest)
unfolding field
field-decimal n sep rest small other =
    let read =
      strtoul-decimal 4 n (sep ∷ rest) (omega arith) (omega arith) (inr (sep, rest, refl, other)) in
    let whole : n % 2 ^ 16 ≡ n = omega arith in rw (field, read, read, whole) refl

-- A string that begins with a digit has no head to skip.
headless-digits :
    (fuel n : ℕ) (rest : String)
    → headless (decimal (suc fuel) n ++ rest) ≡ ok (decimal (suc fuel) n ++ rest)
unfolding headless
headless-digits fuel n rest =
    let (c, cs, e, h) = decimal_head fuel n in
    let no_head : (c == 116) ≡ false = ground arith in rw e (rw no_head refl)

pub headless-tcp : (rest : String) → headless (tcp_head ++ rest) ≡ ok rest
unfolding headless
headless-tcp rest = ground arith

-- What is read after the head.
abbrev parsed : String → Result Addr
parsed ip = do
  (a₀, s₀) ← field ip
  (a₁, s₁) ← field s₀
  (a₂, s₂) ← field s₁
  (a₃, s₃) ← field s₂
  ok (record { addr_0 = a₀; addr_1 = a₁; addr_2 = a₂; addr_3 = a₃; port = (strtoul s₃).0 % 2 ^ 16 })

parsed-to_string : (a : Addr) → Fits a → parsed (to_string a) ≡ ok a
unfolding to_string
parsed-to_string a f =
    let port =
      strtoul-decimal 4 a.port [] (omega (arith, f.port_fits)) (omega (arith, f.port_fits))
        (inl refl) in
    let whole : a.port % 2 ^ 16 ≡ a.port = omega (arith, f.port_fits) in
    let t₃ = decimal 5 a.addr_3 ++ 58 ∷ decimal 5 a.port in
    let t₂ = decimal 5 a.addr_2 ++ 46 ∷ t₃ in
    let t₁ = decimal 5 a.addr_1 ++ 46 ∷ t₂ in
    rw
      (
        field-decimal a.addr_0 46 t₁ f.fits_0 refl,
        ◌>>=◌,
        field-decimal a.addr_1 46 t₂ f.fits_1 refl,
        field-decimal a.addr_2 46 t₃ f.fits_2 refl,
        field-decimal a.addr_3 58 (decimal 5 a.port) f.fits_3 refl,
        ap strtoul (sym (append-nil (decimal 5 a.port))) ∙ port,
        whole,
      )
      refl

-- An address that is printed, with or without "tcp://" before it, is the one that is parsed.
pub from_string-to_string :
    (a : Addr)
    → Fits a
    → (from_string (to_string a) ≡ ok a) × (from_string (tcp_head ++ to_string a) ≡ ok a)
unfolding from_string to_string
from_string-to_string a f =
    let rest =
      46
      ∷ (decimal 5 a.addr_1
          ++ 46 ∷ (decimal 5 a.addr_2 ++ 46 ∷ (decimal 5 a.addr_3 ++ 58 ∷ decimal 5 a.port))) in
    (
      rw (headless-digits 4 a.addr_0 rest, ◌>>=◌) (parsed-to_string a f),
      rw (headless-tcp (to_string a), ◌>>=◌) (parsed-to_string a f),
    )
