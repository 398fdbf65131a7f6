-- ===== src/Strings/Numerals.antt =====
-- Numbers in strings: the printing of an unsigned number by a stream, and std::strtoul in base 10.
use native.Mathlib.Nat.{pow-succ'}
use swift_snails.Base.{
  ℕ, zero, suc, ◌+◌, ◌-◌, ◌*◌, ◌/◌, ◌%◌, ◌^◌, ◌<◌, ◌≡◌, ◌⊎◌, inl, inr, refl, ap, sym, subst, ◌∙◌,
  arith, [], ◌∷◌, ◌++◌, ◌==◌, ltb, ◌||◌, Bool, true, false, if◌then◌else◌, All, Bool-cases,
}
use swift_snails.Strings.{String, one_of, cut}
use swift_snails.Strings.Cutting.{cut-stops}

-- the decimal digits of a number with at most `fuel` of them; a uint16_t has at most five
unfoldable pub decimal : ℕ → ℕ → String
decimal zero n = []
decimal (suc fuel) n =
    let front = decimal fuel (n / 10) in
    if ltb n 10 then (48 + n) ∷ [] else front ++ (48 + n % 10) ∷ []

abbrev pub numerals : String
numerals = 48 ∷ 49 ∷ 50 ∷ 51 ∷ 52 ∷ 53 ∷ 54 ∷ 55 ∷ 56 ∷ 57 ∷ []

-- what isspace() accepts
abbrev pub spaces : String
spaces = 32 ∷ 9 ∷ 10 ∷ 11 ∷ 12 ∷ 13 ∷ []

-- the value of the digits after those that have made `n`
pub value_from : ℕ → String → ℕ
value_from n [] = n
value_from n (c ∷ cs) = value_from (n * 10 + (c - 48)) cs

-- an unsigned long: the largest where the digits make more, and the negation after a minus sign
abbrev pub limited : Bool → ℕ → ℕ
limited negative n =
    if ltb n (2 ^ 64) then if negative then (2 ^ 64 - n) % 2 ^ 64 else n else 2 ^ 64 - 1

abbrev pub is_minus : String → Bool
is_minus [] = false
is_minus (c ∷ cs) = c == 45

-- the string after a sign
abbrev pub unsigned : String → String
unsigned [] = []
unsigned (c ∷ cs) = if c == 45 || c == 43 then cs else c ∷ cs

-- strtoul(s, &end, 10): the value, and the string from `end` on, the whole one where no digit is found
unfoldable pub strtoul : String → ℕ × String
strtoul s =
    let body = (cut false spaces s).1 in
    let digits = cut false numerals (unsigned body) in
    elim digits.0 [
      | [] ↦ (0, s)
      | c ∷ cs ↦ (limited (is_minus body) (value_from 0 (c ∷ cs)), digits.1)
    ]

abbrev pub IsDigit : ℕ → Type 0
IsDigit c = one_of numerals c ≡ true

digit : (d : ℕ) → d < 10 → IsDigit (48 + d)
digit d small = ground arith

pub digit_no-space :
    (c : ℕ) → IsDigit c → (one_of spaces c ≡ false) × ((c == 45) ≡ false) × ((c == 43) ≡ false)
digit_no-space c h = ground arith

All_snoc : (P : ℕ → Type 0) (cs : String) {c : ℕ} → All P cs → P c → All P (cs ++ c ∷ [])
All_snoc P [] _ p = (p, tt)
All_snoc P (d ∷ cs) (q, qs) p = (q, All_snoc P cs qs p)

value_from-snoc :
    (n : ℕ) (cs : String) (c : ℕ) → value_from n (cs ++ c ∷ []) ≡ value_from n cs * 10 + (c - 48)
unfolding value_from
value_from-snoc n [] c = refl
value_from-snoc n (d ∷ cs) c = value_from-snoc (n * 10 + (d - 48)) cs c

decimal-digits : (fuel n : ℕ) → All IsDigit (decimal fuel n)
unfolding decimal
decimal-digits zero n = tt
decimal-digits (suc fuel) n = elim (Bool-cases (ltb n 10)) [
  | inl e ↦ rw e (digit n (ground arith), tt)
  | inr e ↦ rw e (All_snoc IsDigit _ (decimal-digits fuel (n / 10)) (digit (n % 10) (omega arith)))
]

value_from-decimal : (fuel n : ℕ) → n < 10 ^ fuel → value_from 0 (decimal fuel n) ≡ n
unfolding decimal value_from
value_from-decimal zero n h = omega arith
value_from-decimal (suc fuel) n h = elim (Bool-cases (ltb n 10)) [
  | inl e ↦ rw e (omega arith)
  | inr e ↦
      rw (e, value_from-snoc 0 (decimal fuel (n / 10)) (48 + n % 10))
        (omega (arith, value_from-decimal fuel (n / 10) (omega (arith, pow-succ' 10 fuel))))
]

snoc_cons : (cs : String) (c : ℕ) → (d : ℕ) × (ds : String) × (cs ++ c ∷ [] ≡ d ∷ ds)
snoc_cons [] c = (c, [], refl)
snoc_cons (d ∷ cs) c = (d, cs ++ c ∷ [], refl)

decimal_cons : (fuel n : ℕ) → (c : ℕ) × (cs : String) × (decimal (suc fuel) n ≡ c ∷ cs)
unfolding decimal
decimal_cons fuel n = elim (Bool-cases (ltb n 10)) [
  | inl e ↦ (48 + n, [], rw e refl)
  | inr e ↦
      let (d, ds, split) = snoc_cons (decimal fuel (n / 10)) (48 + n % 10) in (d, ds, rw e split)
]

-- Where the digits of a number stop: at the end of the string or at another character.
abbrev pub Ends : String → Type 0
Ends rest = (rest ≡ []) ⊎ ((d : ℕ) × (ds : String) × (rest ≡ d ∷ ds) × (one_of numerals d ≡ false))

strtoul-digits :
    (c : ℕ) (cs rest : String)
    → All IsDigit (c ∷ cs)
    → value_from 0 (c ∷ cs) < 2 ^ 64
    → Ends rest
    → strtoul (c ∷ cs ++ rest) ≡ (value_from 0 (c ∷ cs), rest)
unfolding strtoul
strtoul-digits c cs rest (h, hs) small stop =
    let (no_space, no_minus, no_plus) = digit_no-space c h in
    let fits : ltb (value_from 0 (c ∷ cs)) (2 ^ 64) ≡ true = ground arith in
    let front = cut-stops spaces [] (c ∷ cs ++ rest) tt (inr (c, cs ++ rest, refl, no_space)) in
    let back = cut-stops numerals (c ∷ cs) rest (h, hs) stop in
    rw (strtoul, front, no_minus, no_plus, back, fits, front, no_minus, no_plus, back) refl

-- A number that is printed is read back, up to where its digits stop.
pub strtoul-decimal :
    (fuel n : ℕ) (rest : String)
    → n < 10 ^ suc fuel
    → n < 2 ^ 64
    → Ends rest
    → strtoul (decimal (suc fuel) n ++ rest) ≡ (n, rest)
strtoul-decimal fuel n rest fits small stop =
    let (c, cs, e) = decimal_cons fuel n in
    let value : value_from 0 (c ∷ cs) ≡ n =
      ap (value_from 0) (sym e) ∙ value_from-decimal (suc fuel) n fits in
    let digits : All IsDigit (c ∷ cs) = subst (All IsDigit) e (decimal-digits (suc fuel) n) in
    ap (λ s. strtoul (s ++ rest)) e
    ∙ strtoul-digits c cs rest digits (omega (arith, value)) stop
    ∙ ap (λ k. (k, rest)) value

pub decimal_head :
    (fuel n : ℕ) → (c : ℕ) × (cs : String) × (decimal (suc fuel) n ≡ c ∷ cs) × IsDigit c
decimal_head fuel n =
    let (c, cs, e) = decimal_cons fuel n in
    (c, cs, e, (subst (All IsDigit) e (decimal-digits (suc fuel) n)).0)
