-- ===== src/Buffer/Text/Numbers.antt =====
-- Texts and numbers in a TextBuffer.
use native.Mathlib.Nat.{mod-eq_of_lt}
use swift_snails.Base.{
  ℕ, ◌+◌, ◌*◌, ◌-◌, ◌%◌, ◌^◌, ◌<◌, ◌≤◌, ◌≡◌, refl, ap, ◌∙◌, arith, List, [], ◌∷◌, ◌++◌, ok, abort,
  ◌>>=◌, out_of_bounds, ltb, leb, Returns, length, drop, true, false, All, ◌⊎◌, inl, inr,
  Bool-cases, append-nil, append_assoc, drop-eq-append, drop-add, drop-append_length, length-append,
}
use swift_snails.Strings.{String, one_of, cut}
use swift_snails.Strings.Numerals.{
  decimal, strtoul, strtoul-decimal, decimal_head, digit_no-space, spaces,
}
use swift_snails.Strings.Cutting.{cut-stops}
use swift_snails.Buffer.{Buffer, append, copy_in, reserve, set_cursor}
use swift_snails.Buffer.Contents.{Holds, make_room-Holds, append-Holds, regrow-Holds, cursor-end}
use swift_snails.Buffer.Text.{strncpy_bytes, put_text, get_number}

-- A text without a zero is copied as it is.
abbrev pub NoZero : String → Type 0
NoZero x = All (λ c. one_of (0 ∷ []) c ≡ false) x

cut-NoZero : (x : String) → NoZero x → cut true (0 ∷ []) x ≡ (x, [])
unfolding cut
cut-NoZero [] _ = refl
cut-NoZero (c ∷ x) (h, hs) = rw (cut, h, cut-NoZero x hs) refl

strncpy_bytes-NoZero : (x : String) → NoZero x → strncpy_bytes x ≡ x
unfolding strncpy_bytes
strncpy_bytes-NoZero x h = rw (strncpy_bytes, cut-NoZero x h) (append-nil x)

append_overruns :
    {stored rest : List ℕ} (bytes : List ℕ) (b : Buffer)
    → Holds stored rest b
    → b.capacity < b.end + length bytes
    → append bytes b ≡ abort out_of_bounds
unfolding append copy_in
append_overruns bytes b h over = ground (arith, h.valid.owned, h.valid.sized)

doubled :
    {stored rest : List ℕ} (b : Buffer)
    → Holds stored rest b
    → Returns
        (reserve (2 * b.capacity) b)
        λ c. Holds stored rest c × (c.end ≡ b.end) × (c.capacity ≡ 2 * b.capacity)
unfolding reserve
doubled b h =
    let (c, run, held) = regrow-Holds (2 * b.capacity) b h (omega arith) in
    (c, ground (arith, run), held)

put_text-Holds :
    {stored rest : List ℕ} (x : String) (b : Buffer)
    → Holds stored rest b
    → NoZero x
    → b.end + length x ≤ 2 * b.capacity
    → Returns (put_text x b) (Holds (stored ++ x) (rest ++ x))
unfolding put_text
put_text-Holds {stored} {rest} x b h plain fits =
    let swap : length x + b.end ≡ b.end + length x = omega arith in
    let (c, run, (held, room)) = make_room-Holds (length x) b h fits in
    rw (swap, run, ◌>>=◌, strncpy_bytes-NoZero x plain) (append-Holds stored rest x c held room)

put_text_overruns :
    {stored rest : List ℕ} (x : String) (b : Buffer)
    → Holds stored rest b
    → NoZero x
    → 2 * b.capacity < b.end + length x
    → put_text x b ≡ abort out_of_bounds
unfolding put_text
put_text_overruns {stored} {rest} x b h plain long =
    let over : ltb b.capacity (length x + b.end) ≡ true = ground arith in
    let (c, run, (held, end, cap)) = doubled b h in
    rw (over, run, ◌>>=◌, strncpy_bytes-NoZero x plain)
      (append_overruns x c held (omega (arith, end, cap)))

-- A text without zeros is written to a buffer. If, with what is there, it is at most twice as long as
-- the block was, it is appended; if it is longer, the copy goes past the end of the doubled block.
put_text-doubles :
    {stored rest : List ℕ} (x : String) (b : Buffer)
    → Holds stored rest b
    → NoZero x
    → ((b.end + length x ≤ 2 * b.capacity)
        × Returns (put_text x b) (Holds (stored ++ x) (rest ++ x)))
      ⊎ ((2 * b.capacity < b.end + length x) × (put_text x b ≡ abort out_of_bounds))
put_text-doubles x b h plain = elim (Bool-cases (leb (b.end + length x) (2 * b.capacity))) [
  | inl e ↦
      let fits : b.end + length x ≤ 2 * b.capacity = ground arith in
      inl (fits, put_text-Holds x b h plain fits)
  | inr e ↦
      let long : 2 * b.capacity < b.end + length x = ground arith in
      inr (long, put_text_overruns x b h plain long)
]

-- What a digit string in front of a space is read as.
read_ahead :
    (x : ℕ) (more : List ℕ)
    → x < 2 ^ 64
    → (strtoul (decimal 20 x ++ 32 ∷ more) ≡ (x, 32 ∷ more))
      × ((c : ℕ) × (cs : String) × (cut false spaces (decimal 20 x ++ 32 ∷ more) ≡ ([], c ∷ cs)))
read_ahead x more small =
    let (c, cs, e, digit) = decimal_head 19 x in
    let (no_space, _, _) = digit_no-space c digit in
    (
      strtoul-decimal 19 x (32 ∷ more) (omega arith) small (inr (32, more, refl, refl)),
      (
        c,
        cs ++ 32 ∷ more,
        ap (λ s. cut false spaces (s ++ 32 ∷ more)) e
            ∙ cut-stops spaces [] (c ∷ (cs ++ 32 ∷ more)) tt
                (inr (c, cs ++ 32 ∷ more, refl, no_space)),
      ),
    )

-- A number of at most w bits, and of a word, that is printed and then followed by a space is read back,
-- and the space is what is left to read.
pub get_number-decimal :
    {stored rest : List ℕ} (w x : ℕ) (b : Buffer)
    → Holds stored (decimal 20 x ++ 32 ∷ rest) b
    → x < 2 ^ w
    → x < 2 ^ 64
    → Returns (get_number w b) λ r. (r.0 ≡ x) × Holds stored (32 ∷ rest) r.1
unfolding get_number set_cursor
get_number-decimal {stored} {rest} w x b h small word = (
  (x, record b { cursor = b.cursor + length digits }),
  rw (h.valid.owned, ◌>>=◌, ahead, front, ahead, read, ahead, read, behind, unfinished, whole)
      (ap (λ k. ok (x, record b { block = k; cursor = b.cursor + length digits })) h.valid.owned),
  (
    refl,
    record {
      bytes = h.bytes;
      valid = record {
        owned = h.valid.owned;
        sized = h.valid.sized;
        readable = omega (arith, len);
        fits = h.valid.fits;
        roomy = h.valid.roomy;
      };
      written = h.written;
      unread =
          drop-add b.cursor (length digits) _
          ∙ ap (drop (length digits)) h.unread
          ∙ drop-append_length digits (32 ∷ rest) (length digits) refl;
    },
  ),
)
  where
    digits : String
    digits = decimal 20 x

    more : List ℕ
    more = rest ++ drop b.end h.bytes

    ahead : drop b.cursor h.bytes ≡ digits ++ 32 ∷ more
    ahead =
        drop-eq-append b.cursor b.end h.bytes h.valid.readable
        ∙ ap (λ s. s ++ drop b.end h.bytes) h.unread
        ∙ append_assoc digits (32 ∷ rest) (drop b.end h.bytes)

    front :
        cut false spaces (digits ++ 32 ∷ more)
        ≡ ([], (read_ahead x more word).1.0 ∷ (read_ahead x more word).1.1)
    front = (read_ahead x more word).1.2

    read : strtoul (digits ++ 32 ∷ more) ≡ (x, 32 ∷ more)
    read = (read_ahead x more word).0

    behind : length (digits ++ 32 ∷ more) - length (32 ∷ more) ≡ length digits
    behind = omega (arith, length-append digits (32 ∷ more))

    len : b.cursor + length digits + length (32 ∷ rest) ≡ b.end
    len = omega (arith, cursor-end b h, length-append digits (32 ∷ rest))

    unfinished : ltb b.cursor b.end ≡ true
    unfinished = ground (arith, len)

    whole : x % 2 ^ w ≡ x
    whole = mod-eq_of_lt small
