-- ===== src/Buffer/Text.antt =====
-- utils/Buffer.h, TextBuffer: numbers and lines as characters. The writing of x to the standard output
-- is left out; signed and floating-point numbers (strtol, strtod) are not modelled.
pub mod Numbers
use swift_snails.Base.{
  ℕ, ◌+◌, ◌*◌, ◌-◌, ◌%◌, ◌^◌, List, [], ◌∷◌, ◌++◌, Result, ok, abort, ◌>>=◌, or_abort,
  out_of_bounds, ltb, if◌then◌else◌, length, drop, replicate, true, false,
}
use swift_snails.Strings.{String, cut}
use swift_snails.Strings.Numerals.{decimal, strtoul, spaces}
use swift_snails.Buffer.{Buffer, reserve, append, set_cursor}

-- what strncpy(dst, x.c_str(), x.size()) writes: zeros from the first zero on
unfoldable pub strncpy_bytes : String → List ℕ
strncpy_bytes x = let parts = cut true (0 ∷ []) x in parts.0 ++ replicate (length parts.1) 0

-- operator<<(const std::string &x): the block is doubled once, however long x is
unfoldable pub put_text : String → Buffer → Result Buffer
put_text x b = do
  b' ← if ltb b.capacity (length x + b.end) then reserve (2 * b.capacity) b else ok b
  append (strncpy_bytes x) b'

-- put_math(x) and operator<< of an unsigned integer, which has at most 20 digits
unfoldable pub put_number : ℕ → Buffer → Result Buffer
unfolding put_text
put_number x b = put_text (decimal 20 x) b

-- get_math(x) and operator>> of an unsigned integer of w bits: what strtoul reads ends inside the block
unfoldable pub get_number : ℕ → Buffer → Result (ℕ × Buffer)
get_number w b = do
  bytes ← or_abort b.block out_of_bounds
  let begin = drop b.cursor bytes
  let read = strtoul begin
  elim (cut false spaces begin).1 [
    | [] ↦ abort out_of_bounds
    | _ ∷ _ ↦ elim read.1 [
      | [] ↦ abort out_of_bounds
      | c ∷ cs ↦ do
        b' ← set_cursor (b.cursor + (length begin - length (c ∷ cs))) b
        ok (read.0 % 2 ^ w, b')
    ]
  ]

-- getline(): up to the first character that isspace() accepts
unfoldable pub getline : Buffer → Result (String × Buffer)
getline b = do
  bytes ← or_abort b.block out_of_bounds
  let parts = cut true spaces (drop b.cursor bytes)
  elim parts.1 [
    | [] ↦ abort out_of_bounds
    | _ ∷ _ ↦ do b' ← set_cursor (b.cursor + length parts.0) b; ok (parts.0, b')
  ]
