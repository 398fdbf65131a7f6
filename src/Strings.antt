-- ===== src/Strings.antt =====
-- src/utils/string.h: the cutting of strings, which are lists of characters by their codes. The
-- operations of std::string that the code calls are written out first; `npos` is `none`.
pub mod Cutting
pub mod Numerals
pub mod Words
mod Tests
use swift_snails.Base.{
  ℕ, zero, suc, ◌+◌, ◌-◌, List, [], ◌∷◌, ◌++◌, Option, none, some, Result, ok, abort, ◌>>=◌, ◌>>◌,
  check_failed, or_abort, ◌==◌, ◌||◌, ◌&&◌, not, Bool, true, false, if◌then◌else◌, length, take,
  drop,
}

abbrev pub String : Type 0
String = List ℕ

-- c is one of the characters
abbrev pub one_of : String → ℕ → Bool
one_of [] c = false
one_of (d ∷ ds) c = (c == d) || one_of ds c

abbrev pub eq_string : String → String → Bool
eq_string [] [] = true
eq_string [] (d ∷ ds) = false
eq_string (c ∷ cs) [] = false
eq_string (c ∷ cs) (d ∷ ds) = (c == d) && eq_string cs ds

-- the characters before the first that is in (`stop` true) or not in (`stop` false) the set, and the rest
unfoldable pub cut : Bool → String → String → String × String
cut stop set [] = ([], [])
cut stop set (c ∷ cs) =
    let rest = cut stop set cs in
    elim (one_of set c) [
      | true ↦ if stop then ([], c ∷ cs) else (c ∷ rest.0, rest.1)
      | false ↦ if stop then (c ∷ rest.0, rest.1) else ([], c ∷ cs)
    ]

-- " \t\n\r"
abbrev pub blanks : String
blanks = 32 ∷ 9 ∷ 10 ∷ 13 ∷ []

-- ss.erase(0, ss.find_first_not_of(blanks))
unfoldable pub erase_front : String → String
unfolding cut
erase_front ss = (cut false blanks ss).1

-- ss.erase(ss.find_last_not_of(blanks) + 1), which is the whole string at npos
unfoldable pub erase_back : String → String
erase_back [] = []
erase_back (c ∷ cs) =
    let rest = erase_back cs in
    elim rest [ [] ↦ if one_of blanks c then [] else c ∷ [] | d ∷ ds ↦ c ∷ d ∷ ds ]

-- trim(ss)
unfoldable pub trim : String → String
unfolding erase_front erase_back
trim [] = []
trim (c ∷ cs) = erase_back (erase_front (c ∷ cs))

-- the loop of split(s, delim), with `fuel` rounds left and `rest` the string from `last` on
unfoldable pub split_from : ℕ → String → String → List String
unfolding cut
split_from zero delim rest = []
split_from (suc fuel) delim rest =
    let start = (cut false delim rest).1 in
    let word = cut true delim start in
    let others = split_from fuel delim word.1 in elim start [ [] ↦ [] | _ ∷ _ ↦ word.0 ∷ others ]

-- split(s, delim)
unfoldable pub split : String → String → List String
unfolding split_from
split s delim = split_from (length s + 1) delim s

-- key_value_split(s, delim)
unfoldable pub key_value_split : String → String → Result (String × String)
unfolding cut
key_value_split s delim =
    let key = cut true delim s in
    elim key.1 [ [] ↦ abort check_failed | _ ∷ value ↦ ok (key.0, value) ]

-- headswith(s, head)
unfoldable pub headswith : String → String → Bool
headswith s head = eq_string (take (length head) s) head
