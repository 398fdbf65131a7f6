-- ===== src/CmdLine.antt =====
-- src/utils/CMDLine.h: the parsing of the command line. A thrown string is the value `exception`. The
-- number parsers of the C library and the printing of the help are not in it.
pub mod Parsing
mod Tests
use swift_snails.Base.{
  ℕ, zero, suc, ◌+◌, List, [], ◌∷◌, Option, none, some, Result, ok, abort, ◌>>=◌, ◌>>◌, exception,
  guard, Bool, true, false, not, ◌==◌, if◌then◌else◌, length,
}
use swift_snails.Strings.{String, eq_string, split}

-- a std::map from strings: an association list without the order
abbrev pub Table : Type 0
Table = List (String × String)

unfoldable pub find : String → Table → Option String
find key [] = none
find key ((k, v) ∷ t) = if eq_string key k then some v else find key t

-- t[key] = v
unfoldable pub put : String → String → Table → Table
put key v [] = (key, v) ∷ []
put key v ((k, w) ∷ t) = if eq_string key k then (k, v) ∷ t else (k, w) ∷ put key v t

pub record CmdLine : Type 0 where
  pub help : Table
  pub value : Table

abbrev pub new_line : CmdLine
new_line = record { help = []; value = [] }

-- parse_name(s): the name after one or two dashes
abbrev pub parse_name : String → Option String
parse_name [] = none
parse_name (c ∷ []) = if c == 45 then some [] else none
parse_name (c ∷ d ∷ s) = if c == 45 then if d == 45 then some s else some (d ∷ s) else none

-- tokenize(str, delimiter) has the loop of split()
unfoldable pub tokenize : String → String → List String
tokenize str delimiter = split str delimiter

-- ";,"
abbrev pub delimiter : String
delimiter = 59 ∷ 44 ∷ []

-- the loop of the constructor over the arguments, with `name` the parameter whose value may come next
unfoldable pub parse_args : List String → Option String → Table → Result Table
unfolding find put
parse_args [] none t = ok t
parse_args [] (some name) t = ok (put name [] t)
parse_args (s ∷ args) none t =
    let rest : String → Result Table = λ name. parse_args args (some name) t in
    elim (parse_name s) [
      | none ↦ abort exception
      | some name ↦ elim (find name t) [ none ↦ rest name | some _ ↦ abort exception ]
    ]
parse_args (s ∷ args) (some name) t =
    let after = parse_args args none (put name s t) in
    let again : String → Result Table = λ name'. parse_args args (some name') (put name [] t) in
    elim (parse_name s) [
      | none ↦ after
      | some name' ↦ elim (find name' (put name [] t)) [
        | none ↦ again name'
        | some _ ↦ abort exception
      ]
    ]

-- CMDLine(argc, argv), without argv[0]
unfoldable pub parse : List String → Result CmdLine
unfolding parse_args
parse args = do t ← parse_args args none []; ok (record { help = []; value = t })

-- setValue(parameter, value)
unfoldable pub set_value : String → String → CmdLine → CmdLine
set_value parameter v c = record c { value = put parameter v c.value }

-- hasParameter(parameter)
unfoldable pub has_parameter : String → CmdLine → Bool
has_parameter parameter c = elim (find parameter c.value) [ none ↦ false | some _ ↦ true ]

-- registerParameter(parameter, help)
unfoldable pub register_parameter : String → String → CmdLine → CmdLine
register_parameter parameter text c = record c { help = put parameter text c.help }

-- the loop of checkParameters()
unfoldable pub all_registered : Table → Table → Bool
unfolding find
all_registered help [] = true
all_registered help ((k, v) ∷ t) =
    let rest = all_registered help t in elim (find k help) [ none ↦ false | some _ ↦ rest ]

unfoldable pub check_parameters : CmdLine → Result (Unit {0})
unfolding all_registered
check_parameters c = guard (all_registered c.help c.value) exception

-- getValue(parameter, default_value) on strings
unfoldable pub get_value : String → String → CmdLine → String
unfolding has_parameter
get_value parameter default_value c = elim (find parameter c.value) [
  | none ↦ default_value
  | some v ↦ v
]

-- getStrValues(parameter): operator[] makes an empty value
unfoldable pub get_str_values : String → CmdLine → List String
unfolding tokenize
get_str_values parameter c =
    tokenize (elim (find parameter c.value) [ none ↦ [] | some v ↦ v ]) delimiter
