-- ===== src/Config.antt =====
-- src/utils/ConfigParser.h: the parsing of configuration files. The files are a parameter, a path to
-- the lines of the file if it can be read. A file stays open while the files that it imports are
-- parsed, so the number of files that the process may still open bounds the depth of the recursion.
pub mod Settings
mod Tests
use swift_snails.Base.{
  ℕ, zero, suc, List, [], ◌∷◌, Option, none, some, Result, ok, abort, ◌>>=◌, ◌>>◌, check,
  check_failed, or_abort, Bool, true, false, not, ◌||◌, ℤ, if◌then◌else◌,
}
use swift_snails.Strings.{String, eq_string, trim, key_value_split, headswith}

-- _dic
abbrev pub Dic : Type 0
Dic = List (String × String)

unfoldable pub find : String → Dic → Option String
find key [] = none
find key ((k, v) ∷ dic) = if eq_string key k then some v else find key dic

-- set_config(key, value): map::insert keeps the value of a key that is there
unfoldable pub set_config : String → String → Dic → Dic
unfolding find
set_config key value dic = elim (find key dic) [ none ↦ (key, value) ∷ dic | some _ ↦ dic ]

-- get_config(key)
unfoldable pub get_config : String → Dic → Result String
unfolding find
get_config key dic = or_abort (find key dic) check_failed

-- Item::to_int32(), with std::stoi
unfoldable pub to_int32 : (String → Result ℤ) → String → Result ℤ
to_int32 stoi [] = abort check_failed
to_int32 stoi (c ∷ cs) = stoi (c ∷ cs)

-- global_config().get_config(key).to_int32()
unfoldable pub get_int32 : (String → Result ℤ) → String → Dic → Result ℤ
unfolding get_config to_int32
get_int32 stoi key dic = do value ← get_config key dic; to_int32 stoi value

abbrev pub true_text : String
true_text = 116 ∷ 114 ∷ 117 ∷ 101 ∷ []

abbrev pub false_text : String
false_text = 102 ∷ 97 ∷ 108 ∷ 115 ∷ 101 ∷ []

-- Item::to_bool()
unfoldable pub to_bool : String → Result Bool
to_bool value = do
  check (elim value [ [] ↦ false | _ ∷ _ ↦ true ])
  check (eq_string value true_text || eq_string value false_text)
  ok (eq_string value true_text)

-- "import", "#", " " and ":"
abbrev pub import_text : String
import_text = 105 ∷ 109 ∷ 112 ∷ 111 ∷ 114 ∷ 116 ∷ []

-- one line of the file at `path`, with `parse` the parsing of another file
unfoldable pub parse_line : (String → Dic → Result Dic) → String → String → Dic → Result Dic
unfolding set_config
parse_line parse path line dic =
    let ss = trim line in
    if eq_string ss []
    then ok dic
    else if headswith ss (35 ∷ [])
    then ok dic
    else if headswith ss import_text
    then key_value_split ss (32 ∷ [])
      >>= (λ kv. check (not (eq_string kv.1 path)) >> parse kv.1 dic)
    else key_value_split ss (58 ∷ []) >>= λ kv. ok (set_config (trim kv.0) (trim kv.1) dic)

unfoldable pub parse_lines : (String → Dic → Result Dic) → String → List String → Dic → Result Dic
unfolding parse_line
parse_lines parse path [] dic = ok dic
parse_lines parse path (line ∷ lines) dic = do
  dic' ← parse_line parse path line dic
  parse_lines parse path lines dic'

-- parse_conf(path), with the number of files that may still be opened
unfoldable pub parse_conf : (String → Option (List String)) → ℕ → String → Dic → Result Dic
unfolding parse_lines
parse_conf files zero path dic = abort check_failed
parse_conf files (suc n) path dic = do
  lines ← or_abort (files path) check_failed
  parse_lines (parse_conf files n) path lines dic
