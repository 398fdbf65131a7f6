-- ===== src/Config/Tests.antt =====
-- Runs of the parser.
use swift_snails.Base.{◌≡◌, refl, List, [], ◌∷◌, ◌++◌, Option, none, some, ok, if◌then◌else◌}
use swift_snails.Strings.{String, trim, key_value_split, headswith, eq_string}
use swift_snails.Config.{Dic, get_config, import_text, parse_lines, parse_conf}
use swift_snails.Config.Settings.{Imports, parse_conf-keeps}

-- The file "c" has the line "k: w"; "a" imports "b" and "b" imports "a".
abbrev files : String → Option (List String)
files path =
    if eq_string path (97 ∷ [])
    then some ((import_text ++ 32 ∷ 98 ∷ []) ∷ [])
    else if eq_string path (98 ∷ [])
    then some ((import_text ++ 32 ∷ 97 ∷ []) ∷ [])
    else if eq_string path (99 ∷ [])
    then some ((107 ∷ 58 ∷ 32 ∷ 119 ∷ []) ∷ [])
    else none

parsed_new : parse_conf files 1 (99 ∷ []) [] ≡ ok ((107 ∷ [], 119 ∷ []) ∷ [])
unfolding parse_conf trim key_value_split headswith
parsed_new = refl

-- The file "d" has the lines "k: w" and "k: v".
abbrev line_w : String
line_w = 107 ∷ 58 ∷ 32 ∷ 119 ∷ []

abbrev line_v : String
line_v = 107 ∷ 58 ∷ 32 ∷ 118 ∷ []

abbrev twice : String → Option (List String)
twice path = if eq_string path (100 ∷ []) then some (line_w ∷ line_v ∷ []) else none

abbrev first_set : Dic
first_set = (107 ∷ [], 119 ∷ []) ∷ []

read_first : parse_lines (parse_conf twice 0) (100 ∷ []) (line_w ∷ []) [] ≡ ok first_set
unfolding parse_lines trim key_value_split headswith
read_first = refl

read_all : parse_conf twice 1 (100 ∷ []) [] ≡ ok first_set
unfolding parse_conf trim key_value_split headswith
read_all = refl

set_first : get_config (107 ∷ []) first_set ≡ ok (119 ∷ [])
unfolding get_config
set_first = refl

parse_conf-keeps_example : get_config (107 ∷ []) first_set ≡ ok (119 ∷ [])
parse_conf-keeps_example =
    parse_conf-keeps twice 0 (100 ∷ []) (107 ∷ []) (119 ∷ []) (line_w ∷ []) (line_v ∷ []) []
      first_set first_set refl read_first set_first read_all

abbrev line_b : String
line_b = import_text ++ 32 ∷ 98 ∷ []

abbrev line_a : String
line_a = import_text ++ 32 ∷ 97 ∷ []

line_b-Imports : Imports line_b (98 ∷ [])
unfolding trim key_value_split headswith
line_b-Imports = record {
  present = refl;
  no_comment = refl;
  import = refl;
  word = import_text;
  cut_off = refl;
}

line_a-Imports : Imports line_a (97 ∷ [])
unfolding trim key_value_split headswith
line_a-Imports = record {
  present = refl;
  no_comment = refl;
  import = refl;
  word = import_text;
  cut_off = refl;
}
