-- ===== src/CmdLine/Tests.antt =====
-- A run on a command line.
use swift_snails.Base.{◌≡◌, refl, [], ◌∷◌, some, ok}
use swift_snails.CmdLine.{CmdLine, find, parse, check_parameters}

-- -a x --b
abbrev parsed : CmdLine
parsed = record { help = []; value = (97 ∷ [], 120 ∷ []) ∷ (98 ∷ [], []) ∷ [] }

parse_two : parse ((45 ∷ 97 ∷ []) ∷ (120 ∷ []) ∷ (45 ∷ 45 ∷ 98 ∷ []) ∷ []) ≡ ok parsed
unfolding parse
parse_two = refl

abbrev registered : CmdLine
registered = record parsed { help = (97 ∷ [], 104 ∷ []) ∷ (98 ∷ [], 104 ∷ []) ∷ [] }

accepted : check_parameters registered ≡ ok tt
unfolding check_parameters
accepted = refl

there : find (98 ∷ []) registered.value ≡ some []
unfolding find
there = refl
