-- ===== src/Strings/Tests.antt =====
-- Runs on short strings.
use swift_snails.Base.{◌≡◌, refl, [], ◌∷◌}
use swift_snails.Strings.{String, trim, split}
use swift_snails.Strings.Words.{words, split-in_one_pass}

-- " a:b "
abbrev padded : String
padded = 32 ∷ 97 ∷ 58 ∷ 98 ∷ 32 ∷ []

trim-padded : trim padded ≡ 97 ∷ 58 ∷ 98 ∷ []
unfolding trim
trim-padded = refl

-- "hello world@bb" in small: "h w@b"
split-words :
    split (104 ∷ 32 ∷ 119 ∷ 64 ∷ 98 ∷ []) (32 ∷ 64 ∷ []) ≡ (104 ∷ []) ∷ (119 ∷ []) ∷ (98 ∷ []) ∷ []
unfolding split
split-words = refl

abbrev text : String
text = 32 ∷ 97 ∷ 98 ∷ 32 ∷ 32 ∷ 99 ∷ []

abbrev space : String
space = 32 ∷ []

-- " ab  c" at the space.
split-in_one_pass_example : split text space ≡ words space text
split-in_one_pass_example = split-in_one_pass space text
