-- ===== src/Strings/Words.antt =====
-- The words of a string: src/utils/string.h, split.
use swift_snails.Base.{
  ℕ, suc, zero, ◌+◌, ◌≤◌, ◌<◌, ◌≡◌, refl, ap, sym, ◌∙◌, arith, List, [], ◌∷◌, Bool, true, false,
  if◌then◌else◌, length, length-append, Bool-cases, inl, inr,
}
use swift_snails.Strings.{String, one_of, cut, split_from, split}
use swift_snails.Strings.Cutting.{cut-IsCut}

-- A character in front of the first word.
abbrev pub join : ℕ → List String → List String
join c [] = (c ∷ []) ∷ []
join c (w ∷ ws) = (c ∷ w) ∷ ws

-- The longest parts without a delimiter, in one pass from the end: a character that is no delimiter
-- begins a word if a delimiter or the end comes after it, and else belongs to the word that does.
pub words : String → String → List String
words delim [] = []
words delim (c ∷ []) = if one_of delim c then [] else (c ∷ []) ∷ []
words delim (c ∷ d ∷ cs) =
    let rest = words delim (d ∷ cs) in
    if one_of delim c then rest else if one_of delim d then (c ∷ []) ∷ rest else join c rest

module _ (delim : String) where
  cut-skips :
      (c : ℕ) (cs : String)
      → one_of delim c ≡ true
      → (cut false delim (c ∷ cs)).1 ≡ (cut false delim cs).1
  unfolding cut
  cut-skips c cs e = rw (cut, e) refl

  cut-stays : (c : ℕ) (cs : String) → one_of delim c ≡ false → (cut false delim (c ∷ cs)).1 ≡ c ∷ cs
  unfolding cut
  cut-stays c cs e = rw (cut, e) refl

  cut-ends : (c : ℕ) (cs : String) → one_of delim c ≡ true → cut true delim (c ∷ cs) ≡ ([], c ∷ cs)
  unfolding cut
  cut-ends c cs e = rw (cut, e) refl

  cut-takes :
      (c : ℕ) (cs : String)
      → one_of delim c ≡ false
      → cut true delim (c ∷ cs) ≡ (c ∷ (cut true delim cs).0, (cut true delim cs).1)
  unfolding cut
  cut-takes c cs e = rw (cut, e) refl

  words_nothing : words delim [] ≡ []
  unfolding words
  words_nothing = refl

  words-delimiter :
      (c : ℕ) (cs : String) → one_of delim c ≡ true → words delim (c ∷ cs) ≡ words delim cs
  unfolding words
  words-delimiter c [] e = rw e refl
  words-delimiter c (d ∷ cs) e = rw e refl

  -- Delimiters in front make no word.
  words-skip : (s : String) → words delim s ≡ words delim (cut false delim s).1
  unfolding words cut
  words-skip [] = refl
  words-skip (c ∷ cs) = elim (Bool-cases (one_of delim c)) [
    | inl e ↦ words-delimiter c cs e ∙ words-skip cs ∙ ap (words delim) (sym (cut-skips c cs e))
    | inr e ↦ ap (words delim) (sym (cut-stays c cs e))
  ]

  words-alone :
      (c d : ℕ) (cs : String)
      → one_of delim c ≡ false
      → one_of delim d ≡ true
      → words delim (c ∷ d ∷ cs) ≡ (c ∷ []) ∷ words delim (d ∷ cs)
  unfolding words
  words-alone c d cs e e' = rw (e, e') refl

  words-joins :
      (c d : ℕ) (cs : String)
      → one_of delim c ≡ false
      → one_of delim d ≡ false
      → words delim (c ∷ d ∷ cs) ≡ join c (words delim (d ∷ cs))
  unfolding words
  words-joins c d cs e e' = rw (e, e') refl

  -- The first word of a string that begins with one.
  words-first :
      (c : ℕ) (cs : String)
      → one_of delim c ≡ false
      → words delim (c ∷ cs) ≡ (cut true delim (c ∷ cs)).0 ∷ words delim (cut true delim (c ∷ cs)).1
  words-first c [] e = one_word c e ∙ ap (λ p. p.0 ∷ words delim p.1) (sym (cut-takes c [] e))
    where
      one_word :
          (c : ℕ)
          → one_of delim c ≡ false
          → words delim (c ∷ []) ≡ (c ∷ (cut true delim []).0) ∷ words delim (cut true delim []).1
      one_word c e = unfold words in unfold cut in rw e refl
  words-first c (d ∷ cs) e = elim (Bool-cases (one_of delim d)) [
    | inl stop ↦
        words-alone c d cs e stop
        ∙ ap (λ p. p.0 ∷ words delim p.1)
            (sym (cut-takes c (d ∷ cs) e ∙ ap (λ q. (c ∷ q.0, q.1)) (cut-ends d cs stop)))
    | inr more ↦
        words-joins c d cs e more
        ∙ ap (join c) (words-first d cs more)
        ∙ ap (λ p. p.0 ∷ words delim p.1) (sym (cut-takes c (d ∷ cs) e))
  ]

  shorter : (stop : Bool) (s : String) → length (cut stop delim s).1 ≤ length s
  shorter stop s =
      let parts = cut-IsCut stop delim s in
      omega (arith, ap length parts.whole, length-append (cut stop delim s).0 (cut stop delim s).1)

  round_nothing :
      (fuel : ℕ) (s : String) → (cut false delim s).1 ≡ [] → split_from (suc fuel) delim s ≡ []
  unfolding split_from
  round_nothing fuel s e = rw (split_from, e) refl

  round_word :
      (fuel : ℕ) (s : String) {c : ℕ} {cs : String}
      → (cut false delim s).1 ≡ c ∷ cs
      → split_from (suc fuel) delim s
        ≡ (cut true delim (c ∷ cs)).0 ∷ split_from fuel delim (cut true delim (c ∷ cs)).1
  unfolding split_from
  round_word fuel s e =
      rw (split_from, e)
        (ap (λ k. (cut true delim k).0 ∷ split_from fuel delim (cut true delim k).1) e)

  -- Fuel above the length is enough.
  split_from-words :
      (fuel : ℕ) (s : String) → length s < fuel → split_from fuel delim s ≡ words delim s
  split_from-words zero s lt = absurd (omega arith)
  split_from-words (suc fuel) s lt = elim (cut-IsCut false delim s).after [
    | inl e ↦ round_nothing fuel s e ∙ sym (words-skip s ∙ ap (words delim) e ∙ words_nothing)
    | inr (c, cs, e, other) ↦
        let word = cut true delim (c ∷ cs) in
        let less : length word.1 < fuel = omega (
          arith,
          ap (λ p. length p.1) (cut-takes c cs other),
          shorter true cs,
          shorter false s,
          ap length e,
        ) in
        round_word fuel s e
        ∙ ap (λ l. word.0 ∷ l) (split_from-words fuel word.1 less)
        ∙ sym (words-skip s ∙ ap (words delim) e ∙ words-first c cs other)
  ]

  -- The loop of split ends, and its result is what the one pass from the end makes of the string.
  pub split-in_one_pass : (s : String) → split s delim ≡ words delim s
  unfolding split
  split-in_one_pass s = split_from-words (length s + 1) s (omega arith)
