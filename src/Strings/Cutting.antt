-- ===== src/Strings/Cutting.antt =====
-- What the cutting of strings leaves.
use swift_snails.Base.{
  arith, ℕ, ◌≡◌, ◌⊎◌, inl, inr, refl, ap, sym, ◌∙◌, [], ◌∷◌, ◌++◌, ok, abort, check_failed, Bool,
  true, false, if◌then◌else◌, All, Bool-cases, append_assoc, append-nil, subst,
}
use swift_snails.Strings.{
  eq_string, String, one_of, cut, blanks, erase_front, erase_back, trim, key_value_split,
}

-- The two parts of a cut are the string, the first has no character to stop at, and the second is
-- empty or begins with one.
pub record IsCut (stop : Bool) (set s : String) (parts : String × String) : Type 0 where
  pub whole : parts.0 ++ parts.1 ≡ s
  pub before : All (λ c. one_of set c ≡ (if stop then false else true)) parts.0
  pub after :
      (parts.1 ≡ []) ⊎ ((c : ℕ) × (cs : String) × (parts.1 ≡ c ∷ cs) × (one_of set c ≡ stop))

pub cut-IsCut : (stop : Bool) (set s : String) → IsCut stop set s (cut stop set s)
unfolding cut
cut-IsCut stop set [] = record { whole = refl; before = tt; after = inl refl }
cut-IsCut true set (c ∷ cs) =
    let rest = cut-IsCut true set cs in
    elim (Bool-cases (one_of set c)) [
      | inl e ↦ rw (cut, e) (record { whole = refl; before = tt; after = inr (c, cs, refl, e) })
      | inr e ↦
          rw (cut, e)
            (record {
              whole = ap (λ l. c ∷ l) rest.whole;
              before = (e, rest.before);
              after = rest.after;
            })
    ]
cut-IsCut false set (c ∷ cs) =
    let rest = cut-IsCut false set cs in
    elim (Bool-cases (one_of set c)) [
      | inl e ↦
          rw (cut, e)
            (record {
              whole = ap (λ l. c ∷ l) rest.whole;
              before = (e, rest.before);
              after = rest.after;
            })
      | inr e ↦ rw (cut, e) (record { whole = refl; before = tt; after = inr (c, cs, refl, e) })
    ]

-- A string with a delimiter is split at the first one: the key, which has none, the delimiter and the
-- value are the string. Without a delimiter a CHECK fails.
pub key_value_split-first :
    (s delim : String)
    → ((key : String) × (d : ℕ) × (value : String) × (key_value_split s delim ≡ ok (key, value))
        × (key ++ d ∷ value ≡ s)
        × (one_of delim d ≡ true)
        × All (λ c. one_of delim c ≡ false) key)
      ⊎ ((key_value_split s delim ≡ abort check_failed) × All (λ c. one_of delim c ≡ false) s)
unfolding key_value_split
key_value_split-first s delim =
    let parts = cut-IsCut true delim s in
    elim parts.after [
      | inl e ↦ inr (
        rw (key_value_split, e) refl,
        subst (All (λ c. one_of delim c ≡ false))
            (sym (append-nil _) ∙ ap (λ l. (cut true delim s).0 ++ l) (sym e) ∙ parts.whole)
            parts.before,
      )
      | inr (d, value, e, stop) ↦ inl (
        (cut true delim s).0,
        d,
        value,
        rw (key_value_split, e) refl,
        ap (λ l. (cut true delim s).0 ++ l) (sym e) ∙ parts.whole,
        stop,
        parts.before,
      )
    ]

-- No blank at the front.
abbrev pub TrimmedFront : String → Type 0
TrimmedFront [] = Unit
TrimmedFront (c ∷ cs) = one_of blanks c ≡ false

-- No blank at the back.
abbrev pub TrimmedBack : String → Type 0
TrimmedBack [] = Unit
TrimmedBack (c ∷ []) = one_of blanks c ≡ false
TrimmedBack (c ∷ d ∷ cs) = TrimmedBack (d ∷ cs)

-- `erase_back` takes blanks off the back, and only blanks.
pub record IsBackErased (s t : String) : Type 0 where
  pub removed : String
  pub whole : t ++ removed ≡ s
  pub blank : All (λ c. one_of blanks c ≡ true) removed
  pub trimmed : TrimmedBack t

erase_back-IsBackErased : (s : String) → IsBackErased s (erase_back s)
unfolding erase_back
erase_back-IsBackErased [] = record { removed = []; whole = refl; blank = tt; trimmed = tt }
erase_back-IsBackErased (c ∷ cs) = step (erase_back cs) (erase_back-IsBackErased cs)
  where
    step :
        (t : String)
        → IsBackErased cs t
        → IsBackErased
            (c ∷ cs)
            (elim t [ [] ↦ if one_of blanks c then [] else c ∷ [] | d ∷ ds ↦ c ∷ d ∷ ds ])
    step [] h = elim (Bool-cases (one_of blanks c)) [
      | inl e ↦ rw e (record {
        removed = c ∷ h.removed;
        whole = ap (λ l. c ∷ l) h.whole;
        blank = (e, h.blank);
        trimmed = tt;
      })
      | inr e ↦ rw e (record {
        removed = h.removed;
        whole = ap (λ l. c ∷ l) h.whole;
        blank = h.blank;
        trimmed = e;
      })
    ]
    step (d ∷ ds) h = record {
      removed = h.removed;
      whole = ap (λ l. c ∷ l) h.whole;
      blank = h.blank;
      trimmed = h.trimmed;
    }

prefix-TrimmedFront : (s t r : String) → t ++ r ≡ s → TrimmedFront s → TrimmedFront t
prefix-TrimmedFront s [] r e h = tt
prefix-TrimmedFront [] (c ∷ t) r e h = cc
prefix-TrimmedFront (d ∷ s) (c ∷ t) r e h = head (cons-head e)
  where
    head : c ≡ d → one_of blanks c ≡ false
    head same = ap (one_of blanks) same ∙ h

    cons-head : (c ∷ t) ++ r ≡ d ∷ s → c ≡ d
    cons-head e = cc

trim-parts : (s : String) → trim s ≡ erase_back (cut false blanks s).1
unfolding trim erase_front erase_back cut
trim-parts [] = refl
trim-parts (c ∷ cs) = refl

after-TrimmedFront :
    (s : String)
    → (s ≡ []) ⊎ ((c : ℕ) × (cs : String) × (s ≡ c ∷ cs) × (one_of blanks c ≡ false))
    → TrimmedFront s
after-TrimmedFront s (inl e) = subst TrimmedFront (sym e) tt
after-TrimmedFront s (inr (c, cs, e, h)) = subst TrimmedFront (sym e) h

-- What trim() takes off are blanks at the front and at the back, and neither end of what it leaves is
-- a blank.
pub trim-strips :
    (s : String)
    → (front : String) × (back : String) × (front ++ trim s ++ back ≡ s)
      × All (λ c. one_of blanks c ≡ true) front
      × All (λ c. one_of blanks c ≡ true) back
      × TrimmedFront (trim s)
      × TrimmedBack (trim s)
trim-strips s =
    let parts = cut-IsCut false blanks s in
    let start = (cut false blanks s).1 in
    let h = erase_back-IsBackErased start in
    rw (trim-parts s) (
      (cut false blanks s).0,
      h.removed,
      append_assoc (cut false blanks s).0 (erase_back start) h.removed
          ∙ ap (λ l. (cut false blanks s).0 ++ l) h.whole
          ∙ parts.whole,
      parts.before,
      h.blank,
      prefix-TrimmedFront start (erase_back start) h.removed h.whole
          (after-TrimmedFront start parts.after),
      h.trimmed,
    )

pub eq_string_eq : (s t : String) → eq_string s t ≡ true → s ≡ t
eq_string_eq [] [] e = refl
eq_string_eq [] (d ∷ t) e = cc
eq_string_eq (c ∷ s) [] e = cc
eq_string_eq (c ∷ s) (d ∷ t) e = ground (arith, eq_string_eq s t)

-- A cut after characters that are in the set, before the end or one that is not.
pub cut-stops :
    (set before rest : String)
    → All (λ c. one_of set c ≡ true) before
    → (rest ≡ []) ⊎ ((d : ℕ) × (ds : String) × (rest ≡ d ∷ ds) × (one_of set d ≡ false))
    → cut false set (before ++ rest) ≡ (before, rest)
unfolding cut
cut-stops set [] rest _ (inl e) = rw (cut, e) refl
cut-stops set [] rest _ (inr (d, ds, e, out)) = rw (cut, e, out) refl
cut-stops set (c ∷ cs) rest (h, hs) stop = rw (cut, h, cut-stops set cs rest hs stop) refl
