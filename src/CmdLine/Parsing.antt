-- ===== src/CmdLine/Parsing.antt =====
-- What is parsed from a command line.
use swift_snails.Base.{
  ◌≡◌, ◌≢◌, refl, ap, sym, guard, ◌∙◌, [], ◌∷◌, none, some, ok, exception, Bool, true, false,
  Bool-cases, Option-cases, inl, inr,
}
use swift_snails.Strings.{String, eq_string}
use swift_snails.Strings.Cutting.{eq_string_eq}
use swift_snails.CmdLine.{Table, find, CmdLine, all_registered, check_parameters}

registered :
    (help t : Table) (key value : String)
    → all_registered help t ≡ true
    → find key t ≡ some value
    → find key help ≢ none
unfolding all_registered find
registered help [] key value all there gone = cc
registered help ((k, v) ∷ t) key value all there gone = elim (Option-cases (find k help)) [
  | inl e ↦ let wrong : false ≡ true = sym (rw (all_registered, e) refl) ∙ all in cc
  | inr (w, e) ↦ elim (Bool-cases (eq_string key k)) [
    | inl same ↦
        let here : find key help ≡ some w = ap (λ s. find s help) (eq_string_eq key k same) ∙ e in
        cc
    | inr differ ↦
        registered help t key value (sym (rw (all_registered, e) refl) ∙ all)
          (sym (rw (find, differ) refl) ∙ there) gone
  ]
]

-- A command line that checkParameters() accepts has only registered parameters.
pub check_parameters-registered :
    (c : CmdLine) (key value : String)
    → check_parameters c ≡ ok tt
    → find key c.value ≡ some value
    → find key c.help ≢ none
unfolding check_parameters
check_parameters-registered c key value checked there =
    registered c.help c.value key value (passed (all_registered c.help c.value) checked) there
  where
    passed : (b : Bool) → guard b exception ≡ ok tt → b ≡ true
    passed true e = refl
    passed false e = cc
