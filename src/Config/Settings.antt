-- ===== src/Config/Settings.antt =====
-- What a parsed configuration has.
use swift_snails.Base.{
  ℕ, zero, suc, ◌≡◌, inl, inr, refl, ap, sym, ◌∙◌, List, [], ◌∷◌, ◌++◌, Option, >>=-eq-ok, none,
  some, Result, ok, abort, ◌>>=◌, ◌>>◌, check, check_failed, Bool, true, false, not, if◌then◌else◌,
  Bool-cases, Option-cases, or_abort, subst,
}
use swift_snails.Strings.{String, eq_string, trim, key_value_split, headswith}
use swift_snails.Strings.Cutting.{eq_string_eq}
use swift_snails.Config.{
  Dic, find, set_config, get_config, import_text, parse_line, parse_lines, parse_conf,
}

-- Every setting of the first is one of the second.
abbrev pub Keeps : Dic → Dic → Type 0
Keeps dic dic' = (key value : String) → find key dic ≡ some value → find key dic' ≡ some value

set_config-Keeps : (k v : String) (dic : Dic) → Keeps dic (set_config k v dic)
unfolding set_config find
set_config-Keeps k v dic key value there = elim (Option-cases (find k dic)) [
  | inl e ↦ elim (Bool-cases (eq_string key k)) [
    | inl same ↦
        let gone : find key dic ≡ none = ap (λ s. find s dic) (eq_string_eq key k same) ∙ e in cc
    | inr differ ↦ rw (set_config, e, find, differ) there
  ]
  | inr (w, e) ↦ rw (set_config, e) there
]

-- If the run ends in a configuration, it keeps the settings of `dic`.
abbrev pub Sound : Dic → Result Dic → Type 0
Sound dic (ok dic') = Keeps dic dic'
Sound dic (abort e) = Unit

Sound-if :
    (dic : Dic) (b : Bool) (r s : Result Dic)
    → Sound dic r
    → Sound dic s
    → Sound dic (if b then r else s)
Sound-if dic true r s hr hs = hr
Sound-if dic false r s hr hs = hs

Sound-bind :
    {A : Type 0} (dic : Dic) (m : Result A) (f : A → Result Dic)
    → ((a : A) → Sound dic (f a))
    → Sound dic (m >>= f)
Sound-bind dic (ok a) f h = h a
Sound-bind dic (abort e) f h = tt

Sound-then :
    (dic : Dic) (r : Result Dic) (f : Dic → Result Dic)
    → Sound dic r
    → ((d : Dic) → Sound d (f d))
    → Sound dic (r >>= f)
Sound-then dic (ok d) f h g = trans (f d) (g d)
  where
    trans : (s : Result Dic) → Sound d s → Sound dic s
    trans (ok d') k = λ key value there. k key value (h key value there)
    trans (abort e) k = tt
Sound-then dic (abort e) f h g = tt

-- What is asked of the parsing of another file.
abbrev pub Parses : (String → Dic → Result Dic) → Type 0
Parses parse = (path : String) (dic : Dic) → Sound dic (parse path dic)

parse_line-Sound :
    (parse : String → Dic → Result Dic) (path line : String) (dic : Dic)
    → Parses parse
    → Sound dic (parse_line parse path line dic)
unfolding parse_line
parse_line-Sound parse path line dic h =
    Sound-if dic (eq_string (trim line) []) (ok dic) _ (λ k v there. there)
      (Sound-if dic (headswith (trim line) (35 ∷ [])) (ok dic) _ (λ k v there. there)
        (Sound-if dic (headswith (trim line) import_text) imported set_one
          (Sound-bind dic (key_value_split (trim line) (32 ∷ [])) _
            (λ kv. Sound-bind dic (check (not (eq_string kv.1 path))) _ λ u. h kv.1 dic))
          (Sound-bind dic (key_value_split (trim line) (58 ∷ []))
            (λ kv. ok (set_config (trim kv.0) (trim kv.1) dic))
            (λ kv. set_config-Keeps (trim kv.0) (trim kv.1) dic))))
  where
    imported : Result Dic
    imported =
        key_value_split (trim line) (32 ∷ [])
        >>= (λ kv. check (not (eq_string kv.1 path)) >> parse kv.1 dic)

    set_one : Result Dic
    set_one =
        key_value_split (trim line) (58 ∷ []) >>= λ kv. ok (set_config (trim kv.0) (trim kv.1) dic)

parse_lines-Sound :
    (parse : String → Dic → Result Dic) (path : String) (lines : List String) (dic : Dic)
    → Parses parse
    → Sound dic (parse_lines parse path lines dic)
unfolding parse_lines
parse_lines-Sound parse path [] dic h = λ k v there. there
parse_lines-Sound parse path (line ∷ lines) dic h =
    Sound-then dic (parse_line parse path line dic) _ (parse_line-Sound parse path line dic h)
      (λ d. parse_lines-Sound parse path lines d h)

parse_conf-Sound : (files : String → Option (List String)) (n : ℕ) → Parses (parse_conf files n)
unfolding parse_conf
parse_conf-Sound files zero path dic = tt
parse_conf-Sound files (suc n) path dic =
    Sound-bind dic (or_abort (files path) check_failed) _
      (λ lines. parse_lines-Sound (parse_conf files n) path lines dic (parse_conf-Sound files n))

found : (o : Option String) (value : String) → or_abort o check_failed ≡ ok value → o ≡ some value
found none value e = cc
found (some v) value e = cc

-- What is set in a configuration is what it is after the rest of the lines.
after_lines :
    (parse : String → Dic → Result Dic) (path key value : String) (lines more : List String)
    (dic d dic' : Dic)
    → Parses parse
    → parse_lines parse path lines dic ≡ ok d
    → find key d ≡ some value
    → parse_lines parse path (lines ++ more) dic ≡ ok dic'
    → find key dic' ≡ some value
unfolding parse_lines
after_lines parse path key value [] more dic d dic' h first there all =
    let same : dic ≡ d = cc in
    subst (Sound dic) all (parse_lines-Sound parse path more dic h) key value
      (ap (find key) same ∙ there)
after_lines parse path key value (line ∷ lines) more dic d dic' h first there all =
    let (d₁, one, rest) = >>=-eq-ok (parse_line parse path line dic) _ first in
    let (d₂, one', rest') = >>=-eq-ok (parse_line parse path line dic) _ all in
    let both : ok d₂ ≡ ok d₁ = sym one' ∙ one in
    let same : d₂ ≡ d₁ = cc in
    after_lines parse path key value lines more d₁ d dic' h rest there
      (subst (λ x. parse_lines parse path (lines ++ more) x ≡ ok dic') same rest')

-- A file is read from its first line on: when its first lines, with the files that they import, have
-- given a key a value, or it had one before the file, then it has this value after the whole file,
-- whatever comes in the other lines. So the first value of a key is the one that counts.
pub parse_conf-keeps :
    (files : String → Option (List String)) (n : ℕ) (path key value : String)
    (lines more : List String) (dic d dic' : Dic)
    → files path ≡ some (lines ++ more)
    → parse_lines (parse_conf files n) path lines dic ≡ ok d
    → get_config key d ≡ ok value
    → parse_conf files (suc n) path dic ≡ ok dic'
    → get_config key dic' ≡ ok value
unfolding get_config parse_conf
parse_conf-keeps files n path key value lines more dic d dic' file first there run =
    ap (λ o. or_abort o check_failed)
      (after_lines (parse_conf files n) path key value lines more dic d dic'
        (parse_conf-Sound files n) first (found (find key d) value there) (rw (file, ◌>>=◌) at run))

-- A line that imports the file `target`.
pub record Imports (line target : String) : Type 0 where
  pub present : eq_string (trim line) [] ≡ false
  pub no_comment : headswith (trim line) (35 ∷ []) ≡ false
  pub import : headswith (trim line) import_text ≡ true
  pub word : String
  pub cut_off : key_value_split (trim line) (32 ∷ []) ≡ ok (word, target)

refused :
    (b : Bool) (r : Result Dic) (f : Dic → Result Dic)
    → r ≡ abort check_failed
    → ((check b >> r) >>= f) ≡ abort check_failed
refused true r f e = rw (e, ◌>>=◌) refl
refused false r f e = refl

-- When two files begin with an import of each other, the parsing of either fails a CHECK, however many
-- files may be opened: each import opens one more, and the CHECK against an import of the file itself
-- does not see the cycle.
pub parse_conf_cycle :
    (files : String → Option (List String)) (a b line line' : String) (rest rest' : List String)
    → files a ≡ some (line ∷ rest)
    → files b ≡ some (line' ∷ rest')
    → Imports line b
    → Imports line' a
    → (n : ℕ) (dic : Dic)
    → (parse_conf files n a dic ≡ abort check_failed)
      × (parse_conf files n b dic ≡ abort check_failed)
unfolding parse_conf parse_lines parse_line
parse_conf_cycle files a b line line' rest rest' fa fb ia ib zero dic = (refl, refl)
parse_conf_cycle files a b line line' rest rest' fa fb ia ib (suc n) dic =
    let (ha, hb) = parse_conf_cycle files a b line line' rest rest' fa fb ia ib n dic in
    (
      rw (fa, ◌>>=◌, ia.present, ia.no_comment, ia.import, ia.cut_off)
          (refused (not (eq_string b a)) (parse_conf files n b dic) _ hb),
      rw (fb, ◌>>=◌, ib.present, ib.no_comment, ib.import, ib.cut_off)
          (refused (not (eq_string a b)) (parse_conf files n a dic) _ ha),
    )
