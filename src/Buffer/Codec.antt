-- ===== src/Buffer/Codec.antt =====
-- Messages as sequences of records: `for (auto &item : items) { bb << item.first; bb << item.second; }`
-- and `while (!bb.read_finished()) { bb >> key; bb >> val; }`, which every pull and push uses.
-- A `Codec` is a type with its `operator<<` and `operator>>`; for the values and gradients, whose types
-- a program supplies, its laws are what the framework relies on.
use swift_snails.Base.{
  ℕ, zero, suc, ◌^◌, ◌≡◌, ◌<◌, refl, List, [], ◌∷◌, ◌++◌, Result, ok, ◌>>=◌, length, arith, Returns,
  All, append-nil, append_assoc, length-append, true, false,
}
use swift_snails.Buffer.{Buffer, read_finished}
use swift_snails.Buffer.Contents.{Holds, cursor-end}
use swift_snails.Buffer.Words.{
  le_bytes, put_word, get_word, put_word-Holds, get_word-Holds, length-le_bytes,
}

pub record Codec (A : Type 0) : Type 1 where
  -- the values of the type that the machine can represent
  pub Fits : A → Type 0
  pub put : A → Buffer → Result Buffer
  pub get : Buffer → Result (A × Buffer)
  pub wire : A → List ℕ
  pub wire_pos : (a : A) → 0 < length (wire a)
  pub put-Holds :
      (a : A) (stored rest : List ℕ) (b : Buffer)
      → Holds stored rest b
      → Returns (put a b) (Holds (stored ++ wire a) (rest ++ wire a))
  pub get-Holds :
      (a : A) (stored rest : List ℕ) (b : Buffer)
      → Fits a
      → Holds stored (wire a ++ rest) b
      → Returns (get b) λ r. (r.0 ≡ a) × Holds stored rest r.1

pub word_pos : (n x : ℕ) → 0 < n → 0 < length (le_bytes n x)
word_pos n x h = omega (arith, length-le_bytes n x)

-- The unsigned numbers of four bytes, such as `index_t`.
abbrev pub word32 : Codec ℕ
word32 = record {
  Fits = λ x. x < 256 ^ 4;
  put = put_word 4;
  get = get_word 4;
  wire = le_bytes 4;
  wire_pos = λ x. word_pos 4 x (omega arith);
  put-Holds = λ x stored rest b h. put_word-Holds 4 x b h (omega arith);
  get-Holds = λ x stored rest b fit h. get_word-Holds 4 x b h (omega arith) fit;
}

module _ {K V : Type 0} (CK : Codec K) (CV : Codec V) where
  pub put_records : List (K × V) → Buffer → Result Buffer
  put_records [] b = ok b
  put_records ((key, val) ∷ items) b = do
    b₁ ← CK.put key b
    b₂ ← CV.put val b₁
    put_records items b₂

  -- Each round reads at least one byte, so the size of the buffer bounds the rounds.
  pub get_records : ℕ → Buffer → Result (List (K × V) × Buffer)
  get_records zero b = ok ([], b)
  get_records (suc fuel) b = do
    finished ← read_finished b
    elim finished [
      | true ↦ ok ([], b)
      | false ↦ do
        (key, b₁) ← CK.get b
        (val, b₂) ← CV.get b₁
        (items, b₃) ← get_records fuel b₂
        ok ((key, val) ∷ items, b₃)
    ]

  abbrev pub records_wire : List (K × V) → List ℕ
  records_wire [] = []
  records_wire ((key, val) ∷ items) = CK.wire key ++ (CV.wire val ++ records_wire items)

  abbrev pub Fit : List (K × V) → Type 0
  Fit = All (λ item. CK.Fits item.0 × CV.Fits item.1)

  pub put_records-Holds :
      (items : List (K × V)) {stored rest : List ℕ} (b : Buffer)
      → Holds stored rest b
      → Returns
          (put_records items b)
          (Holds (stored ++ records_wire items) (rest ++ records_wire items))
  unfolding put_records
  put_records-Holds [] {stored} {rest} b h = (b, refl, rw (append-nil stored, append-nil rest) h)
  put_records-Holds ((key, val) ∷ items) {stored} {rest} b h =
      let (c, run, held) = CK.put-Holds key stored rest b h in
      let (d, run', held') = CV.put-Holds val _ _ c held in
      let (e, runs, held'') = put_records-Holds items d held' in
      (e, rw (run, ◌>>=◌, run') runs, regroup held'')
    where
      regroup :
          {e : Buffer}
          → Holds
              ((stored ++ CK.wire key) ++ CV.wire val ++ records_wire items)
              ((rest ++ CK.wire key) ++ CV.wire val ++ records_wire items)
              e
          → Holds
              (stored ++ (CK.wire key ++ (CV.wire val ++ records_wire items)))
              (rest ++ (CK.wire key ++ (CV.wire val ++ records_wire items)))
              e
      regroup h' = simp append_assoc at h'

  pub record_size :
      (key : K) (val : V) (w : List ℕ) → length w < length (CK.wire key ++ (CV.wire val ++ w))
  record_size key val w = omega (
    arith,
    length-append (CK.wire key) (CV.wire val ++ w),
    length-append (CV.wire val) w,
    CK.wire_pos key,
  )

  pub get_records-Holds :
      (items : List (K × V)) (fuel : ℕ) {stored : List ℕ} (b : Buffer)
      → Fit items
      → Holds stored (records_wire items) b
      → length (records_wire items) < fuel
      → Returns (get_records fuel b) λ r. (r.0 ≡ items) × Holds stored [] r.1
  unfolding get_records read_finished
  get_records-Holds items zero b fits h enough = absurd (omega arith)
  get_records-Holds [] (suc fuel) b fits h enough =
      (([], b), ground (arith, cursor-end b h), (refl, h))
  get_records-Holds ((key, val) ∷ items) (suc fuel) b (fit, fits) h enough =
      let (r, run, (x, held)) = CK.get-Holds key _ _ b fit.0 h in
      let (q, run', (y, held')) = CV.get-Holds val _ _ r.1 fit.1 held in
      let less : length (records_wire items) < fuel =
        omega (arith, record_size key val (records_wire items)) in
      let (s, runs, (zs, done)) = get_records-Holds items fuel q.1 fits held' less in
      (
        ((r.0, q.0) ∷ s.0, s.1),
        ground (arith, cursor-end b h, record_size key val (records_wire items), run, run', runs),
        (cc, done),
      )
