-- ===== src/Buffer/Words.antt =====
-- utils/Buffer.h, `operator<<` and `operator>>` of the basic types: the memory of a value, least
-- significant byte first. Signed integers and floats are their bit patterns.
use native.Mathlib.Nat.{pow-succ'}
use swift_snails.Base.{
  ℕ, zero, suc, ◌+◌, ◌*◌, ◌/◌, ◌%◌, ◌^◌, ◌≡◌, ◌≤◌, ◌<◌, refl, ap, sym, ◌∙◌, List, [], ◌∷◌, ◌++◌,
  Result, ok, ◌>>=◌, length, arith, Returns, append-nil, append_assoc, All,
}
use swift_snails.Buffer.{Buffer, put_raw, get_raw}
use swift_snails.Buffer.Contents.{Holds, put_raw-Holds, get_raw-Holds}

-- The memory of an n-byte value, and back.
pub le_bytes : ℕ → ℕ → List ℕ
le_bytes zero x = []
le_bytes (suc n) x = (x % 256) ∷ le_bytes n (x / 256)

pub le_value : List ℕ → ℕ
le_value [] = 0
le_value (c ∷ bytes) = c + 256 * le_value bytes

-- bb << x and bb >> x, for x of n bytes
unfoldable pub put_word : ℕ → ℕ → Buffer → Result Buffer
unfolding le_bytes
put_word n x b = put_raw (le_bytes n x) b

unfoldable pub get_word : ℕ → Buffer → Result (ℕ × Buffer)
unfolding le_value
get_word n b = do (bytes, b') ← get_raw n b; ok (le_value bytes, b')

pub length-le_bytes : (n x : ℕ) → length (le_bytes n x) ≡ n
unfolding le_bytes
length-le_bytes zero x = refl
length-le_bytes (suc n) x = omega (arith, length-le_bytes n (x / 256))

le_value-le_bytes : (n x : ℕ) → x < 256 ^ n → le_value (le_bytes n x) ≡ x
unfolding le_value le_bytes
le_value-le_bytes zero x h = omega arith
le_value-le_bytes (suc n) x h =
    omega (arith, le_value-le_bytes n (x / 256) (omega (arith, pow-succ' 256 n)))

pub put_word-Holds :
    {stored rest : List ℕ} (n x : ℕ) (b : Buffer)
    → Holds stored rest b
    → n ≤ 8
    → Returns (put_word n x b) (Holds (stored ++ le_bytes n x) (rest ++ le_bytes n x))
unfolding put_word
put_word-Holds n x b h small =
    put_raw-Holds _ _ (le_bytes n x) b h (omega (arith, length-le_bytes n x))

pub get_word-Holds :
    {stored rest : List ℕ} (n x : ℕ) (b : Buffer)
    → Holds stored (le_bytes n x ++ rest) b
    → 0 < n
    → x < 256 ^ n
    → Returns (get_word n b) λ r. (r.0 ≡ x) × Holds stored rest r.1
unfolding get_word
get_word-Holds n x b h pos fits =
    let (r, run, (bytes, held)) =
      get_raw-Holds _ (le_bytes n x) _ b h (omega (arith, length-le_bytes n x)) in
    let run' : get_raw n b ≡ ok r = ap (λ k. get_raw k b) (sym (length-le_bytes n x)) ∙ run in
    ((le_value r.0, r.1), rw run', (ap le_value bytes ∙ le_value-le_bytes n x fits, held))

pub get_word-eq :
    {stored rest : List ℕ} (n x : ℕ) (b : Buffer)
    → Holds stored (le_bytes n x ++ rest) b
    → 0 < n
    → x < 256 ^ n
    → (b' : Buffer) × (get_word n b ≡ ok (x, b')) × Holds stored rest b'
get_word-eq n x b h pos fits =
    let (p, run, (e, held)) = get_word-Holds n x b h pos fits in
    (p.1, run ∙ ap (λ k. ok (k, p.1)) e, held)

-- A basic value: its size in bytes and its bit pattern.
pub record Value : Type 0 where
  pub width : ℕ
  pub bits : ℕ

pub record Fits (v : Value) : Type 0 where
  pub some_bytes : 0 < v.width
  pub basic : v.width ≤ 8
  pub in_range : v.bits < 256 ^ v.width

-- bb << v₁ << v₂ …
pub put_all : List Value → Buffer → Result Buffer
put_all [] b = ok b
put_all (v ∷ vs) b = do b' ← put_word v.width v.bits b; put_all vs b'

-- bb >> v₁ >> v₂ …, at variables of the same sizes
pub get_all : List Value → Buffer → Result (List ℕ × Buffer)
get_all [] b = ok ([], b)
get_all (v ∷ vs) b = do (x, b₁) ← get_word v.width b; (xs, b₂) ← get_all vs b₁; ok (x ∷ xs, b₂)

abbrev pub wire : List Value → List ℕ
wire [] = []
wire (v ∷ vs) = le_bytes v.width v.bits ++ wire vs

abbrev pub values : List Value → List ℕ
values [] = []
values (v ∷ vs) = v.bits ∷ values vs

put_all-Holds :
    (vs : List Value) {stored rest : List ℕ} (b : Buffer)
    → Holds stored rest b
    → All Fits vs
    → Returns (put_all vs b) (Holds (stored ++ wire vs) (rest ++ wire vs))
unfolding put_all
put_all-Holds [] {stored} {rest} b h _ = (b, refl, rw (append-nil stored, append-nil rest) h)
put_all-Holds (v ∷ vs) b h (fit, fits) =
    let (c, run, held) = put_word-Holds v.width v.bits b h fit.basic in
    let (d, runs, held') = put_all-Holds vs c held fits in
    (d, rw (run, ◌>>=◌) runs, rw (append_assoc, append_assoc) at held')

get_all-Holds :
    {stored rest : List ℕ} (vs : List Value) (b : Buffer)
    → Holds stored (wire vs ++ rest) b
    → All Fits vs
    → Returns (get_all vs b) λ r. (r.0 ≡ values vs) × Holds stored rest r.1
unfolding get_all
get_all-Holds [] b h _ = (([], b), refl, (refl, h))
get_all-Holds {stored} {rest} (v ∷ vs) b h (fit, fits) =
    let (r, run, (x, held)) =
      get_word-Holds v.width v.bits b (rw append_assoc at h) fit.some_bytes fit.in_range in
    let (s, runs, (xs, held')) = get_all-Holds vs r.1 held fits in
    ((r.0 ∷ s.0, s.1), rw (run, ◌>>=◌, runs), (cc, held'))

-- Whatever basic values are written to a buffer with nothing unread, the reads of the same sizes give
-- them back in order and leave nothing unread, however often the block has grown on the way.
pub get_all-put_all :
    {stored : List ℕ} (vs : List Value) (b : Buffer)
    → Holds stored [] b
    → All Fits vs
    → Returns
        (put_all vs b >>= get_all vs)
        λ r. (r.0 ≡ values vs) × Holds (stored ++ wire vs) [] r.1
get_all-put_all vs b h fits =
    let (c, run, held) = put_all-Holds vs b h fits in
    rw (run, ◌>>=◌) (get_all-Holds vs c (rw append-nil held) fits)
