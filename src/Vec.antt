-- ===== src/Vec.antt =====
-- src/utils/vec1.h: Vec, a vector of floating-point numbers. The arithmetic of the machine is a
-- parameter, as are the numbers that `rand` draws and what a fresh block contains.
pub mod Loops
pub mod Laws
pub mod Assign
mod Tests
use swift_snails.Base.{
  ℕ, zero, suc, ◌+◌, ◌≡◌, List, [], ◌∷◌, Option, none, some, Result, ok, abort, ◌>>=◌, ◌>>◌, check,
  guard, or_abort, check_failed, out_of_bounds, null_pointer, ◌==◌, ltb, leb, not, Bool, true,
  false, if◌then◌else◌, length, get_elem?, set, replicate,
}

pub record Floats : Type 1 where
  pub F : Type 0
  pub literal_zero : F
  pub literal_one : F
  pub literal_minus_one : F
  pub add : F → F → F
  pub sub : F → F → F
  pub mul : F → F → F
  pub div : F → F → F
  pub root : F → F
  -- (rand() / (float)RAND_MAX - 0.5) / _size, for element i of a vector of that size
  pub draw : ℕ → ℕ → F
  pub garbage : F

module _ (A : Floats) where
  -- `block` is what `_data` points to, if it is not NULL
  pub record Vec : Type 0 where
    pub block : Option (List A.F)
    pub size : ℕ

  abbrev pub empty_vec : Vec
  empty_vec = record { block = none; size = 0 }

  -- reset(size_)
  unfoldable pub reset : ℕ → Vec → Result Vec
  reset n v = do
    check (ltb 0 n)
    if n == v.size then ok v else ok (record { block = some (replicate n A.garbage); size = n })

  -- data()[i]
  unfoldable pub load : ℕ → Vec → Result A.F
  load i v = do xs ← or_abort v.block null_pointer; or_abort (get_elem? xs i) out_of_bounds

  -- data()[i] = x
  unfoldable pub store : ℕ → A.F → Vec → Result Vec
  store i x v = do
    xs ← or_abort v.block null_pointer
    guard (ltb i (length xs)) out_of_bounds
    ok (record v { block = some (set xs i x) })

  -- operator[](i), which lets i = size() pass
  unfoldable pub at : ℕ → Vec → Result A.F
  unfolding load
  at i v = do check (leb i v.size); load i v

  -- operator[](i) of a const vector
  unfoldable pub const_at : ℕ → Vec → Result A.F
  unfolding load
  const_at i v = do check (ltb i v.size); load i v

  -- operator[](i) = x
  unfoldable pub put : ℕ → A.F → Vec → Result Vec
  unfolding store
  put i x v = do check (leb i v.size); store i x v

  -- `for (; i < i + n; i++) data()[i] = f(i)`
  pub fill : ℕ → ℕ → (ℕ → Result A.F) → Vec → Result Vec
  fill zero i f v = ok v
  fill (suc n) i f v = do x ← f i; v' ← store i x v; fill n (i + 1) f v'

  -- `for (; i < i + n; i++) v[i] = f(i, v[i])`
  pub update : ℕ → ℕ → (ℕ → A.F → Result A.F) → Vec → Result Vec
  update zero i f v = ok v
  update (suc n) i f v = do x ← at i v; y ← f i x; v' ← put i y v; update n (i + 1) f v'

  -- init(size, random_init)
  unfoldable pub init : ℕ → Bool → Vec → Result Vec
  unfolding reset
  init n random v = do
    check (ltb 0 n)
    check (elim v.block [ none ↦ true | some _ ↦ false ])
    v₁ ← reset n v
    v₂ ← fill v₁.size 0 (λ i. ok A.literal_zero) v₁
    if random then fill v₂.size 0 (λ i. ok (A.draw v₂.size i)) v₂ else ok v₂

  -- Vec(const Vec &other)
  unfoldable pub copy : Vec → Result Vec
  unfolding init
  copy other = do
    v ← if 0 == other.size then ok empty_vec else init other.size false empty_vec
    fill v.size 0 (λ i. const_at i other) v

  -- Vec(Vec &&other): the new vector, and what is left of `other`
  unfoldable pub move : Vec → Vec × Vec
  move other = (other, empty_vec)

  -- operator=(other): the size is overwritten before it is compared
  unfoldable pub assign : Vec → Vec → Result Vec
  unfolding reset
  assign v other = do
    v' ← reset other.size (record v { size = other.size })
    fill v'.size 0 (λ i. const_at i other) v'

  -- the loops `v[i] op= b` and `v[i] op= b[i]` over the elements of `v`
  unfoldable pub each : (A.F → A.F) → Vec → Result Vec
  unfolding update
  each f v = update v.size 0 (λ i x. ok (f x)) v

  unfoldable pub each_with : (A.F → A.F → A.F) → Vec → Vec → Result Vec
  unfolding update
  each_with f v b = update v.size 0 (λ i x. do y ← const_at i b; ok (f x y)) v

  -- vec * b, b * vec, a * b
  unfoldable pub times_scalar : Vec → A.F → Result Vec
  unfolding copy each
  times_scalar vec b = do v ← copy vec; each (λ x. A.mul x b) v

  unfoldable pub scalar_times : A.F → Vec → Result Vec
  unfolding times_scalar
  scalar_times b vec = times_scalar vec b

  unfoldable pub times : Vec → Vec → Result Vec
  unfolding copy each_with
  times a b = do check (a.size == b.size); tmp ← copy a; each_with A.mul tmp b

  -- vec / b, b / vec, a / b
  unfoldable pub over_scalar : Vec → A.F → Result Vec
  unfolding copy each
  over_scalar vec b = do v ← copy vec; each (λ x. A.div x b) v

  unfoldable pub scalar_over : A.F → Vec → Result Vec
  unfolding scalar_times
  scalar_over b vec = scalar_times (A.div A.literal_one b) vec

  unfoldable pub over : Vec → Vec → Result Vec
  unfolding copy each_with
  over a b = do v ← copy a; each_with A.div v b

  -- vec + b, b + vec
  unfoldable pub plus_scalar : Vec → A.F → Result Vec
  unfolding copy each
  plus_scalar vec b = do v ← copy vec; each (λ x. A.add x b) v

  unfoldable pub scalar_plus : A.F → Vec → Result Vec
  unfolding plus_scalar
  scalar_plus b vec = plus_scalar vec b

  -- vec - b, b - vec, a - b
  unfoldable pub minus_scalar : Vec → A.F → Result Vec
  unfolding copy each
  minus_scalar vec b = do v ← copy vec; each (λ x. A.sub x b) v

  unfoldable pub scalar_minus : A.F → Vec → Result Vec
  unfolding scalar_times plus_scalar
  scalar_minus b vec = do v ← scalar_times A.literal_minus_one vec; plus_scalar v b

  unfoldable pub minus : Vec → Vec → Result Vec
  unfolding copy each_with
  minus a b = do v ← copy a; each_with A.sub v b

  -- a += b, a += x, a -= b, a -= x, a /= x
  unfoldable pub add_assign : Vec → Vec → Result Vec
  unfolding each_with
  add_assign a b = do check (a.size == b.size); each_with A.add a b

  unfoldable pub add_assign_scalar : Vec → A.F → Result Vec
  unfolding each
  add_assign_scalar a b = each (λ x. A.add x b) a

  unfoldable pub sub_assign : Vec → Vec → Result Vec
  unfolding each_with
  sub_assign a b = each_with A.sub a b

  unfoldable pub sub_assign_scalar : Vec → A.F → Result Vec
  unfolding each
  sub_assign_scalar a b = each (λ x. A.sub x b) a

  unfoldable pub div_assign_scalar : Vec → A.F → Result Vec
  unfolding each
  div_assign_scalar a b = each (λ x. A.div x b) a

  -- sqrt(vec)
  unfoldable pub sqrt : Vec → Result Vec
  unfolding copy each
  sqrt vec = do tmp ← copy vec; each A.root tmp

  -- the loop of dot()
  pub sum_products : ℕ → ℕ → A.F → Vec → Vec → Result A.F
  sum_products zero i res v b = ok res
  sum_products (suc n) i res v b = do
    x ← load i v
    y ← const_at i b
    sum_products n (i + 1) (A.add res (A.mul x y)) v b

  unfoldable pub dot : Vec → Vec → Result A.F
  unfolding sum_products
  dot v other = do check (v.size == other.size); sum_products v.size 0 A.literal_zero v other

  -- the second loop of outer(): row i is a copy of b, overwritten by a[i] * b[j]
  pub rows : ℕ → ℕ → Vec → Vec → Result (List Vec)
  rows zero i a b = ok []
  rows (suc n) i a b = do
    v ← copy b
    row ← update b.size 0 (λ j _. do x ← const_at i a; y ← const_at j b; ok (A.mul x y)) v
    rest ← rows n (i + 1) a b
    ok (row ∷ rest)

  unfoldable pub outer : Vec → Vec → Result (List Vec)
  unfolding rows
  outer a b = do check (ltb 0 a.size); check (ltb 0 b.size); rows a.size 0 a b
