-- ===== src/Vec/Loops.antt =====
-- The loops over the elements of a vector.
use swift_snails.Base.{
  ℕ, ◌+◌, ◌<◌, ◌≡◌, refl, ap, sym, ◌∙◌, subst, List, [], ◌∷◌, ◌++◌, append_assoc, some, Result, ok,
  ◌>>=◌, Returns, arith, leb, length, length-append, get_elem?, set, true, replicate, map,
}
use swift_snails.Vec.{Floats, Vec, load, store, at, const_at, put, fill, update}

get_elem?-middle :
    {A : Type 0} (pre : List A) (x : A) (rest : List A)
    → get_elem? (pre ++ x ∷ rest) (length pre) ≡ some x
get_elem?-middle [] x rest = refl
get_elem?-middle (y ∷ pre) x rest = get_elem?-middle pre x rest

pub set-middle :
    {A : Type 0} (pre : List A) (x y : A) (rest : List A)
    → set (pre ++ x ∷ rest) (length pre) y ≡ (pre ++ y ∷ []) ++ rest
set-middle [] x y rest = refl
set-middle (z ∷ pre) x y rest = ap (λ l. z ∷ l) (set-middle pre x y rest)

abbrev pub zip_with : {A : Type 0} → (A → A → A) → List A → List A → List A
zip_with f [] ys = []
zip_with f (x ∷ xs) [] = []
zip_with f (x ∷ xs) (y ∷ ys) = f x y ∷ zip_with f xs ys

module _ (A : Floats) where
  -- The vector has the elements `xs`; there is at least one.
  pub record Has (xs : List A.F) (v : Vec A) : Type 0 where
    pub owned : v.block ≡ some xs
    pub sized : v.size ≡ length xs
    pub some_element : 0 < length xs

  -- The round at index i makes `ys` of `xs`.
  abbrev pub Rounds : (ℕ → A.F → Result A.F) → ℕ → List A.F → List A.F → Type 0
  Rounds f i [] [] = Unit
  Rounds f i (x ∷ xs) (y ∷ ys) = (f i x ≡ ok y) × Rounds f (i + 1) xs ys
  Rounds f i [] (y ∷ ys) = i < i
  Rounds f i (x ∷ xs) [] = i < i

  pub load-Has :
      (pre rest : List A.F) (x : A.F) (v : Vec A)
      → Has (pre ++ x ∷ rest) v
      → load A (length pre) v ≡ ok x
  unfolding load
  load-Has pre rest x v h = ground (arith, h.owned, get_elem?-middle pre x rest)

  pub const_at-Has :
      (pre rest : List A.F) (x : A.F) (v : Vec A)
      → Has (pre ++ x ∷ rest) v
      → const_at A (length pre) v ≡ ok x
  unfolding const_at load
  const_at-Has pre rest x v h =
      ground (arith, h.owned, h.sized, length-append pre (x ∷ rest), get_elem?-middle pre x rest)

  at-Has :
      (pre rest : List A.F) (x : A.F) (v : Vec A)
      → Has (pre ++ x ∷ rest) v
      → at A (length pre) v ≡ ok x
  unfolding at load
  at-Has pre rest x v h =
      ground (arith, h.owned, h.sized, length-append pre (x ∷ rest), get_elem?-middle pre x rest)

  store-Has :
      (pre rest : List A.F) (x y : A.F) (v : Vec A)
      → Has (pre ++ x ∷ rest) v
      → Returns (store A (length pre) y v) (Has ((pre ++ y ∷ []) ++ rest))
  unfolding store
  store-Has pre rest x y v h = (
    record v { block = some ((pre ++ y ∷ []) ++ rest) },
    ground (arith, h.owned, length-append pre (x ∷ rest), set-middle pre x y rest),
    record {
      owned = refl;
      sized = omega (
        arith,
        h.sized,
        length-append pre (x ∷ rest),
        length-append (pre ++ y ∷ []) rest,
        length-append pre (y ∷ []),
      );
      some_element = omega (arith, length-append (pre ++ y ∷ []) rest, length-append pre (y ∷ []));
    },
  )

  put-Has :
      (pre rest : List A.F) (x y : A.F) (v : Vec A)
      → Has (pre ++ x ∷ rest) v
      → Returns (put A (length pre) y v) (Has ((pre ++ y ∷ []) ++ rest))
  unfolding put
  put-Has pre rest x y v h =
      let (v', run, held) = store-Has pre rest x y v h in
      let room : leb (length pre) v.size ≡ true =
        ground (arith, h.sized, length-append pre (x ∷ rest)) in
      (v', rw (room, ◌>>=◌) run, held)

  pub update-Has :
      (f : ℕ → A.F → Result A.F) (pre xs ys : List A.F) (v : Vec A)
      → Rounds f (length pre) xs ys
      → Has (pre ++ xs) v
      → Returns (update A (length xs) (length pre) f v) (Has (pre ++ ys))
  unfolding update
  update-Has f pre [] [] v r h = (v, refl, h)
  update-Has f pre [] (y ∷ ys) v r h = absurd (omega arith)
  update-Has f pre (x ∷ xs) [] v r h = absurd (omega arith)
  update-Has f pre (x ∷ xs) (y ∷ ys) v (now, later) h =
      let (v', run, held) = put-Has pre xs x y v h in
      let next : length (pre ++ y ∷ []) ≡ length pre + 1 = length-append pre (y ∷ []) in
      let (v'', runs, held') =
        update-Has f (pre ++ y ∷ []) xs ys v' (subst (λ i. Rounds f i xs ys) (sym next) later)
          held in
      (
        v'',
        rw (at-Has pre xs x v h, ◌>>=◌, now, run)
            (ap (λ i. update A (length xs) i f v') (sym next) ∙ runs),
        subst (λ l. Has l v'') (append_assoc pre (y ∷ []) ys) held',
      )

  pub fill-Has :
      (f : ℕ → Result A.F) (pre xs ys : List A.F) (v : Vec A)
      → Rounds (λ i _. f i) (length pre) xs ys
      → Has (pre ++ xs) v
      → Returns (fill A (length xs) (length pre) f v) (Has (pre ++ ys))
  unfolding fill
  fill-Has f pre [] [] v r h = (v, refl, h)
  fill-Has f pre [] (y ∷ ys) v r h = absurd (omega arith)
  fill-Has f pre (x ∷ xs) [] v r h = absurd (omega arith)
  fill-Has f pre (x ∷ xs) (y ∷ ys) v (now, later) h =
      let (v', run, held) = store-Has pre xs x y v h in
      let next : length (pre ++ y ∷ []) ≡ length pre + 1 = length-append pre (y ∷ []) in
      let (v'', runs, held') =
        fill-Has f (pre ++ y ∷ []) xs ys v'
          (subst (λ i. Rounds (λ i _. f i) i xs ys) (sym next) later) held in
      (
        v'',
        rw (now, ◌>>=◌, run) (ap (λ i. fill A (length xs) i f v') (sym next) ∙ runs),
        subst (λ l. Has l v'') (append_assoc pre (y ∷ []) ys) held',
      )

  -- Reading along a vector of the same length.
  pub read-Rounds :
      (g : A.F → A.F → A.F) (b : Vec A) (pre xs ys : List A.F)
      → Has (pre ++ ys) b
      → length xs ≡ length ys
      → Rounds (λ i x. const_at A i b >>= λ y. ok (g x y)) (length pre) xs (zip_with g xs ys)
  read-Rounds g b pre [] [] h e = tt
  read-Rounds g b pre [] (y ∷ ys) h e = absurd (omega arith)
  read-Rounds g b pre (x ∷ xs) [] h e = absurd (omega arith)
  read-Rounds g b pre (x ∷ xs) (y ∷ ys) h e = (
    rw (const_at-Has pre ys y b h, ◌>>=◌) refl,
    subst (λ i. Rounds (λ i x. const_at A i b >>= λ y. ok (g x y)) i xs (zip_with g xs ys))
        (length-append pre (y ∷ []))
        (read-Rounds g b (pre ++ y ∷ []) xs ys
          (subst (λ l. Has l b) (sym (append_assoc pre (y ∷ []) ys)) h) (omega arith)),
  )

  -- Copying along a vector of the same length.
  pub copy-Rounds :
      (b : Vec A) (pre xs ys : List A.F)
      → Has (pre ++ ys) b
      → length xs ≡ length ys
      → Rounds (λ i _. const_at A i b) (length pre) xs ys
  copy-Rounds b pre [] [] h e = tt
  copy-Rounds b pre [] (y ∷ ys) h e = absurd (omega arith)
  copy-Rounds b pre (x ∷ xs) [] h e = absurd (omega arith)
  copy-Rounds b pre (x ∷ xs) (y ∷ ys) h e = (
    const_at-Has pre ys y b h,
    subst (λ i. Rounds (λ i _. const_at A i b) i xs ys) (length-append pre (y ∷ []))
        (copy-Rounds b (pre ++ y ∷ []) xs ys
          (subst (λ l. Has l b) (sym (append_assoc pre (y ∷ []) ys)) h) (omega arith)),
  )

  pub same-Rounds :
      (g : A.F → A.F) (i : ℕ) (xs : List A.F) → Rounds (λ i x. ok (g x)) i xs (map g xs)
  same-Rounds g i [] = tt
  same-Rounds g i (x ∷ xs) = (refl, same-Rounds g (i + 1) xs)

  pub constant-Rounds :
      (c : A.F) (i : ℕ) (xs : List A.F) → Rounds (λ i x. ok c) i xs (replicate (length xs) c)
  constant-Rounds c i [] = tt
  constant-Rounds c i (x ∷ xs) = (refl, constant-Rounds c (i + 1) xs)
