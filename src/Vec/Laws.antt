-- ===== src/Vec/Laws.antt =====
-- What the arithmetic on vectors computes.
use swift_snails.Base.{
  ℕ, ◌<◌, ◌≡◌, ◌≢◌, refl, ap, sym, ◌∙◌, List, [], ◌∷◌, ◌++◌, map, some, Result, ok, abort,
  check_failed, ◌>>=◌, ◌==◌, Returns, arith, length, replicate, length-replicate, true, false, ltb,
  Bool-cases, inl, inr, ◌⊎◌, subst, append_assoc, length-append,
}
use swift_snails.Vec.{
  Floats, Vec, empty_vec, const_at, reset, init, copy, each, each_with, fill, update, times_scalar,
  scalar_over, scalar_times, times, minus, dot, sum_products,
}
use swift_snails.Vec.Loops.{
  Has, Rounds, zip_with, update-Has, fill-Has, read-Rounds, copy-Rounds, same-Rounds,
  constant-Rounds, load-Has, const_at-Has,
}

module _ (A : Floats) where
  fresh :
      (n : ℕ)
      → 0 < n
      → Has A (replicate n A.garbage) (record { block = some (replicate n A.garbage); size = n })
  fresh n pos = record {
    owned = refl;
    sized = sym (length-replicate n A.garbage);
    some_element = omega (arith, length-replicate n A.garbage);
  }

  pub filled-Has :
      (f : ℕ → Result A.F) (xs ys : List A.F) (v : Vec A)
      → Has A xs v
      → Rounds A (λ i _. f i) 0 xs ys
      → Returns (fill A v.size 0 f v) (Has A ys)
  filled-Has f xs ys v h rounds =
      subst (λ n. Returns (fill A n 0 f v) (Has A ys)) (sym h.sized)
        (fill-Has A f [] xs ys v rounds h)

  updated-Has :
      (f : ℕ → A.F → Result A.F) (xs ys : List A.F) (v : Vec A)
      → Has A xs v
      → Rounds A f 0 xs ys
      → Returns (update A v.size 0 f v) (Has A ys)
  updated-Has f xs ys v h rounds =
      subst (λ n. Returns (update A n 0 f v) (Has A ys)) (sym h.sized)
        (update-Has A f [] xs ys v rounds h)

  zeroed :
      (n : ℕ) (v : Vec A) (xs : List A.F)
      → length xs ≡ n
      → Has A xs v
      → Returns (fill A v.size 0 (λ i. ok A.literal_zero) v) (Has A (replicate n A.literal_zero))
  zeroed n v xs e h =
      filled-Has (λ i. ok A.literal_zero) xs (replicate n A.literal_zero) v h
        (subst (λ m. Rounds A (λ i x. ok A.literal_zero) 0 xs (replicate m A.literal_zero)) e
          (constant-Rounds A A.literal_zero 0 xs))

  -- init(n, false) of an empty vector, n > 0: n zeros.
  pub init-Has :
      (n : ℕ) → 0 < n → Returns (init A n false (empty_vec A)) (Has A (replicate n A.literal_zero))
  unfolding init reset
  init-Has n pos =
      let (v, run, held) =
        zeroed n (record { block = some (replicate n A.garbage); size = n }) (replicate n A.garbage)
          (length-replicate n A.garbage) (fresh n pos) in
      let some_size : ltb 0 n ≡ true = ground arith in
      let new_size : (n == 0) ≡ false = ground arith in
      (v, rw (some_size, ◌>>=◌, new_size, run) refl, held)

  -- A copy has the same elements.
  pub copy-Has : (xs : List A.F) (v : Vec A) → Has A xs v → Returns (copy A v) (Has A xs)
  unfolding copy
  copy-Has xs v h =
      let (w, run, held) = init-Has v.size (omega (arith, h.sized, h.some_element)) in
      let same : length (replicate v.size A.literal_zero) ≡ length xs =
        length-replicate v.size A.literal_zero ∙ h.sized in
      let (u, runs, held') =
        filled-Has (λ i. const_at A i v) (replicate v.size A.literal_zero) xs w held
          (copy-Rounds A v [] (replicate v.size A.literal_zero) xs h same) in
      let some_size : (0 == v.size) ≡ false = ground (arith, h.sized, h.some_element) in
      (u, rw (some_size, run, ◌>>=◌) runs, held')

  pub each-Has :
      (g : A.F → A.F) (xs : List A.F) (v : Vec A)
      → Has A xs v
      → Returns (each A g v) (Has A (map g xs))
  unfolding each
  each-Has g xs v h = updated-Has (λ i x. ok (g x)) xs (map g xs) v h (same-Rounds A g 0 xs)

  pub each_with-Has :
      (g : A.F → A.F → A.F) (xs ys : List A.F) (v b : Vec A)
      → Has A xs v
      → Has A ys b
      → length xs ≡ length ys
      → Returns (each_with A g v b) (Has A (zip_with g xs ys))
  unfolding each_with
  each_with-Has g xs ys v b h hb e =
      updated-Has _ xs (zip_with g xs ys) v h (read-Rounds A g b [] xs ys hb e)

  -- The product of two vectors is elementwise when they have as many elements, and fails a CHECK
  -- when they have not.
  pub times-Has :
      (xs ys : List A.F) (a b : Vec A)
      → Has A xs a
      → Has A ys b
      → ((length xs ≡ length ys) × Returns (times A a b) (Has A (zip_with A.mul xs ys)))
        ⊎ ((length xs ≢ length ys) × (times A a b ≡ abort check_failed))
  unfolding times
  times-Has xs ys a b ha hb = elim (Bool-cases (a.size == b.size)) [
    | inl e ↦
        let same : length xs ≡ length ys = ground (arith, e, ha.sized, hb.sized) in
        let (c, run, hc) = copy-Has xs a ha in
        let (d, runs, hd) = each_with-Has A.mul xs ys c b hc hb same in
        inl (same, (d, rw (e, ◌>>=◌, run) runs, hd))
    | inr e ↦ inr (ground (arith, e, ha.sized, hb.sized), rw (e, ◌>>=◌) refl)
  ]

  -- The difference of two vectors with as many elements is elementwise.
  pub minus-Has :
      (xs ys : List A.F) (a b : Vec A)
      → Has A xs a
      → Has A ys b
      → length xs ≡ length ys
      → Returns (minus A a b) (Has A (zip_with A.sub xs ys))
  unfolding minus
  minus-Has xs ys a b ha hb same =
      let (c, run, hc) = copy-Has xs a ha in
      let (d, runs, hd) = each_with-Has A.sub xs ys c b hc hb same in (d, rw (run, ◌>>=◌) runs, hd)

  pub times_scalar-Has :
      (b : A.F) (xs : List A.F) (v : Vec A)
      → Has A xs v
      → Returns (times_scalar A v b) (Has A (map (λ x. A.mul x b) xs))
  unfolding times_scalar
  times_scalar-Has b xs v h =
      let (c, run, hc) = copy-Has xs v h in
      let (d, runs, hd) = each-Has (λ x. A.mul x b) xs c hc in (d, rw (run, ◌>>=◌) runs, hd)

  -- b / vec, for a number b, has the elements x * (1 / b): it is vec / b, and not the quotients of b.
  pub scalar_over-Has :
      (b : A.F) (xs : List A.F) (v : Vec A)
      → Has A xs v
      → Returns (scalar_over A b v) (Has A (map (λ x. A.mul x (A.div A.literal_one b)) xs))
  unfolding scalar_over scalar_times
  scalar_over-Has b xs v h = times_scalar-Has (A.div A.literal_one b) xs v h

  -- The sum of the products, from the left.
  abbrev pub inner : A.F → List A.F → List A.F → A.F
  inner res [] ys = res
  inner res (x ∷ xs) [] = res
  inner res (x ∷ xs) (y ∷ ys) = inner (A.add res (A.mul x y)) xs ys

  sum_products-inner :
      (pre pre' xs ys : List A.F) (res : A.F) (v b : Vec A)
      → Has A (pre ++ xs) v
      → Has A (pre' ++ ys) b
      → length pre ≡ length pre'
      → length xs ≡ length ys
      → sum_products A (length xs) (length pre) res v b ≡ ok (inner res xs ys)
  unfolding sum_products
  sum_products-inner pre pre' [] ys res v b hv hb e e' = refl
  sum_products-inner pre pre' (x ∷ xs) [] res v b hv hb e e' = absurd (omega arith)
  sum_products-inner pre pre' (x ∷ xs) (y ∷ ys) res v b hv hb e e' =
      let there : const_at A (length pre) b ≡ ok y =
        ap (λ i. const_at A i b) e ∙ const_at-Has A pre' ys y b hb in
      let rest =
        sum_products-inner (pre ++ x ∷ []) (pre' ++ y ∷ []) xs ys (A.add res (A.mul x y)) v b
          (subst (λ l. Has A l v) (sym (append_assoc pre (x ∷ []) xs)) hv)
          (subst (λ l. Has A l b) (sym (append_assoc pre' (y ∷ []) ys)) hb)
          (omega (arith, length-append pre (x ∷ []), length-append pre' (y ∷ []))) (omega arith) in
      rw (load-Has A pre xs x v hv, ◌>>=◌, there)
        (ap (λ i. sum_products A (length xs) i (A.add res (A.mul x y)) v b)
            (sym (length-append pre (x ∷ [])))
          ∙ rest)

  -- The inner product of two vectors is the sum of the products when they have as many elements, and
  -- fails a CHECK when they have not.
  pub dot-inner :
      (xs ys : List A.F) (v b : Vec A)
      → Has A xs v
      → Has A ys b
      → ((length xs ≡ length ys) × (dot A v b ≡ ok (inner A.literal_zero xs ys)))
        ⊎ ((length xs ≢ length ys) × (dot A v b ≡ abort check_failed))
  unfolding dot
  dot-inner xs ys v b hv hb = elim (Bool-cases (v.size == b.size)) [
    | inl e ↦
        let same : length xs ≡ length ys = ground (arith, e, hv.sized, hb.sized) in
        inl (
          same,
          rw (e, ◌>>=◌)
              (ap (λ n. sum_products A n 0 A.literal_zero v b) hv.sized
                ∙ sum_products-inner [] [] xs ys A.literal_zero v b hv hb refl same),
        )
    | inr e ↦ inr (ground (arith, e, hv.sized, hb.sized), rw (e, ◌>>=◌) refl)
  ]
