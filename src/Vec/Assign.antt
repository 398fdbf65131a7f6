-- ===== src/Vec/Assign.antt =====
-- The assignment of one vector to another, operator= of src/utils/vec1.h.
use swift_snails.Base.{
  ◌+◌, ◌<◌, ◌≡◌, refl, ap, sym, ◌∙◌, List, [], ◌∷◌, ◌++◌, none, some, ok, abort, out_of_bounds,
  null_pointer, ◌>>=◌, Returns, arith, length, length-append, append_assoc, subst,
}
use swift_snails.Vec.{Floats, Vec, reset, assign, fill, const_at, store}
use swift_snails.Vec.Loops.{Has, copy-Rounds, const_at-Has, set-middle}
use swift_snails.Vec.Laws.{filled-Has}

module _ (A : Floats) (xs ys : List A.F) (v other : Vec A) (ho : Has A ys other) where
  -- The reset() of an assignment changes nothing, since the size has been overwritten.
  kept : reset A other.size (record v { size = other.size }) ≡ ok (record v { size = other.size })
  unfolding reset
  kept = ground (arith, ho.sized, ho.some_element)

  -- Between vectors with as many elements an assignment makes them equal.
  pub assign-Has : Has A xs v → length xs ≡ length ys → Returns (assign A v other) (Has A ys)
  unfolding assign
  assign-Has h same =
      let (w, run, held) =
        filled-Has A (λ i. const_at A i other) xs ys (record v { size = other.size })
          (record { owned = h.owned; sized = ho.sized ∙ sym same; some_element = h.some_element })
          (copy-Rounds A other [] xs ys ho same) in
      (w, rw (kept, ◌>>=◌) run, held)

module _ (A : Floats) where
  store_block :
      (pre rest : List A.F) (x y : A.F) (v : Vec A)
      → v.block ≡ some (pre ++ x ∷ rest)
      → store A (length pre) y v ≡ ok (record v { block = some ((pre ++ y ∷ []) ++ rest) })
  unfolding store
  store_block pre rest x y v e =
      ground (arith, e, length-append pre (x ∷ rest), set-middle pre x y rest)

  store_past :
      (pre : List A.F) (y : A.F) (v : Vec A)
      → v.block ≡ some (pre ++ [])
      → store A (length pre) y v ≡ abort out_of_bounds
  unfolding store
  store_past pre y v e = ground (arith, e, length-append pre [])

  overrun :
      (pre xs pre' ys : List A.F) (v other : Vec A)
      → v.block ≡ some (pre ++ xs)
      → Has A (pre' ++ ys) other
      → length pre ≡ length pre'
      → length xs < length ys
      → fill A (length ys) (length pre) (λ i. const_at A i other) v ≡ abort out_of_bounds
  unfolding fill
  overrun pre xs pre' [] v other b ho e less = absurd (omega arith)
  overrun pre [] pre' (y ∷ ys) v other b ho e less =
      rw
        (
          ap (λ i. const_at A i other) e ∙ const_at-Has A pre' ys y other ho,
          ◌>>=◌,
          store_past pre y v b,
        )
        refl
  overrun pre (x ∷ xs) pre' (y ∷ ys) v other b ho e less =
      let next : length (pre ++ y ∷ []) ≡ length pre + 1 = length-append pre (y ∷ []) in
      let rest =
        overrun (pre ++ y ∷ []) xs (pre' ++ y ∷ []) ys
          (record v { block = some ((pre ++ y ∷ []) ++ xs) }) other refl
          (subst (λ l. Has A l other) (sym (append_assoc pre' (y ∷ []) ys)) ho)
          (omega (arith, next, length-append pre' (y ∷ []))) (omega arith) in
      rw
        (
          ap (λ i. const_at A i other) e ∙ const_at-Has A pre' ys y other ho,
          ◌>>=◌,
          store_block pre xs x y v b,
        )
        (ap
            (λ i.
              fill A (length ys) i (λ i. const_at A i other)
                (record v { block = some ((pre ++ y ∷ []) ++ xs) }))
            (sym next)
          ∙ rest)

  nowhere :
      (ys : List A.F) (v other : Vec A)
      → v.block ≡ none
      → Has A ys other
      → fill A (length ys) 0 (λ i. const_at A i other) v ≡ abort null_pointer
  unfolding fill store
  nowhere [] v other e ho = absurd (omega (arith, ho.some_element))
  nowhere (y ∷ ys) v other e ho = rw (const_at-Has A [] ys y other ho, ◌>>=◌, e) refl

  -- The assignment of a vector to one that has elements, but fewer, does not make room: it writes past
  -- the end of the block.
  pub assign_overruns :
      (xs ys : List A.F) (v other : Vec A)
      → Has A xs v
      → Has A ys other
      → length xs < length ys
      → assign A v other ≡ abort out_of_bounds
  unfolding assign
  assign_overruns xs ys v other h ho less =
      rw (kept A xs ys v other ho, ◌>>=◌)
        (ap (λ n. fill A n 0 (λ i. const_at A i other) (record v { size = other.size })) ho.sized
          ∙ overrun [] xs [] ys (record v { size = other.size }) other h.owned ho refl less)

  -- The assignment of a vector with elements to one that has none goes through a null pointer.
  pub assign_to_empty :
      (ys : List A.F) (v other : Vec A)
      → v.block ≡ none
      → Has A ys other
      → assign A v other ≡ abort null_pointer
  unfolding assign
  assign_to_empty ys v other e ho =
      rw (kept A ys ys v other ho, ◌>>=◌)
        (ap (λ n. fill A n 0 (λ i. const_at A i other) (record v { size = other.size })) ho.sized
          ∙ nowhere ys (record v { size = other.size }) other e ho)
