-- ===== src/Channel/Capacity.antt =====
-- The bound of a queue with a capacity.
use swift_snails.Base.{
  ℕ, suc, ◌⊎◌, ◌+◌, ◌^◌, ◌<◌, ◌≤◌, ◌≡◌, refl, ap, sym, subst, ◌∙◌, arith, List, [], ◌∷◌, Option,
  none, some, true, length, length-append, inl, inr,
}
use swift_snails.Channel.{Bounded, may_push, push_bounded, pop_bounded, end_input, set_capacity}

-- A queue, and the value of the thread that has seen in push() that there is room and has not pushed it
-- yet; it has the mutex, so there is at most one.
pub record Shared (A : Type 0) : Type 0 where
  pub bounded : Bounded A
  pub entering : Option A

module _ {A : Type 0} where
  -- What several threads do with one queue: the two parts of push(), wait_and_pop(), a round of the loop
  -- of end_input(), which does not take the mutex, and set_capacity() with at most n. The number is that
  -- of the values that end_input() has pushed.
  pub data Uses (n : ℕ) (b : Bounded A) : ℕ → Shared A → Type 0 where
    unused : Uses n b 0 (record { bounded = b; entering = none })
    admits :
        (v : A) (e : ℕ) (s : Shared A)
        → Uses n b e s
        → s.entering ≡ none
        → may_push s.bounded ≡ true
        → Uses n b e (record s { entering = some v })
    enters :
        (v : A) (e : ℕ) (s : Shared A)
        → Uses n b e s
        → s.entering ≡ some v
        → Uses n b e (record { bounded = push_bounded v s.bounded; entering = none })
    pops :
        (v : A) (e : ℕ) (s : Shared A) (d : Bounded A)
        → Uses n b e s
        → pop_bounded s.bounded ≡ some (v, d)
        → Uses n b e (record s { bounded = d })
    ends :
        (v : A) (e : ℕ) (s : Shared A)
        → Uses n b e s
        → Uses n b (e + 1) (record s { bounded = end_input 1 v s.bounded })
    sets :
        (k e : ℕ) (s : Shared A)
        → Uses n b e s
        → k ≤ n
        → Uses n b e (record s { bounded = set_capacity k s.bounded })

  -- The values in the queue and the one that enters.
  abbrev pub held : Shared A → ℕ
  held s = length s.bounded.queue + (elim s.entering [ none ↦ 0 | some v ↦ 1 ])

  abbrev Room : ℕ → Shared A → Type 0
  Room m s = held s ≤ m

  List-cases : (q : List A) → (q ≡ []) ⊎ ((v : A) × (q' : List A) × (q ≡ v ∷ q'))
  List-cases [] = inl refl
  List-cases (v ∷ q) = inr (v, q, refl)

  pop_bounded-cases :
      (b : Bounded A)
      → (pop_bounded b ≡ none)
        ⊎ ((v : A) × (q : List A) × (b.queue ≡ v ∷ q)
            × (pop_bounded b ≡ some (v, record b { queue = q })))
  unfolding pop_bounded
  pop_bounded-cases b = elim (List-cases b.queue) [
    | inl e ↦ inl (rw (pop_bounded, e) refl)
    | inr (v, q, e) ↦ inr (v, q, e, rw (pop_bounded, e) refl)
  ]

  got_pair :
      {x d : Bounded A} {v w : A}
      → ◌≡◌ {A = Option (A × Bounded A)} (some (v, x)) (some (w, d))
      → x ≡ d
  got_pair e = cc

  pop_bounded-shorter :
      (v : A) (b d : Bounded A)
      → pop_bounded b ≡ some (v, d)
      → (length d.queue + 1 ≡ length b.queue) × (d.capacity ≡ b.capacity)
  pop_bounded-shorter v b d run = elim (pop_bounded-cases b) [
    | inl stuck ↦ absurd cc
    | inr (w, q, e, taken) ↦
        let next : Bounded A = record b { queue = q } in
        let shorter : length b.queue ≡ suc (length q) = ap length e in
        subst (λ x. (length x.queue + 1 ≡ length b.queue) × (x.capacity ≡ b.capacity))
          (got_pair (sym taken ∙ run)) (omega arith, refl)
  ]

  entering-held :
      (s : Shared A) (o : Option A)
      → s.entering ≡ o
      → held s ≡ length s.bounded.queue + (elim o [ none ↦ 0 | some v ↦ 1 ])
  entering-held s o e = ap (λ o. length s.bounded.queue + (elim o [ none ↦ 0 | some v ↦ 1 ])) e

  Uses-Room :
      (n : ℕ) (b : Bounded A) (e : ℕ) (s : Shared A)
      → b.queue ≡ []
      → b.capacity ≤ n
      → n + 1 + e < 2 ^ 32
      → Uses n b e s
      → (held s ≤ n + 1 + e) × (s.bounded.capacity ≤ n)
  unfolding may_push push_bounded end_input set_capacity
  Uses-Room n b _ _ empty fits small unused = (omega (arith, ap length empty), fits)
  Uses-Room n b e _ empty fits small (admits v _ s uses no_one room) =
      let (h, c) = Uses-Room n b e s empty fits small uses in
      let alone = entering-held s none no_one in (ground (arith, h, c, alone, room, small), c)
  Uses-Room n b e _ empty fits small (enters v _ s uses one) =
      let (h, c) = Uses-Room n b e s empty fits small uses in
      let more = entering-held s (some v) one in
      (omega (arith, h, more, length-append s.bounded.queue (v ∷ [])), c)
  Uses-Room n b e _ empty fits small (pops v _ s d uses run) =
      let (h, c) = Uses-Room n b e s empty fits small uses in
      let (less, same) = pop_bounded-shorter v s.bounded d run in
      (omega (arith, h, less), omega (arith, c, same))
  Uses-Room n b _ _ empty fits small (ends v e s uses) =
      let (h, c) = Uses-Room n b e s empty fits (omega (arith, small)) uses in
      (omega (arith, h, length-append s.bounded.queue (v ∷ [])), c)
  Uses-Room n b e _ empty fits small (sets k _ s uses le) =
      let (h, c) = Uses-Room n b e s empty fits small uses in (h, le)

  -- However the threads use a queue that was empty, whose capacity is never above n, and in which
  -- end_input() has pushed e values, with n + 1 + e < 2^32: it never has more than n + 1 + e values,
  -- the one counted that a thread in push() has seen room for. Without end_input(), these are n + 1.
  pub Uses-bounded :
      (n k e : ℕ) (s : Shared A)
      → n + 1 + e < 2 ^ 32
      → k ≤ n
      → Uses n (record { queue = []; capacity = k }) e s
      → (held s ≤ n + 1 + e) × (s.bounded.capacity ≤ n)
  Uses-bounded n k e s small le uses =
      Uses-Room n (record { queue = []; capacity = k }) e s refl le small uses
