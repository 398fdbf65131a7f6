-- ===== src/Channel/Order.antt =====
-- In which order tasks are popped, and that each is begun once.
use swift_snails.Base.{
  ℕ, ◌+◌, ◌≡◌, refl, ap, sym, ◌∙◌, List, [], ◌∷◌, ◌++◌, append_assoc, none, some, arith,
}
use swift_snails.Channel.{
  Channel, push_channel, close, pop_channel, Pool, open_pool, Step, Steps, pushes, closes, pops,
  begins, returns, leaves, done, next,
}

module _ {A : Type 0} where
  -- The sum of the weights of some tasks: two lists have the same tasks, each as often, when it is the
  -- same for all weights.
  abbrev pub weights : (A → ℕ) → List A → ℕ
  weights f [] = 0
  weights f (v ∷ l) = f v + weights f l

  weights-append : (f : A → ℕ) (l r : List A) → weights f (l ++ r) ≡ weights f l + weights f r
  weights-append f [] r = omega arith
  weights-append f (v ∷ l) r = omega (arith, weights-append f l r)

  popped :
      (c c' : Channel A) (v : A)
      → pop_channel c ≡ some (some v, c')
      → c.data_queue ≡ v ∷ c'.data_queue
  unfolding pop_channel
  popped c c' v e = ground (arith, e)

  stopped : (c c' : Channel A) → pop_channel c ≡ some (none, c') → c.data_queue ≡ c'.data_queue
  unfolding pop_channel
  stopped c c' e = ground (arith, e)

  abbrev InOrder : Pool A → Type 0
  InOrder p =
      (p.pushed ≡ p.taken ++ p.channel.data_queue)
      × ((f : A → ℕ) → weights f p.taken ≡ weights f p.begun + weights f p.held)

  Step-InOrder : (p q : Pool A) → Step p q → InOrder p → InOrder q
  unfolding push_channel close
  Step-InOrder _ _ (pushes v p) (h, w) =
      (ap (λ l. l ++ v ∷ []) h ∙ append_assoc p.taken p.channel.data_queue (v ∷ []), w)
  Step-InOrder _ _ (closes p) h = h
  Step-InOrder _ _ (pops p v c e free) (h, w) = (
    h
        ∙ ap (λ l. p.taken ++ l) (popped p.channel c v e)
        ∙ sym (append_assoc p.taken (v ∷ []) c.data_queue),
    λ f. omega (arith, w f, weights-append f p.taken (v ∷ []), weights-append f p.held (v ∷ [])),
  )
  Step-InOrder _ _ (begins p l r v e) (h, w) = (
    h,
    λ f. omega (
      arith,
      w f,
      ap (weights f) e,
      weights-append f l (v ∷ r),
      weights-append f l r,
      weights-append f p.begun (v ∷ []),
    ),
  )
  Step-InOrder _ _ (returns p some_task) h = h
  Step-InOrder _ _ (leaves p c e free) (h, w) =
      (h ∙ ap (λ l. p.taken ++ l) (stopped p.channel c e), w)

  -- Whatever the threads of a pool do, its tasks are popped in the order in which they were pushed:
  -- those that were popped, and then those that wait in the channel, are the ones pushed. And those
  -- that were popped are, each as often, those that were begun and those that a thread holds, so that
  -- none is lost or begun twice; the order in which they are begun may be another.
  pub Steps-InOrder :
      (n : ℕ) (p : Pool A)
      → Steps (open_pool n) p
      → (p.pushed ≡ p.taken ++ p.channel.data_queue)
        × ((f : A → ℕ) → weights f p.taken ≡ weights f p.begun + weights f p.held)
  Steps-InOrder n p (done _) = (refl, λ f. omega arith)
  Steps-InOrder n p (next _ q _ steps step) = Step-InOrder q p step (Steps-InOrder n q steps)
