-- ===== src/ThreadPool/Stopping.antt =====
-- What a thread pool does once it is closed.
use swift_snails.Base.{
  ℕ, zero, suc, ◌+◌, ◌<◌, ◌≤◌, ◌≡◌, refl, ◌∙◌, sym, ap, arith, List, [], ◌∷◌, ◌++◌, some, true,
  get_elem?, set, inl, inr, ◌⊎◌, length, append-nil, append_assoc, length-append,
}
use native.Mathlib.Decide.{dec_lt}
use swift_snails.Channel.{push_channel, pop_channel, close}
use swift_snails.ThreadPool.{
  Worker, popping, popped, calling, exited, ThreadPool, set_closed, close_channel, test_closed,
  call_func, PoolStep, pushes, sets_closed, closes_channel, pops, tests, calls_func, leaves,
  PoolSteps, done, next,
}

-- The steps that a thread of a closed pool has left.
abbrev pub steps_left : {T : Type 0} → Worker T → ℕ
steps_left popping = 1
steps_left (popped v) = 1
steps_left (calling v) = 2
steps_left exited = 0

abbrev pub all_steps_left : {T : Type 0} → List (Worker T) → ℕ
all_steps_left [] = 0
all_steps_left (w ∷ ws) = steps_left w + all_steps_left ws

-- The threads that have found the pool open, and have not called the function yet.
abbrev calls_left : {T : Type 0} → Worker T → ℕ
calls_left popping = 0
calls_left (popped v) = 0
calls_left (calling v) = 1
calls_left exited = 0

abbrev pub about_to_call : {T : Type 0} → List (Worker T) → ℕ
about_to_call [] = 0
about_to_call (w ∷ ws) = calls_left w + about_to_call ws

module _ {T : Type 0} where
  all_steps_left-set :
      (ws : List (Worker T)) (i : ℕ) (w w' : Worker T)
      → get_elem? ws i ≡ some w
      → all_steps_left (set ws i w') + steps_left w ≡ all_steps_left ws + steps_left w'
  all_steps_left-set [] i w w' e = cc
  all_steps_left-set (x ∷ ws) zero w w' e = ground arith
  all_steps_left-set (x ∷ ws) (suc i) w w' e = omega (arith, all_steps_left-set ws i w w' e)

  about_to_call-set :
      (ws : List (Worker T)) (i : ℕ) (w w' : Worker T)
      → get_elem? ws i ≡ some w
      → about_to_call (set ws i w') + calls_left w ≡ about_to_call ws + calls_left w'
  about_to_call-set [] i w w' e = cc
  about_to_call-set (x ∷ ws) zero w w' e = ground arith
  about_to_call-set (x ∷ ws) (suc i) w w' e = omega (arith, about_to_call-set ws i w w' e)

  -- A thread that has not exited.
  abbrev Unfinished : List (Worker T) → ℕ → Type 0
  Unfinished ws i =
      (get_elem? ws i ≡ some popping)
      ⊎ ((v : T) × (get_elem? ws i ≡ some (popped v)))
      ⊎ ((v : T) × (get_elem? ws i ≡ some (calling v)))

  thread_at : (ws : List (Worker T)) → 0 < all_steps_left ws → (i : ℕ) × Unfinished ws i
  thread_at [] h = absurd (omega arith)
  thread_at (popping ∷ ws) h = (0, inl refl)
  thread_at (popped v ∷ ws) h = (0, inr (inl (v, refl)))
  thread_at (calling v ∷ ws) h = (0, inr (inr (v, refl)))
  thread_at (exited ∷ ws) h = let (i, there) = thread_at ws (omega arith) in (suc i, there)

  -- Both flags of close() are set.
  pub record IsClosed (p : ThreadPool T) : Type 0 where
    pub pool : p.closed ≡ true
    pub channel : p.channel.closed ≡ true

  -- What comes after p in a closed pool: `more` was called since.
  abbrev pub Since : ThreadPool T → ThreadPool T → Type 0
  Since p q =
      (more : List T) × (q.calls ≡ p.calls ++ more)
      × (length more + about_to_call q.threads ≡ about_to_call p.threads)
      × (all_steps_left q.threads ≤ all_steps_left p.threads)

  Step-IsClosed : (p q : ThreadPool T) → PoolStep p q → IsClosed p → IsClosed q × Since p q
  unfolding push_channel set_closed close_channel close test_closed call_func pop_channel
  Step-IsClosed _ _ (pushes p v) c = (
    record { pool = c.pool; channel = c.channel },
    ([], sym (append-nil _), omega arith, omega arith),
  )
  Step-IsClosed _ _ (sets_closed p) c = (
    record { pool = refl; channel = c.channel },
    ([], sym (append-nil _), omega arith, omega arith),
  )
  Step-IsClosed _ _ (closes_channel p e) c =
      (record { pool = e; channel = refl }, ([], sym (append-nil _), omega arith, omega arith))
  Step-IsClosed _ _ (pops p i v ch there pop) c = absurd (ground (arith, pop, c.channel))
  Step-IsClosed _ _ (tests p i v there) c = (
    record { pool = c.pool; channel = c.channel },
    (
      [],
      sym (append-nil _),
      ground (arith, c.pool, about_to_call-set p.threads i (popped v) exited there),
      ground (arith, c.pool, all_steps_left-set p.threads i (popped v) exited there),
    ),
  )
  Step-IsClosed _ _ (calls_func p i v there) c = (
    record { pool = c.pool; channel = c.channel },
    (
      v ∷ [],
      refl,
      omega (arith, about_to_call-set p.threads i (calling v) popping there),
      omega (arith, all_steps_left-set p.threads i (calling v) popping there),
    ),
  )
  Step-IsClosed _ _ (leaves p i ch there pop) c = (
    record { pool = c.pool; channel = ground (arith, pop, c.channel) },
    (
      [],
      sym (append-nil _),
      omega (arith, about_to_call-set p.threads i popping exited there),
      omega (arith, all_steps_left-set p.threads i popping exited there),
    ),
  )

  Steps-IsClosed : (p q : ThreadPool T) → PoolSteps p q → IsClosed p → IsClosed q × Since p q
  Steps-IsClosed p _ (done _) c = (c, ([], sym (append-nil _), omega arith, omega arith))
  Steps-IsClosed p q (next _ r _ steps step) c =
      let (c', (more, called, some_left, less)) = Steps-IsClosed p r steps c in
      let (c'', (more', called', some_left', less')) = Step-IsClosed r q step c' in
      (
        c'',
        (
          more ++ more',
          called' ∙ ap (λ l. l ++ more') called ∙ append_assoc p.calls more more',
          omega (arith, some_left, some_left', length-append more more'),
          omega (arith, less, less'),
        ),
      )

  exits :
      (q : ThreadPool T)
      → IsClosed q
      → 0 < all_steps_left q.threads
      → (r : ThreadPool T) × PoolStep q r × (all_steps_left r.threads < all_steps_left q.threads)
  unfolding test_closed call_func pop_channel
  exits q c some_thread =
      let (i, here) = thread_at q.threads some_thread in
      elim here [
        | inl there ↦ (
          record q { channel = q.channel; threads = set q.threads i exited },
          leaves q i q.channel there (ground (arith, c.channel)),
          omega (arith, all_steps_left-set q.threads i popping exited there),
        )
        | inr (inl (v, there)) ↦ (
          test_closed i v q,
          tests q i v there,
          ground (arith, c.pool, all_steps_left-set q.threads i (popped v) exited there),
        )
        | inr (inr (v, there)) ↦ (
          call_func i v q,
          calls_func q i v there,
          omega (arith, all_steps_left-set q.threads i (calling v) popping there),
        )
      ]

  -- After close(), whatever the threads do and whatever is still pushed, the function is called only by
  -- the threads that had found the pool open before, once each at most: the calls since and the threads
  -- that are still about to call are together as many as those were. The steps that the threads have
  -- left grow no more, and in each state that is reached there are none left, which is when all the
  -- threads have exited and can be joined, or some thread can make one.
  pub close-stops :
      (p q : ThreadPool T)
      → IsClosed p
      → PoolSteps p q
      → Since p q
        × ((all_steps_left q.threads ≡ 0)
            ⊎ ((r : ThreadPool T) × PoolStep q r
                × (all_steps_left r.threads < all_steps_left q.threads)))
  close-stops p q c steps =
      let (c', since) = Steps-IsClosed p q steps c in
      elim (dec_lt 0 (all_steps_left q.threads)) [
        | yes h ↦ (since, inr (exits q c' h))
        | no h ↦ (since, inl (omega (arith, h)))
      ]
