-- ===== src/Channel/Closing.antt =====
-- What a pool does once its channel is closed.
use swift_snails.Base.{
  ℕ, zero, suc, ◌+◌, ◌-◌, ◌≤◌, ◌≡◌, refl, ap, ◌∙◌, arith, List, [], ◌∷◌, ◌++◌, none, some, true,
  length, length-append,
}
use swift_snails.Channel.{
  Channel, Pool, push_channel, close, pop_channel, Step, pushes, closes, pops, begins, returns,
  leaves, Steps, done, next,
}

module _ {A : Type 0} where
  pop_closed : (c : Channel A) → c.closed ≡ true → pop_channel c ≡ some (none, c)
  unfolding pop_channel
  pop_closed c e = rw e refl

  -- Each thread that holds or runs a task is one of the pool.
  abbrev Staffed : Pool A → Type 0
  Staffed p = length p.held + p.running ≤ p.alive_workers_num

  -- The tasks that are begun or held.
  abbrev pub in_hand : Pool A → ℕ
  in_hand p = length p.begun + length p.held

  Step-Staffed : (p q : Pool A) → Step p q → Staffed p → Staffed q
  Step-Staffed _ _ (pushes v p) h = h
  Step-Staffed _ _ (closes p) h = h
  Step-Staffed _ _ (pops p v c run free) h = omega (arith, length-append p.held (v ∷ []), free, h)
  Step-Staffed _ _ (begins p l r v e) h =
      omega (arith, h, ap length e, length-append l (v ∷ r), length-append l r)
  Step-Staffed _ _ (returns p some_task) h = omega (arith, h, some_task)
  Step-Staffed _ _ (leaves p c run free) h = omega (arith, h, free)

  Step-closed :
      (p q : Pool A)
      → Step p q
      → p.channel.closed ≡ true
      → (q.channel.closed ≡ true) × (q.taken ≡ p.taken) × (in_hand q ≡ in_hand p)
  unfolding push_channel close pop_channel
  Step-closed _ _ (pushes v p) e = (e, refl, refl)
  Step-closed _ _ (closes p) e = (refl, refl, refl)
  Step-closed _ _ (pops p v c run free) e = absurd (ground (arith, e, run))
  Step-closed _ _ (begins p l r v here) e = (
    e,
    refl,
    omega (
      arith,
      ap length here,
      length-append l (v ∷ r),
      length-append l r,
      length-append p.begun (v ∷ []),
    ),
  )
  Step-closed _ _ (returns p some_task) e = (e, refl, refl)
  Step-closed _ _ (leaves p c run free) e = (ground (arith, e, run), refl, refl)

  Steps-closed :
      (p q : Pool A)
      → Steps p q
      → p.channel.closed ≡ true
      → (q.channel.closed ≡ true) × (q.taken ≡ p.taken) × (in_hand q ≡ in_hand p)
  Steps-closed p q (done _) e = (e, refl, refl)
  Steps-closed p q (next _ r _ steps step) e =
      let (e', same, hand) = Steps-closed p r steps e in
      let (e'', same', hand') = Step-closed r q step e' in (e'', same' ∙ same, hand' ∙ hand)

  Steps-Staffed : (p q : Pool A) → Steps p q → Staffed p → Staffed q
  Steps-Staffed p q (done _) h = h
  Steps-Staffed p q (next _ r _ steps step) h = Step-Staffed r q step (Steps-Staffed p r steps h)

  all_leave :
      (n : ℕ) (p q : Pool A)
      → Steps p q
      → q.channel.closed ≡ true
      → q.held ≡ []
      → q.running ≡ 0
      → q.alive_workers_num ≡ n
      → (r : Pool A) × Steps p r × (r.alive_workers_num ≡ 0) × (r.held ≡ [])
  all_leave zero p q steps e h i alive = (q, steps, alive, h)
  all_leave (suc n) p q steps e h i alive =
      let r = record q { channel = q.channel; alive_workers_num = q.alive_workers_num - 1 } in
      all_leave n p r
        (next p q r steps
          (leaves q q.channel (pop_closed q.channel e) (omega (arith, alive, i, ap length h))))
        e h i (omega arith)

  all_return :
      (n : ℕ) (p q : Pool A)
      → Steps p q
      → q.channel.closed ≡ true
      → q.held ≡ []
      → q.running ≡ n
      → (r : Pool A) × Steps p r × (r.alive_workers_num ≡ 0) × (r.held ≡ [])
  all_return zero p q steps e h i = all_leave q.alive_workers_num p q steps e h i refl
  all_return (suc n) p q steps e h i =
      let r = record q { running = q.running - 1 } in
      all_return n p r (next p q r steps (returns q (omega (arith, i)))) e h (omega (arith, i))

  all_begin :
      (l : List A) (p q : Pool A)
      → Steps p q
      → q.channel.closed ≡ true
      → q.held ≡ l
      → (r : Pool A) × Steps p r × (r.alive_workers_num ≡ 0) × (r.held ≡ [])
  all_begin [] p q steps e h = all_return q.running p q steps e h refl
  all_begin (v ∷ l) p q steps e h =
      let r = record q { held = [] ++ l; running = q.running + 1; begun = q.begun ++ v ∷ [] } in
      all_begin l p r (next p q r steps (begins q [] l v h)) e refl

  -- When the channel of a pool is closed, no task is popped any more, whatever the threads do and
  -- whatever is still pushed, so the tasks that wait are not run; those that are begun and those that
  -- threads have popped and not begun are together always as many as at the close. From any state that
  -- is reached the threads can begin the tasks that they hold and leave, until there is no thread, and
  -- then as many tasks were begun since the close as were held at it.
  pub closed-stops :
      (p q : Pool A)
      → p.channel.closed ≡ true
      → Steps p q
      → (q.taken ≡ p.taken)
        × (in_hand q ≡ in_hand p)
        × ((r : Pool A) × Steps q r
            × (r.alive_workers_num ≡ 0)
            × (r.held ≡ [])
            × (r.taken ≡ p.taken)
            × (length r.begun ≡ length p.begun + length p.held))
  closed-stops p q e steps =
      let (e', same, hand) = Steps-closed p q steps e in
      let (r, leaving, empty, none_held) = all_begin q.held q q (done q) e' refl in
      let (_, same', hand') = Steps-closed q r leaving e' in
      (
        same,
        hand,
        (
          r,
          leaving,
          empty,
          none_held,
          same' ∙ same,
          omega (arith, hand, hand', ap length none_held),
        ),
      )
