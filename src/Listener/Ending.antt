-- ===== src/Listener/Ending.antt =====
-- The end of a listener's threads.
use swift_snails.Base.{
  ℕ, suc, ◌+◌, ◌*◌, ◌<◌, ◌≤◌, ◌≡◌, refl, ap, arith, List, [], ◌∷◌, some, Result, ok, abort, Abort,
  true, false, get_elem?, inl, inr, ◌⊎◌, Bool-cases,
}
use native.Mathlib.Decide.{dec_lt}
use swift_snails.Message.{Package}
use swift_snails.Transfer.{Transfer, receive}
use swift_snails.Listener.{
  Frame, stop, packed, Thread, receiving, handling, left, Service, all_left, with_threads,
  service_start, service_end, join_threads, loop_rounds, Step, receives, handles, stops, Run, done,
  next, arrives, delivers, elsewhere,
}
use swift_snails.Listener.Serving.{
  alive, total, total-set, total-replicate, stops_in, stops_in-append, pending, pending-append,
  taken-stops, work, Balanced, Step-Balanced,
}

none_alive : (ts : List Thread) → total alive ts ≡ 0 → all_left ts ≡ true
unfolding total
none_alive [] e = refl
none_alive (receiving ∷ ts) e = absurd (omega (arith, e))
none_alive (handling pkg ∷ ts) e = absurd (omega (arith, e))
none_alive (left ∷ ts) e = none_alive ts (omega (arith, e))

alive_at :
    (ts : List Thread)
    → all_left ts ≡ false
    → (i : ℕ) × (t : Thread) × (get_elem? ts i ≡ some t) × (alive t ≡ 1)
alive_at [] e = cc
alive_at (receiving ∷ ts) e = (0, receiving, refl, refl)
alive_at (handling pkg ∷ ts) e = (0, handling pkg, refl, refl)
alive_at (left ∷ ts) e = let (i, t, there, lives) = alive_at ts e in (suc i, t, there, lives)

module _ {H B : Type 0} where
  -- A thread has received a package that it cannot handle: the process ends.
  abbrev pub Fails : Service H B → Type 0
  Fails s =
      (i : ℕ) × (p : Package) × (why : Abort) × (get_elem? s.listener.threads i ≡ some (handling p))
      × (receive p s.transfer ≡ abort why)

  -- What can happen next after the order to stop, if no package arrives.
  abbrev pub Goes : Service H B → Type 0
  Goes s =
      (join_threads s ≡ some (with_threads [] s))
      ⊎ (0 < s.on_the_way)
      ⊎ ((s' : Service H B) × Step s s')
      ⊎ Fails s

  thread_goes :
      (s : Service H B) (i : ℕ) (t : Thread)
      → get_elem? s.listener.threads i ≡ some t
      → alive t ≡ 1
      → 0 < stops_in s.inbox
      → ((s' : Service H B) × Step s s') ⊎ Fails s
  unfolding stops_in
  thread_goes s i left there lives waits = absurd (omega (arith, lives))
  thread_goes s i (handling p) there lives waits = handled (receive p s.transfer) refl
    where
      handled :
          (r : Result (Transfer H B))
          → receive p s.transfer ≡ r
          → ((s' : Service H B) × Step s s') ⊎ Fails s
      handled (ok t) run = inl (_, handles s i p t there run)
      handled (abort why) run = inr (i, p, why, there, run)
  thread_goes s i receiving there lives waits = taken s.inbox refl
    where
      taken : (fs : List Frame) → s.inbox ≡ fs → ((s' : Service H B) × Step s s') ⊎ Fails s
      taken [] e = absurd (omega (arith, ap stops_in e))
      taken (stop ∷ rest) e = inl (_, stops s i [] rest there e)
      taken (packed p ∷ rest) e = inl (_, receives s i p [] rest there e)

  Balanced-Goes : (s : Service H B) → Balanced s → Goes s
  unfolding join_threads
  Balanced-Goes s b = elim (Bool-cases (all_left s.listener.threads)) [
    | inl over ↦ inl (rw over refl)
    | inr not_over ↦ elim (dec_lt 0 s.on_the_way) [
      | yes coming ↦ inr (inl coming)
      | no arrived ↦
          let (i, t, there, lives) = alive_at s.listener.threads not_over in
          inr (
            inr (
              thread_goes s i t there lives (
                omega
                  (arith, b, lives, arrived, total-set alive s.listener.threads i t left there))))
    ]
  ]

  Run-Balanced :
      (k a : ℕ) (s s' : Service H B)
      → Run k a s s'
      → Balanced s
      → Balanced s' × (k + work s' ≡ work s + 2 * a)
  unfolding work stops_in pending
  Run-Balanced _ _ s _ (done _) b = (b, omega arith)
  Run-Balanced _ a s s' (next k _ _ q _ run step) b =
      let (b', less) = Run-Balanced k a s q run b in
      let (b'', less') = Step-Balanced q s' step b' in (b'', omega (arith, less, less'))
  Run-Balanced k _ s _ (arrives _ a _ q pkg run) b =
      let (b', less) = Run-Balanced k a s q run b in
      (
        omega (arith, b', stops_in-append q.inbox (packed pkg ∷ [])),
        omega (arith, less, pending-append q.inbox (packed pkg ∷ [])),
      )
  Run-Balanced k a s _ (delivers _ _ _ q run some_stop) b =
      let (b', less) = Run-Balanced k a s q run b in
      (
        omega (arith, b', some_stop, stops_in-append q.inbox (stop ∷ [])),
        omega (arith, less, some_stop, pending-append q.inbox (stop ∷ [])),
      )
  Run-Balanced k a s _ (elsewhere _ _ _ q t run) b = Run-Balanced k a s q run b

  -- Between service_start() and service_end(): all the threads are in their loops.
  record Serving (s : Service H B) : Type 0 where
    no_stop : stops_in s.inbox + s.on_the_way ≡ 0
    all_alive : total alive s.listener.threads ≡ loop_rounds s.listener.thread_num

  service_start-Serving :
      (s s' : Service H B)
      → stops_in s.inbox + s.on_the_way ≡ 0
      → service_start s ≡ ok s'
      → Serving s'
  unfolding service_start
  service_start-Serving s s' e run = started
    where
      started : Serving s'
      started = ground (arith, total-replicate (loop_rounds s.listener.thread_num))

  Step-Serving : (s s' : Service H B) → Step s s' → Serving s → Serving s'
  unfolding stops_in
  Step-Serving _ _ (receives s i pkg l r there front) v = record {
    no_stop = omega (arith, ap stops_in front, taken-stops l r (packed pkg), v.no_stop);
    all_alive =
        omega
          (arith, v.all_alive, total-set alive s.listener.threads i receiving (handling pkg) there);
  }
  Step-Serving _ _ (handles s i pkg t there run) v = record {
    no_stop = v.no_stop;
    all_alive =
        omega
          (arith, v.all_alive, total-set alive s.listener.threads i (handling pkg) receiving there);
  }
  Step-Serving _ _ (stops s i l r there front) v =
      absurd (omega (arith, v.no_stop, ap stops_in front, taken-stops l r stop))

  Run-Serving : (k a : ℕ) (s s' : Service H B) → Run k a s s' → Serving s → Serving s'
  unfolding stops_in
  Run-Serving _ _ s _ (done _) v = v
  Run-Serving _ a s s' (next k _ _ q _ run step) v =
      Step-Serving q s' step (Run-Serving k a s q run v)
  Run-Serving k _ s _ (arrives _ a _ q pkg run) v =
      let v' = Run-Serving k a s q run v in
      record {
        no_stop = omega (arith, v'.no_stop, stops_in-append q.inbox (packed pkg ∷ []));
        all_alive = v'.all_alive;
      }
  Run-Serving k a s _ (delivers _ _ _ q run some_stop) v =
      let v' = Run-Serving k a s q run v in absurd (omega (arith, v'.no_stop, some_stop))
  Run-Serving k a s _ (elsewhere _ _ _ q t run) v =
      let v' = Run-Serving k a s q run v in
      record { no_stop = v'.no_stop; all_alive = v'.all_alive }

  service_end-Balanced : (s s' : Service H B) → Serving s → service_end s ≡ ok s' → Balanced s'
  unfolding service_end
  service_end-Balanced s s' v run = ground (arith, v.no_stop, v.all_alive)

  -- A listener is started with no empty message at its socket or on the way, serves for any time, and
  -- is told to end. Whatever its threads do then, in whatever order the socket gives its messages, and
  -- whatever the rest of the process does with the Transfer: the threads make at most as many steps as
  -- there is work then, and two more for each package that still arrives. And in each state that is
  -- reached the joining returns, or an empty message is still on the way, or a thread can make a step,
  -- or a thread has a package whose handling ends the process. So the joining is never stuck.
  pub service_end-joins :
      (s₀ s₁ s₂ s₃ s₄ : Service H B) (m k a a' : ℕ)
      → stops_in s₀.inbox + s₀.on_the_way ≡ 0
      → service_start s₀ ≡ ok s₁
      → Run m a s₁ s₂
      → service_end s₂ ≡ ok s₃
      → Run k a' s₃ s₄
      → (k ≤ work s₃ + 2 * a') × Goes s₄
  service_end-joins s₀ s₁ s₂ s₃ s₄ m k a a' e starts serves ends run =
      let b =
        service_end-Balanced s₂ s₃
          (Run-Serving m a s₁ s₂ serves (service_start-Serving s₀ s₁ e starts)) ends in
      let (b', less) = Run-Balanced k a' s₃ s₄ run b in (omega (arith, less), Balanced-Goes s₄ b')
