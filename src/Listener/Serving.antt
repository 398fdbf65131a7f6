-- ===== src/Listener/Serving.antt =====
-- The threads of a listener and the stop messages at its socket, counted.
use swift_snails.Base.{
  ℕ, zero, suc, ◌+◌, ◌≡◌, refl, ap, arith, List, [], ◌∷◌, ◌++◌, some, get_elem?, set, replicate,
}
use swift_snails.Listener.{
  Frame, stop, packed, Thread, receiving, handling, left, Service, Step, receives, handles, stops,
}

abbrev pub alive : Thread → ℕ
alive receiving = 1
alive (handling pkg) = 1
alive left = 0

abbrev pub occupied : Thread → ℕ
occupied receiving = 0
occupied (handling pkg) = 1
occupied left = 0

-- The threads of a kind.
unfoldable pub total : (Thread → ℕ) → List Thread → ℕ
total w [] = 0
total w (t ∷ ts) = w t + total w ts

pub total-set :
    (w : Thread → ℕ) (ts : List Thread) (i : ℕ) (t t' : Thread)
    → get_elem? ts i ≡ some t
    → total w (set ts i t') + w t ≡ total w ts + w t'
unfolding total
total-set w [] i t t' e = cc
total-set w (x ∷ ts) zero t t' e = ground arith
total-set w (x ∷ ts) (suc i) t t' e = omega (arith, total-set w ts i t t' e)

pub total-replicate : (n : ℕ) → total alive (replicate n receiving) ≡ n
unfolding total
total-replicate zero = refl
total-replicate (suc n) = omega (arith, total-replicate n)

-- The stop messages that wait.
unfoldable pub stops_in : List Frame → ℕ
stops_in [] = 0
stops_in (stop ∷ fs) = suc (stops_in fs)
stops_in (packed pkg ∷ fs) = stops_in fs

pub stops_in-append : (fs gs : List Frame) → stops_in (fs ++ gs) ≡ stops_in fs + stops_in gs
unfolding stops_in
stops_in-append [] gs = omega arith
stops_in-append (stop ∷ fs) gs = omega (arith, stops_in-append fs gs)
stops_in-append (packed pkg ∷ fs) gs = stops_in-append fs gs

-- The steps that the messages at the socket make: two for a package, one for an empty message.
unfoldable pub pending : List Frame → ℕ
pending [] = 0
pending (stop ∷ fs) = suc (pending fs)
pending (packed pkg ∷ fs) = suc (suc (pending fs))

pub pending-append : (fs gs : List Frame) → pending (fs ++ gs) ≡ pending fs + pending gs
unfolding pending
pending-append [] gs = omega arith
pending-append (stop ∷ fs) gs = omega (arith, pending-append fs gs)
pending-append (packed pkg ∷ fs) gs = omega (arith, pending-append fs gs)

-- A message from between l and r is taken.
pub taken-stops :
    (l r : List Frame) (f : Frame) → stops_in (l ++ f ∷ r) ≡ stops_in (f ∷ []) + stops_in (l ++ r)
unfolding stops_in
taken-stops l r stop = omega (arith, stops_in-append l (stop ∷ r), stops_in-append l r)
taken-stops l r (packed p) = omega (arith, stops_in-append l (packed p ∷ r), stops_in-append l r)

taken-pending :
    (l r : List Frame) (f : Frame) → pending (l ++ f ∷ r) ≡ pending (f ∷ []) + pending (l ++ r)
unfolding pending
taken-pending l r stop = omega (arith, pending-append l (stop ∷ r), pending-append l r)
taken-pending l r (packed p) = omega (arith, pending-append l (packed p ∷ r), pending-append l r)

module _ {H B : Type 0} where
  -- The steps that the threads still have to make, if no more packages arrive.
  unfoldable pub work : Service H B → ℕ
  work s = pending s.inbox + s.on_the_way + total occupied s.listener.threads

  -- There is a stop, at the socket or on the way, for each thread in its loop.
  abbrev pub Balanced : Service H B → Type 0
  Balanced s = stops_in s.inbox + s.on_the_way ≡ total alive s.listener.threads

  pub Step-Balanced :
      (s s' : Service H B) → Step s s' → Balanced s → Balanced s' × (work s' + 1 ≡ work s)
  unfolding work stops_in pending
  Step-Balanced _ _ (receives s i pkg l r there front) b =
      let ts = s.listener.threads in
      let same = total-set alive ts i receiving (handling pkg) there in
      let more = total-set occupied ts i receiving (handling pkg) there in
      (
        omega (arith, b, same, ap stops_in front, taken-stops l r (packed pkg)),
        omega (arith, more, ap pending front, taken-pending l r (packed pkg)),
      )
  Step-Balanced _ _ (handles s i pkg t there run) b =
      let ts = s.listener.threads in
      (
        omega (arith, b, total-set alive ts i (handling pkg) receiving there),
        omega (arith, total-set occupied ts i (handling pkg) receiving there),
      )
  Step-Balanced _ _ (stops s i l r there front) b =
      let ts = s.listener.threads in
      (
        omega (
          arith,
          b,
          total-set alive ts i receiving left there,
          ap stops_in front,
          taken-stops l r stop,
        ),
        omega (
          arith,
          total-set occupied ts i receiving left there,
          ap pending front,
          taken-pending l r stop,
        ),
      )
