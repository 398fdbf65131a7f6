-- ===== src/Worker/Blocking.antt =====
-- Whether a blocking call comes back: `pull_with_barrier` and `push_with_barrier` of
-- src/core/parameter/global_pull_access.h and global_push_access.h set `num_reqs` to the number of
-- groups, send the requests and wait for `unblock_state`.
use swift_snails.Base.{
  ℕ, suc, ◌^◌, ◌≡◌, ◌≤◌, ◌<◌, List, [], ◌∷◌, ok, ◌>>=◌, >>=-eq-ok, ◌==◌, ◌&&◌, arith, length, ltb,
  Bool-cases, inl, inr,
}
use swift_snails.Buffer.{Buffer, new}
use swift_snails.Buffer.Codec.{Codec, put_records}
use swift_snails.Worker.{NodeReqs, start, pull_requests, push_requests}
use swift_snails.Worker.Countdown.{respond, respond-start}

-- The groups that are not empty, counted.
abbrev pub filled : {A : Type 0} → NodeReqs A → ℕ
filled [] = 0
filled ((id, []) ∷ reqs) = filled reqs
filled ((id, item ∷ items) ∷ reqs) = suc (filled reqs)

filled_le : {A : Type 0} (reqs : NodeReqs A) → filled reqs ≤ length reqs
filled_le [] = omega arith
filled_le ((id, []) ∷ reqs) = omega (arith, filled_le reqs)
filled_le ((id, item ∷ items) ∷ reqs) = omega (arith, filled_le reqs)

module _ {V : Type 0} (CK : Codec ℕ) (CV : Codec V) where
  length-pull_requests :
      (reqs : NodeReqs (ℕ × V)) {sent : List (ℕ × Buffer)}
      → pull_requests CK CV reqs ≡ ok sent
      → length sent ≡ length reqs
  unfolding pull_requests
  length-pull_requests [] run = cc
  length-pull_requests ((id, items) ∷ reqs) run =
      let (cont, _, run') =
        >>=-eq-ok (put_records CK CV items new)
          (λ cont. pull_requests CK CV reqs >>= λ rest. ok ((id, cont) ∷ rest)) run in
      let (rest, runs, last) =
        >>=-eq-ok (pull_requests CK CV reqs) (λ rest. ok ((id, cont) ∷ rest)) run' in
      ground (arith, length-pull_requests reqs runs, last)

  length-push_requests :
      (reqs : NodeReqs (ℕ × V)) {sent : List (ℕ × Buffer)}
      → push_requests CK CV reqs ≡ ok sent
      → length sent ≡ filled reqs
  unfolding push_requests
  length-push_requests [] run = cc
  length-push_requests ((id, []) ∷ reqs) run = length-push_requests reqs run
  length-push_requests ((id, item ∷ items) ∷ reqs) run =
      let (cont, _, run') =
        >>=-eq-ok (put_records CK CV (item ∷ items) new)
          (λ cont. push_requests CK CV reqs >>= λ rest. ok ((id, cont) ∷ rest)) run in
      let (rest, runs, last) =
        >>=-eq-ok (push_requests CK CV reqs) (λ rest. ok ((id, cont) ∷ rest)) run' in
      ground (arith, length-push_requests reqs runs, last)

  -- A pull whose requests were sent and are all answered comes back exactly when it has a group: a
  -- pull of no keys waits for ever.
  pub pull_requests-unblock :
      (reqs : NodeReqs (ℕ × V)) {sent : List (ℕ × Buffer)}
      → length reqs < 2 ^ 64
      → pull_requests CK CV reqs ≡ ok sent
      → (respond (length sent) (start (length reqs))).unblock_state ≡ ltb 0 (length reqs)
  pull_requests-unblock reqs {sent} small run = elim (Bool-cases (ltb 0 (length reqs))) [
    | inl e ↦ ground (
      arith,
      length-pull_requests reqs run,
      respond-start (length reqs) (length reqs) (ground arith) small (omega arith),
    )
    | inr e ↦ ground (arith, length-pull_requests reqs run)
  ]

  -- A push whose requests were sent and are all answered comes back exactly when it has a group and
  -- none of its groups is empty: an empty group is counted in num_reqs, and no request is sent for it.
  pub push_requests-unblock :
      (reqs : NodeReqs (ℕ × V)) {sent : List (ℕ × Buffer)}
      → length reqs < 2 ^ 64
      → push_requests CK CV reqs ≡ ok sent
      → (respond (length sent) (start (length reqs))).unblock_state
        ≡ (ltb 0 (length reqs) && (filled reqs == length reqs))
  push_requests-unblock reqs {sent} small run = elim (Bool-cases (ltb 0 (length reqs))) [
    | inl e ↦ ground (
      arith,
      length-push_requests reqs run,
      respond-start (filled reqs) (length reqs) (ground arith) small (filled_le reqs),
    )
    | inr e ↦ ground (arith, length-push_requests reqs run, filled_le reqs)
  ]
