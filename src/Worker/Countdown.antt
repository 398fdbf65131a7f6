-- ===== src/Worker/Countdown.antt =====
-- The counting down of a call's responses: `extra_rsp_callback` of global_pull_access.h and of
-- global_push_access.h.
use swift_snails.Base.{ℕ, zero, suc, ◌-◌, ◌^◌, ◌≡◌, ◌≤◌, ◌<◌, ◌==◌, arith, ap, ◌∙◌, ◌≢◌}
use swift_snails.Worker.{Pending, start, extra_rsp_callback}

-- The state after `k` responses.
abbrev pub respond : ℕ → Pending → Pending
respond zero p = p
respond (suc k) p = respond k (extra_rsp_callback p)

callback-step :
    (n : ℕ)
    → 0 < n
    → n < 2 ^ 64
    → extra_rsp_callback (start n) ≡ record { num_reqs = n - 1; unblock_state = n == 1 }
unfolding extra_rsp_callback
callback-step n pos small = ground arith

-- A call with n requests, 0 < n < 2^64, is unblocked by the n-th response and not before.
pub respond-start :
    (k n : ℕ)
    → 0 < n
    → n < 2 ^ 64
    → k ≤ n
    → respond k (start n) ≡ record { num_reqs = n - k; unblock_state = k == n }
respond-start zero n pos small le = ground arith
respond-start (suc zero) n pos small le = rw (callback-step n pos small) (ground arith)
respond-start (suc (suc k)) n pos small le =
    ap (respond (suc k)) (another n pos small (omega arith))
    ∙ respond-start (suc k) (n - 1) (omega arith) (omega arith) (omega arith)
    ∙ ground arith
  where
    another : (n : ℕ) → 0 < n → n < 2 ^ 64 → n ≢ 1 → extra_rsp_callback (start n) ≡ start (n - 1)
    another n pos small more = callback-step n pos small ∙ ground arith
