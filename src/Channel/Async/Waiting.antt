-- ===== src/Channel/Async/Waiting.antt =====
-- When the wait of async_exec ends.
use swift_snails.Base.{
  ℕ, zero, suc, ◌-◌, ◌≤◌, ◌≡◌, ap, sym, ◌∙◌, arith, [], ◌∷◌, ◌++◌, ◌==◌, false, if◌then◌else◌,
  replicate, append-nil, append_assoc,
}
use swift_snails.Channel.{Channel, push_channel}
use swift_snails.Channel.Async.{Call, finish_task, push_tasks, async_exec}

-- The call after k tasks have ended.
abbrev pub finished : ℕ → Call → Call
finished zero c = c
finished (suc k) c = finish_task (finished k c)

module _ {A : Type 0} where
  push_tasks-appends :
      (n : ℕ) (task : A) (c : Channel A)
      → push_tasks n task c ≡ record c { data_queue = c.data_queue ++ replicate n task }
  unfolding push_tasks push_channel
  push_tasks-appends zero task c =
      ap (λ q. record c { data_queue = q }) (sym (append-nil c.data_queue))
  push_tasks-appends (suc n) task c =
      push_tasks-appends n task (push_channel task c)
      ∙ ap (λ q. record c { data_queue = q })
          (append_assoc c.data_queue (task ∷ []) (replicate n task))

finished-counts :
    (n k : ℕ)
    → k ≤ n
    → finished k (record { thread_num = n; unblock_state = false })
      ≡ record { thread_num = n - k; unblock_state = if n == 0 then false else n == k }
unfolding finish_task
finished-counts n zero le = ground arith
finished-counts n (suc k) le = ap finish_task (finished-counts n k (omega arith)) ∙ ground arith

module _ {A : Type 0} where
  -- A call for n threads pushes its task n times behind what waits in the channel. After k of these
  -- have ended, the call is unblocked exactly if k is n and n is not 0: a call for no thread is never
  -- unblocked.
  async_exec-waits :
      (n k : ℕ) (task : A) (c : Channel A)
      → k ≤ n
      → ((async_exec n task c).1 ≡ record c { data_queue = c.data_queue ++ replicate n task })
        × ((finished k (async_exec n task c).0).unblock_state ≡ (if n == 0 then false else n == k))
  unfolding async_exec
  async_exec-waits n k task c le =
      (push_tasks-appends n task c, ap (λ x. x.unblock_state) (finished-counts n k le))
