-- ===== src/Channel/Async.antt =====
-- src/core/AsynExec.h, async_exec: the same task for several threads of a channel, and the wait until
-- all have run it. The barrier of the call is its flag; the count goes down once for each task, so it
-- stays above the least int.
pub mod Waiting
use swift_snails.Base.{ℕ, zero, suc, ◌-◌, ◌==◌, Bool, true, false, if◌then◌else◌}
use swift_snails.Channel.{Channel, push_channel}

-- `_thread_num` and the flag of `barrier`
pub record Call : Type 0 where
  pub thread_num : ℕ
  pub unblock_state : Bool

-- the end of _task: `if (--_thread_num == 0)`
unfoldable pub finish_task : Call → Call
finish_task c =
    let left = c.thread_num - 1 in
    record { thread_num = left; unblock_state = if left == 0 then true else c.unblock_state }

-- the loop that pushes the tasks
pub push_tasks : {A : Type 0} → ℕ → A → Channel A → Channel A
push_tasks zero task c = c
push_tasks (suc n) task c = push_tasks n task (push_channel task c)

-- async_exec(thread_num, task, channel), up to the wait
unfoldable pub async_exec : {A : Type 0} → ℕ → A → Channel A → Call × Channel A
unfolding push_tasks
async_exec thread_num task channel =
    (record { thread_num = thread_num; unblock_state = false }, push_tasks thread_num task channel)
