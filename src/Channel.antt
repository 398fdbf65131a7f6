-- ===== src/Channel.antt =====
-- src/utils/queue.h, src/core/BasicChannel.h and the worker threads of src/core/AsynExec.h. A queue is
-- changed under its mutex, so an operation is one step; a call that waits on a condition variable is
-- `none` while the condition does not hold, and may be made again later.
pub mod Order
pub mod Capacity
pub mod Closing
pub mod Async
mod Tests
use swift_snails.Base.{
  ℕ, zero, suc, ◌+◌, ◌%◌, ◌^◌, ◌≡◌, List, [], ◌∷◌, ◌++◌, Option, none, some, Bool, true, false, leb,
  ◌==◌, if◌then◌else◌, length, ◌||◌, not, ◌≤◌, ◌-◌,
}

-- queue_with_capacity
pub record Bounded (A : Type 0) : Type 0 where
  pub queue : List A
  pub capacity : ℕ

-- BasicChannel
pub record Channel (A : Type 0) : Type 0 where
  pub closed : Bool
  pub data_queue : List A

-- A pool: the channel, the number of threads in MultiWorker::start, the tasks of the threads that have
-- popped one and not begun it, and the number of threads that run one; and what has happened: the tasks
-- that were popped, those that were begun, both in order, and those that were pushed.
pub record Pool (A : Type 0) : Type 0 where
  pub channel : Channel A
  pub alive_workers_num : ℕ
  pub held : List A
  pub running : ℕ
  pub taken : List A
  pub begun : List A
  pub pushed : List A

module _ {A : Type 0} where
  -- threadsafe_queue::push
  abbrev pub push : A → List A → List A
  push v q = q ++ v ∷ []

  -- threadsafe_queue::try_pop: what is popped, if anything, and the queue that is left
  abbrev pub try_pop : List A → Option A × List A
  try_pop [] = (none, [])
  try_pop (v ∷ q) = (some v, q)

  -- threadsafe_queue::wait_and_pop
  abbrev pub wait_and_pop : List A → Option (A × List A)
  wait_and_pop [] = none
  wait_and_pop (v ∷ q) = some (v, q)

  -- threadsafe_queue::empty and size, an index_t
  abbrev pub is_empty : List A → Bool
  is_empty [] = true
  is_empty (v ∷ q) = false

  abbrev pub size : List A → ℕ
  size q = length q % 2 ^ 32

  -- queue_with_capacity::push, the condition for which it waits and what it does then
  unfoldable pub may_push : Bounded A → Bool
  may_push b = leb (size b.queue) b.capacity

  unfoldable pub push_bounded : A → Bounded A → Bounded A
  push_bounded v b = record b { queue = push v b.queue }

  unfoldable pub set_capacity : ℕ → Bounded A → Bounded A
  set_capacity capacity b = record b { capacity = capacity }

  -- queue_with_capacity::wait_and_pop
  unfoldable pub pop_bounded : Bounded A → Option (A × Bounded A)
  pop_bounded b = elim (wait_and_pop b.queue) [
    | none ↦ none
    | some p ↦ some (p.0, record b { queue = p.1 })
  ]

  -- queue_with_capacity::end_input: x values, whatever the capacity
  unfoldable pub end_input : ℕ → A → Bounded A → Bounded A
  end_input zero v b = b
  end_input (suc x) v b = end_input x v (record b { queue = push v b.queue })

  abbrev pub new_channel : Channel A
  new_channel = record { closed = false; data_queue = [] }

  unfoldable pub push_channel : A → Channel A → Channel A
  push_channel v c = record c { data_queue = push v c.data_queue }

  unfoldable pub close : Channel A → Channel A
  close c = record c { closed = true }

  -- BasicChannel::pop: `none` waits, `some (none, c)` is the answer of a closed channel
  unfoldable pub pop_channel : Channel A → Option (Option A × Channel A)
  pop_channel c = if c.closed then some (none, c) else elim (wait_and_pop c.data_queue) [
    | none ↦ none
    | some p ↦ some (some p.0, record c { data_queue = p.1 })
  ]

  -- open(): n threads on a new channel
  abbrev pub open_pool : ℕ → Pool A
  open_pool n = record {
    channel = new_channel;
    alive_workers_num = n;
    held = [];
    running = 0;
    taken = [];
    begun = [];
    pushed = [];
  }

  -- the threads that neither hold a task nor run one
  abbrev pub at_pop : Pool A → ℕ
  at_pop p = p.alive_workers_num - (length p.held + p.running)

  -- What can happen to a pool: a push, the closing of the channel, a thread that pops a task, one that
  -- calls the task that it has popped, the return of a task, and a thread that pops nothing and leaves
  -- the loop.
  pub data Step : Pool A → Pool A → Type 0 where
    pushes :
        (v : A) (p : Pool A)
        → Step p (record p { channel = push_channel v p.channel; pushed = p.pushed ++ v ∷ [] })
    closes : (p : Pool A) → Step p (record p { channel = close p.channel })
    pops :
        (p : Pool A) (v : A) (c : Channel A)
        → pop_channel p.channel ≡ some (some v, c)
        → 1 ≤ at_pop p
        → Step p (record p { channel = c; held = p.held ++ v ∷ []; taken = p.taken ++ v ∷ [] })
    begins :
        (p : Pool A) (l r : List A) (v : A)
        → p.held ≡ l ++ v ∷ r
        → Step p (record p { held = l ++ r; running = p.running + 1; begun = p.begun ++ v ∷ [] })
    returns : (p : Pool A) → 1 ≤ p.running → Step p (record p { running = p.running - 1 })
    leaves :
        (p : Pool A) (c : Channel A)
        → pop_channel p.channel ≡ some (none, c)
        → 1 ≤ at_pop p
        → Step p (record p { channel = c; alive_workers_num = p.alive_workers_num - 1 })

  pub data Steps : Pool A → Pool A → Type 0 where
    done : (p : Pool A) → Steps p p
    next : (p q r : Pool A) → Steps p q → Step q r → Steps p r
