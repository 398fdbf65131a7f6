-- ===== src/ThreadPool.antt =====
-- src/core/ThreadPool.h: n threads that run one function on the values of a channel, as a step relation.
-- The pop of a value, the test of `_closed` and the call of the function are steps of their own.
pub mod Stopping
mod Tests
use swift_snails.Base.{
  ℕ, zero, suc, ◌≡◌, List, [], ◌∷◌, ◌++◌, Option, none, some, Result, ok, ◌>>=◌, ◌>>◌, check, Bool,
  true, false, get_elem?, set, replicate, ltb, if◌then◌else◌,
}
use swift_snails.Channel.{Channel, new_channel, push_channel, pop_channel, close}

-- A thread at pop(), with a value that it has popped, with one for which it has found the pool open,
-- and after the loop.
pub data Worker (T : Type 0) : Type 0 where
  popping : Worker T
  popped : T → Worker T
  calling : T → Worker T
  exited : Worker T

-- `calls` are the values that the function was called with, in order.
pub record ThreadPool (T : Type 0) : Type 0 where
  pub thread_num : ℕ
  pub threads : List (Worker T)
  pub channel : Channel T
  pub closed : Bool
  pub calls : List T

module _ {T : Type 0} where
  -- ThreadPool(num_thread)
  abbrev pub new_pool : ℕ → ThreadPool T
  new_pool n = record {
    thread_num = n;
    threads = [];
    channel = new_channel;
    closed = false;
    calls = [];
  }

  -- start(func): emplace_back adds the threads to those that are there
  unfoldable pub start_pool : ThreadPool T → Result (ThreadPool T)
  start_pool p = do
    check (ltb 0 p.thread_num)
    ok (record p { threads = p.threads ++ replicate p.thread_num popping })

  -- close(), in its two parts
  unfoldable pub set_closed : ThreadPool T → ThreadPool T
  set_closed p = record p { closed = true }

  unfoldable pub close_channel : ThreadPool T → ThreadPool T
  close_channel p = record p { channel = close p.channel }

  -- `if (_closed) break;` of the thread i, with the value v
  unfoldable pub test_closed : ℕ → T → ThreadPool T → ThreadPool T
  test_closed i v p = record p {
    threads = set p.threads i (if p.closed then exited else calling v);
  }

  -- `func(data);`
  unfoldable pub call_func : ℕ → T → ThreadPool T → ThreadPool T
  call_func i v p = record p { threads = set p.threads i popping; calls = p.calls ++ v ∷ [] }

  pub data PoolStep : ThreadPool T → ThreadPool T → Type 0 where
    pushes :
        (p : ThreadPool T) (v : T) → PoolStep p (record p { channel = push_channel v p.channel })
    sets_closed : (p : ThreadPool T) → PoolStep p (set_closed p)
    closes_channel : (p : ThreadPool T) → p.closed ≡ true → PoolStep p (close_channel p)
    pops :
        (p : ThreadPool T) (i : ℕ) (v : T) (c : Channel T)
        → get_elem? p.threads i ≡ some popping
        → pop_channel p.channel ≡ some (some v, c)
        → PoolStep p (record p { channel = c; threads = set p.threads i (popped v) })
    tests :
        (p : ThreadPool T) (i : ℕ) (v : T)
        → get_elem? p.threads i ≡ some (popped v)
        → PoolStep p (test_closed i v p)
    calls_func :
        (p : ThreadPool T) (i : ℕ) (v : T)
        → get_elem? p.threads i ≡ some (calling v)
        → PoolStep p (call_func i v p)
    leaves :
        (p : ThreadPool T) (i : ℕ) (c : Channel T)
        → get_elem? p.threads i ≡ some popping
        → pop_channel p.channel ≡ some (none, c)
        → PoolStep p (record p { channel = c; threads = set p.threads i exited })

  pub data PoolSteps : ThreadPool T → ThreadPool T → Type 0 where
    done : (p : ThreadPool T) → PoolSteps p p
    next : (p q r : ThreadPool T) → PoolSteps p q → PoolStep q r → PoolSteps p r
