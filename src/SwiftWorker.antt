-- ===== src/SwiftWorker.antt =====
-- src/core/framework/SwiftWorker.h: the settings of a worker, and the data path and the channel of its
-- algorithm. std::stoi and std::stof, and the test of a number against 0, are parameters.
mod Settings
use swift_snails.Base.{
  ℕ, List, [], ◌∷◌, Option, none, some, Result, ok, ◌>>=◌, ◌>>◌, check, Bool, true, false, ℤ, pos,
  negsuc,
}
use swift_snails.Listener.{positive}
use swift_snails.Strings.{String}
use swift_snails.Config.{Dic, get_config, get_int32}
use swift_snails.Channel.{Pool, open_pool}

-- "num_iters", "learning_rate", "async_channel_thread_num", "local_train"
abbrev pub num_iters_key : String
num_iters_key = 110 ∷ 117 ∷ 109 ∷ 95 ∷ 105 ∷ 116 ∷ 101 ∷ 114 ∷ 115 ∷ []

abbrev pub learning_rate_key : String
learning_rate_key = 108 ∷ 101 ∷ 97 ∷ 114 ∷ 110 ∷ 105 ∷ 110 ∷ 103 ∷ 95 ∷ 114 ∷ 97 ∷ 116 ∷ 101 ∷ []

abbrev pub thread_num_key : String
thread_num_key =
    97 ∷ 115 ∷ 121 ∷ 110 ∷ 99 ∷ 95 ∷ 99 ∷ 104 ∷ 97 ∷ 110 ∷ 110 ∷ 101 ∷ 108 ∷ 95 ∷ 116 ∷ 104 ∷ 114
    ∷ 101 ∷ 97 ∷ 100 ∷ 95 ∷ 110 ∷ 117 ∷ 109 ∷ []

abbrev pub local_train_key : String
local_train_key = 108 ∷ 111 ∷ 99 ∷ 97 ∷ 108 ∷ 95 ∷ 116 ∷ 114 ∷ 97 ∷ 105 ∷ 110 ∷ []

abbrev pub is_set : String → Bool
is_set [] = false
is_set (c ∷ cs) = true

pub record WorkerSettings (F : Type 0) : Type 0 where
  pub num_iters : ℤ
  pub learning_rate : F
  pub async_channel_thread_num : ℤ
  pub local_train : Bool

module _ {F : Type 0} (stoi : String → Result ℤ) (stof : String → Result F) (above : F → Bool) where
  -- Item::to_float()
  unfoldable pub to_float : String → Result F
  to_float value = do check (is_set value); stof value

  -- SwiftWorker(config_path, alg)
  unfoldable pub worker_settings : String → Dic → Result (WorkerSettings F)
  unfolding to_float
  worker_settings config_path dic = do
    check (is_set config_path)
    iters ← get_int32 stoi num_iters_key dic
    check (positive iters)
    text ← get_config learning_rate_key dic
    rate ← to_float text
    threads ← get_int32 stoi thread_num_key dic
    local ← get_int32 stoi local_train_key dic
    check (above rate)
    ok (record {
      num_iters = iters;
      learning_rate = rate;
      async_channel_thread_num = threads;
      local_train = positive local;
    })

-- async_channel_thread_num()
unfoldable pub checked_thread_num : {F : Type 0} → WorkerSettings F → Result ℤ
checked_thread_num w = do check (positive w.async_channel_thread_num); ok w.async_channel_thread_num

-- the number of threads that a loop from 0 to it makes
abbrev pub as_count : ℤ → ℕ
as_count (pos n) = n
as_count (negsuc n) = 0

-- BaseAlgorithm
pub record Algorithm (T : Type 0) : Type 0 where
  pub data_path : String
  pub thread_num : ℤ
  pub async_channel : Option (Pool T)

module _ {T : Type 0} where
  unfoldable pub set_data_path : String → Algorithm T → Algorithm T
  set_data_path path a = record a { data_path = path }

  unfoldable pub get_data_path : Algorithm T → Result String
  get_data_path a = do check (is_set a.data_path); ok a.data_path

  unfoldable pub create_async_channel :
      (String → Result ℤ) → Dic → Algorithm T → Result (Algorithm T)
  create_async_channel stoi dic a = do
    check (elim a.async_channel [ none ↦ true | some pool ↦ false ])
    threads ← get_int32 stoi thread_num_key dic
    check (positive threads)
    ok (record a { thread_num = threads; async_channel = some (open_pool (as_count threads)) })
