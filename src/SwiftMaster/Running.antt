-- ===== src/SwiftMaster/Running.antt =====
-- What the tasks and the packages of the master leave of its order, and the order in any run.
use swift_snails.Base.{ℕ, ◌+◌, ◌≡◌, List, [], ◌∷◌, ◌≤◌, if◌then◌else◌}
use swift_snails.Base.Map.{nat_ordered}
use swift_snails.Transfer.{Transfer}
use swift_snails.Terminate.{MasterTerminate, new_terminate, count_worker}
use swift_snails.SwiftMaster.{
  Handler, Phase, fresh, registering, collecting, telling, ended, SwiftMaster, Event, goes_on,
  arrives, runs_task,
}
use swift_snails.SwiftMaster.Keeping.{NoOrder, is_finish, finish_msg, answer_msg}
use swift_snails.SwiftMaster.Order.{AllFinished}

-- The terminate of a master once the handler is done.
abbrev counting : Handler → MasterTerminate → MasterTerminate
counting h e = if is_finish h then count_worker e else e

-- The last messages of workers among the packages of some events, and the answers.
abbrev pub finish_event : Event → ℕ
finish_event goes_on = 0
finish_event (arrives pkg) = finish_msg pkg
finish_event runs_task = 0

abbrev pub answer_event : Event → ℕ
answer_event goes_on = 0
answer_event (arrives pkg) = answer_msg pkg
answer_event runs_task = 0

abbrev pub finish_arrivals : List Event → ℕ
finish_arrivals [] = 0
finish_arrivals (e ∷ es) = finish_event e + finish_arrivals es

abbrev pub answer_arrivals : List Event → ℕ
answer_arrivals [] = 0
answer_arrivals (e ∷ es) = answer_event e + answer_arrivals es

-- A master before operator().
pub record IsFresh (s : SwiftMaster) : Type 0 where
  pub at_start : s.phase ≡ fresh
  pub no_class : s.transfer.message_class ≡ []
  pub no_task : s.transfer.tasks ≡ []
  pub nothing_sent : s.transfer.sent ≡ []
  pub nothing_counted : s.terminate ≡ new_terminate

-- What holds in each phase, when b answers have arrived.
abbrev pub MasterStage : Phase → ℕ → SwiftMaster → Type 0
MasterStage fresh b s = NoOrder s.transfer.sent
MasterStage registering b s = NoOrder s.transfer.sent
MasterStage collecting b s = NoOrder s.transfer.sent
MasterStage telling b s = AllFinished s.terminate
MasterStage ended b s = AllFinished s.terminate × (s.terminate.server_num ≤ b)
