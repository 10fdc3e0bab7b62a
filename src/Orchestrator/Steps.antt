-- ===== src/Orchestrator/Steps.antt =====
-- The orchestrator as a transition system: the methods that callers make, the dispatcher's rounds
-- and the tasks' progress, in any order. `max` is `max_concurrency`.
use dev_bot.Base.{ℕ, String, ◌≡◌}
use dev_bot.Orchestrator.{
  WorkItem, checking, sleeping, waiting, State, init, enqueue, active_count, check_room, wake,
  take_next,
}
use dev_bot.Orchestrator.Tasks.{Outcome, start, finish, drain}

pub data Step (max : ℕ) (s : State) : State → Type 0 where
  submit : (item : WorkItem) → Step max s (enqueue s item).0
  count : Step max s (active_count s).0
  look : s.dispatcher ≡ checking → Step max s (check_room max s)
  awake : s.dispatcher ≡ sleeping → Step max s (wake s)
  take : s.dispatcher ≡ waiting → Step max s (take_next s)
  begin : (k : String) → Step max s (start k s)
  conclude : (k : String) (outcome : Outcome) → Step max s (finish k outcome s)
  shut_down : (answer : WorkItem → Outcome) → Step max s (drain answer s)

pub data Reach (max : ℕ) : State → Type 0 where
  here : Reach max init
  next : {s t : State} → Reach max s → Step max s t → Reach max t
