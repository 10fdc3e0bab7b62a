-- ===== src/Orchestrator/Tasks.antt =====
-- app/orchestrator.py: `_run_item`, and `drain`, which cancels the tasks.
use dev_bot.Base.{ℕ, String, Option, none, some, List, [], ◌∷◌, ◌++◌, if◌then◌else◌}
use dev_bot.Base.Eq.{string_eq}
use dev_bot.Base.Sets.{discard}
use dev_bot.Base.Dict
use dev_bot.Base.Dict.{Dict}
use dev_bot.Base.Text.{is_empty}
use dev_bot.Orchestrator.{
  WorkItem, Target, key, thread, StoreCall, set_runtime_status, set_status, record_failure, Stage,
  created, started, ended, Task, stopped, State, item_key, key_or,
}

-- How the executor ends: it returns, raises an `Exception`, or is cancelled.
pub data Outcome : Type 0 where
  returned : Outcome
  raised : String → Outcome
  cancelled : Outcome

abbrev pub or_key : Option ℕ → String → Target
or_key none k = key k
or_key (some t) k = thread t

unfoldable pub status_target : WorkItem → Target
status_target item =
    key_or item.issue_key (key_or item.workspace_key (or_key item.thread_id (item_key item)))

-- The calls of the `except` clause; a cancellation is no `Exception`.
unfoldable pub failure_calls : WorkItem → Outcome → List StoreCall
unfolding status_target
failure_calls item returned = []
failure_calls item cancelled = []
failure_calls item (raised message) =
    let target = status_target item in
    record_failure target "run_execution" message item.repo_full_name (item_key item)
    ∷ set_runtime_status target "failed"
    ∷ set_status target (if is_empty item.issue_key then "failed" else "Rework")
    ∷ []

-- What `_run_item` does once the executor has ended, the `finally` clause included.
unfoldable pub end_item : WorkItem → Outcome → State → State
unfolding failure_calls
end_item item outcome s = record s {
  running = Dict.remove s.running (item_key item);
  running_keys = discard s.running_keys (item_key item);
  calls =
      s.calls ++ (failure_calls item outcome ++ set_runtime_status (status_target item) "" ∷ []);
}

abbrev pub set_stage : Dict String Task → String → Option Task → Stage → Dict String Task
set_stage d k none stage = d
set_stage d k (some t) stage = Dict.put d k (record t { stage = stage })

abbrev pub begin_task : State → String → Option Task → State
begin_task s k none = s
begin_task s k (some t) = elim t.stage [
  | created ↦ record s { running = set_stage s.running k (some t) started }
  | _ ↦ s
]

-- The event loop runs the task under `k` for the first time: it enters the executor.
unfoldable pub start : String → State → State
start k s = begin_task s k (Dict.get s.running k)

abbrev pub end_task : State → Option Task → Outcome → State
end_task s none outcome = s
end_task s (some t) outcome = elim t.stage [ started ↦ end_item t.item outcome s | _ ↦ s ]

-- The executor of the task under `k` ends.
unfoldable pub finish : String → Outcome → State → State
unfolding end_item
finish k outcome s = end_task s (Dict.get s.running k) outcome

-- A cancelled task that has not begun ends without entering `_run_item`; one inside the executor
-- ends as the executor answers the cancellation.
unfoldable pub cancel_task : (WorkItem → Outcome) → String → Task → State → State
unfolding end_item
cancel_task answer k t s = elim t.stage [
  | created ↦ record s { running = set_stage s.running k (some t) ended }
  | started ↦ end_item t.item (answer t.item) s
  | ended ↦ s
]

unfoldable pub cancel_tasks : (WorkItem → Outcome) → Dict String Task → State → State
cancel_tasks answer [] s = s
cancel_tasks answer ((k, t) ∷ d) s = cancel_tasks answer d (cancel_task answer k t s)

-- `drain`: the dispatcher is cancelled, the queue emptied, the tasks are cancelled and awaited.
unfoldable pub drain : (WorkItem → Outcome) → State → State
unfolding cancel_tasks cancel_task
drain answer s =
    let emptied = record s {
      dispatcher = stopped;
      queue = [];
      queued_thread_ids = [];
      queued_keys = [];
    } in
    record (cancel_tasks answer emptied.running emptied) { running = []; running_keys = [] }
