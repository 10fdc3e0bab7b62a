-- ===== src/Scheduler.antt =====
-- app/issue_scheduler.py: the state of an issue that the board and the store agree on, and the tests
-- that an issue passes before it is submitted to the orchestrator.
pub mod Dispatch
pub mod Sync
pub mod Tick
mod Tests
use dev_bot.Base.{
  ℕ, String, Bool, true, false, not, ◌&&◌, ◌||◌, Option, none, some, List, [], ◌∷◌, ltb,
  if◌then◌else◌,
}
use dev_bot.Base.Eq.{string_eq, ◌==◌}
use dev_bot.Base.Lists.{all}
use dev_bot.Base.Text.{is_empty, or_else, strip}
use dev_bot.Base.Result.{Result, ok, err, ◌>>=◌}
use dev_bot.Orchestrator.{WorkItem, State, Target, key, thread, enqueue, is_running, is_queued}

-- The two fields of a board item; `none` in place of them stands for the empty dict.
pub record Gate : Type 0 where
  pub state : String
  pub plan : String

-- An issue of the store, a dict that is not empty: its number as text, and its state.
pub record Issue : Type 0 where
  pub number : Option String
  pub state : String

-- What the scheduler's collaborators answer. A thread that is 0 is none. `while_asked` tells what becomes
-- of the orchestrator while GitHub is asked for the gate, in another thread, and the other tasks go on.
pub record Env : Type 0 where
  pub ensure_issue_thread_binding : String → Result String ℕ
  pub is_active : Target → Bool
  pub has_artifact : ℕ → String → Bool
  pub load_issue : Target → Option Issue
  pub github_project_id : String
  pub get_issue_project_fields : String → ℕ → Result String Gate
  pub upper : String → String
  pub while_asked : State → State

abbrev pub core_planning_artifacts : List String
core_planning_artifacts =
    "requirement_summary.json" ∷ "plan.json" ∷ "test_plan.json" ∷ "verification_plan.json" ∷ []

unfoldable pub has_planning_artifacts : Env → ℕ → Bool
has_planning_artifacts env thread_id = all (env.has_artifact thread_id) core_planning_artifacts

unfoldable pub project_enabled : Env → Bool
project_enabled env = not (is_empty (strip env.github_project_id))

abbrev pub complete_gate : Result String Gate → Option Gate
complete_gate (err e) = none
complete_gate (ok gate) =
    if not (is_empty gate.state) && not (is_empty gate.plan) then some gate else none

unfoldable pub scheduler_gate_for_issue : Env → String → ℕ → Option Gate
scheduler_gate_for_issue env repo_full_name issue_number =
    complete_gate (env.get_issue_project_fields repo_full_name issue_number)

abbrev pub is_approved : String → Option Gate → Bool
is_approved expected_state none = false
is_approved expected_state (some gate) = gate.state == expected_state && gate.plan == "Approved"

-- The gate is asked only where a project is set.
unfoldable pub passes_gate : Env → String → ℕ → String → Bool
passes_gate env repo_full_name issue_number expected_state =
    not (project_enabled env)
    || is_approved expected_state (scheduler_gate_for_issue env repo_full_name issue_number)

abbrev pub first_issue : Option Issue → Option Issue → Option Issue
first_issue (some issue) other = some issue
first_issue none other = other

-- The issue under its key, or else under the thread.
unfoldable pub find_issue : Env → String → ℕ → Option Issue
find_issue env issue_key thread_id =
    first_issue (env.load_issue (key issue_key)) (env.load_issue (thread thread_id))

unfoldable pub is_closed : Env → Issue → Bool
is_closed env issue = env.upper (strip issue.state) == "CLOSED"

abbrev pub work_item : ℕ → String → String → Issue → WorkItem
work_item thread_id issue_key repo_full_name issue = record {
  thread_id = some thread_id;
  repo_full_name = repo_full_name;
  number = issue.number;
  issue_key = issue_key;
  workspace_key = issue_key;
}

abbrev pub submit_open : Env → State → ℕ → String → String → Option Issue → State
submit_open env s thread_id issue_key repo_full_name none = s
submit_open env s thread_id issue_key repo_full_name (some issue) =
    if is_closed env issue
    then s
    else (enqueue s (work_item thread_id issue_key repo_full_name issue)).0

-- The orchestrator when the gate is known.
unfoldable pub after_gate : Env → State → State
after_gate env s = if project_enabled env then env.while_asked s else s

-- `_dispatch_issue_if_ready` where the thread is known.
unfoldable pub dispatch_bound : Env → State → ℕ → String → String → ℕ → String → State
dispatch_bound env s thread_id issue_key repo_full_name issue_number expected_state =
    if is_running s thread_id || is_queued s thread_id
    then s
    else if env.is_active (key issue_key)
    then s
    else if not (has_planning_artifacts env thread_id)
    then s
    else if not (passes_gate env repo_full_name issue_number expected_state)
    then after_gate env s
    else submit_open env (after_gate env s) thread_id issue_key repo_full_name
        (find_issue env issue_key thread_id)

-- `s` is the orchestrator when its tests are read, behind the call of the binding where there is one.
unfoldable pub dispatch_issue_if_ready :
    Env → State → ℕ → String → String → ℕ → String → Result String State
dispatch_issue_if_ready env s thread_id issue_key repo_full_name issue_number expected_state =
    if ltb 0 thread_id
    then ok (dispatch_bound env s thread_id issue_key repo_full_name issue_number expected_state)
    else env.ensure_issue_thread_binding issue_key >>= λ bound.
        if ltb 0 bound
        then ok (dispatch_bound env s bound issue_key repo_full_name issue_number expected_state)
        else ok s

-- What the store holds of an issue: its status, and its thread, 0 where there is none.
pub record IssueMeta : Type 0 where
  pub status : String
  pub thread_id : ℕ

-- The issue is running, queued, or has a process.
unfoldable pub is_busy : Env → State → String → ℕ → Bool
is_busy env s issue_key thread_id =
    (env.is_active (key issue_key) || ltb 0 thread_id && env.is_active (thread thread_id))
    || ltb 0 thread_id && is_running s thread_id
    || ltb 0 thread_id && is_queued s thread_id

unfoldable pub resolve_synced_state : Env → State → String → String → IssueMeta → String
resolve_synced_state env s issue_key project_state meta =
    let local_state = strip meta.status in
    let synced_state = or_else project_state local_state in
    if not (synced_state == "In Progress") || not (local_state == "Rework")
    then synced_state
    else if is_busy env s issue_key meta.thread_id
    then synced_state
    else local_state
