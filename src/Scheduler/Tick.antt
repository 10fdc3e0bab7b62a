-- ===== src/Scheduler/Tick.antt =====
-- app/issue_scheduler.py: a tick over the issues of the board, and the runs that are restored at the start.
use dev_bot.Base.{
  ℕ, String, Bool, false, not, ◌&&◌, ◌||◌, Option, none, some, List, [], ◌∷◌, ◌++◌, ltb,
  if◌then◌else◌,
}
use dev_bot.Base.Eq.{string_eq, ◌==◌}
use dev_bot.Base.Text.{is_empty, strip}
use dev_bot.Base.Join.{concat}
use dev_bot.Base.Result.{Result, ok, err, ◌>>=◌}
use dev_bot.Candidates.{or_default}
use dev_bot.Orchestrator.{WorkItem, State, Target, key, thread, restore}
use dev_bot.StateStore.{int_of}
use dev_bot.Scheduler.{
  Gate, Issue, Env, project_enabled, scheduler_gate_for_issue, dispatch_issue_if_ready,
}

-- The fields of an issue's record that are read, as `str` gives them.
pub record SyncedMeta : Type 0 where
  pub issue_key : String
  pub thread_id : String
  pub github_repo : String
  pub issue_number : String
  pub status : String
  pub runtime_status : String

-- What a tick does besides submitting.
pub data TickEvent : Type 0 where
  reconciled : Target → ℕ → TickEvent
  merged :
      (issue_key : String) (thread_id : ℕ) (repo_full_name : String) (issue_number : ℕ) → TickEvent

abbrev pub or_value_error : Option ℕ → Result String ℕ
or_value_error none = err "ValueError"
or_value_error (some n) = ok n

-- int(text) if text else 0
abbrev pub number_or_zero : String → Result String ℕ
number_or_zero s = if is_empty s then ok 0 else or_value_error (int_of s)

-- A thread that is 0 is bound, but for an issue that is over.
abbrev pub thread_of_meta : Env → String → String → ℕ → Result String ℕ
thread_of_meta env issue_key status thread_id =
    if ltb 0 thread_id || status == "Done" || status == "Cancelled"
    then ok thread_id
    else env.ensure_issue_thread_binding issue_key

-- `while_merging` tells what becomes of the orchestrator while an issue is merged.
module _ (env : Env) (while_merging : State → State) where
  abbrev pub tick_status :
      State → String → ℕ → String → ℕ → String → Result String (State × List TickEvent)
  tick_status s issue_key thread_id repo_full_name issue_number status =
      if status == "Ready" || status == "Rework"
      then (dispatch_issue_if_ready env s thread_id issue_key repo_full_name issue_number status
          >>= λ after. ok (after, []))
      else if status == "In Progress"
      then ok (
        s,
        reconciled (if ltb 0 thread_id then thread thread_id else key issue_key) thread_id ∷ [],
      )
      else if status == "Merging"
      then ok (while_merging s, merged issue_key thread_id repo_full_name issue_number ∷ [])
      else ok (s, [])

  abbrev pub tick_known :
      State → String → String → String → String → String → Result String (State × List TickEvent)
  tick_known s issue_key thread_text repo_full_name number_text status =
      number_or_zero thread_text >>= λ given.
      or_value_error (int_of number_text) >>= λ issue_number.
      thread_of_meta env issue_key status given >>= λ thread_id.
      tick_status s issue_key thread_id repo_full_name issue_number status

  unfoldable pub tick_meta : State → SyncedMeta → Result String (State × List TickEvent)
  tick_meta s meta =
      let issue_key = strip meta.issue_key in
      let repo_full_name = strip meta.github_repo in
      let number_text = strip meta.issue_number in
      if is_empty issue_key || is_empty repo_full_name || is_empty number_text
      then ok (s, [])
      else tick_known s issue_key (strip meta.thread_id) repo_full_name number_text
          (strip meta.status)

  -- `metas` is what the sync returned; a call that raises ends the tick.
  unfoldable pub scheduler_tick : State → List SyncedMeta → Result String (State × List TickEvent)
  scheduler_tick s [] = ok (s, [])
  scheduler_tick s (meta ∷ metas) = tick_meta s meta >>= λ now.
      scheduler_tick now.0 metas >>= λ later. ok (later.0, now.1 ++ later.1)

-- What `restore_pending_runs` does with one record.
pub data RestoreStep : Type 0 where
  passed_over : RestoreStep
  approval_restored : ℕ → RestoreStep
  reworked : (issue_key repo_full_name : String) (issue_number : ℕ) → RestoreStep
  restored : WorkItem → RestoreStep

abbrev pub is_ready_gate : Option Gate → Bool
is_ready_gate none = false
is_ready_gate (some gate) =
    (gate.state == "Ready" || gate.state == "Rework") && gate.plan == "Approved"

-- The gate is asked where there is a project and the issue has a number.
abbrev pub passes_restore_gate : Env → String → ℕ → Bool
passes_restore_gate env repo_full_name issue_number =
    not (project_enabled env && ltb 0 issue_number)
    || is_ready_gate (scheduler_gate_for_issue env repo_full_name issue_number)

abbrev pub restored_item : ℕ → SyncedMeta → Issue → WorkItem
restored_item thread_id meta issue = record {
  thread_id = some thread_id;
  repo_full_name = meta.github_repo;
  number = issue.number;
  issue_key = meta.issue_key;
  workspace_key = concat (meta.github_repo ∷ "#" ∷ or_default issue.number "None" ∷ []);
}

abbrev pub restore_ready : Env → SyncedMeta → ℕ → Issue → ℕ → RestoreStep
restore_ready env meta thread_id issue issue_number =
    if not (meta.status == "Ready" || meta.status == "Rework")
    then passed_over
    else if passes_restore_gate env meta.github_repo issue_number
    then restored (restored_item thread_id meta issue)
    else passed_over

abbrev pub restore_issue : Env → SyncedMeta → ℕ → Option Issue → Result String RestoreStep
restore_issue env meta thread_id none = ok passed_over
restore_issue env meta thread_id (some issue) =
    if is_empty meta.github_repo
    then ok passed_over
    else if strip meta.runtime_status == "awaiting_high_risk_approval"
    then ok (approval_restored thread_id)
    else if meta.status == "In Progress" && env.is_active (key meta.issue_key)
    then ok passed_over
    else if not (meta.status == "In Progress" || meta.status == "Ready" || meta.status == "Rework")
    then ok passed_over
    else number_or_zero (strip meta.issue_number) >>= λ issue_number. ok (
        if meta.status == "In Progress"
        then reworked meta.issue_key meta.github_repo issue_number
        else restore_ready env meta thread_id issue issue_number)

unfoldable pub restore_meta : Env → SyncedMeta → Result String RestoreStep
restore_meta env meta =
    if is_empty meta.issue_key || is_empty (strip meta.thread_id)
    then ok passed_over
    else or_value_error (int_of (strip meta.thread_id)) >>= λ thread_id.
        restore_issue env meta thread_id (env.load_issue (key meta.issue_key))

abbrev pub items_of : RestoreStep → List WorkItem
items_of passed_over = []
items_of (approval_restored thread_id) = []
items_of (reworked issue_key repo_full_name issue_number) = []
items_of (restored item) = item ∷ []

abbrev pub restore_steps : Env → List SyncedMeta → Result String (List RestoreStep)
restore_steps env [] = ok []
restore_steps env (meta ∷ metas) =
    restore_meta env meta >>= λ step. restore_steps env metas >>= λ steps. ok (step ∷ steps)

abbrev pub all_items : List RestoreStep → List WorkItem
all_items [] = []
all_items (step ∷ steps) = items_of step ++ all_items steps

-- `metas` are the records whose status is one of the four that are asked for.
unfoldable pub restore_pending_runs :
    Env → State → List SyncedMeta → Result String (State × List RestoreStep)
restore_pending_runs env s metas =
    restore_steps env metas >>= λ steps. ok (restore s (all_items steps), steps)
