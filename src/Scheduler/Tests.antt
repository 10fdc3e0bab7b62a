-- ===== src/Scheduler/Tests.antt =====
-- An issue that is ready and one whose Rework the board has not seen.
use dev_bot.Base.{ℕ, ◌≡◌, ◌≢◌, ◌⊎◌, ◌<◌, refl, true, false, some}
use dev_bot.Base.Dict
use dev_bot.Base.Sets.{contains}
use dev_bot.Base.Result.{ok}
use dev_bot.Base.Text.{or_else, strip, strip_left, strip_right, is_space}
use dev_bot.Orchestrator.{init, enqueue, is_running, is_queued}
use dev_bot.Scheduler.{
  Issue, Env, IssueMeta, work_item, dispatch_issue_if_ready, dispatch_bound, after_gate,
  has_planning_artifacts, passes_gate, project_enabled, scheduler_gate_for_issue, find_issue,
  is_closed, resolve_synced_state,
}
use dev_bot.Scheduler.Dispatch.{IsReady, Submitted-dispatch_issue_if_ready}
use dev_bot.Scheduler.Sync.{IsBusy, resolve_synced_state_cases}

abbrev issue : Issue
issue = record { number = some "3"; state = "OPEN" }

abbrev env : Env
env = record {
  ensure_issue_thread_binding = λ k. ok 9;
  is_active = λ t. false;
  has_artifact = λ t name. true;
  load_issue = λ t. some issue;
  github_project_id = "P";
  get_issue_project_fields = λ repo n. ok (record { state = "Ready"; plan = "Approved" });
  upper = λ s. s;
  while_asked = λ s. s;
}

submits :
    dispatch_issue_if_ready env init 0 "o/r#3" "o/r" 3 "Ready"
    ≡ ok (enqueue init (work_item 9 "o/r#3" "o/r" issue)).0
unfolding dispatch_issue_if_ready dispatch_bound after_gate has_planning_artifacts passes_gate
    project_enabled scheduler_gate_for_issue find_issue is_closed is_running is_queued contains
    Dict.get strip strip_left strip_right is_space
submits = refl

Submitted-dispatch_issue_if_ready_example :
    ((enqueue init (work_item 9 "o/r#3" "o/r" issue)).0 ≡ init)
    ⊎ ((enqueue init (work_item 9 "o/r#3" "o/r" issue)).0 ≡ after_gate env init)
    ⊎ ((bound : ℕ) × ((bound ≡ 0) ⊎ (env.ensure_issue_thread_binding "o/r#3" ≡ ok bound))
        × (0 < bound)
        × (found : Issue) × IsReady env init bound "o/r#3" "o/r" 3 "Ready" found
        × ((enqueue init (work_item 9 "o/r#3" "o/r" issue)).0
            ≡ (enqueue (after_gate env init) (work_item bound "o/r#3" "o/r" found)).0))
Submitted-dispatch_issue_if_ready_example =
    Submitted-dispatch_issue_if_ready env init "o/r" "o/r#3" 3 "Ready" 0
      (enqueue init (work_item 9 "o/r#3" "o/r" issue)).0 submits

abbrev meta : IssueMeta
meta = record { status = "Rework"; thread_id = 9 }

resolve_synced_state_cases_example :
    ((or_else "In Progress" (strip meta.status) ≡ "In Progress")
      × (strip meta.status ≡ "Rework")
      × ¬ IsBusy env init "o/r#3" 9
      × (resolve_synced_state env init "o/r#3" "In Progress" meta ≡ "Rework"))
    ⊎ (((or_else "In Progress" (strip meta.status) ≢ "In Progress")
          ⊎ (strip meta.status ≢ "Rework")
          ⊎ IsBusy env init "o/r#3" 9)
        × (resolve_synced_state env init "o/r#3" "In Progress" meta
            ≡ or_else "In Progress" (strip meta.status)))
resolve_synced_state_cases_example = resolve_synced_state_cases env init "o/r#3" "In Progress" meta
