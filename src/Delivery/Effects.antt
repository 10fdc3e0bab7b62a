-- ===== src/Delivery/Effects.antt =====
-- app/pipeline.py: the calls by which a run changes the world, and what the world answers.
--
-- An artifact is named by its file name, also in the run's folder of attempts. The trace of a run has its calls, the last one first. Any call may raise: `fails` decides it from the call and
-- the trace. A call that raises stands in the trace, since it may have had its effect.
use dev_bot.Base.{String, Bool, Option, none, some, List, [], ◌∷◌}
use dev_bot.Base.Result.{Result, ok, err}
use dev_bot.Base.Action.{Action, ◌>>◌, pure}
use dev_bot.Candidates.Scoring.{PlanFiles, CandidateExecutionResult}
use dev_bot.Candidates.Tiebreak.{JudgeResult}
use dev_bot.ProofOfWork.{Workflow}

pub record RunWorkspace : Type 0 where
  pub workspace : String
  pub branch_name : String
  pub base_branch : String

-- The texts "failed", "winner_selected" and "completed" of the attempt's manifest.
pub data AttemptStatus : Type 0 where
  failed winner_selected completed : AttemptStatus

-- What is written is given where a later decision or a reader depends on it.
pub data Effect : Type 0 where
  create_attempt create_execution_run load_issue_snapshot : Effect
  append_run_log : String → Effect
  telemetry : (event status : String) → Effect
  note_activity : (phase status : String) → Effect
  write_artifact write_execution_artifact write_attempt_artifact : String → Effect
  write_manifest : AttemptStatus → Option String → Effect
  write_summary : (success : Bool) (state failure_type : String) → Effect
  update_status update_runtime_status : String → Effect
  update_workspace : RunWorkspace → Effect
  -- The status and the pull request in one update, which also clears the runtime status.
  update_pull_request : (status number url : String) → Effect
  update_issue_state : String → Effect
  upsert_workpad_comment : (state latest_attempt : String) → Effect
  write_workpad_update : String → Effect
  send : String → Effect
  prepare_workspace materialize_bundle freeze_bundle cleanup_bundle : Effect
  execute_candidates : List String → Effect
  judge_tiebreak : Effect
  promote_to_views : String → Effect
  remove_worktree remove_directory : String → Effect
  git_status git_add git_commit git_verify_main git_ls_remote : String → Effect
  push_branch : (workspace branch bootstrap : String) → Effect
  create_pull_request : (head base : String) → Effect
  get_pull_request_status ready_pull_request post_inline create_issue_comment : Effect

abbrev pub Trace : Type 0
Trace = List Effect

-- What the caller and the workflow give, and what the collaborators answer. The code that Codex returned and the
-- number and the address of the pull request are texts.
pub record World : Type 0 where
  pub fails : Effect → Trace → Option String
  pub bundle_exists : Trace → Bool
  pub thread_id : String
  pub channel_found : Bool
  pub artifacts_found : Bool
  pub plan_files : PlanFiles
  pub workflow : Workflow
  pub bundle_enabled : Bool
  pub candidate_mode : Option Bool
  pub decision_enabled : Bool
  pub decision_ids : List String
  pub prepared : RunWorkspace
  pub candidate_results : List CandidateExecutionResult
  pub workspace_of : CandidateExecutionResult → RunWorkspace
  pub failure_state_of : CandidateExecutionResult → String
  pub returncode_of : CandidateExecutionResult → String
  pub judge_answer : Result String JudgeResult
  pub cleanup_losers : Bool
  pub has_changes : Bool
  pub has_local_main : Bool
  pub has_remote_main : Bool
  pub posts_inline : Bool
  pub pr_number : String
  pub pr_url : String

abbrev pub Run {ℓ} : Type ℓ → Type ℓ
Run A = Action Trace String A

abbrev pub outcome_of : Option String → Result String (Unit {0})
outcome_of none = ok tt
outcome_of (some why) = err why

unfoldable pub perform : World → Effect → Run (Unit {0})
perform w e s = (outcome_of (w.fails e s), e ∷ s)

unfoldable pub performs : World → List Effect → Run (Unit {0})
performs w [] = pure tt
performs w (e ∷ es) = perform w e >> performs w es

-- A result that is computed without a call.
abbrev pub lift {ℓ} : {A : Type ℓ} → Result String A → Run A
lift r s = (r, s)

abbrev pub and_go_on : Result String (Unit {0}) × Trace → Result String (Unit {0}) × Trace
and_go_on (r, s) = (ok tt, s)

-- try: …, except Exception: what was done stays done
unfoldable pub caught : Run (Unit {0}) → Run (Unit {0})
caught call s = and_go_on (call s)
