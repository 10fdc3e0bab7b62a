-- ===== src/Delivery/Tests.antt =====
-- app/pipeline.py: a run with one candidate.
use dev_bot.Base.{String, ℕ, zero, suc, ◌≡◌, refl, inl, inr, true, false, none, some, List, [], ◌∷◌}
use dev_bot.Base.Lists.{Among}
use dev_bot.Base.Result.{ok, err}
use dev_bot.Candidates.Scoring.{CandidateExecutionResult}
use dev_bot.Candidates.Selection.{select_candidate_result, select_among, successful}
use dev_bot.ProofOfWork.{
  listed, Workflow, Section, evaluate_proof_of_work, missing_from, required_artifacts,
}
use dev_bot.Repair.{resolve_candidate_ids}
use dev_bot.Delivery.{
  execute_run, finish_run, accept_winner, deliver, commit_and_push, push_changes, resolve_winner,
  cleanup_loser_workspaces, losers_removed, finalize_incident_bundle,
}
use dev_bot.Delivery.Effects.{AttemptStatus, Effect, World, perform, performs, caught}
use dev_bot.Delivery.Ordered.{IsDeliverable, CreatedBefore}
use dev_bot.Delivery.Delivered.{create_pull_request-IsDeliverable, completed-CreatedBefore}
use dev_bot.Delivery.Left.{left_by}
use dev_bot.Delivery.Ending.{execute_run-ending}
use dev_bot.Delivery.Ending.Phases.{ending, ended}
use dev_bot.Delivery.Unlisted.{unlisted_artifact}
use dev_bot.Base.Eq.{string_eq}
use dev_bot.Base.Sets.{contains}
use dev_bot.Base.Items.{nonblank}
use dev_bot.Base.Text.{strip}

abbrev won : CandidateExecutionResult
won = record {
  candidate_id = "primary";
  changed_files = "app/a.py" ∷ [];
  scope_analysis = record {
    unexpected_file_count = none;
    must_not_touch_violations = [];
    protected_config_violations = [];
  };
  command_results = [];
  review = record {
    postable_findings = [];
    findings = [];
    unnecessary_changes = [];
    protected_path_touches = [];
  };
  proof_complete = true;
  missing_artifacts = [];
  success = true;
  failure_type = "";
  duration_ms = 5;
}

abbrev calm : World
calm = record {
  fails = λ e s. none;
  bundle_exists = λ s. false;
  thread_id = "7";
  channel_found = true;
  artifacts_found = true;
  plan_files = record { candidate_files = []; task_files = [] };
  workflow = record { verification = Section.no_dict; proof_of_work = Section.no_dict };
  bundle_enabled = false;
  candidate_mode = none;
  decision_enabled = false;
  decision_ids = [];
  prepared = record { workspace = "/w"; branch_name = "agent/1"; base_branch = "main" };
  candidate_results = won ∷ [];
  workspace_of = λ r. record { workspace = "/w"; branch_name = "agent/1"; base_branch = "main" };
  failure_state_of = λ r. "Rework";
  returncode_of = λ r. "1";
  judge_answer = err "no judge";
  cleanup_losers = true;
  has_changes = true;
  has_local_main = true;
  has_remote_main = true;
  posts_inline = false;
  pr_number = "3";
  pr_url = "https://example.org/3";
}

-- The member at a place of a list.
module _ {A : Type 0} where
  abbrev At : A → List A → ℕ → Type 0
  At e [] n = ⊥
  At e (x ∷ s) zero = e ≡ x
  At e (x ∷ s) (suc n) = At e s n

  Among-of_At : (e : A) (s : List A) (n : ℕ) → At e s n → Among e s
  Among-of_At e [] n h = absurd h
  Among-of_At e (x ∷ s) zero h = inl h
  Among-of_At e (x ∷ s) (suc n) h = inr (Among-of_At e s n h)

execute_run-ending_example :
    ((execute_run calm []).0 ≡ ok tt) × (left_by (execute_run calm []).1 ≡ ending calm (some won))
unfolding select_candidate_result select_among successful
execute_run-ending_example =
    execute_run-ending calm (some won) won [] (λ e s. refl) refl refl refl refl

created : Among (Effect.create_pull_request "agent/1" "main") (execute_run calm []).1
unfolding execute_run finish_run accept_winner deliver commit_and_push push_changes performs perform
    resolve_candidate_ids select_candidate_result select_among successful resolve_winner
    cleanup_loser_workspaces losers_removed finalize_incident_bundle evaluate_proof_of_work
    missing_from required_artifacts caught
created = Among-of_At (Effect.create_pull_request "agent/1" "main") (execute_run calm []).1 17 refl

marked :
    Among (Effect.write_manifest AttemptStatus.completed (some "primary")) (execute_run calm []).1
unfolding execute_run finish_run accept_winner deliver commit_and_push push_changes performs perform
    resolve_candidate_ids select_candidate_result select_among successful resolve_winner
    cleanup_loser_workspaces losers_removed finalize_incident_bundle evaluate_proof_of_work
    missing_from required_artifacts caught
marked =
    Among-of_At (Effect.write_manifest AttemptStatus.completed (some "primary"))
      (execute_run calm []).1 7 refl

create_pull_request-IsDeliverable_example :
    (workspace : String) × (bootstrap : String) × IsDeliverable calm workspace "agent/1"
    × Among (Effect.push_branch workspace "agent/1" bootstrap) (execute_run calm []).1
    × Among (Effect.git_commit workspace) (execute_run calm []).1
create_pull_request-IsDeliverable_example =
    create_pull_request-IsDeliverable calm "agent/1" "main" created

completed-CreatedBefore_example :
    Among Effect.ready_pull_request (execute_run calm []).1 × CreatedBefore (execute_run calm []).1
completed-CreatedBefore_example = completed-CreatedBefore calm (some "primary") marked

-- The artifacts that WORKFLOW.md requires.
abbrev own_workflow : Workflow
own_workflow = record {
  verification = Section.dict (
      listed (
        "issue_snapshot.json" ∷ "requirement_summary.json" ∷ "plan.json" ∷ "test_plan.json"
        ∷ "verification_plan.json" ∷ "changed_files.json" ∷ "implementation_result.json"
        ∷ "repair_feedback.json" ∷ "review_result.json" ∷ "review_decision.json"
        ∷ "review_findings.json" ∷ "postable_findings.json" ∷ "verification.json"
        ∷ "final_summary.json" ∷ "run.log" ∷ "workpad_updates.jsonl" ∷ "runner_metadata.json"
        ∷ "incident_bundle_manifest.json" ∷ "incident_bundle_summary.md" ∷ []));
  proof_of_work = Section.no_dict;
}

abbrev own : World
own = record calm { workflow = own_workflow }

asks_more : Among "repair_feedback.json" (required_artifacts own_workflow)
unfolding required_artifacts nonblank strip
asks_more = Among-of_At "repair_feedback.json" (required_artifacts own_workflow) 7 refl

unlisted_artifact_example :
    left_by (execute_run own []).1 ≡ ended "Rework" AttemptStatus.failed (some won.candidate_id) 0
unfolding select_candidate_result select_among successful contains
unlisted_artifact_example =
    unlisted_artifact own won won [] "repair_feedback.json" asks_more refl (λ e s. refl) refl refl
      refl refl
