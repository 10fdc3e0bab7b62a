-- ===== src/Delivery.antt =====
-- app/pipeline.py: `execute_run`, from the planning artifacts to the pull request.
--
-- The candidates' own runs, the texts of the workpad and of the pull request, and the payloads of the artifacts
-- are not part of the model; the run of the candidates is one call, and its results are the world's answer.
pub mod Effects
mod Tests
pub mod Told
pub mod Ordered
pub mod Keeping
pub mod Pushing
pub mod Delivered
pub mod Left
pub mod Ending
pub mod Unlisted
use dev_bot.Base.{
  ℕ, String, Bool, true, false, not, ◌&&◌, ◌||◌, Option, none, some, List, [], ◌∷◌, ◌++◌, ltb,
  if◌then◌else◌,
}
use dev_bot.Base.Eq.{string_eq, ◌==◌}
use dev_bot.Base.Lists.{length}
use dev_bot.Base.Text.{is_empty, or_else}
use dev_bot.Base.Join.{concat, join}
use dev_bot.Base.Result.{Result, ok, err}
use dev_bot.Base.Action.{Action, ◌>>=◌, ◌>>◌, pure, raise, raise_if}
use dev_bot.Candidates.Scoring.{CandidateExecutionResult}
use dev_bot.Candidates.Selection.{SelectionPayload, Selected, select_candidate_result}
use dev_bot.Candidates.Tiebreak.{Resolution, TiebreakPayload, resolve_exact_tie_winner}
use dev_bot.ProofOfWork.{ProofCheckResult, evaluate_proof_of_work}
use dev_bot.Repair.{resolve_candidate_ids}
use dev_bot.Delivery.Effects.{
  RunWorkspace, AttemptStatus, Effect, Trace, World, Run, perform, performs, lift, caught,
}

-- `_update_issue_tracking`
abbrev pub update_issue_tracking : String → String → List Effect
update_issue_tracking state latest_attempt =
    Effect.update_issue_state state
    ∷ Effect.upsert_workpad_comment state latest_attempt
    ∷ Effect.write_workpad_update state
    ∷ []

abbrev pub run_started : List Effect
run_started =
    Effect.create_attempt
      ∷ Effect.create_execution_run
      ∷ Effect.append_run_log "run start"
      ∷ Effect.telemetry "run_started" "running"
      ∷ Effect.load_issue_snapshot
      ∷ Effect.write_execution_artifact "issue_snapshot.json"
      ∷ Effect.write_artifact "issue_snapshot.json"
      ∷ Effect.update_status "In Progress"
      ∷ Effect.update_runtime_status "running"
      ∷ Effect.note_activity "run_start" "running"
      ∷ update_issue_tracking "In Progress" "run started"
    ++ Effect.send "run を開始しました。workspace を準備します。" ∷ []

abbrev pub workspace_prepared : World → List Effect
workspace_prepared w =
    Effect.prepare_workspace
    ∷ Effect.note_activity "workspace" "running"
    ∷ Effect.write_artifact "workspace.json"
    ∷ Effect.update_workspace w.prepared
    ∷ Effect.telemetry "workspace_prepared" "ok"
    ∷ (if w.bundle_enabled then Effect.materialize_bundle ∷ [] else [])

abbrev pub announce : List String → List Effect
announce ids =
    if ltb 1 (length ids)
    then Effect.send (concat ("candidate mode を有効化しました。候補: " ∷ join ", " ids ∷ [])) ∷ []
    else []

abbrev pub inputs_written : List String → List Effect
inputs_written ids =
    Effect.write_execution_artifact "workflow.json"
    ∷ Effect.write_execution_artifact "requirement_summary.json"
    ∷ Effect.write_execution_artifact "plan.json"
    ∷ Effect.write_execution_artifact "test_plan.json"
    ∷ Effect.write_execution_artifact "verification_plan.json"
    ∷ Effect.write_execution_artifact "candidate_decision.json"
    ∷ Effect.write_execution_artifact "issue.json"
    ∷ Effect.write_attempt_artifact "requirement_summary.json"
    ∷ Effect.write_attempt_artifact "plan.json"
    ∷ Effect.write_attempt_artifact "test_plan.json"
    ∷ Effect.write_attempt_artifact "verification_plan.json"
    ∷ Effect.write_attempt_artifact "candidate_decision.json"
    ∷ Effect.write_execution_artifact "effective_workflow.json"
    ∷ Effect.write_attempt_artifact "effective_workflow.json"
    ∷ Effect.write_execution_artifact "scope_contract.json"
    ∷ Effect.write_attempt_artifact "scope_contract.json"
    ∷ Effect.write_execution_artifact "runner_metadata.json"
    ∷ Effect.write_attempt_artifact "attempt_manifest.json"
    ∷ announce ids

abbrev pub run_candidate_ids : World → List String
run_candidate_ids w = resolve_candidate_ids w.candidate_mode w.decision_enabled w.decision_ids

-- `_finalize_incident_bundle`
unfoldable pub finalize_incident_bundle : World → Run (Unit {0})
finalize_incident_bundle w s =
    if w.bundle_enabled && w.bundle_exists s
    then performs w (Effect.freeze_bundle ∷ Effect.cleanup_bundle ∷ []) s
    else (ok tt, s)

-- `_finalize_failure`
abbrev pub failure_recorded : String → String → String → List Effect
failure_recorded state failure_type latest_attempt =
    Effect.update_status state
    ∷ Effect.update_runtime_status ""
    ∷ Effect.write_summary false state failure_type
    ∷ Effect.write_artifact "final_summary.json"
    ∷ Effect.write_execution_artifact "final_result.json"
    ∷ Effect.write_artifact "final_result.json"
    ∷ Effect.note_activity "run_failed" "failed"
    ∷ Effect.telemetry "run_failed" state
    ∷ update_issue_tracking state latest_attempt

unfoldable pub finalize_failure : World → String → String → String → Run (Unit {0})
finalize_failure w state failure_type latest_attempt =
    performs w (failure_recorded state failure_type latest_attempt)

-- What the run does of `_resolve_exact_tie_winner`: the judge's answer is the world's.
abbrev pub tiebreak_written : Option TiebreakPayload → List Effect
tiebreak_written none = []
tiebreak_written (some artifact) =
    Effect.judge_tiebreak
    ∷ Effect.write_attempt_artifact "winner_tiebreak_judge.json"
    ∷ Effect.write_execution_artifact "winner_tiebreak_judge.json"
    ∷ []

abbrev pub tie_resolved : World → Resolution → Run (Option CandidateExecutionResult)
tie_resolved w (r, payload, artifact) = do performs w (tiebreak_written artifact); pure (some r)

unfoldable pub resolve_winner : World → Selected → Run (Option CandidateExecutionResult)
resolve_winner w (none, payload) = pure none
resolve_winner w (some r, payload) =
    if payload.exact_tie_detected
    then lift (resolve_exact_tie_winner w.candidate_results r payload w.judge_answer)
      >>= tie_resolved w
    else pure (some r)

-- `_candidate_failure_message`
unfoldable pub candidate_failure_message : String → String → String
candidate_failure_message failure_type returncode =
    if failure_type == "codex_failure"
    then concat ("Codex 実装で失敗しました。終了コード: `" ∷ returncode ∷ "`" ∷ [])
    else if failure_type == "hard_check_failed"
    then "verification の hard check が失敗しました。`/status` と `/why-failed` を確認してください。"
    else if failure_type == "environment_blocked"
    then "verification 環境の bootstrap に失敗したため run を停止しました。環境要因を解消してから再実行してください。"
    else if failure_type == "review_reject"
    then "review が reject を返したため PR 作成を中止しました。"
    else if failure_type == "review_repairable"
    then "review が follow-up 修正を要求したため PR 作成を中止しました。"
    else if failure_type == "candidate_proof_incomplete"
    then "candidate artifact が不足しているため run を継続できませんでした。"
    else if failure_type == "scope_violation"
    then "変更範囲が plan の `must_not_touch` または期待ファイル範囲を外れたため run を停止しました。"
    else if failure_type == "protected_config_violation"
    then concat (
        "protected config を変更したため run を停止しました。 例外が必要な場合は issue に `" ∷ "allow-protected-config"
        ∷ "` ラベルを付け、`" ∷ "保護設定変更許可リスト"
        ∷ "` セクションまたは `protected_config_allowlist.json` で許可対象を明示してください。" ∷ [])
    else if failure_type == "policy_violation"
    then "禁止または高リスクの workflow command を検出したため run を停止しました。"
    else if is_empty failure_type
    then "run が失敗しました。`/status` を確認してください。"
    else "verification が失敗しました。`/status` と `/why-failed` を確認してください。"

abbrev pub ending_message :
    World → CandidateExecutionResult → List CandidateExecutionResult → List Effect
ending_message w r [] =
    Effect.send (candidate_failure_message r.failure_type (w.returncode_of r)) ∷ []
ending_message w r (other ∷ rs) = Effect.send "すべての candidate が失敗したため run を終了しました。" ∷ []

unfoldable pub fail_without_winner : World → List CandidateExecutionResult → Run (Unit {0})
fail_without_winner w [] = do
  performs w (Effect.write_manifest AttemptStatus.failed none ∷ [])
  raise "IndexError"
fail_without_winner w (r ∷ rs) = do
  performs w (Effect.write_manifest AttemptStatus.failed none ∷ [])
  finalize_incident_bundle w
  finalize_failure w (w.failure_state_of r) (or_else r.failure_type "candidate_failed")
      (concat ("candidate " ∷ r.candidate_id ∷ " failed" ∷ []))
  performs w (ending_message w r rs)

abbrev promoted_names : List String
promoted_names =
    "runner_metadata.json" ∷ "implementation_result.json" ∷ "changed_files.json"
    ∷ "scope_analysis.json" ∷ "verification_plan.json" ∷ "effective_workflow.json"
    ∷ "repair_feedback.json" ∷ "command_results.json" ∷ "verification_result.json"
    ∷ "verification_summary.json" ∷ "verification.json" ∷ "review_result.json"
    ∷ "review_decision.json" ∷ "review_summary.json" ∷ "review_findings.json"
    ∷ "postable_findings.json" ∷ []

abbrev pub both_written : List String → List Effect
both_written [] = []
both_written (name ∷ names) =
    Effect.write_execution_artifact name ∷ Effect.write_artifact name ∷ both_written names

-- `_promote_candidate_result`
abbrev pub promote_candidate_result : CandidateExecutionResult → List Effect
promote_candidate_result r =
    both_written promoted_names ++ Effect.promote_to_views r.candidate_id ∷ []

-- `_cleanup_loser_workspaces`; `parent` of the workspace is named by the workspace
abbrev pub loser_removed : World → String → CandidateExecutionResult → List Effect
loser_removed w winner_id r =
    if r.candidate_id == winner_id || r.candidate_id == "primary"
    then []
    else Effect.remove_worktree (w.workspace_of r).workspace
      ∷ Effect.remove_directory (w.workspace_of r).workspace
      ∷ []

unfoldable pub losers_removed : World → String → List CandidateExecutionResult → List Effect
losers_removed w winner_id [] = []
losers_removed w winner_id (r ∷ rs) = loser_removed w winner_id r ++ losers_removed w winner_id rs

unfoldable pub cleanup_loser_workspaces : World → CandidateExecutionResult → List Effect
cleanup_loser_workspaces w winner =
    if w.cleanup_losers then losers_removed w winner.candidate_id w.candidate_results else []

abbrev pub winner_announced : World → CandidateExecutionResult → List Effect
winner_announced w r =
    (if ltb 1 (length w.candidate_results)
      then Effect.send (
          concat (
            "winner は `"
            ∷ r.candidate_id
            ∷ "` です。branch: `"
            ∷ (w.workspace_of r).branch_name
            ∷ "`"
            ∷ []))
        ∷ []
      else [])
    ++ Effect.send "Codex 実装が完了しました。検証を開始します。" ∷ []

unfoldable pub accept_winner : World → CandidateExecutionResult → Run (Unit {0})
accept_winner w r = do
  performs w (Effect.write_manifest AttemptStatus.winner_selected (some r.candidate_id) ∷ [])
  performs w (promote_candidate_result r)
  performs w (
      Effect.write_attempt_artifact "final_attempt_summary.json"
      ∷ Effect.write_attempt_artifact "proof_result.json"
      ∷ Effect.write_execution_artifact "proof_result.json"
      ∷ Effect.update_workspace (w.workspace_of r)
      ∷ [])
  performs w (cleanup_loser_workspaces w r)
  performs w (winner_announced w r)
  performs w (Effect.write_summary true "Human Review" "" ∷ [])
  finalize_incident_bundle w

-- The artifacts that the run counts as present.
abbrev pub run_artifacts : List String
run_artifacts =
    "issue_snapshot.json" ∷ "requirement_summary.json" ∷ "plan.json" ∷ "test_plan.json"
    ∷ "verification_plan.json" ∷ "changed_files.json" ∷ "implementation_result.json"
    ∷ "review_result.json" ∷ "review_findings.json" ∷ "verification_result.json"
    ∷ "verification.json" ∷ "final_summary.json" ∷ "run.log" ∷ "workpad_updates.jsonl"
    ∷ "runner_metadata.json" ∷ "incident_bundle_manifest.json" ∷ "incident_bundle_summary.md" ∷ []

abbrev pub run_proof : World → ProofCheckResult
run_proof w = evaluate_proof_of_work w.workflow run_artifacts

abbrev pub bootstrap_branch : World → String
bootstrap_branch w = if w.has_local_main && not w.has_remote_main then "main" else ""

unfoldable pub push_changes : World → RunWorkspace → Bool → Run Bool
push_changes w ws false = pure false
push_changes w ws true = do
  performs w (
      Effect.git_add ws.workspace
      ∷ Effect.git_commit ws.workspace
      ∷ Effect.git_verify_main ws.workspace
      ∷ (if w.has_local_main then Effect.git_ls_remote ws.workspace ∷ [] else []))
  performs w (Effect.push_branch ws.workspace ws.branch_name (bootstrap_branch w) ∷ [])
  pure true

-- `_commit_and_push`
unfoldable pub commit_and_push : World → RunWorkspace → Run Bool
commit_and_push w ws = do
  performs w (Effect.git_status ws.workspace ∷ [])
  push_changes w ws w.has_changes

abbrev pub pull_request_recorded : List Effect
pull_request_recorded =
    Effect.write_artifact "pr.json"
    ∷ Effect.write_execution_artifact "pr.json"
    ∷ Effect.create_issue_comment
    ∷ Effect.write_summary true "Human Review" ""
    ∷ Effect.write_artifact "final_summary.json"
    ∷ Effect.write_execution_artifact "final_result.json"
    ∷ Effect.write_artifact "final_result.json"
    ∷ []

abbrev pub run_completed : World → CandidateExecutionResult → List Effect
run_completed w r =
    Effect.write_manifest AttemptStatus.completed (some r.candidate_id)
    ∷ Effect.update_pull_request "Human Review" w.pr_number w.pr_url
    ∷ []

abbrev pub completion_told : World → List Effect
completion_told w =
    Effect.note_activity "completed" "completed"
      ∷ Effect.telemetry "run_finished" "ok"
      ∷ update_issue_tracking "Human Review" "draft pr created"
    ++ Effect.send
        (concat ("draft PR を作成しました。\n- PR: #" ∷ w.pr_number ∷ "\n- URL: " ∷ w.pr_url ∷ []))
      ∷ []

-- From the pull request to the end of the run.
unfoldable pub deliver : World → CandidateExecutionResult → Run (Unit {0})
deliver w r = do
  let ws = w.workspace_of r
  performs w (Effect.create_pull_request ws.branch_name ws.base_branch ∷ [])
  caught (performs w (Effect.get_pull_request_status ∷ []))
  performs w (Effect.ready_pull_request ∷ [])
  performs w (if w.posts_inline then Effect.post_inline ∷ [] else [])
  performs w pull_request_recorded
  performs w (run_completed w r)
  performs w (completion_told w)

unfoldable pub fail_without_proof : World → CandidateExecutionResult → Run (Unit {0})
fail_without_proof w r = do
  performs w (Effect.write_manifest AttemptStatus.failed (some r.candidate_id) ∷ [])
  finalize_failure w "Rework" "missing_artifacts" "proof of work incomplete"
  performs w (Effect.send "proof-of-work artifact が不足しているため完了できませんでした。" ∷ [])

unfoldable pub fail_without_changes : World → CandidateExecutionResult → Run (Unit {0})
fail_without_changes w r = do
  finalize_incident_bundle w
  performs w (Effect.write_manifest AttemptStatus.failed (some r.candidate_id) ∷ [])
  finalize_failure w "Rework" "no_changes" "no changes to commit"
  performs w (Effect.send "変更差分が作られなかったため PR 作成を中止しました。" ∷ [])

abbrev pub deliver_if_pushed : World → CandidateExecutionResult → Bool → Run (Unit {0})
deliver_if_pushed w r true = deliver w r
deliver_if_pushed w r false = fail_without_changes w r

abbrev pub push_if_complete : World → CandidateExecutionResult → Bool → Run (Unit {0})
push_if_complete w r true = do
  pushed ← commit_and_push w (w.workspace_of r)
  deliver_if_pushed w r pushed
push_if_complete w r false = fail_without_proof w r

unfoldable pub finish_run : World → Option CandidateExecutionResult → Run (Unit {0})
finish_run w none = fail_without_winner w w.candidate_results
finish_run w (some r) = do accept_winner w r; push_if_complete w r (run_proof w).complete

abbrev pub no_channel : World → String
no_channel w = concat ("Chat channel not found for thread_id=" ∷ w.thread_id ∷ [])

abbrev pub no_artifacts : String
no_artifacts = "Missing planning artifacts before run."

unfoldable pub execute_run : World → Run (Unit {0})
execute_run w = do
  raise_if (not w.channel_found) (no_channel w)
  raise_if (not w.artifacts_found) no_artifacts
  performs w run_started
  performs w (workspace_prepared w)
  performs w (inputs_written (run_candidate_ids w))
  performs w (Effect.execute_candidates (run_candidate_ids w) ∷ [])
  selected ← lift (select_candidate_result w.plan_files w.candidate_results)
  winner ← resolve_winner w selected
  performs w (Effect.write_attempt_artifact "winner_selection.json" ∷ [])
  finish_run w winner
