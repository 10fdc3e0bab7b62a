-- ===== src/Delivery/Ending.antt =====
-- app/pipeline.py: how a run ends where none of its calls raises.
pub mod Phases
use dev_bot.Base.{
  ℕ, suc, ◌+◌, ◌≡◌, refl, sym, ap, subst, ◌∙◌, inl, inr, String, Bool, true, false, not, ◌&&◌, ◌||◌,
  Option, none, some, List, [], ◌∷◌, ◌++◌, ltb, arith, if◌then◌else◌, Bool-cases,
}
use dev_bot.Base.Eq.{string_eq, ◌==◌}
use dev_bot.Base.Lists.{All, length}
use dev_bot.Base.Result.{Result, ok, err}
use dev_bot.Base.Action.{Action, ◌>>=◌, ◌>>◌, pure, raise, raise_if, go_on}
use dev_bot.Candidates.Scoring.{CandidateExecutionResult}
use dev_bot.Candidates.Selection.{SelectionPayload, Selected, select_candidate_result}
use dev_bot.Candidates.Tiebreak.{Resolution, TiebreakPayload, resolve_exact_tie_winner}
use dev_bot.Delivery.{
  no_channel, no_artifacts, announce, run_candidate_ids, inputs_written, finalize_incident_bundle,
  finalize_failure, failure_recorded, tie_resolved, resolve_winner, fail_without_winner,
  losers_removed, cleanup_loser_workspaces, winner_announced, accept_winner, run_proof,
  push_changes, commit_and_push, deliver, fail_without_proof, fail_without_changes,
  deliver_if_pushed, push_if_complete, finish_run, execute_run, ending_message, tiebreak_written,
  pull_request_recorded, run_completed, completion_told, loser_removed, workspace_prepared,
  run_started, bootstrap_branch, promote_candidate_result,
}
use dev_bot.Delivery.Effects.{
  RunWorkspace, AttemptStatus, Effect, Trace, World, Run, performs, perform, lift, caught,
}
use dev_bot.Delivery.Told.{
  All-either, announce-All, ending_message-All, winner_announced-All, tiebreak_written-All,
  cleanup-All,
}
use dev_bot.Delivery.Left.{
  Left, notes, left_by, NothingFails, Leaves, Leaves-bind, Leaves-pure, Leaves-lift, AllQuiet,
  IsQuiet, performs-Leaves, quiet, caught-Leaves,
}
use dev_bot.Delivery.Ending.Phases.{
  winner_in, chosen_of, in_selection, chosen, no_winner, ended, ending, ended_start,
  fail_without_winner-Leaves, accept_winner-Leaves, push_if_complete-Leaves,
}

module _ (w : World) (calm : NothingFails w) where
  nobody_won-Leaves :
      (rs : List CandidateExecutionResult) (first : CandidateExecutionResult)
      (rest : List CandidateExecutionResult)
      → rs ≡ first ∷ rest
      → Leaves
          (fail_without_winner w rs)
          tt
          ended_start
          (ended (no_winner w rs) AttemptStatus.failed none 0)
  nobody_won-Leaves [] first rest e = absurd (cc e)
  nobody_won-Leaves (r ∷ rs) first rest e = fail_without_winner-Leaves w calm r rs ended_start

  finish_run-Leaves :
      (winner : Option CandidateExecutionResult) (first : CandidateExecutionResult)
      (rest : List CandidateExecutionResult)
      → w.candidate_results ≡ first ∷ rest
      → Leaves (finish_run w winner) tt ended_start (ending w winner)
  unfolding finish_run
  finish_run-Leaves none first rest e = nobody_won-Leaves w.candidate_results first rest e
  finish_run-Leaves (some r) first rest e =
      Leaves-bind _ _ (accept_winner-Leaves w calm r ended_start)
        (push_if_complete-Leaves w calm r _ (run_proof w).complete)

  tie_resolved-Leaves :
      (resolution : Result String Resolution) (winner : Option CandidateExecutionResult) (v : Left)
      → winner_in resolution ≡ ok winner
      → Leaves (lift resolution >>= tie_resolved w) winner v v
  tie_resolved-Leaves (err why) winner v e = absurd (cc e)
  tie_resolved-Leaves (ok (r, payload, artifact)) winner v e =
      let same : some r ≡ winner = ground (arith, e) in
      subst (λ o. Leaves (lift (ok (r, payload, artifact)) >>= tie_resolved w) o v v) same
        (Leaves-bind (lift (ok (r, payload, artifact))) (tie_resolved w) (Leaves-lift _ _ v refl) (
          Leaves-bind (performs w (tiebreak_written artifact)) _
            (quiet w calm (tiebreak_written artifact) v
              (tiebreak_written-All IsQuiet artifact refl refl refl))
            (Leaves-pure (some r) v)))

  after_if-Leaves :
      (tie : Bool) (r : CandidateExecutionResult) (resolution : Result String Resolution)
      (winner : Option CandidateExecutionResult) (v : Left)
      → (if tie then winner_in resolution else ok (some r)) ≡ ok winner
      → Leaves (if tie then lift resolution >>= tie_resolved w else pure (some r)) winner v v
  after_if-Leaves true r resolution winner v e = tie_resolved-Leaves resolution winner v e
  after_if-Leaves false r resolution winner v e = Leaves-lift (ok (some r)) winner v e

  resolve_winner-Leaves :
      (selected : Selected) (winner : Option CandidateExecutionResult) (v : Left)
      → chosen_of w selected ≡ ok winner
      → Leaves (resolve_winner w selected) winner v v
  unfolding resolve_winner
  resolve_winner-Leaves (none, payload) winner v e = Leaves-lift (ok none) winner v e
  resolve_winner-Leaves (some r, payload) winner v e =
      after_if-Leaves payload.exact_tie_detected r
        (resolve_exact_tie_winner w.candidate_results r payload w.judge_answer) winner v e

  selection-Leaves :
      (selected : Result String Selected) (winner : Option CandidateExecutionResult)
      (next : Option CandidateExecutionResult → Run (Unit {0})) (v u : Left)
      → in_selection w selected ≡ ok winner
      → Leaves (next winner) tt v u
      → Leaves (lift selected >>= λ choice. resolve_winner w choice >>= next) tt v u
  selection-Leaves (err why) winner next v u e h = absurd (cc e)
  selection-Leaves (ok selected) winner next v u e h =
      Leaves-bind (lift (ok selected)) (λ choice. resolve_winner w choice >>= next)
        (Leaves-lift _ _ v refl)
        (Leaves-bind (resolve_winner w selected) next (resolve_winner-Leaves selected winner v e) h)

  passes : (b : Bool) (why : String) (v : Left) → b ≡ true → Leaves (raise_if (not b) why) tt v v
  passes true why v h = Leaves-pure tt v
  passes false why v h = absurd (cc h)

  execute_run-Leaves :
      (winner : Option CandidateExecutionResult) (first : CandidateExecutionResult)
      (rest : List CandidateExecutionResult)
      → w.channel_found ≡ true
      → w.artifacts_found ≡ true
      → w.candidate_results ≡ first ∷ rest
      → chosen w ≡ ok winner
      → Leaves (execute_run w) tt (left_by []) (ending w winner)
  unfolding execute_run
  execute_run-Leaves winner first rest c a e won =
      Leaves-bind (raise_if (not w.channel_found) (no_channel w)) _ (passes _ _ _ c) (
        Leaves-bind (raise_if (not w.artifacts_found) no_artifacts) _ (passes _ _ _ a) (
          Leaves-bind (performs w run_started) _ (performs-Leaves w calm run_started _) (
            Leaves-bind (performs w (workspace_prepared w)) _
              (quiet w calm (workspace_prepared w) ended_start (
                refl,
                (
                  refl,
                  (refl, (refl, (refl, All-either IsQuiet w.bundle_enabled _ [] (refl, tt) tt))),
                ),
              ))
              (Leaves-bind (performs w (inputs_written (run_candidate_ids w))) _
                (quiet w calm (inputs_written (run_candidate_ids w)) ended_start
                  (ground (arith, announce-All IsQuiet (λ s. refl) (run_candidate_ids w))))
                (Leaves-bind (performs w (Effect.execute_candidates (run_candidate_ids w) ∷ [])) _
                  (performs-Leaves w calm _ ended_start)
                  (selection-Leaves (select_candidate_result w.plan_files w.candidate_results)
                    winner _ ended_start (ending w winner) won
                    (Leaves-bind _ _ (performs-Leaves w calm _ ended_start)
                      (finish_run-Leaves winner first rest e))))))))

-- Where no call raises, the channel and the planning artifacts are there, at least one candidate ran and the
-- selection comes to a result, the run returns and leaves one of three ends: with a winner, a complete proof and
-- changes, one push, one pull request, the attempt completed and the issue in Human Review; with a winner and
-- without one of these, Rework and a failed attempt; without a winner, the state of the first candidate's failure
-- and a failed attempt. In the last two nothing is pushed and no pull request is made.
pub execute_run-ending :
    (w : World) (winner : Option CandidateExecutionResult) (first : CandidateExecutionResult)
    (rest : List CandidateExecutionResult)
    → NothingFails w
    → w.channel_found ≡ true
    → w.artifacts_found ≡ true
    → w.candidate_results ≡ first ∷ rest
    → chosen w ≡ ok winner
    → ((execute_run w []).0 ≡ ok tt) × (left_by (execute_run w []).1 ≡ ending w winner)
execute_run-ending w winner first rest calm c a e won =
    (execute_run-Leaves w calm winner first rest c a e won).from [] refl
