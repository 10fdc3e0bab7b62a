-- ===== src/Delivery/Ending/Phases.antt =====
-- app/pipeline.py: what the phases of a run leave where none of their calls raises.
use dev_bot.Base.{
  ℕ, suc, ◌≡◌, refl, String, Bool, true, false, ◌&&◌, Option, none, some, List, [], ◌∷◌,
  if◌then◌else◌,
}
use dev_bot.Base.Eq.{string_eq}
use dev_bot.Base.Result.{Result, ok, err}
use dev_bot.Base.Action.{◌>>=◌}
use dev_bot.Candidates.Scoring.{CandidateExecutionResult}
use dev_bot.Candidates.Selection.{Selected, select_candidate_result}
use dev_bot.Candidates.Tiebreak.{Resolution, resolve_exact_tie_winner}
use dev_bot.Delivery.{
  finalize_incident_bundle, finalize_failure, failure_recorded, fail_without_winner,
  cleanup_loser_workspaces, winner_announced, accept_winner, run_proof, push_changes,
  commit_and_push, deliver, fail_without_proof, fail_without_changes, deliver_if_pushed,
  push_if_complete, ending_message, pull_request_recorded, run_completed, completion_told,
  promote_candidate_result,
}
use dev_bot.Delivery.Effects.{RunWorkspace, AttemptStatus, Effect, World, Run, performs}
use dev_bot.Delivery.Told.{All-either, ending_message-All, winner_announced-All, cleanup-All}
use dev_bot.Delivery.Left.{
  Left, left_by, NothingFails, Leaves, Leaves-bind, Leaves-pure, IsQuiet, performs-Leaves, quiet,
  caught-Leaves,
}

-- The winner, by the same choice and without its calls.
abbrev pub winner_in : Result String Resolution → Result String (Option CandidateExecutionResult)
winner_in (err why) = err why
winner_in (ok (r, payload, artifact)) = ok (some r)

abbrev pub chosen_of : World → Selected → Result String (Option CandidateExecutionResult)
chosen_of w (none, payload) = ok none
chosen_of w (some r, payload) =
    if payload.exact_tie_detected
    then winner_in (resolve_exact_tie_winner w.candidate_results r payload w.judge_answer)
    else ok (some r)

abbrev pub in_selection :
    World → Result String Selected → Result String (Option CandidateExecutionResult)
in_selection w (err why) = err why
in_selection w (ok selected) = chosen_of w selected

abbrev pub chosen : World → Result String (Option CandidateExecutionResult)
chosen w = in_selection w (select_candidate_result w.plan_files w.candidate_results)

abbrev pub no_winner : World → List CandidateExecutionResult → String
no_winner w [] = ""
no_winner w (r ∷ rs) = w.failure_state_of r

abbrev pub ended : String → AttemptStatus → Option String → ℕ → Left
ended status mark id made = record {
  status = status;
  attempt = some mark;
  winner = id;
  pushes = made;
  pull_requests = made;
}

-- The end that the run is for: a pull request in review where there is a winner with a complete proof and
-- changes, else a failure that is told to the issue, with no push and no pull request.
abbrev pub ending : World → Option CandidateExecutionResult → Left
ending w none = ended (no_winner w w.candidate_results) AttemptStatus.failed none 0
ending w (some r) =
    if (run_proof w).complete && w.has_changes
    then ended "Human Review" AttemptStatus.completed (some r.candidate_id) 1
    else ended "Rework" AttemptStatus.failed (some r.candidate_id) 0

-- What is left when a run has prepared its candidates.
abbrev pub ended_start : Left
ended_start = record {
  status = "In Progress";
  attempt = none;
  winner = none;
  pushes = 0;
  pull_requests = 0;
}

module _ (w : World) (calm : NothingFails w) where
  pub finalize_incident_bundle-Leaves : (v : Left) → Leaves (finalize_incident_bundle w) tt v v
  unfolding finalize_incident_bundle
  finalize_incident_bundle-Leaves v = record {
    from = λ s e.
        (elim (w.bundle_enabled && w.bundle_exists s)
          as (λ b.
            let done =
              if b
              then performs w (Effect.freeze_bundle ∷ Effect.cleanup_bundle ∷ []) s
              else (ok tt, s) in
            (done.0 ≡ ok tt) × (left_by done.1 ≡ v)) [
              | true ↦
                  (quiet w calm (Effect.freeze_bundle ∷ Effect.cleanup_bundle ∷ []) v
                      (refl, (refl, tt))).from
                    s e
              | false ↦ (refl, e)
            ]);
  }

  finalize_failure-Leaves :
      (state failure_type latest : String) (v : Left)
      → Leaves (finalize_failure w state failure_type latest) tt v (record v { status = state })
  unfolding finalize_failure
  finalize_failure-Leaves state failure_type latest v =
      performs-Leaves w calm (failure_recorded state failure_type latest) v

  pub fail_without_winner-Leaves :
      (r : CandidateExecutionResult) (rs : List CandidateExecutionResult) (v : Left)
      → Leaves (fail_without_winner w (r ∷ rs)) tt v (record v {
        status = w.failure_state_of r;
        attempt = some AttemptStatus.failed;
        winner = none;
      })
  unfolding fail_without_winner
  fail_without_winner-Leaves r rs v =
      Leaves-bind _ _
        (performs-Leaves w calm (Effect.write_manifest AttemptStatus.failed none ∷ []) v)
        (Leaves-bind _ _ (finalize_incident_bundle-Leaves _) (
          Leaves-bind _ _ (finalize_failure-Leaves _ _ _ _) (
            quiet w calm (ending_message w r rs) _
              (ending_message-All IsQuiet (λ s. refl) w r rs))))

  pub accept_winner-Leaves :
      (r : CandidateExecutionResult) (v : Left)
      → Leaves
          (accept_winner w r)
          tt
          v
          (record v { attempt = some AttemptStatus.winner_selected; winner = some r.candidate_id })
  unfolding accept_winner
  accept_winner-Leaves r v = Leaves-bind _ _ (performs-Leaves w calm _ v) (
      Leaves-bind _ _ (performs-Leaves w calm (promote_candidate_result r) _) (
        Leaves-bind _ _ (performs-Leaves w calm _ _) (
          Leaves-bind _ _
            (quiet w calm (cleanup_loser_workspaces w r) _
              (cleanup-All IsQuiet (λ s. refl) (λ s. refl) w r))
            (Leaves-bind _ _
              (quiet w calm (winner_announced w r) _ (winner_announced-All IsQuiet (λ s. refl) w r))
              (Leaves-bind _ _ (performs-Leaves w calm _ _) (finalize_incident_bundle-Leaves _))))))

  module _ (r : CandidateExecutionResult) where
    abbrev pub ws : RunWorkspace
    ws = w.workspace_of r

    push_changes-Leaves :
        (v : Left) (changes : Bool)
        → Leaves
            (push_changes w ws changes)
            changes
            v
            (if changes then record v { pushes = suc v.pushes } else v)
    unfolding push_changes
    push_changes-Leaves v false = Leaves-pure false v
    push_changes-Leaves v true =
        Leaves-bind _ _
          (quiet w calm _ v
            (refl, (refl, (refl, All-either IsQuiet w.has_local_main _ [] (refl, tt) tt))))
          (Leaves-bind _ _ (performs-Leaves w calm _ v) (Leaves-pure true _))

    deliver-Leaves :
        (v : Left)
        → Leaves (deliver w r) tt v (record v {
          status = "Human Review";
          attempt = some AttemptStatus.completed;
          winner = some r.candidate_id;
          pull_requests = suc v.pull_requests;
        })
    unfolding deliver
    deliver-Leaves v = Leaves-bind _ _ (performs-Leaves w calm _ v) (
        Leaves-bind _ _ (caught-Leaves w calm _ _ _ (performs-Leaves w calm _ _)) (
          Leaves-bind _ _ (performs-Leaves w calm _ _) (
            Leaves-bind _ _
              (quiet w calm _ _
                (All-either IsQuiet w.posts_inline (Effect.post_inline ∷ []) [] (refl, tt) tt))
              (Leaves-bind _ _ (performs-Leaves w calm pull_request_recorded _) (
                Leaves-bind _ _ (performs-Leaves w calm (run_completed w r) _)
                  (performs-Leaves w calm (completion_told w) _))))))

    abbrev pub reworked : Left → Left
    reworked v = record v {
      status = "Rework";
      attempt = some AttemptStatus.failed;
      winner = some r.candidate_id;
    }

    fail_without_changes-Leaves : (v : Left) → Leaves (fail_without_changes w r) tt v (reworked v)
    unfolding fail_without_changes
    fail_without_changes-Leaves v = Leaves-bind _ _ (finalize_incident_bundle-Leaves v) (
        Leaves-bind _ _ (performs-Leaves w calm _ v)
          (Leaves-bind _ _ (finalize_failure-Leaves _ _ _ _) (performs-Leaves w calm _ _)))

    fail_without_proof-Leaves : (v : Left) → Leaves (fail_without_proof w r) tt v (reworked v)
    unfolding fail_without_proof
    fail_without_proof-Leaves v =
        Leaves-bind _ _ (performs-Leaves w calm _ v)
          (Leaves-bind _ _ (finalize_failure-Leaves _ _ _ _) (performs-Leaves w calm _ _))

    -- What the branches after an accepted winner leave, from nothing pushed.
    abbrev pub after_winner : Left → Bool → Bool → Left
    after_winner v complete changes =
        if complete && changes
        then record v {
          status = "Human Review";
          attempt = some AttemptStatus.completed;
          winner = some r.candidate_id;
          pushes = suc v.pushes;
          pull_requests = suc v.pull_requests;
        }
        else reworked v

    commit_and_push-Leaves :
        (v : Left)
        → Leaves
            (commit_and_push w ws)
            w.has_changes
            v
            (if w.has_changes then record v { pushes = suc v.pushes } else v)
    unfolding commit_and_push
    commit_and_push-Leaves v =
        Leaves-bind _ _ (performs-Leaves w calm (Effect.git_status ws.workspace ∷ []) v)
          (push_changes-Leaves v w.has_changes)

    deliver_if_pushed-Leaves :
        (v : Left) (call : Run Bool) (changes : Bool)
        → Leaves call changes v (if changes then record v { pushes = suc v.pushes } else v)
        → Leaves (call >>= deliver_if_pushed w r) tt v (after_winner v true changes)
    deliver_if_pushed-Leaves v call true h =
        Leaves-bind call (deliver_if_pushed w r) h (deliver-Leaves _)
    deliver_if_pushed-Leaves v call false h =
        Leaves-bind call (deliver_if_pushed w r) h (fail_without_changes-Leaves v)

    pub push_if_complete-Leaves :
        (v : Left) (complete : Bool)
        → Leaves (push_if_complete w r complete) tt v (after_winner v complete w.has_changes)
    push_if_complete-Leaves v false = fail_without_proof-Leaves v
    push_if_complete-Leaves v true =
        deliver_if_pushed-Leaves v (commit_and_push w ws) w.has_changes (commit_and_push-Leaves v)
