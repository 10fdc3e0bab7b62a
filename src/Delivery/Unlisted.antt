-- ===== src/Delivery/Unlisted.antt =====
-- app/pipeline.py: the run counts a fixed list of artifacts as present, so that a workflow may ask for more than any run
-- can show.
use dev_bot.Base.{
  ◌≡◌, sym, ap, ◌∙◌, inl, inr, String, true, false, ◌&&◌, some, List, [], ◌∷◌, if◌then◌else◌,
  Bool-cases,
}
use dev_bot.Base.Eq.{string_eq}
use dev_bot.Base.Lists.{Among, Among-All}
use dev_bot.Base.Sets.{contains}
use dev_bot.Base.Result.{ok}
use dev_bot.Candidates.Scoring.{CandidateExecutionResult}
use dev_bot.ProofOfWork.{required_artifacts}
use dev_bot.ProofOfWork.Complete.{all_available}
use dev_bot.Delivery.{run_artifacts, run_proof, execute_run}
use dev_bot.Delivery.Effects.{AttemptStatus, World}
use dev_bot.Delivery.Left.{left_by, NothingFails}
use dev_bot.Delivery.Ending.{execute_run-ending}
use dev_bot.Delivery.Ending.Phases.{chosen, ending, ended}

unlisted-incomplete :
    (w : World) (item : String)
    → Among item (required_artifacts w.workflow)
    → contains run_artifacts item ≡ false
    → (run_proof w).complete ≡ false
unlisted-incomplete w item required unlisted = elim (Bool-cases (run_proof w).complete) [
  | inr incomplete ↦ incomplete
  | inl complete ↦ absurd (
      clash (
        Among-All (λ a. contains run_artifacts a ≡ true) item (required_artifacts w.workflow)
          (all_available w.workflow run_artifacts complete) required))
]
  where
    clash : contains run_artifacts item ≡ true → ⊥
    clash listed = cc (sym listed ∙ unlisted)

incomplete-ending :
    (w : World) (r : CandidateExecutionResult)
    → (run_proof w).complete ≡ false
    → ending w (some r) ≡ ended "Rework" AttemptStatus.failed (some r.candidate_id) 0
incomplete-ending w r e =
    ap
      (λ b.
        if b && w.has_changes
        then ended "Human Review" AttemptStatus.completed (some r.candidate_id) 1
        else ended "Rework" AttemptStatus.failed (some r.candidate_id) 0)
      e

-- Where the workflow requires an artifact that is not on the run's fixed list, a run in which no call raises and a
-- candidate wins ends in Rework with a failed attempt, no push and no pull request, whatever artifacts were written.
pub unlisted_artifact :
    (w : World) (r first : CandidateExecutionResult) (rest : List CandidateExecutionResult)
    (item : String)
    → Among item (required_artifacts w.workflow)
    → contains run_artifacts item ≡ false
    → NothingFails w
    → w.channel_found ≡ true
    → w.artifacts_found ≡ true
    → w.candidate_results ≡ first ∷ rest
    → chosen w ≡ ok (some r)
    → left_by (execute_run w []).1 ≡ ended "Rework" AttemptStatus.failed (some r.candidate_id) 0
unlisted_artifact w r first rest item required unlisted calm c a e won =
    (execute_run-ending w (some r) first rest calm c a e won).1
    ∙ incomplete-ending w r (unlisted-incomplete w item required unlisted)
