-- ===== src/Delivery/Told.antt =====
-- app/pipeline.py: the lists of calls whose length depends on the run, and what holds of all their calls.
use dev_bot.Base.{
  String, Bool, true, false, ◌||◌, Option, none, some, List, [], ◌∷◌, ltb, if◌then◌else◌,
}
use dev_bot.Base.Eq.{string_eq, ◌==◌}
use dev_bot.Base.Lists.{All, All-append, length}
use dev_bot.Candidates.Scoring.{CandidateExecutionResult}
use dev_bot.Candidates.Tiebreak.{TiebreakPayload}
use dev_bot.Delivery.{
  announce, tiebreak_written, ending_message, loser_removed, losers_removed,
  cleanup_loser_workspaces, winner_announced,
}
use dev_bot.Delivery.Effects.{Effect, World}

module _ (P : Effect → Type 0) where
  pub All-either :
      (b : Bool) (es fs : List Effect) → All P es → All P fs → All P (if b then es else fs)
  All-either true es fs h k = h
  All-either false es fs h k = k

  module _ (send : (s : String) → P (Effect.send s)) where
    pub announce-All : (ids : List String) → All P (announce ids)
    announce-All ids = All-either (ltb 1 (length ids)) _ [] (send _, tt) tt

    pub ending_message-All :
        (w : World) (r : CandidateExecutionResult) (rs : List CandidateExecutionResult)
        → All P (ending_message w r rs)
    ending_message-All w r [] = (send _, tt)
    ending_message-All w r (x ∷ rs) = (send _, tt)

    pub winner_announced-All :
        (w : World) (r : CandidateExecutionResult) → All P (winner_announced w r)
    winner_announced-All w r =
        All-append P _ _ (All-either (ltb 1 (length w.candidate_results)) _ [] (send _, tt) tt)
          (send _, tt)

  pub tiebreak_written-All :
      (artifact : Option TiebreakPayload)
      → P Effect.judge_tiebreak
      → P (Effect.write_attempt_artifact "winner_tiebreak_judge.json")
      → P (Effect.write_execution_artifact "winner_tiebreak_judge.json")
      → All P (tiebreak_written artifact)
  tiebreak_written-All none p q r = tt
  tiebreak_written-All (some a) p q r = (p, (q, (r, tt)))

  module _ (worktree : (s : String) → P (Effect.remove_worktree s))
      (directory : (s : String) → P (Effect.remove_directory s)) where
    loser_removed-All :
        (w : World) (id : String) (r : CandidateExecutionResult) → All P (loser_removed w id r)
    loser_removed-All w id r =
        All-either (r.candidate_id == id || r.candidate_id == "primary") []
          (Effect.remove_worktree (w.workspace_of r).workspace
            ∷ Effect.remove_directory (w.workspace_of r).workspace
            ∷ [])
          tt (worktree _, (directory _, tt))

    losers_removed-All :
        (w : World) (id : String) (rs : List CandidateExecutionResult)
        → All P (losers_removed w id rs)
    unfolding losers_removed
    losers_removed-All w id [] = tt
    losers_removed-All w id (r ∷ rs) =
        All-append P _ _ (loser_removed-All w id r) (losers_removed-All w id rs)

    pub cleanup-All :
        (w : World) (r : CandidateExecutionResult) → All P (cleanup_loser_workspaces w r)
    unfolding cleanup_loser_workspaces
    cleanup-All w r =
        All-either w.cleanup_losers _ [] (losers_removed-All w r.candidate_id w.candidate_results)
          tt
