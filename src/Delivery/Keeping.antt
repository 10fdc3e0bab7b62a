-- ===== src/Delivery/Keeping.antt =====
-- app/pipeline.py: the parts of a run that make only calls that nothing has to come before.
use dev_bot.Base.{refl, inl, inr, String, ◌&&◌, List, [], ◌∷◌, arith, Bool-cases}
use dev_bot.Base.Eq.{string_eq}
use dev_bot.Base.Action.{◌>>=◌, pure}
use dev_bot.Candidates.Scoring.{CandidateExecutionResult}
use dev_bot.Delivery.{
  finalize_incident_bundle, finalize_failure, fail_without_winner, accept_winner,
}
use dev_bot.Delivery.Effects.{Effect, Trace, World, Run, performs}
use dev_bot.Delivery.Told.{ending_message-All, winner_announced-All, cleanup-All}
use dev_bot.Delivery.Ordered.{
  IsFree, Ordered, Ends, returned, raised, NothingMore, GoesOn-refl, Ends-bind, AllFree, Ends-free,
}

pub Ends-pure :
    {A : Type 0} (w : World) (a : A) (s : Trace) → Ordered w s → Ends w s NothingMore (pure a s)
Ends-pure w a s h = returned (GoesOn-refl h) tt

abbrev pub Keeping : {A : Type 0} → World → Run A → Type 0
Keeping w call = (s : Trace) → Ordered w s → Ends w s NothingMore (call s)

pub Ends-then :
    {A B : Type 0} (w : World) (first : Run A) (next : A → Run B)
    → Keeping w first
    → ((a : A) → Keeping w (next a))
    → Keeping w (first >>= next)
Ends-then w first next h k s o = Ends-bind first next s (h s o) λ a t p _. k a t p.ordered

pub free : (w : World) (es : List Effect) → AllFree es → Keeping w (performs w es)
free w es f s h = Ends-free w es s h f

pub finalize_incident_bundle-Keeping : (w : World) → Keeping w (finalize_incident_bundle w)
unfolding finalize_incident_bundle
finalize_incident_bundle-Keeping w s h = elim (Bool-cases (w.bundle_enabled && w.bundle_exists s)) [
  | inl there ↦
      rw there (free w (Effect.freeze_bundle ∷ Effect.cleanup_bundle ∷ []) (refl, (refl, tt)) s h)
  | inr gone ↦ rw gone (Ends-pure w tt s h)
]

pub finalize_failure-Keeping :
    (w : World) (state failure_type latest : String)
    → Keeping w (finalize_failure w state failure_type latest)
unfolding finalize_failure
finalize_failure-Keeping w state failure_type latest = free w _ (ground arith)

pub fail_without_winner-Keeping :
    (w : World) (rs : List CandidateExecutionResult) → Keeping w (fail_without_winner w rs)
unfolding fail_without_winner
fail_without_winner-Keeping w [] =
    Ends-then w _ _ (free w _ (refl, tt)) λ _ s h. raised (GoesOn-refl h)
fail_without_winner-Keeping w (r ∷ rs) = Ends-then w _ _ (free w _ (refl, tt)) λ _.
    Ends-then w _ _ (finalize_incident_bundle-Keeping w) λ _.
      Ends-then w _ _ (finalize_failure-Keeping w _ _ _)
        λ _. free w _ (ending_message-All IsFree (λ s. refl) w r rs)

pub accept_winner-Keeping :
    (w : World) (r : CandidateExecutionResult) → Keeping w (accept_winner w r)
unfolding accept_winner
accept_winner-Keeping w r = Ends-then w _ _ (free w _ (refl, tt)) λ _.
    Ends-then w _ _ (free w _ (ground arith)) λ _. Ends-then w _ _ (free w _ (ground arith)) λ _.
      Ends-then w _ _ (free w _ (cleanup-All IsFree (λ s. refl) (λ s. refl) w r)) λ _.
        Ends-then w _ _ (free w _ (winner_announced-All IsFree (λ s. refl) w r))
          λ _. Ends-then w _ _ (free w _ (refl, tt)) λ _. finalize_incident_bundle-Keeping w
