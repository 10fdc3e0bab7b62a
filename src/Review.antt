-- ===== src/Review.antt =====
-- app/review/orchestrator.py: the findings of four reviewers, merged, verified, ranked and filtered.
-- A confidence is a float: an abstract type `F` with the test `at_least`.
pub mod Dedupe
mod Tests
use dev_bot.Base.{ℕ, String, Bool, true, false, ◌&&◌, ◌||◌, List, [], ◌∷◌, ◌++◌, if◌then◌else◌}
use dev_bot.Base.Eq.{nat_eq, string_eq, ◌==◌}
use dev_bot.Base.Result.{Result, ok, err, ◌>>=◌}

pub record ReviewFinding (F : Type 0) : Type 0 where
  pub severity : String
  pub file : String
  pub line_start : ℕ
  pub line_end : ℕ
  pub claim : String
  pub confidence : F
  pub verifier_status : String

pub record ReviewBundle (F : Type 0) : Type 0 where
  pub all_findings : List (ReviewFinding F)
  pub postable_findings : List (ReviewFinding F)

module _ {F : Type 0} where
  -- The same file, lines and claim: the key of the set `seen`.
  unfoldable pub same_key : ReviewFinding F → ReviewFinding F → Bool
  same_key a b =
      a.file == b.file
      && a.line_start == b.line_start
      && a.line_end == b.line_end
      && a.claim == b.claim

  -- `key in seen`, where `seen` holds the findings that were kept
  unfoldable pub is_seen : List (ReviewFinding F) → ReviewFinding F → Bool
  is_seen [] f = false
  is_seen (g ∷ gs) f = same_key g f || is_seen gs f

  -- The inner loop over one batch; `findings` is what is kept so far.
  unfoldable pub dedupe_batch :
      List (ReviewFinding F) → List (ReviewFinding F) → List (ReviewFinding F)
  dedupe_batch findings [] = findings
  dedupe_batch findings (f ∷ batch) =
      let skipped = dedupe_batch findings batch in
      let kept = dedupe_batch (findings ++ f ∷ []) batch in
      if is_seen findings f then skipped else kept

  unfoldable pub dedupe_from :
      List (ReviewFinding F) → List (List (ReviewFinding F)) → List (ReviewFinding F)
  dedupe_from findings [] = findings
  dedupe_from findings (batch ∷ batches) = dedupe_from (dedupe_batch findings batch) batches

  unfoldable pub dedupe : List (List (ReviewFinding F)) → List (ReviewFinding F)
  dedupe batches = dedupe_from [] batches

module _ {F : Type 0} (at_least : F → F → Bool) (threshold : F) where
  unfoldable pub is_postable : ReviewFinding F → Bool
  is_postable f = at_least f.confidence threshold && f.verifier_status == "confirmed"

module _ {F : Type 0} (at_least : F → F → Bool) (threshold : F) where
  unfoldable pub postable : List (ReviewFinding F) → List (ReviewFinding F)
  postable [] = []
  postable (f ∷ fs) =
      let rest = postable fs in if is_postable at_least threshold f then f ∷ rest else rest

-- A part raised. Which exception `asyncio.gather` passes on depends on the time and is not modelled.
pub data Raised : Type 0 where
  raised : Raised

-- What the orchestrator is given; a part answers or raises.
pub record Parts (F Ctx : Type 0) : Type 0 where
  pub diff_reviewer : Ctx → Result Raised (List (ReviewFinding F))
  pub history_reviewer : Ctx → Result Raised (List (ReviewFinding F))
  pub contract_reviewer : Ctx → Result Raised (List (ReviewFinding F))
  pub test_reviewer : Ctx → Result Raised (List (ReviewFinding F))
  pub evidence_verifier : Ctx → List (ReviewFinding F) → Result Raised (List (ReviewFinding F))
  pub ranker : Ctx → List (ReviewFinding F) → Result Raised (List (ReviewFinding F))

module _ {F Ctx : Type 0} (at_least : F → F → Bool) where
  -- `threshold` is the one of the context, or 0.80 where it has none.
  unfoldable pub run : Parts F Ctx → Ctx → F → Result Raised (ReviewBundle F)
  run parts ctx threshold = do
    diff ← parts.diff_reviewer ctx
    history ← parts.history_reviewer ctx
    contract ← parts.contract_reviewer ctx
    test ← parts.test_reviewer ctx
    verified ← parts.evidence_verifier ctx (dedupe (diff ∷ history ∷ contract ∷ test ∷ []))
    ranked ← parts.ranker ctx verified
    ok (record { all_findings = ranked; postable_findings = postable at_least threshold ranked })
