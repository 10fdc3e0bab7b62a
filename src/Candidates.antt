-- ===== src/Candidates.antt =====
-- app/implementation/candidate_policy.py: when two candidates are implemented, and which one wins.
pub mod Scoring
pub mod Selection
pub mod Selected
pub mod Winner
pub mod Tiebreak
mod Tests
use dev_bot.Base.{
  ℕ, String, Bool, true, false, not, ◌&&◌, ◌||◌, Option, none, some, List, [], ◌∷◌, ◌++◌, ltb, leb,
  if◌then◌else◌,
}
use dev_bot.Base.Lists.{length}
use dev_bot.Base.Eq.{nat_eq, string_eq}
use dev_bot.Base.Dict
use dev_bot.Base.Dict.{Dict}
use dev_bot.Base.Result.{Result, ok, err}
use dev_bot.Base.Sort.{lex_le, same, sort}
use dev_bot.Base.Text.{is_empty}
use dev_bot.Planning.{PlanV2}

pub record CandidateDecision : Type 0 where
  pub enabled : Bool
  pub candidate_ids : List String

-- The attributes that `getattr` reads; `none` stands for one that is missing.
pub record Verification : Type 0 where
  pub hard_checks_pass : Option Bool
  pub failure_type : Option String

pub record Review : Type 0 where
  pub severity_counts : Option (Dict String ℕ)
  pub critical_count : Option ℕ
  pub high_count : Option ℕ
  pub medium_count : Option ℕ
  pub low_count : Option ℕ
  pub plan_alignment_ok : Option Bool

pub record Scope : Type 0 where
  pub unexpected_file_count : Option ℕ
  pub protected_path_violations : Option Bool

pub record Proof : Type 0 where
  pub complete : Option Bool
  pub missing_artifacts : Option (List String)

pub record WinnerInput : Type 0 where
  pub candidate_id : String
  pub verification : Verification
  pub review : Review
  pub scope : Scope
  pub proof : Proof
  pub diff_size : ℕ
  pub duration_ms : ℕ

-- The thresholds: `planner_confidence_lt` is a float, of which only the order `lt` is used.
pub record Triggers (F : Type 0) : Type 0 where
  pub rework_count_gte : ℕ
  pub planner_confidence_lt : F
  pub require_clear_design_branches : Bool

module _ {F : Type 0} (lt : F → F → Bool) where
  unfoldable pub should_enable_candidate_mode : PlanV2 F → ℕ → Triggers F → Bool
  should_enable_candidate_mode plan rework_count t =
      if t.require_clear_design_branches && ltb (length plan.design_branches) 2
      then false
      else leb t.rework_count_gte rework_count || lt plan.planner_confidence t.planner_confidence_lt

  unfoldable pub decide_candidates : PlanV2 F → ℕ → Triggers F → CandidateDecision
  decide_candidates plan rework_count t =
      if should_enable_candidate_mode plan rework_count t
      then record { enabled = true; candidate_ids = "primary" ∷ "alt1" ∷ [] }
      else record { enabled = false; candidate_ids = "primary" ∷ [] }

abbrev pub or_default {ℓ} : {A : Type ℓ} → Option A → A → A
or_default none d = d
or_default (some a) d = a

abbrev counted : Review → Option (Dict String ℕ) → List ℕ
counted review (some counts) =
    or_default (Dict.get counts "critical") 0
    ∷ or_default (Dict.get counts "high") 0
    ∷ or_default (Dict.get counts "medium") 0
    ∷ or_default (Dict.get counts "low") 0
    ∷ []
counted review none =
    or_default review.critical_count 0
    ∷ or_default review.high_count 0
    ∷ or_default review.medium_count 0
    ∷ or_default review.low_count 0
    ∷ []

unfoldable pub severity_vector : Review → List ℕ
severity_vector review = counted review review.severity_counts

unfoldable pub eligible : WinnerInput → Bool
eligible candidate =
    or_default candidate.verification.hard_checks_pass false
    && or_default candidate.proof.complete false
    && not (or_default candidate.scope.protected_path_violations false)

-- `failure_type in (None, "")`
abbrev no_failure : Option String → Bool
no_failure none = true
no_failure (some t) = is_empty t

abbrev missing_count : Option (List String) → ℕ
missing_count none = 0
missing_count (some artifacts) = length artifacts

-- The components behind the severity vector, in the order of the tuple.
unfoldable pub rank_rest : WinnerInput → List ℕ
rank_rest candidate =
    (if or_default candidate.review.plan_alignment_ok true then 0 else 1)
    ∷ or_default candidate.scope.unexpected_file_count 0
    ∷ missing_count candidate.proof.missing_artifacts
    ∷ (if no_failure candidate.verification.failure_type then 0 else 1)
    ∷ candidate.diff_size
    ∷ candidate.duration_ms
    ∷ []

-- The tuple's first component is a tuple of four numbers in every case, so that the comparison of two
-- such tuples is that of the numbers in a row.
unfoldable pub candidate_rank_tuple : WinnerInput → List ℕ
unfolding severity_vector rank_rest
candidate_rank_tuple candidate = severity_vector candidate.review ++ rank_rest candidate

unfoldable pub rank_le : WinnerInput → WinnerInput → Bool
rank_le a b = lex_le (candidate_rank_tuple a) (candidate_rank_tuple b)

unfoldable pub exact_tie : WinnerInput → WinnerInput → Bool
exact_tie a b = same (candidate_rank_tuple a) (candidate_rank_tuple b)

unfoldable pub keep_eligible : List WinnerInput → List WinnerInput
keep_eligible [] = []
keep_eligible (c ∷ cs) = let rest = keep_eligible cs in if eligible c then c ∷ rest else rest

abbrev pub head_id : List WinnerInput → Result String String
head_id [] = err "No eligible candidates"
head_id (c ∷ cs) = ok c.candidate_id

unfoldable pub select_winner : List WinnerInput → Result String String
unfolding keep_eligible
select_winner candidates = head_id (sort rank_le (keep_eligible candidates))
