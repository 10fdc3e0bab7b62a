-- ===== src/Repair.antt =====
-- app/pipeline.py: the review result of a candidate, and what it and the failed checks make of a repair.
--
-- A text is the one that `str` gives, and "" where it is missing; a value that is no list counts as an empty one. The
-- findings are dicts.
pub mod Minor
mod Tests
use dev_bot.Base.{
  ℕ, zero, suc, ◌+◌, String, Bool, true, false, not, ◌&&◌, ◌||◌, Option, none, some, List, [], ◌∷◌,
  ◌++◌, map, leb, ltb, nat_beq, if◌then◌else◌,
}
use dev_bot.Base.Eq.{string_eq, ◌==◌}
use dev_bot.Base.Sets.{contains, add}
use dev_bot.Base.Text.{is_empty, or_else, strip}
use dev_bot.Base.Items.{stripped}
use dev_bot.Base.Join.{concat}
use dev_bot.Base.Lists.{length, any}
use dev_bot.Base.Codes.{Codes}
use dev_bot.Candidates.{or_default}
use dev_bot.Candidates.Scoring.{ScopeAnalysis, has_severity, count_severity, is_nil}

pub record Finding : Type 0 where
  pub id : String
  pub severity : String
  pub verifier_status : String
  pub suggested_fix : String
  pub claim : Option String

pub record ReviewAnswer : Type 0 where
  pub decision : String
  pub findings : List Finding
  pub postable_findings : List Finding
  pub risk_items : List String
  pub unnecessary_changes : List String
  pub test_gaps : List String
  pub protected_path_touches : List String

pub record SeverityCounts : Type 0 where
  pub critical : ℕ
  pub high : ℕ
  pub medium : ℕ
  pub low : ℕ

pub record ReviewResult : Type 0 where
  pub candidate_id : String
  pub decision : String
  pub reject_reasons : List String
  pub severity_counts : SeverityCounts
  pub verified_finding_count : ℕ
  pub unverified_finding_count : ℕ
  pub plan_alignment_ok : Bool
  pub scope_drift : Bool
  pub protected_contract_ok : Bool

-- review.get("postable_findings") or review.get("findings")
abbrev pub read_findings : ReviewAnswer → List Finding
read_findings review =
    if is_nil review.postable_findings then review.findings else review.postable_findings

abbrev pub is_verified : Finding → Bool
is_verified f =
    any (λ word. has_severity word (strip f.verifier_status))
      ("confirmed" ∷ "verified" ∷ "pass" ∷ "passed" ∷ [])

abbrev pub count_verified : List Finding → ℕ
count_verified [] = 0
count_verified (f ∷ fs) = let rest = count_verified fs in if is_verified f then suc rest else rest

abbrev pub count_unverified : List Finding → ℕ
count_unverified [] = 0
count_unverified (f ∷ fs) =
    let rest = count_unverified fs in if is_verified f then rest else suc rest

-- Each text that is not blank, once, in the order of its first place.
unfoldable pub append_new : List String → List String → List String
append_new texts [] = texts
append_new texts (s ∷ ss) =
    append_new (if is_empty (strip s) then texts else add texts (strip s)) ss

abbrev pub or_returned : List String → List String
or_returned [] = "review returned reject" ∷ []
or_returned (reason ∷ reasons) = reason ∷ reasons

abbrev pub reject_reasons_of : ReviewAnswer → List String
reject_reasons_of review =
    if has_severity "reject" (strip review.decision)
    then or_returned
        (append_new [] (review.risk_items ++ (review.unnecessary_changes ++ review.test_gaps)))
    else []

unfoldable pub build_review_result : String → ReviewAnswer → ScopeAnalysis → ReviewResult
build_review_result candidate_id review scope_analysis =
    let findings = read_findings review in
    let severities = map (λ f. f.severity) findings in
    let scope_drift =
      not (nat_beq (or_default scope_analysis.unexpected_file_count 0) 0)
      || not (is_nil scope_analysis.must_not_touch_violations) in
    record {
      candidate_id = candidate_id;
      decision = strip review.decision;
      reject_reasons = reject_reasons_of review;
      severity_counts = record {
        critical = count_severity "critical" severities;
        high = count_severity "high" severities;
        medium = count_severity "medium" severities;
        low = count_severity "low" severities;
      };
      verified_finding_count = count_verified findings;
      unverified_finding_count = count_unverified findings;
      plan_alignment_ok = not scope_drift && not (not (is_nil review.unnecessary_changes));
      scope_drift = scope_drift;
      protected_contract_ok = not (
          not (is_nil scope_analysis.must_not_touch_violations)
          || not (is_nil scope_analysis.protected_config_violations)
          || not (is_nil review.protected_path_touches));
    }

unfoldable pub max_review_severity : ReviewResult → String
max_review_severity result =
    if ltb 0 result.severity_counts.critical
    then "critical"
    else if ltb 0 result.severity_counts.high
    then "high"
    else if ltb 0 result.severity_counts.medium
    then "medium"
    else if ltb 0 result.severity_counts.low
    then "low"
    else ""

-- The status and the type of the failure that a verification gives.
pub record RepairVerification : Type 0 where
  pub status : String
  pub failure_type : String

abbrev pub is_word_of : List String → String → Bool
is_word_of words s = any (λ word. has_severity word (strip s)) words

unfoldable pub can_minor_repair_reuse : ReviewResult → RepairVerification → List String → Bool
can_minor_repair_reuse result verification changed_files =
    let severity = max_review_severity result in
    let hard_checks_pass =
      is_word_of ("success" ∷ "passed" ∷ "completed" ∷ []) verification.status in
    let is_small_failure =
      is_word_of ("format" ∷ "lint" ∷ "typecheck" ∷ []) verification.failure_type in
    if not (has_severity "repairable" (strip result.decision))
    then false
    else if result.scope_drift
    then false
    else if not result.protected_contract_ok
    then false
    else if contains ("critical" ∷ "high" ∷ []) severity
    then false
    else if not hard_checks_pass && not is_small_failure
    then false
    else leb (length (stripped changed_files)) 5

-- The instructions of a repair and their scope.
pub record RepairInstructions : Type 0 where
  pub candidate_id : String
  pub applicable : Bool
  pub scope : String
  pub instructions : List String

-- A claim that is missing is `None`, which `str` prints.
abbrev pub fix_of : Finding → String
fix_of f = or_else f.suggested_fix (or_default f.claim "None")

unfoldable pub build_repair_instructions : String → ReviewResult → ReviewAnswer → RepairInstructions
build_repair_instructions candidate_id result review =
    let found =
      append_new (append_new [] (map fix_of (read_findings review)))
        (review.risk_items ++ (review.test_gaps ++ review.unnecessary_changes)) in
    let applicable =
      not (is_nil found) || is_word_of ("repairable" ∷ "reject" ∷ []) result.decision in
    record {
      candidate_id = candidate_id;
      applicable = applicable;
      scope = if result.scope_drift || not result.protected_contract_ok then "broad" else "narrow";
      instructions =
          if applicable
          then append_new found (
              "Do not touch protected config or must_not_touch files."
              ∷ "Re-run verification checks after the change." ∷ [])
          else found;
    }

-- `xs[:5]`
abbrev pub first_n {ℓ} : {A : Type ℓ} → ℕ → List A → List A
first_n zero xs = []
first_n (suc n) [] = []
first_n (suc n) (x ∷ xs) = x ∷ first_n n xs

abbrev pub or_one : List String → String → List String
or_one [] message = message ∷ []
or_one (x ∷ xs) message = x ∷ xs

-- The messages of the failures, whose type is "review".
unfoldable pub review_follow_up_failures : ReviewResult → RepairInstructions → List String
review_follow_up_failures result repair =
    or_one (first_n 5 (stripped repair.instructions))
      (or_else (strip result.decision) "review_follow_up")

-- An issue of the repair's feedback: the tool, the message and the fix.
pub record RepairIssue : Type 0 where
  pub tool : String
  pub message : String
  pub fix : String

unfoldable pub can_fast_repair_reuse : List RepairIssue → List String → Bool
can_fast_repair_reuse issues changed_files =
    if is_nil issues
    then false
    else if ltb 5 (length (stripped changed_files))
    then false
    else not (
        any (λ i. not (contains ("format" ∷ "lint" ∷ "typecheck" ∷ "tests" ∷ []) (strip i.tool)))
          issues)

abbrev pub issue_message : RepairIssue → String
issue_message i = or_else (strip i.fix) (strip i.message)

-- The messages of the failures, whose type is "fast_repair".
unfoldable pub repair_feedback_failures : List RepairIssue → List String
repair_feedback_failures issues =
    or_one (first_n 5 (stripped (map issue_message issues))) "fast repair checks failed"

-- What the candidate mode of the workflow says, where it has one.
unfoldable pub resolve_candidate_ids : Option Bool → Bool → List String → List String
resolve_candidate_ids (some false) enabled raw_ids = "primary" ∷ []
resolve_candidate_ids (some true) enabled raw_ids =
    if enabled then or_one (first_n 2 (append_new [] raw_ids)) "primary" else "primary" ∷ []
resolve_candidate_ids none enabled raw_ids =
    if enabled then or_one (first_n 2 (append_new [] raw_ids)) "primary" else "primary" ∷ []
