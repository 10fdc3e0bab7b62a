-- ===== src/Candidates/Scoring.antt =====
-- app/pipeline.py: what the policy is told of a candidate's result (`_winner_input`).
use Prim.Native.Char.{code}
use dev_bot.Base.{
  ℕ, suc, ◌+◌, String, Bool, true, false, not, ◌&&◌, ◌||◌, Option, none, some, List, [], ◌∷◌, ◌++◌,
  leb, nat_beq, if◌then◌else◌,
}
use dev_bot.Base.Lists.{length}
use dev_bot.Base.Eq.{string_eq, ◌==◌}
use dev_bot.Base.Sets.{contains}
use dev_bot.Base.Sort.{same}
use dev_bot.Base.Items.{stripped}
use dev_bot.Candidates.{WinnerInput, or_default}

-- One check of `command_results["results"]`; a missing key is `none`.
pub record CommandResult : Type 0 where
  pub category : Option String
  pub status : Option String

-- A review: its findings by their severities, and the lists that are tested for being empty.
pub record ReviewPayload : Type 0 where
  pub postable_findings : List String
  pub findings : List String
  pub unnecessary_changes : List String
  pub protected_path_touches : List String

pub record ScopeAnalysis : Type 0 where
  pub unexpected_file_count : Option ℕ
  pub must_not_touch_violations : List String
  pub protected_config_violations : List String

-- The fields of a candidate's result that the selection reads.
pub record CandidateExecutionResult : Type 0 where
  pub candidate_id : String
  pub changed_files : List String
  pub scope_analysis : ScopeAnalysis
  pub command_results : List CommandResult
  pub review : ReviewPayload
  pub proof_complete : Bool
  pub missing_artifacts : List String
  pub success : Bool
  pub failure_type : String
  pub duration_ms : ℕ

-- The parts of the plan that name files: its candidate files and the files of its tasks.
pub record PlanFiles : Type 0 where
  pub candidate_files : List String
  pub task_files : List (List String)

-- The lower-case letters of a text over ASCII. The words that it is compared with hold no letter that
-- another character lowers to.
abbrev pub lower : String → List ℕ
lower String.[] = []
lower (String.◌∷◌ c s) =
    (if leb b'A' (code c) && leb (code c) b'Z' then code c + 32 else code c) ∷ lower s

unfoldable pub has_severity : String → String → Bool
has_severity word severity = same (lower severity) (lower word)

unfoldable pub count_severity : String → List String → ℕ
unfolding has_severity
count_severity word [] = 0
count_severity word (f ∷ fs) =
    let rest = count_severity word fs in if has_severity word f then suc rest else rest

unfoldable pub has_failed_hard_checks : List CommandResult → Bool
has_failed_hard_checks [] = false
has_failed_hard_checks (item ∷ items) =
    let rest = has_failed_hard_checks items in
    if or_default item.category "hard" == "hard" && or_default item.status "fail" == "fail"
    then true
    else rest

abbrev all_stripped : List (List String) → List String
all_stripped [] = []
all_stripped (ps ∷ pss) = stripped ps ++ all_stripped pss

-- A set, of which only membership and emptiness are used.
unfoldable pub expected_plan_files : PlanFiles → List String
expected_plan_files plan = stripped plan.candidate_files ++ all_stripped plan.task_files

abbrev pub is_nil {ℓ} : {A : Type ℓ} → List A → Bool
is_nil [] = true
is_nil (_ ∷ _) = false

unfoldable pub unexpected : List String → List String → List String
unexpected expected [] = []
unexpected expected (p ∷ ps) =
    let rest = unexpected expected ps in
    if not (is_nil expected) && not (contains expected p) then p ∷ rest else rest

-- `postable_findings or findings`
abbrev pub scored_findings : ReviewPayload → List String
scored_findings review =
    if is_nil review.postable_findings then review.findings else review.postable_findings

-- The namespace that is handed to the policy. It has no `critical_count`, no `severity_counts`.
unfoldable pub winner_input : PlanFiles → CandidateExecutionResult → WinnerInput
winner_input plan result =
    let changed = stripped result.changed_files in
    let extra = length (unexpected (expected_plan_files plan) changed) in
    let extra_count = or_default result.scope_analysis.unexpected_file_count extra in
    let scored = scored_findings result.review in
    record {
      candidate_id = result.candidate_id;
      verification = record {
        hard_checks_pass = some (not (has_failed_hard_checks result.command_results));
        failure_type = some result.failure_type;
      };
      review = record {
        severity_counts = none;
        critical_count = none;
        high_count = some (count_severity "high" scored);
        medium_count = some (count_severity "medium" scored);
        low_count = some (count_severity "low" scored);
        plan_alignment_ok =
            some (nat_beq extra_count 0 && is_nil result.review.unnecessary_changes);
      };
      scope = record {
        unexpected_file_count = some extra_count;
        protected_path_violations = some (
            not (is_nil result.scope_analysis.must_not_touch_violations)
            || not (is_nil result.scope_analysis.protected_config_violations)
            || not (is_nil result.review.protected_path_touches));
      };
      proof = record {
        complete = some result.proof_complete;
        missing_artifacts = some result.missing_artifacts;
      };
      diff_size = length changed;
      duration_ms = result.duration_ms;
    }
