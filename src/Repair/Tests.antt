-- ===== src/Repair/Tests.antt =====
-- Repairs on concrete input.
use dev_bot.Base.{
  String, ◌≡◌, ◌≢◌, ◌⊎◌, ◌≤◌, refl, Bool, true, false, Option, none, some, List, [], ◌∷◌,
}
use dev_bot.Base.Items.{stripped}
use dev_bot.Base.Lists.{All, length}
use dev_bot.Candidates.Scoring.{has_severity}
use dev_bot.ProtectedConfig.{LabelledIssue, ScopePlan, matches, build_scope_analysis}
use dev_bot.ProtectedConfig.Permitted.{is_forbidden}
use dev_bot.Repair.{
  Finding, ReviewAnswer, RepairVerification, read_findings, build_review_result,
  build_repair_instructions, can_minor_repair_reuse, resolve_candidate_ids, append_new,
}
use dev_bot.Repair.Minor.{IsMild, can_minor_repair_reuse_lem}

abbrev review : ReviewAnswer
review = record {
  decision = "Repairable";
  findings =
      record {
        id = "f1";
        severity = "Medium";
        verifier_status = "confirmed";
        suggested_fix = "";
        claim = none;
      }
      ∷ [];
  postable_findings = [];
  risk_items = [];
  unnecessary_changes = [];
  test_gaps = [];
  protected_path_touches = [];
}

abbrev plan : ScopePlan
plan = record {
  plan_files = record { candidate_files = "app/main.py" ∷ []; task_files = [] };
  must_not_touch = [];
}

abbrev issue : LabelledIssue
issue = record { labels = []; body_allowlist = λ section. []; artifact_allowlist = λ name. [] }

abbrev changed : List String
changed = "app/main.py" ∷ []

abbrev verification : RepairVerification
verification = record { status = "failed"; failure_type = "lint" }

reused :
    can_minor_repair_reuse
      (build_review_result "primary" review (build_scope_analysis plan changed (some issue) none))
      verification
      changed
    ≡ true
unfolding can_minor_repair_reuse build_review_result build_scope_analysis has_severity
    dev_bot.Base.Sort.same dev_bot.Base.Text.strip dev_bot.Base.Text.strip_left
    dev_bot.Base.Text.strip_right dev_bot.Base.Text.is_space dev_bot.Candidates.Scoring.unexpected
    stripped dev_bot.Candidates.Scoring.expected_plan_files dev_bot.Base.Sets.contains
    dev_bot.ProtectedConfig.matching matches dev_bot.ProtectedConfig.protected_config_violations
    dev_bot.Candidates.Scoring.count_severity dev_bot.Repair.max_review_severity
    dev_bot.ProtectedConfig.protected_config_policy dev_bot.ProtectedConfig.Glob.fnmatch
    dev_bot.ProtectedConfig.Glob.fits dev_bot.ProtectedConfig.Glob.tokens
    dev_bot.ProtectedConfig.Glob.tokens_after dev_bot.ProtectedConfig.issue_labels
    dev_bot.ProtectedConfig.resolve_protected_config_allowlist
reused = refl

-- A critical finding beside a postable one of medium severity does not count.
abbrev unconfirmed : ReviewAnswer
unconfirmed = record review {
  findings =
      record {
        id = "f2";
        severity = "Critical";
        verifier_status = "unverified";
        suggested_fix = "";
        claim = none;
      }
      ∷ review.findings;
  postable_findings = review.findings;
}

kept_beside_critical :
    can_minor_repair_reuse
      (build_review_result "primary" unconfirmed
        (build_scope_analysis plan changed (some issue) none))
      verification
      changed
    ≡ true
unfolding can_minor_repair_reuse build_review_result build_scope_analysis has_severity
    dev_bot.Base.Sort.same dev_bot.Base.Text.strip dev_bot.Base.Text.strip_left
    dev_bot.Base.Text.strip_right dev_bot.Base.Text.is_space dev_bot.Candidates.Scoring.unexpected
    stripped dev_bot.Candidates.Scoring.expected_plan_files dev_bot.Base.Sets.contains
    dev_bot.ProtectedConfig.matching matches dev_bot.ProtectedConfig.protected_config_violations
    dev_bot.Candidates.Scoring.count_severity dev_bot.Repair.max_review_severity
    dev_bot.ProtectedConfig.protected_config_policy dev_bot.ProtectedConfig.Glob.fnmatch
    dev_bot.ProtectedConfig.Glob.fits dev_bot.ProtectedConfig.Glob.tokens
    dev_bot.ProtectedConfig.Glob.tokens_after dev_bot.ProtectedConfig.issue_labels
    dev_bot.ProtectedConfig.resolve_protected_config_allowlist
kept_beside_critical = refl

can_minor_repair_reuse_lem_example :
    All IsMild review.postable_findings
    × ((review.postable_findings ≢ []) ⊎ All IsMild review.findings)
    × All (λ p. matches (stripped plan.must_not_touch) p ≡ false) (stripped changed)
    × All (λ p. is_forbidden issue none p ≡ false) (stripped changed)
    × (length (stripped changed) ≤ 5)
can_minor_repair_reuse_lem_example =
    can_minor_repair_reuse_lem "primary" review verification plan changed issue none reused

two_ids : resolve_candidate_ids none true (" a " ∷ "b" ∷ "a" ∷ "c" ∷ []) ≡ "a" ∷ "b" ∷ []
unfolding resolve_candidate_ids append_new dev_bot.Base.Text.strip dev_bot.Base.Sets.add
two_ids = refl

-- A finding without a fix and without a claim gives an instruction all the same.
instruction_of_nothing :
    (build_repair_instructions "primary"
      (build_review_result "primary" review (build_scope_analysis plan changed (some issue) none))
      review).instructions
    ≡ "None" ∷ "Do not touch protected config or must_not_touch files."
      ∷ "Re-run verification checks after the change." ∷ []
unfolding build_repair_instructions build_review_result append_new dev_bot.Base.Text.strip
    dev_bot.Base.Text.or_else dev_bot.Base.Sets.add
instruction_of_nothing = refl
