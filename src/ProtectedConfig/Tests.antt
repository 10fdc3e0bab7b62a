-- ===== src/ProtectedConfig/Tests.antt =====
-- The policy on protected configuration, on concrete input.
use dev_bot.Base.{String, ◌≡◌, refl, Bool, true, false, Option, none, some, List, [], ◌∷◌}
use dev_bot.Base.Codes.{codes}
use dev_bot.Base.Items.{stripped}
use dev_bot.Base.Lists.{All}
use dev_bot.Candidates.{eligible}
use dev_bot.Candidates.Scoring.{PlanFiles, CandidateExecutionResult, winner_input}
use dev_bot.ProtectedConfig.{
  ConfiguredPolicy, LabelledIssue, ScopePlan, matches, protected_config_violations,
  build_scope_analysis,
}
use dev_bot.ProtectedConfig.Glob.{fnmatch}
use dev_bot.ProtectedConfig.Permitted.{
  select, is_forbidden, protected_config_violations-select, eligible-permitted,
}

below : fnmatch (codes ".github/workflows/ci.yml") (codes ".github/workflows/**") ≡ true
unfolding fnmatch dev_bot.ProtectedConfig.Glob.fits dev_bot.ProtectedConfig.Glob.tokens
    dev_bot.ProtectedConfig.Glob.tokens_after dev_bot.ProtectedConfig.Glob.class_of
below = refl

classes : fnmatch (codes "a7") (codes "[!0-9][0-9]") ≡ true
unfolding fnmatch dev_bot.ProtectedConfig.Glob.fits dev_bot.ProtectedConfig.Glob.tokens
    dev_bot.ProtectedConfig.Glob.tokens_after dev_bot.ProtectedConfig.Glob.class_of
classes = refl

unclosed : fnmatch (codes "[a") (codes "[a") ≡ true
unfolding fnmatch dev_bot.ProtectedConfig.Glob.fits dev_bot.ProtectedConfig.Glob.tokens
    dev_bot.ProtectedConfig.Glob.tokens_after dev_bot.ProtectedConfig.Glob.class_of
unclosed = refl

-- The issue allows a change of the workflows, and of nothing else that is protected.
abbrev issue : LabelledIssue
issue = record {
  labels = " allow-protected-config " ∷ [];
  body_allowlist = λ section. ".github/workflows/*.yml" ∷ [];
  artifact_allowlist = λ name. [];
}

abbrev changed : List String
changed = ".github/workflows/ci.yml" ∷ "AGENTS.md" ∷ "app/main.py" ∷ []

protected_config_violations-select_example :
    (protected_config_violations changed issue none).violations
    ≡ select (is_forbidden issue none) changed
protected_config_violations-select_example = protected_config_violations-select changed issue none

abbrev plan : ScopePlan
plan = record {
  plan_files = record { candidate_files = "app/main.py" ∷ []; task_files = [] };
  must_not_touch = "app/legacy/*" ∷ [];
}

abbrev allowed : List String
allowed = ".github/workflows/ci.yml" ∷ "app/main.py" ∷ []

abbrev result : CandidateExecutionResult
result = record {
  candidate_id = "primary";
  changed_files = allowed;
  scope_analysis = build_scope_analysis plan allowed (some issue) none;
  command_results = [];
  review = record {
    postable_findings = [];
    findings = [];
    unnecessary_changes = [];
    protected_path_touches = [];
  };
  proof_complete = true;
  missing_artifacts = [];
  success = true;
  failure_type = "";
  duration_ms = 5;
}

is_eligible : eligible (winner_input plan.plan_files result) ≡ true
unfolding eligible winner_input dev_bot.Candidates.Scoring.has_failed_hard_checks
    build_scope_analysis dev_bot.ProtectedConfig.matching stripped dev_bot.Base.Text.strip matches
    fnmatch dev_bot.ProtectedConfig.Glob.fits dev_bot.ProtectedConfig.Glob.tokens
    dev_bot.ProtectedConfig.Glob.tokens_after protected_config_violations
    dev_bot.ProtectedConfig.protected_config_policy dev_bot.Base.Sets.contains
    dev_bot.ProtectedConfig.issue_labels dev_bot.ProtectedConfig.resolve_protected_config_allowlist
    dev_bot.ProtectedConfig.not_matching
is_eligible = refl

eligible-permitted_example :
    All (λ p. matches (stripped plan.must_not_touch) p ≡ false) (stripped allowed)
    × All (λ p. is_forbidden issue none p ≡ false) (stripped allowed)
eligible-permitted_example = eligible-permitted plan allowed issue none result refl is_eligible
