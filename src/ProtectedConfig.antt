-- ===== src/ProtectedConfig.antt =====
-- app/pipeline.py: what a candidate may change, by the plan and by the policy on protected configuration.
--
-- A text of the configuration is the one that `str` gives, and "" where it is missing. The lists of the issue's
-- body and of the artifacts are those that _extract_issue_body_allowlist and
-- _coerce_protected_config_allowlist give.
pub mod Glob
pub mod Permitted
mod Tests
use dev_bot.Base.{
  ℕ, String, Bool, true, false, not, ◌&&◌, ◌||◌, Option, none, some, List, [], ◌∷◌, if◌then◌else◌,
}
use dev_bot.Base.Eq.{string_eq}
use dev_bot.Base.Sets.{contains}
use dev_bot.Base.Text.{or_else, strip}
use dev_bot.Base.Items.{stripped}
use dev_bot.Base.Codes.{codes}
use dev_bot.Base.Lists.{length, any}
use dev_bot.Candidates.Scoring.{PlanFiles, ScopeAnalysis, expected_plan_files, unexpected}
use dev_bot.ProtectedConfig.Glob.{fnmatch}

-- The workflow's own policy.
pub record ConfiguredPolicy : Type 0 where
  pub protected_paths : List String
  pub allow_label : String
  pub default_policy : String
  pub issue_body_section : String
  pub artifacts : List String

pub record ProtectedPolicy : Type 0 where
  pub default_policy : String
  pub allow_label : String
  pub protected_paths : List String
  pub issue_body_section : String
  pub allowlist_artifacts : List String

-- What of an issue is read: the names of its labels, and the lists that it and its artifacts allow.
pub record LabelledIssue : Type 0 where
  pub labels : List String
  pub body_allowlist : String → List String
  pub artifact_allowlist : String → List String

pub record ScopePlan : Type 0 where
  pub plan_files : PlanFiles
  pub must_not_touch : List String

abbrev pub protected_config_patterns : List String
protected_config_patterns =
    "AGENTS.md" ∷ "WORKFLOW.md" ∷ "CLAUDE.md" ∷ ".claude/**" ∷ ".github/workflows/**"
    ∷ "pyproject.toml" ∷ "docs/policy/**" ∷ "docs/GITHUB_APP_SETUP.md" ∷ "docs/PROJECT_V2_SETUP.md"
    ∷ []

abbrev default_protected : ProtectedPolicy
default_protected = record {
  default_policy = "deny";
  allow_label = "allow-protected-config";
  protected_paths = protected_config_patterns;
  issue_body_section = "保護設定変更許可リスト";
  allowlist_artifacts = "protected_config_allowlist.json" ∷ [];
}

abbrev pub or_list : List String → List String → List String
or_list [] default = default
or_list (x ∷ xs) default = x ∷ xs

unfoldable pub protected_config_policy : Option ConfiguredPolicy → ProtectedPolicy
protected_config_policy none = default_protected
protected_config_policy (some configured) = record {
  default_policy = or_else (strip configured.default_policy) default_protected.default_policy;
  allow_label = or_else (strip configured.allow_label) default_protected.allow_label;
  protected_paths = or_list (stripped configured.protected_paths) default_protected.protected_paths;
  issue_body_section =
      or_else (strip configured.issue_body_section) default_protected.issue_body_section;
  allowlist_artifacts =
      or_list (stripped configured.artifacts) default_protected.allowlist_artifacts;
}

-- A set, of which only membership is used.
unfoldable pub issue_labels : LabelledIssue → List String
issue_labels issue = stripped issue.labels

abbrev pub first_allowlist : (String → List String) → List String → List String
first_allowlist allowlist [] = []
first_allowlist allowlist (name ∷ names) =
    or_list (allowlist name) (first_allowlist allowlist names)

unfoldable pub resolve_protected_config_allowlist :
    LabelledIssue → String → List String → List String
resolve_protected_config_allowlist issue section artifact_names =
    or_list (issue.body_allowlist section) (first_allowlist issue.artifact_allowlist artifact_names)

unfoldable pub matches : List String → String → Bool
matches patterns path = any (λ p. fnmatch (codes path) (codes p)) patterns

unfoldable pub matching : List String → List String → List String
matching patterns [] = []
matching patterns (path ∷ paths) =
    let rest = matching patterns paths in if matches patterns path then path ∷ rest else rest

unfoldable pub not_matching : List String → List String → List String
not_matching patterns [] = []
not_matching patterns (path ∷ paths) =
    let rest = not_matching patterns paths in if matches patterns path then rest else path ∷ rest

pub record Violations : Type 0 where
  pub violations : List String
  pub label_present : Bool
  pub allowlist : List String

abbrev pub judge_allowed : List String → List String → Violations
judge_allowed protected [] = record { violations = protected; label_present = true; allowlist = [] }
judge_allowed protected (p ∷ ps) = record {
  violations = not_matching (p ∷ ps) protected;
  label_present = true;
  allowlist = p ∷ ps;
}

abbrev pub judge : List String → Bool → List String → Violations
judge [] label_present allowlist = record {
  violations = [];
  label_present = label_present;
  allowlist = [];
}
judge (path ∷ paths) false allowlist = record {
  violations = path ∷ paths;
  label_present = false;
  allowlist = [];
}
judge (path ∷ paths) true allowlist = judge_allowed (path ∷ paths) allowlist

unfoldable pub protected_config_violations :
    List String → LabelledIssue → Option ConfiguredPolicy → Violations
protected_config_violations changed_files issue workflow =
    let policy = protected_config_policy workflow in
    judge (matching policy.protected_paths changed_files)
      (contains (issue_labels issue) policy.allow_label)
      (resolve_protected_config_allowlist issue policy.issue_body_section
        policy.allowlist_artifacts)

abbrev pub violations_of_issue :
    List String → Option LabelledIssue → Option ConfiguredPolicy → List String
violations_of_issue changed none workflow = []
violations_of_issue changed (some issue) workflow =
    (protected_config_violations changed issue workflow).violations

-- The fields of the analysis that the selection of a winner reads.
unfoldable pub build_scope_analysis :
    ScopePlan → List String → Option LabelledIssue → Option ConfiguredPolicy → ScopeAnalysis
build_scope_analysis plan changed_files issue workflow =
    let changed = stripped changed_files in
    record {
      unexpected_file_count =
          some (length (unexpected (expected_plan_files plan.plan_files) changed));
      must_not_touch_violations = matching (stripped plan.must_not_touch) changed;
      protected_config_violations = violations_of_issue changed issue workflow;
    }
