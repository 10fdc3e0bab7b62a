-- ===== src/Planning/Tests.antt =====
-- The gate and the committee on a concrete plan, whose confidence is counted in hundredths.
use dev_bot.Base.{ℕ, String, ◌≡◌, ◌↔◌, refl, Bool, true, false, Option, none, some, List, [], ◌∷◌}
use dev_bot.Base.Result.{Result, ok, err}
use dev_bot.Base.Items.{nonblank}
use dev_bot.Planning.{PlanV2}
use dev_bot.Planning.Gate.{unmapped, validate_or_raise, IsComplete, validate_or_raise_iff}
use dev_bot.Planning.Committee.{
  IssueContext, ContextPack, RepoExplorerV1, RiskTestPlanV1, ConstraintReportV1, MergePack,
  PlanBundle, from_issue, join_sections, bullet_section,
}

abbrev plan : PlanV2 ℕ
plan = record {
  goal = "g";
  acceptance_criteria = "works" ∷ [];
  out_of_scope = some [];
  version = 2;
  constraints = [];
  candidate_files = "app/main.py" ∷ [];
  must_not_touch = [];
  verification_focus = [];
  exploration_required = false;
  tasks = [];
  design_branches =
      record { id = "a"; summary = "s"; pros = []; cons = []; recommended = true } ∷ [];
  risks = [];
  test_mapping = record { criterion = "works"; tests = "t" ∷ [] } ∷ [];
  verification_profile = "python-basic";
  planner_confidence = 90;
}

abbrev unmapped_plan : PlanV2 ℕ
unmapped_plan = record plan { acceptance_criteria = "works" ∷ "is fast" ∷ [] }

passes : validate_or_raise plan ≡ ok tt
unfolding validate_or_raise dev_bot.Base.Sets.contains
passes = refl

is_refused : validate_or_raise unmapped_plan ≡ err (unmapped ("is fast" ∷ []))
unfolding validate_or_raise dev_bot.Base.Sets.contains
is_refused = refl

validate_or_raise_iff_example : (validate_or_raise plan ≡ ok tt) ↔ IsComplete plan
validate_or_raise_iff_example = validate_or_raise_iff plan

abbrev issue : IssueContext
issue = record {
  issue_key = "owner/repo#1";
  repo_root = "/tmp";
  workpad_text = "";
  issue_body = "body";
  acceptance_hints = "works" ∷ " " ∷ [];
  extra_docs = [];
}

abbrev explorer : ContextPack → Result String RepoExplorerV1
explorer pack = ok (record { candidate_files = []; similar_files = []; architectural_notes = [] })

abbrev planner : ContextPack → Result String RiskTestPlanV1
planner pack = ok (record { risks = []; test_mapping = [] })

abbrev checker : ContextPack → Result String ConstraintReportV1
checker pack = ok (record { out_of_scope = []; protected_paths = []; constraints = [] })

abbrev merger : MergePack → Result String (PlanV2 ℕ)
merger pack = ok plan

abbrev bundle : PlanBundle ℕ
bundle = record {
  repo = record { candidate_files = []; similar_files = []; architectural_notes = [] };
  risk = record { risks = []; test_mapping = [] };
  constraint = record { out_of_scope = []; protected_paths = []; constraints = [] };
  merged = plan;
}

issue_text : (from_issue issue).repo_pack.issue_body ≡ "body\n\nAcceptance criteria:\n- works"
unfolding from_issue nonblank join_sections bullet_section dev_bot.Base.Text.strip
    dev_bot.Base.Join.join
issue_text = refl
