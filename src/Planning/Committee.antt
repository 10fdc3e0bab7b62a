-- ===== src/Planning/Committee.antt =====
-- app/planning/context_builder.py and app/planning/committee.py: the packs that the planner roles
-- read, and the committee that runs the roles, merges their outputs and gates the merged plan.
use dev_bot.Base.{String, List, [], ◌∷◌, map}
use dev_bot.Base.Text.{strip}
use dev_bot.Base.Items.{nonblank}
use dev_bot.Base.Join.{concat, join}
use dev_bot.Base.Result.{Result, ok, err, ◌>>=◌, ◌>>◌}
use dev_bot.Planning.{PlanV2, RiskItem, TestMappingItem}
use dev_bot.Planning.Gate.{GateError, validate_or_raise}

-- The attributes of the issue that the builder reads. A missing one has its default: "" or [].
pub record IssueContext : Type 0 where
  pub issue_key : String
  pub repo_root : String
  pub workpad_text : String
  pub issue_body : String
  pub acceptance_hints : List String
  pub extra_docs : List String

pub record ContextPack : Type 0 where
  pub issue_key : String
  pub repo_root : String
  pub workpad_text : String
  pub issue_body : String
  pub acceptance_hints : List String
  pub extra_docs : List String

pub record CommitteeContext : Type 0 where
  pub repo_pack : ContextPack
  pub risk_pack : ContextPack
  pub constraint_pack : ContextPack

unfoldable pub bullet_section : String → List String → String
bullet_section title [] = ""
bullet_section title (i ∷ items) =
    join "\n" (concat (title ∷ ":" ∷ []) ∷ map (λ item. concat ("- " ∷ item ∷ [])) (i ∷ items))

unfoldable pub join_sections : List String → String
join_sections sections = join "\n\n" (map strip (nonblank sections))

unfoldable pub from_issue : IssueContext → CommitteeContext
from_issue issue =
    let hints = nonblank issue.acceptance_hints in
    let docs = nonblank issue.extra_docs in
    record {
      repo_pack = record {
        issue_key = issue.issue_key;
        repo_root = issue.repo_root;
        workpad_text = join_sections (
            "Repository-facing workpad context"
            ∷ issue.workpad_text
            ∷ bullet_section "Extra repository docs" docs
            ∷ []);
        issue_body =
            join_sections (issue.issue_body ∷ bullet_section "Acceptance criteria" hints ∷ []);
        acceptance_hints = hints;
        extra_docs = docs;
      };
      risk_pack = record {
        issue_key = issue.issue_key;
        repo_root = issue.repo_root;
        workpad_text = join_sections (
            bullet_section "Acceptance criteria" hints
            ∷ bullet_section "Risk-focused notes" docs
            ∷ []);
        issue_body = issue.issue_body;
        acceptance_hints = hints;
        extra_docs = docs;
      };
      constraint_pack = record {
        issue_key = issue.issue_key;
        repo_root = issue.repo_root;
        workpad_text =
            join_sections (bullet_section "Constraint notes" docs ∷ issue.workpad_text ∷ []);
        issue_body =
            join_sections (issue.issue_body ∷ bullet_section "Acceptance criteria" hints ∷ []);
        acceptance_hints = hints;
        extra_docs = docs;
      };
    }

pub record RepoExplorerV1 : Type 0 where
  pub candidate_files : List String
  pub similar_files : List String
  pub architectural_notes : List String

pub record RiskTestPlanV1 : Type 0 where
  pub risks : List RiskItem
  pub test_mapping : List TestMappingItem

pub record ConstraintReportV1 : Type 0 where
  pub out_of_scope : List String
  pub protected_paths : List String
  pub constraints : List String

pub record MergePack : Type 0 where
  pub issue_key : String
  pub repo_root : String
  pub issue_body : String
  pub workpad_text : String
  pub repo_out : RepoExplorerV1
  pub risk_out : RiskTestPlanV1
  pub constraint_out : ConstraintReportV1

unfoldable pub merge_pack :
    CommitteeContext → RepoExplorerV1 → RiskTestPlanV1 → ConstraintReportV1 → MergePack
merge_pack ctx repo risk constraint = record {
  issue_key = ctx.repo_pack.issue_key;
  repo_root = ctx.repo_pack.repo_root;
  issue_body = ctx.repo_pack.issue_body;
  workpad_text = ctx.repo_pack.workpad_text;
  repo_out = repo;
  risk_out = risk;
  constraint_out = constraint;
}

-- What stops the committee: a role or the merger raises, or the gate does.
pub data CommitteeError : Type 0 where
  role_failed : String → CommitteeError
  gate : GateError → CommitteeError

pub record PlanBundle (F : Type 0) : Type 0 where
  pub repo : RepoExplorerV1
  pub risk : RiskTestPlanV1
  pub constraint : ConstraintReportV1
  pub merged : PlanV2 F

abbrev role {ℓ} : {A : Type ℓ} → Result String A → Result CommitteeError A
role (ok a) = ok a
role (err e) = err (role_failed e)

abbrev gated : Result GateError (Unit {0}) → Result CommitteeError (Unit {0})
gated (ok u) = ok u
gated (err e) = err (gate e)

-- The roles and the merger answer through a language model, and may raise.
module _ {F : Type 0} (repo_explorer : ContextPack → Result String RepoExplorerV1)
    (risk_test_planner : ContextPack → Result String RiskTestPlanV1)
    (constraint_checker : ContextPack → Result String ConstraintReportV1)
    (merger : MergePack → Result String (PlanV2 F)) where
  unfoldable pub build_plan : IssueContext → Result CommitteeError (PlanBundle F)
  build_plan issue = do
    let ctx = from_issue issue
    repo ← role (repo_explorer ctx.repo_pack)
    risk ← role (risk_test_planner ctx.risk_pack)
    constraint ← role (constraint_checker ctx.constraint_pack)
    merged ← role (merger (merge_pack ctx repo risk constraint))
    gated (validate_or_raise merged)
    ok (record { repo = repo; risk = risk; constraint = constraint; merged = merged })
