-- ===== src/Planning.antt =====
-- app/contracts/artifact_models.py (the plan) and app/planning/plan_quality_gate.py.
pub mod Gate
pub mod Committee
mod Tests
use dev_bot.Base.{ℕ, String, Bool, Option, List}

pub record PlanTask : Type 0 where
  pub id : String
  pub summary : String
  pub files : List String
  pub done_when : String

pub record DesignBranch : Type 0 where
  pub id : String
  pub summary : String
  pub pros : List String
  pub cons : List String
  pub recommended : Bool

pub record RiskItem : Type 0 where
  pub risk : String
  pub mitigation : String

pub record TestMappingItem : Type 0 where
  pub criterion : String
  pub tests : List String

-- `F` is the type of floats. `out_of_scope` may be None at run time, which the gate tests.
pub record PlanV2 (F : Type 0) : Type 0 where
  pub goal : String
  pub acceptance_criteria : List String
  pub out_of_scope : Option (List String)
  pub version : ℕ
  pub constraints : List String
  pub candidate_files : List String
  pub must_not_touch : List String
  pub verification_focus : List String
  pub exploration_required : Bool
  pub tasks : List PlanTask
  pub design_branches : List DesignBranch
  pub risks : List RiskItem
  pub test_mapping : List TestMappingItem
  pub verification_profile : String
  pub planner_confidence : F
