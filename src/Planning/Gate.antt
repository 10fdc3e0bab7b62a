-- ===== src/Planning/Gate.antt =====
-- app/planning/plan_quality_gate.py: which plans pass, and when candidates are explored.
use dev_bot.Base.{
  ℕ, String, ◌≡◌, ◌≢◌, ◌↔◌, refl, Bool, true, false, not, ◌&&◌, ◌||◌, Option, none, some, List, [],
  ◌∷◌, map, arith, leb, if◌then◌else◌,
}
use dev_bot.Base.Lists.{length, All}
use dev_bot.Base.Eq.{string_eq}
use dev_bot.Base.Sets.{contains}
use dev_bot.Base.Text.{is_empty, is_empty_iff}
use dev_bot.Base.Result.{Result, ok, err, ◌>>◌}
use dev_bot.Planning.{PlanV2}

-- The ValueErrors: a required field, and the criteria that no test covers.
pub data GateError : Type 0 where
  required : String → GateError
  unmapped : List String → GateError

abbrev pub is_nil {ℓ} : {A : Type ℓ} → List A → Bool
is_nil [] = true
is_nil (_ ∷ _) = false

abbrev pub is_none {ℓ} : {A : Type ℓ} → Option A → Bool
is_none none = true
is_none (some _) = false

abbrev refuse_if : Bool → GateError → Result GateError (Unit {0})
refuse_if true e = err e
refuse_if false e = ok tt

unfoldable pub unmapped_criteria : List String → List String → List String
unmapped_criteria [] mapped = []
unmapped_criteria (c ∷ cs) mapped =
    let rest = unmapped_criteria cs mapped in if contains mapped c then rest else c ∷ rest

abbrev pub mapped_criteria : {F : Type 0} → PlanV2 F → List String
mapped_criteria plan = map (λ item. item.criterion) plan.test_mapping

unfoldable pub validate_or_raise : {F : Type 0} → PlanV2 F → Result GateError (Unit {0})
unfolding unmapped_criteria
validate_or_raise plan = do
  refuse_if (is_nil plan.acceptance_criteria) (required "acceptance_criteria")
  refuse_if (is_none plan.out_of_scope) (required "out_of_scope")
  refuse_if (is_nil plan.candidate_files) (required "candidate_files")
  refuse_if (is_empty plan.verification_profile) (required "verification_profile")
  refuse_if (is_nil plan.test_mapping) (required "test_mapping")
  refuse_if (is_nil plan.design_branches) (required "design_branches")
  let missing = unmapped_criteria plan.acceptance_criteria (mapped_criteria plan)
  refuse_if (not (is_nil missing)) (unmapped missing)

-- `lt` is the order of the floats, and `three_quarters` is 0.75.
module _ {F : Type 0} (lt : F → F → Bool) (three_quarters : F) where
  unfoldable pub gate_enables_candidates : PlanV2 F → ℕ → Bool
  gate_enables_candidates plan rework_count =
      (leb 1 rework_count || lt plan.planner_confidence three_quarters)
      && leb 2 (length plan.design_branches)

-- What a plan has that passes the gate.
pub record IsComplete {F : Type 0} (plan : PlanV2 F) : Type 0 where
  pub acceptance_criteria : plan.acceptance_criteria ≢ []
  pub out_of_scope : plan.out_of_scope ≢ none
  pub candidate_files : plan.candidate_files ≢ []
  pub verification_profile : plan.verification_profile ≢ ""
  pub test_mapping : plan.test_mapping ≢ []
  pub design_branches : plan.design_branches ≢ []
  pub covered : All (λ c. contains (mapped_criteria plan) c ≡ true) plan.acceptance_criteria

unmapped_criteria-eq-nil :
    (cs mapped : List String)
    → (unmapped_criteria cs mapped ≡ []) ↔ All (λ c. contains mapped c ≡ true) cs
unfolding unmapped_criteria
unmapped_criteria-eq-nil [] mapped = (λ h. tt, λ h. refl)
unmapped_criteria-eq-nil (c ∷ cs) mapped = ground (arith, unmapped_criteria-eq-nil cs mapped)

is_nil-eq-false {ℓ} : {A : Type ℓ} (xs : List A) → (is_nil xs ≡ false) ↔ (xs ≢ [])
is_nil-eq-false [] = (λ h. absurd (cc h), λ n. absurd (n refl))
is_nil-eq-false (x ∷ xs) = (λ h e. cc e, λ n. refl)

is_none-eq-false {ℓ} : {A : Type ℓ} (o : Option A) → (is_none o ≡ false) ↔ (o ≢ none)
is_none-eq-false none = (λ h. absurd (cc h), λ n. absurd (n refl))
is_none-eq-false (some x) = (λ h e. cc e, λ n. refl)

is_empty-eq-false : (s : String) → (is_empty s ≡ false) ↔ (s ≢ "")
is_empty-eq-false s = (λ h e. cc (h, (is_empty_iff s).1 e), λ n. ground (arith, n, is_empty_iff s))

-- A plan passes the gate exactly when every required field is there and every acceptance criterion
-- is one that `test_mapping` maps.
pub validate_or_raise_iff :
    {F : Type 0} (plan : PlanV2 F) → (validate_or_raise plan ≡ ok tt) ↔ IsComplete plan
unfolding validate_or_raise
validate_or_raise_iff plan = (
  passes,
  λ c.
      rw
        (
          (is_nil-eq-false plan.acceptance_criteria).1 c.acceptance_criteria,
          (is_none-eq-false plan.out_of_scope).1 c.out_of_scope,
          (is_nil-eq-false plan.candidate_files).1 c.candidate_files,
          (is_empty-eq-false plan.verification_profile).1 c.verification_profile,
          (is_nil-eq-false plan.test_mapping).1 c.test_mapping,
          (is_nil-eq-false plan.design_branches).1 c.design_branches,
          (unmapped_criteria-eq-nil plan.acceptance_criteria (mapped_criteria plan)).1 c.covered,
        )
        refl,
)
  where
    passes : validate_or_raise plan ≡ ok tt → IsComplete plan
    passes h = record {
      acceptance_criteria = (is_nil-eq-false plan.acceptance_criteria).0 (ground arith);
      out_of_scope = (is_none-eq-false plan.out_of_scope).0 (ground arith);
      candidate_files = (is_nil-eq-false plan.candidate_files).0 (ground arith);
      verification_profile = (is_empty-eq-false plan.verification_profile).0 (ground arith);
      test_mapping = (is_nil-eq-false plan.test_mapping).0 (ground arith);
      design_branches = (is_nil-eq-false plan.design_branches).0 (ground arith);
      covered =
          (unmapped_criteria-eq-nil plan.acceptance_criteria (mapped_criteria plan)).0
            (ground arith);
    }
