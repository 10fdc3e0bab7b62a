-- ===== src/Verification/Guard.antt =====
-- app/verification_profiles.py and app/pipeline.py together: what it takes for an implementation to pass
-- the hard checks of its plan.
use dev_bot.Base.{
  String, ◌≡◌, refl, sym, ap, subst, ◌∙◌, inl, inr, Bool, true, false, Option, none, some, List, [],
  ◌∷◌, ◌++◌, arith, Bool-cases,
}
use dev_bot.Base.Eq.{string_eq}
use dev_bot.Base.Ints.{is_zero}
use dev_bot.Base.Codes.{Codes}
use dev_bot.Base.Text.{strip}
use dev_bot.Base.Lists.{All, Among, All-of_Among, Among-All}
use dev_bot.Candidates.Scoring.{has_failed_hard_checks}
use dev_bot.Verification.{Check, RepoProfile, VerificationPlan, build_verification_plan}
use dev_bot.Verification.Workflow.{
  WorkflowChecks, Command, workflow_commands, has_required, resolve_workflow,
  load_effective_workflow,
}
use dev_bot.Verification.Execution.{
  Completed, Row, CommandResults, last_4000, command_status, command_result, execute_from,
  execute_workflow_commands, to_results,
}
use dev_bot.Verification.Plans.{IsCheck, build_verification_plan-AreChecks}
use dev_bot.Verification.Commands.{command_of, workflow_commands-plan}
use dev_bot.Verification.Ran.{execute_from-go_on}

-- Some row says that the command ended with code 0.
abbrev pub HasPassed : List Row → String → Type 0
HasPassed rows command =
    (row : Row) × Among row rows × (row.command ≡ command) × (is_zero row.returncode ≡ true)

later :
    (row : Row) (rows : List Row) (command : String)
    → HasPassed rows command
    → HasPassed (row ∷ rows) command
later row rows command (found, m, c, z) = (found, inr m, c, z)

module _ (lower : Codes → Codes) where
  -- A hard check that may not be left out passes only with code 0.
  row_passed :
      (check : Command) (done : Completed)
      → check.category ≡ "hard"
      → check.allow_not_applicable ≡ false
      → (rows : List Row)
      → has_failed_hard_checks
          (to_results (command_result lower check done.returncode (last_4000 done.output) ∷ rows))
        ≡ false
      → is_zero done.returncode ≡ true
  unfolding has_failed_hard_checks to_results command_result command_status
  row_passed check done hard required rows = elim (Bool-cases (is_zero done.returncode)) [
    | inl zero_code ↦ λ h. zero_code
    | inr other ↦ rw (other, hard, required) (λ h. absurd (cc h))
  ]

  rows_passed :
      (row : Row) (rows : List Row)
      → has_failed_hard_checks (to_results (row ∷ rows)) ≡ false
      → has_failed_hard_checks (to_results rows) ≡ false
  unfolding has_failed_hard_checks to_results
  rows_passed row rows h = ground (arith, h)

  module _ (shell : List String → String → Completed) where
    abbrev row_of : List String → Command → Row
    row_of ran check =
        let done = shell ran check.command in
        command_result lower check done.returncode (last_4000 done.output)

    first_passed :
        (ran : List String) (first : Command) (rows : List Row) (check : Command)
        → has_failed_hard_checks (to_results (row_of ran first ∷ rows)) ≡ false
        → check.category ≡ "hard"
        → check.allow_not_applicable ≡ false
        → check ≡ first
        → HasPassed (row_of ran first ∷ rows) check.command
    unfolding command_result
    first_passed ran first rows check passes hard required e = (
      row_of ran first,
      inl refl,
      ap (λ c. c.command) (sym e),
      row_passed first (shell ran first.command) (ap (λ c. c.category) (sym e) ∙ hard)
          (ap (λ c. c.allow_not_applicable) (sym e) ∙ required) rows passes,
    )

  module _ (shell : List String → String → Completed) where
    execute_from-passed :
        (ran : List String) (checks : List Command) (check : Command)
        → (execute_from lower shell ran checks).stopped ≡ none
        → has_failed_hard_checks (to_results (execute_from lower shell ran checks).results) ≡ false
        → check.category ≡ "hard"
        → check.allow_not_applicable ≡ false
        → Among check checks
        → HasPassed (execute_from lower shell ran checks).results check.command
    execute_from-passed ran [] check ended ok_all hard required m = absurd m
    execute_from-passed ran (first ∷ checks) check ended ok_all hard required m =
        let (rest_ended, rows) = execute_from-go_on lower shell ran first checks ended in
        let after = execute_from lower shell (ran ++ first.command ∷ []) checks in
        let passes : has_failed_hard_checks (to_results (row_of shell ran first ∷ after.results))
            ≡ false =
          ap (λ rs. has_failed_hard_checks (to_results rs)) (sym rows) ∙ ok_all in
        subst (λ rs. HasPassed rs check.command) (sym rows)
          (elim m [
            | inl e ↦ first_passed shell ran first after.results check passes hard required e
            | inr m ↦ later (row_of shell ran first) after.results check.command (
                execute_from-passed (ran ++ first.command ∷ []) checks check rest_ended
                  (rows_passed (row_of shell ran first) after.results passes) hard required m)
          ])

-- The run of the commands of the workflow that a workspace, the bot's own directory and a plan give.
unfoldable pub run_of_plan :
    (Codes → Codes)
    → (List String → String → Completed)
    → Option WorkflowChecks
    → WorkflowChecks
    → VerificationPlan
    → CommandResults
run_of_plan lower shell own fallback plan =
    execute_workflow_commands lower shell
      (workflow_commands (load_effective_workflow own fallback (some plan)))

-- The workspace has required checks of its own, or another value there that counts as true.
abbrev pub overrides : Option WorkflowChecks → Bool
overrides none = false
overrides (some workflow) = has_required workflow

effective-Among :
    (own : Option WorkflowChecks) (fallback : WorkflowChecks) (plan : VerificationPlan)
    (check : Check)
    → overrides own ≡ false
    → All (IsCheck false) plan.hard_checks
    → Among check plan.hard_checks
    → Among
        (command_of "hard" check)
        (workflow_commands (load_effective_workflow own fallback (some plan)))
unfolding load_effective_workflow resolve_workflow
effective-Among none fallback plan check h required m =
    workflow_commands-plan plan fallback.commands check required m
effective-Among (some workflow) fallback plan check h required m =
    rw h (workflow_commands-plan plan workflow.commands check required m)

-- Where a workspace has no value of its own for the required checks that counts as true, its commands are run to the end, and no hard check counts as
-- failed, the command of every hard check of the plan was run and ended with code 0.
pub hard_checks-Passed :
    (lower : Codes → Codes) (shell : List String → String → Completed) (repo : RepoProfile)
    (candidate_files : List String) (own : Option WorkflowChecks) (fallback : WorkflowChecks)
    → overrides own ≡ false
    → (run_of_plan lower shell own fallback (build_verification_plan repo candidate_files)).stopped
      ≡ none
    → has_failed_hard_checks (
        to_results
          (run_of_plan lower shell own fallback
            (build_verification_plan repo candidate_files)).results)
      ≡ false
    → All
        (λ check.
          HasPassed
            (run_of_plan lower shell own fallback
              (build_verification_plan repo candidate_files)).results
            (strip check.command))
        (build_verification_plan repo candidate_files).hard_checks
unfolding run_of_plan execute_workflow_commands
hard_checks-Passed lower shell repo candidate_files own fallback h ended passes =
    let plan = build_verification_plan repo candidate_files in
    let required = (build_verification_plan-AreChecks repo candidate_files).1 in
    All-of_Among _ plan.hard_checks (λ check m.
      execute_from-passed lower shell [] _ (command_of "hard" check) ended passes refl
        (Among-All (IsCheck false) check plan.hard_checks required m).1
        (effective-Among own fallback plan check h required m))
