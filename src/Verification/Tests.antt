-- ===== src/Verification/Tests.antt =====
-- The verification of implementations on concrete input.
use dev_bot.Base.{
  String, ◌≡◌, refl, ◌≢◌, Bool, true, false, Option, none, some, List, [], ◌∷◌, ◌++◌, map,
}
use dev_bot.Base.Ints.{pos}
use dev_bot.Base.Codes.{Codes, codes}
use dev_bot.Base.Text.{strip}
use dev_bot.Base.Lists.{All}
use dev_bot.Approvals.Risk.{is_high_risk_command}
use dev_bot.Candidates.Scoring.{has_failed_hard_checks}
use dev_bot.Verification.{RepoProfile, Check, build_verification_plan}
use dev_bot.Verification.Workflow.{
  WorkflowChecks, PhaseCommands, Command, workflow_verification_from_plan, workflow_commands,
}
use dev_bot.Verification.Execution.{Completed, Row, execute_workflow_commands, to_results}
use dev_bot.Verification.Plans.{IsCheck, build_verification_plan-AreChecks}
use dev_bot.Verification.Ran.{execute_workflow_commands-rows}
use dev_bot.Verification.Guard.{HasPassed, run_of_plan, hard_checks-Passed}

abbrev python_repo : RepoProfile
python_repo = record {
  suggested_verification_profile = "";
  languages = "python" ∷ [];
  setup_commands = "uv sync" ∷ [];
  lint_commands = "ruff check ." ∷ [];
  test_commands = " pytest " ∷ [];
  typecheck_commands = [];
  format_commands = "ruff format" ∷ [];
  build_commands = [];
}

abbrev same_case : Codes → Codes
same_case s = s

-- A shell in which every command succeeds.
abbrev succeeding : List String → String → Completed
succeeding ran command = record { returncode = pos 0; output = codes "done" }

-- A shell in which the formatter fails.
abbrev failing : List String → String → Completed
failing ran command = record { returncode = pos 1; output = codes "1 file would be reformatted" }

abbrev files : List String
files = "app/main.py" ∷ "app/worker.py" ∷ []

build_verification_plan-AreChecks_example :
    let plan = build_verification_plan python_repo files in
    (plan.hard_checks ≢ [])
    × All (IsCheck false) plan.hard_checks
    × All (IsCheck true) plan.advisory_checks
    × All (IsCheck true) plan.repair_checks
build_verification_plan-AreChecks_example = build_verification_plan-AreChecks python_repo files

abbrev commands : List Command
commands =
    record {
      phase = "setup";
      command = "uv sync";
      category = "bootstrap";
      allow_not_applicable = false;
    }
    ∷ record {
      phase = "clean";
      command = "rm -rf build";
      category = "hard";
      allow_not_applicable = false;
    }
    ∷ []

execute_workflow_commands-rows_example :
    let done = execute_workflow_commands same_case succeeding commands in
    All (λ command. is_high_risk_command same_case (codes command) ≡ false) done.ran
    × (done.ran ≡ map (λ row. row.command) done.results)
    × (left : List Command) × (map (λ check. check.command) commands
        ≡ done.ran ++ map (λ check. check.command) left)
execute_workflow_commands-rows_example =
    execute_workflow_commands-rows same_case succeeding commands

abbrev no_workflow : WorkflowChecks
no_workflow = record { verification = none; commands = none }

hard_checks-Passed_example :
    All
      (λ check.
        HasPassed
          (run_of_plan same_case succeeding none no_workflow
            (build_verification_plan python_repo files)).results
          (strip check.command))
      (build_verification_plan python_repo files).hard_checks
unfolding run_of_plan dev_bot.Verification.Workflow.load_effective_workflow
    dev_bot.Verification.Workflow.resolve_workflow execute_workflow_commands
    dev_bot.Verification.Execution.execute_from dev_bot.Verification.Execution.command_result
    dev_bot.Verification.Execution.command_status
    dev_bot.Verification.Execution.classify_command_failure to_results has_failed_hard_checks
    is_high_risk_command dev_bot.Approvals.Risk.is_part_of build_verification_plan workflow_commands
    workflow_verification_from_plan dev_bot.Base.Text.or_else strip dev_bot.Base.Text.strip_left
    dev_bot.Base.Text.strip_right dev_bot.Base.Text.is_space dev_bot.Base.Items.stripped
    dev_bot.Base.Sets.contains dev_bot.Verification.select_profile
    dev_bot.Verification.select_repair_profile dev_bot.Verification.Scope.select_scope
    dev_bot.Verification.Scope.commands_for_scope dev_bot.Verification.build_checks
    dev_bot.Verification.named dev_bot.Verification.profile_hard_checks
    dev_bot.Verification.profile_advisory_checks dev_bot.Verification.Workflow.workflow_check
    dev_bot.Verification.Workflow.section_commands
    dev_bot.Verification.Workflow.normalize_required_checks dev_bot.Verification.Execution.last_4000
    dev_bot.Verification.Scope.path_parts dev_bot.Base.Sets.add
hard_checks-Passed_example =
    hard_checks-Passed same_case succeeding python_repo files none no_workflow refl refl refl
