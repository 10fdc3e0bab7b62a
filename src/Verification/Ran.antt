-- ===== src/Verification/Ran.antt =====
-- app/pipeline.py: the rows that a run of commands gives.
use dev_bot.Base.{
  String, ◌≡◌, refl, sym, ap, ◌∙◌, inl, inr, false, none, List, [], ◌∷◌, ◌++◌, map, Bool-cases,
}
use mathlib.Core.List.{append-nil, append_assoc}
use dev_bot.Base.Eq.{string_eq, ◌==◌}
use dev_bot.Base.Codes.{Codes, codes}
use dev_bot.Base.Lists.{All}
use dev_bot.Approvals.Risk.{is_high_risk_command}
use dev_bot.Verification.Workflow.{Command}
use dev_bot.Verification.Execution.{
  Completed, Row, last_4000, classify_command_failure, command_result, execute_from,
  execute_workflow_commands,
}

module _ (lower : Codes → Codes) (shell : List String → String → Completed) where
  abbrev first_row : List String → Command → Row
  first_row ran check =
      let done = shell ran check.command in
      command_result lower check done.returncode (last_4000 done.output)

  execute_from-low_risk :
      (ran : List String) (checks : List Command)
      → All
          (λ command. is_high_risk_command lower (codes command) ≡ false)
          (map (λ row. row.command) (execute_from lower shell ran checks).results)
  unfolding execute_from command_result
  execute_from-low_risk ran [] = tt
  execute_from-low_risk ran (check ∷ checks) =
      elim (Bool-cases (is_high_risk_command lower (codes check.command))) [
        | inl high ↦ rw high tt
        | inr low ↦
            let done = shell ran check.command in
            let failure =
              classify_command_failure lower check.category done.returncode done.output in
            elim (Bool-cases (failure == "")) [
              | inl none_found ↦
                  rw (low, none_found)
                    (low, execute_from-low_risk (ran ++ check.command ∷ []) checks)
              | inr found ↦ rw (low, found) (low, tt)
            ]
      ]

  -- A run that is not stopped at a command has its row and goes on.
  pub execute_from-go_on :
      (ran : List String) (check : Command) (checks : List Command)
      → (execute_from lower shell ran (check ∷ checks)).stopped ≡ none
      → let rest = execute_from lower shell (ran ++ check.command ∷ []) checks in
        (rest.stopped ≡ none)
        × ((execute_from lower shell ran (check ∷ checks)).results
            ≡ first_row ran check ∷ rest.results)
  unfolding execute_from
  execute_from-go_on ran check checks =
      elim (Bool-cases (is_high_risk_command lower (codes check.command))) [
        | inl high ↦ rw high (λ h. absurd (cc h))
        | inr low ↦
            let done = shell ran check.command in
            let failure =
              classify_command_failure lower check.category done.returncode done.output in
            elim (Bool-cases (failure == "")) [
              | inl none_found ↦ rw (low, none_found) (λ h. (h, refl))
              | inr found ↦ rw (low, found) (λ h. absurd (cc h))
            ]
      ]

  execute_from-commands :
      (ran : List String) (checks : List Command)
      → (left : List Command) × (map (λ check. check.command) checks
          ≡ map (λ row. row.command) (execute_from lower shell ran checks).results
            ++ map (λ check. check.command) left)
  unfolding execute_from command_result
  execute_from-commands ran [] = ([], refl)
  execute_from-commands ran (check ∷ checks) =
      elim (Bool-cases (is_high_risk_command lower (codes check.command))) [
        | inl high ↦ (check ∷ checks, rw high refl)
        | inr low ↦
            let done = shell ran check.command in
            let failure =
              classify_command_failure lower check.category done.returncode done.output in
            elim (Bool-cases (failure == "")) [
              | inl none_found ↦
                  let (left, e) = execute_from-commands (ran ++ check.command ∷ []) checks in
                  (left, rw (low, none_found) (ap (λ cs. check.command ∷ cs) e))
              | inr found ↦ (checks, rw (low, found) refl)
            ]
      ]

module _ (lower : Codes → Codes) (shell : List String → String → Completed) where
  -- The shell has run the commands that were run before and those of the rows, and no other.
  execute_from-ran :
      (ran : List String) (checks : List Command)
      → (execute_from lower shell ran checks).ran
        ≡ ran ++ map (λ row. row.command) (execute_from lower shell ran checks).results
  unfolding execute_from command_result
  execute_from-ran ran [] = sym (append-nil ran)
  execute_from-ran ran (check ∷ checks) =
      elim (Bool-cases (is_high_risk_command lower (codes check.command))) [
        | inl high ↦ rw high (sym (append-nil ran))
        | inr low ↦
            let done = shell ran check.command in
            let failure =
              classify_command_failure lower check.category done.returncode done.output in
            elim (Bool-cases (failure == "")) [
              | inl none_found ↦
                  rw (low, none_found)
                    (execute_from-ran (ran ++ check.command ∷ []) checks
                      ∙ append_assoc ran (check.command ∷ []) _)
              | inr found ↦ rw (low, found) refl
            ]
      ]

-- The shell runs no command that counts as one of high risk, whatever the workflow's commands are; the
-- commands that it runs are those of the rows, and the first ones of the workflow, in their order.
pub execute_workflow_commands-rows :
    (lower : Codes → Codes) (shell : List String → String → Completed) (checks : List Command)
    → let done = execute_workflow_commands lower shell checks in
      All (λ command. is_high_risk_command lower (codes command) ≡ false) done.ran
      × (done.ran ≡ map (λ row. row.command) done.results)
      × (left : List Command) × (map (λ check. check.command) checks
          ≡ done.ran ++ map (λ check. check.command) left)
unfolding execute_workflow_commands
execute_workflow_commands-rows lower shell checks =
    let (left, e) = execute_from-commands lower shell [] checks in
    let same = execute_from-ran lower shell [] checks in
    (rw same (execute_from-low_risk lower shell [] checks), same, left, rw same e)
