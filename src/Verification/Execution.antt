-- ===== src/Verification/Execution.antt =====
-- app/pipeline.py: the commands of a workflow are run in their order, up to one that is refused or that
-- the environment blocks.
--
-- What the shell does is the parameter `shell`: the code and the output of a command, given the commands
-- that were run before it. A text is the list of its code points. `str.lower` is the parameter `lower`.
use dev_bot.Base.{
  String, ◌-◌, Bool, ◌&&◌, Option, none, some, List, [], ◌∷◌, ◌++◌, map, if◌then◌else◌,
}
use dev_bot.Base.Eq.{string_eq, ◌==◌}
use dev_bot.Base.Ints.{ℤ, is_zero}
use dev_bot.Base.Codes.{Codes, codes}
use dev_bot.Base.Lists.{length, any}
use dev_bot.Approvals.Risk.{is_part_of, is_high_risk_command}
use dev_bot.Candidates.Scoring.{CommandResult}
use dev_bot.Chat.{drop}
use dev_bot.Verification.Workflow.{Command}

pub record Completed : Type 0 where
  pub returncode : ℤ
  pub output : Codes

pub record Row : Type 0 where
  pub phase : String
  pub category : String
  pub command : String
  pub returncode : ℤ
  pub output : Codes
  pub success : Bool
  pub status : String

-- The results, where the run was stopped, the type of the failure and the command, and, for the
-- theorems, the commands that the shell has run by then.
pub record CommandResults : Type 0 where
  pub results : List Row
  pub stopped : Option (String × String)
  pub ran : List String

abbrev pub environment_markers : List Codes
environment_markers = map codes (
    "failed to spawn" ∷ "no such file or directory" ∷ "command not found"
    ∷ "is not recognized as an internal or external command"
    ∷ "temporary failure in name resolution" ∷ "name or service not known"
    ∷ "network is unreachable" ∷ "connection refused" ∷ "could not resolve host"
    ∷ "failed to download" ∷ "failed to fetch" ∷ "tls handshake timeout" ∷ "timed out"
    ∷ "connection reset by peer" ∷ [])

abbrev pub absence_markers : List Codes
absence_markers =
    map codes
      ("no tests ran" ∷ "no tests collected" ∷ "not found" ∷ "no such file or directory" ∷ [])

-- `output[-4000:]`
unfoldable pub last_4000 : Codes → Codes
last_4000 output = drop (length output - 4000) output

module _ (lower : Codes → Codes) where
  unfoldable pub says : List Codes → Codes → Bool
  says markers output = any (λ marker. is_part_of marker (lower output)) markers

module _ (lower : Codes → Codes) where
  -- "" is the type of no failure.
  unfoldable pub classify_command_failure : String → ℤ → Codes → String
  classify_command_failure category returncode output =
      if is_zero returncode
      then ""
      else if category == "bootstrap"
      then "environment_blocked"
      else if says lower environment_markers output
      then "environment_blocked"
      else ""

  unfoldable pub command_status : ℤ → Codes → Bool → String
  command_status returncode output allow_not_applicable =
      if is_zero returncode
      then "pass"
      else if allow_not_applicable && says lower absence_markers output
      then "not_applicable"
      else "fail"

module _ (lower : Codes → Codes) where
  unfoldable pub command_result : Command → ℤ → Codes → Row
  command_result check returncode output =
      let status = command_status lower returncode output check.allow_not_applicable in
      record {
        phase = check.phase;
        category = check.category;
        command = check.command;
        returncode = returncode;
        output = output;
        success = status == "pass";
        status = status;
      }

abbrev pub put_first : Row → CommandResults → CommandResults
put_first row r = record r { results = row ∷ r.results }

-- `subprocess.run`: what the shell answers, and the commands that were run by then.
abbrev pub run_command :
    (List String → String → Completed) → List String → String → Completed × List String
run_command shell ran command = (shell ran command, ran ++ command ∷ [])

module _ (lower : Codes → Codes) (shell : List String → String → Completed) where
  -- `ran` are the commands that were run before.
  unfoldable pub execute_from : List String → List Command → CommandResults
  execute_from ran [] = record { results = []; stopped = none; ran = ran }
  execute_from ran (check ∷ checks) =
      let (done, ran_now) = run_command shell ran check.command in
      let row = command_result lower check done.returncode (last_4000 done.output) in
      let failure = classify_command_failure lower check.category done.returncode done.output in
      let rest = execute_from ran_now checks in
      if is_high_risk_command lower (codes check.command)
      then record { results = []; stopped = some ("policy_violation", check.command); ran = ran }
      else if failure == ""
      then put_first row rest
      else record { results = row ∷ []; stopped = some (failure, check.command); ran = ran_now }

module _ (lower : Codes → Codes) where
  unfoldable pub execute_workflow_commands :
      (List String → String → Completed) → List Command → CommandResults
  execute_workflow_commands shell checks = execute_from lower shell [] checks

  -- `_preflight_workflow_policy`: `none` lets the workflow pass.
  unfoldable pub preflight_workflow_policy : List Command → Option CommandResults
  preflight_workflow_policy [] = none
  preflight_workflow_policy (check ∷ checks) =
      let rest = preflight_workflow_policy checks in
      if is_high_risk_command lower (codes check.command)
      then some
          (record { results = []; stopped = some ("policy_violation", check.command); ran = [] })
      else rest

-- What `_has_failed_hard_checks` reads of the results.
unfoldable pub to_results : List Row → List CommandResult
to_results [] = []
to_results (row ∷ rows) =
    record { category = some row.category; status = some row.status } ∷ to_results rows
