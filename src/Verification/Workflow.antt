-- ===== src/Verification/Workflow.antt =====
-- app/verification_profiles.py and app/pipeline.py: the verification section that is made of a plan, and
-- the commands that a workflow has for the pipeline.
use dev_bot.Base.{
  String, Bool, true, false, not, ◌&&◌, Option, none, some, List, [], ◌∷◌, ◌++◌, map, if◌then◌else◌,
}
use dev_bot.Base.Eq.{string_eq, ◌==◌}
use dev_bot.Base.Text.{is_empty, or_else, strip}
use dev_bot.Base.Items.{stripped}
use dev_bot.Verification.{Check, VerificationPlan}

-- An item of a list of checks: a dict, a text, or anything else. The texts of a dict are those that
-- `str` gives, and a missing key has its default.
pub data CheckItem : Type 0 where
  dict :
      (name command : String) (category : Option String) (allow_not_applicable : Bool) → CheckItem
  text : String → CheckItem
  other : CheckItem

-- What a section has for its required checks: a list, or another value, which is true or false.
pub data RequiredChecks : Type 0 where
  check_list : List CheckItem → RequiredChecks
  no_list : Bool → RequiredChecks

abbrev pub as_list : RequiredChecks → List CheckItem
as_list (check_list checks) = checks
as_list (no_list truthy) = []

abbrev pub is_truthy : RequiredChecks → Bool
is_truthy (check_list []) = false
is_truthy (check_list (check ∷ checks)) = true
is_truthy (no_list truthy) = truthy

-- The verification section. Of the bootstrap commands and the advisory checks the pipeline reads lists
-- only, so that a value which is no list counts as an empty one.
pub record VerificationSection : Type 0 where
  pub bootstrap_commands : List CheckItem
  pub required_checks : RequiredChecks
  pub advisory_checks : List CheckItem

-- The commands of the phases in an older workflow, as texts.
pub record PhaseCommands : Type 0 where
  pub setup : List String
  pub lint : List String
  pub test : List String

-- `none` where the value is no dict.
pub record WorkflowChecks : Type 0 where
  pub verification : Option VerificationSection
  pub commands : Option PhaseCommands

pub record Command : Type 0 where
  pub phase : String
  pub command : String
  pub category : String
  pub allow_not_applicable : Bool

-- `_workflow_check` in verification_profiles.py
unfoldable pub workflow_check : String → Check → CheckItem
workflow_check category item =
    dict (or_else (strip item.name) "check") (strip item.command) (some category)
      item.allow_not_applicable

unfoldable pub workflow_verification_from_plan : VerificationPlan → VerificationSection
workflow_verification_from_plan plan = record {
  bootstrap_commands = map text (stripped plan.bootstrap_commands);
  required_checks = check_list (map (workflow_check "hard") plan.hard_checks);
  advisory_checks = map (workflow_check "advisory") plan.advisory_checks;
}

abbrev pub category_of : Option String → String → String
category_of none category = or_else (strip category) category
category_of (some own) category = or_else (strip own) category

abbrev pub dict_command : String → String → Option String → Bool → String → List Command
dict_command name command own allow category =
    if is_empty (strip command)
    then []
    else record {
      phase = or_else (strip name) "check";
      command = strip command;
      category = category_of own category;
      allow_not_applicable = allow;
    }
      ∷ []

abbrev pub text_command : String → String → List Command
text_command s category =
    if not (is_empty (strip s)) && category == "bootstrap"
    then record {
      phase = "bootstrap";
      command = strip s;
      category = category;
      allow_not_applicable = false;
    }
      ∷ []
    else []

-- What one round of the loop appends.
abbrev pub item_command : String → CheckItem → List Command
item_command category (dict name command own allow) = dict_command name command own allow category
item_command category (text s) = text_command s category
item_command category other = []

unfoldable pub normalize_required_checks : List CheckItem → String → List Command
normalize_required_checks [] category = []
normalize_required_checks (item ∷ items) category =
    item_command category item ++ normalize_required_checks items category

unfoldable pub section_commands : VerificationSection → List Command
section_commands section =
    normalize_required_checks section.bootstrap_commands "bootstrap"
    ++ (normalize_required_checks (as_list section.required_checks) "hard"
        ++ normalize_required_checks section.advisory_checks "advisory")

unfoldable pub phase_commands : String → String → List String → List Command
phase_commands phase category commands =
    map
      (λ command. record {
        phase = phase;
        command = command;
        category = category;
        allow_not_applicable = false;
      })
      (stripped commands)

abbrev pub older_commands : Option PhaseCommands → List Command
older_commands none = []
older_commands (some commands) =
    phase_commands "setup" "bootstrap" commands.setup
    ++ (phase_commands "lint" "hard" commands.lint ++ phase_commands "test" "hard" commands.test)

abbrev pub or_older : List Command → Option PhaseCommands → List Command
or_older [] commands = older_commands commands
or_older (c ∷ cs) commands = c ∷ cs

abbrev pub verification_commands : Option VerificationSection → List Command
verification_commands none = []
verification_commands (some section) = section_commands section

unfoldable pub workflow_commands : WorkflowChecks → List Command
workflow_commands workflow =
    or_older (verification_commands workflow.verification) workflow.commands

abbrev pub has_required : WorkflowChecks → Bool
has_required workflow = in_section workflow.verification
  where
    in_section : Option VerificationSection → Bool
    in_section none = false
    in_section (some section) = is_truthy section.required_checks

abbrev pub with_plan : WorkflowChecks → Option VerificationPlan → WorkflowChecks
with_plan workflow none = workflow
with_plan workflow (some plan) = record workflow {
  verification = some (workflow_verification_from_plan plan);
}

unfoldable pub resolve_workflow : WorkflowChecks → Option VerificationPlan → Bool → WorkflowChecks
resolve_workflow workflow verification_plan prefer_verification_plan =
    if not prefer_verification_plan && has_required workflow
    then workflow
    else with_plan workflow verification_plan

-- `none` is a workspace without a workflow; `fallback` is what the bot's own directory has.
unfoldable pub load_effective_workflow :
    Option WorkflowChecks → WorkflowChecks → Option VerificationPlan → WorkflowChecks
load_effective_workflow none fallback verification_plan =
    resolve_workflow fallback verification_plan true
load_effective_workflow (some workflow) fallback verification_plan =
    resolve_workflow workflow verification_plan false

abbrev is_nothing {ℓ} : {A : Type ℓ} → List A → Bool
is_nothing [] = true
is_nothing (x ∷ xs) = false

-- `none` is a plan that is empty.
unfoldable pub should_refresh_verification_plan : Option VerificationPlan → VerificationPlan → Bool
should_refresh_verification_plan none refreshed = true
should_refresh_verification_plan (some existing) refreshed =
    let profile = strip existing.profile in
    let new_profile = strip refreshed.profile in
    if profile == "generic-minimal" && not (is_empty new_profile) && not (new_profile == profile)
    then true
    else if is_nothing existing.bootstrap_commands && not (is_nothing refreshed.bootstrap_commands)
    then true
    else is_nothing existing.hard_checks && not (is_nothing refreshed.hard_checks)
