-- ===== src/Verification/Commands.antt =====
-- app/pipeline.py and app/verification_profiles.py: the checks of a plan among the commands of a workflow
-- whose verification section is made of that plan.
use dev_bot.Base.{
  String, ◌≡◌, refl, sym, ap, subst, ◌∙◌, inl, inr, Bool, true, false, not, Option, none, some,
  List, [], ◌∷◌, ◌++◌, map, arith, if◌then◌else◌, Bool-cases,
}
use dev_bot.Base.Eq.{string_eq}
use dev_bot.Base.Lists.{All, Among, Among-append_left, Among-append_right, Among-map}
use dev_bot.Base.Text.{is_empty, or_else, strip}
use dev_bot.Base.Visible.{has_visible, is_empty-strip, strip-strip}
use dev_bot.Verification.{Check, VerificationPlan}
use dev_bot.Verification.Workflow.{
  PhaseCommands, Command, workflow_check, workflow_verification_from_plan, item_command,
  normalize_required_checks, section_commands, workflow_commands, or_older,
}
use dev_bot.Verification.Plans.{IsCheck}

-- The command that a check of the plan becomes.
abbrev pub command_of : String → Check → Command
command_of category check = record {
  phase = or_else (strip (or_else (strip check.name) "check")) "check";
  command = strip check.command;
  category = category;
  allow_not_applicable = check.allow_not_applicable;
}

filled : (s : String) → has_visible s ≡ true → is_empty (strip (strip s)) ≡ false
filled s h = ap is_empty (strip-strip s) ∙ is_empty-strip s ∙ ap not h

hard_stays : or_else (strip "hard") "hard" ≡ "hard"
unfolding or_else strip dev_bot.Base.Text.strip_left dev_bot.Base.Text.strip_right
hard_stays = refl

item_command-workflow_check :
    (allow : Bool) (check : Check)
    → IsCheck allow check
    → item_command "hard" (workflow_check "hard" check) ≡ command_of "hard" check ∷ []
unfolding workflow_check
item_command-workflow_check allow check h =
    rw (filled check.command h.0) (rw (strip-strip check.command) (rw hard_stays refl))

normalize_required_checks-plan :
    (allow : Bool) (checks : List Check)
    → All (IsCheck allow) checks
    → normalize_required_checks (map (workflow_check "hard") checks) "hard"
      ≡ map (command_of "hard") checks
unfolding normalize_required_checks
normalize_required_checks-plan allow [] h = refl
normalize_required_checks-plan allow (c ∷ cs) h =
    rw (item_command-workflow_check allow c h.0)
      (ap (λ rest. command_of "hard" c ∷ rest) (normalize_required_checks-plan allow cs h.1))

or_older_of_some :
    (c : Command) (cs : List Command) (commands : Option PhaseCommands)
    → Among c cs
    → Among c (or_older cs commands)
or_older_of_some c [] commands m = absurd m
or_older_of_some c (d ∷ cs) commands m = m

-- A hard check of the plan is one of the commands that are run for a workflow which has the plan's
-- section.
pub workflow_commands-plan :
    (plan : VerificationPlan) (commands : Option PhaseCommands) (check : Check)
    → All (IsCheck false) plan.hard_checks
    → Among check plan.hard_checks
    → Among (command_of "hard" check) (
        workflow_commands (record {
          verification = some (workflow_verification_from_plan plan);
          commands = commands;
        }))
unfolding workflow_commands workflow_verification_from_plan section_commands
workflow_commands-plan plan commands check h m = or_older_of_some _ _ commands (
    Among-append_right _ _ _ (
      Among-append_left _ _ _ (
        subst (Among (command_of "hard" check))
          (sym (normalize_required_checks-plan false plan.hard_checks h))
          (Among-map (command_of "hard") check plan.hard_checks m))))
