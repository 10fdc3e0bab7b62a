-- ===== src/Verification.antt =====
-- app/verification_profiles.py: the checks that verify an implementation, chosen by the profile of the
-- repository and the files of the plan.
pub mod Scope
pub mod Workflow
pub mod Execution
pub mod Commands
pub mod Plans
pub mod Ran
pub mod Guard
mod Tests
use Prim.Native.Char.{code}
use Prim.Native.String.{◌++◌ as str_append}
use dev_bot.Base.{
  ℕ, String, Bool, true, false, not, ◌&&◌, ◌||◌, List, [], ◌∷◌, ◌++◌, map, ltb, nat_beq,
  if◌then◌else◌,
}
use dev_bot.Base.Lists.{length}
use dev_bot.Base.Eq.{string_eq, ◌==◌}
use dev_bot.Base.Sets.{contains, add}
use dev_bot.Base.Text.{is_empty, strip}
use dev_bot.Base.Items.{stripped}
use dev_bot.Base.Join.{concat, join}
use dev_bot.Verification.Scope.{select_scope, first_path, commands_for_scope}

pub record Check : Type 0 where
  pub name : String
  pub command : String
  pub allow_not_applicable : Bool

-- The repository's profile: its texts as `str` gives them, and its lists, where a value that is no list
-- counts as an empty one.
pub record RepoProfile : Type 0 where
  pub suggested_verification_profile : String
  pub languages : List String
  pub setup_commands : List String
  pub lint_commands : List String
  pub test_commands : List String
  pub typecheck_commands : List String
  pub format_commands : List String
  pub build_commands : List String

pub record VerificationPlan : Type 0 where
  pub profile : String
  pub repair_profile : String
  pub scope_paths : List String
  pub selection_reason : String
  pub confidence : String
  pub bootstrap_commands : List String
  pub hard_checks : List Check
  pub advisory_checks : List Check
  pub repair_checks : List Check

unfoldable pub select_profile : RepoProfile → String
select_profile repo =
    let suggested = strip repo.suggested_verification_profile in
    let languages = stripped repo.languages in
    if not (is_empty suggested)
    then suggested
    else if contains languages "python" && contains languages "typescript"
    then "mixed-py-ts"
    else if contains languages "typescript"
    then "ts-basic"
    else if contains languages "javascript"
    then "node-basic"
    else if contains languages "python"
    then "python-basic"
    else "generic-minimal"

unfoldable pub select_repair_profile : String → String
select_repair_profile profile =
    if profile == "python-basic"
    then "python-fast-repair"
    else if profile == "ts-basic"
    then "ts-fast-repair"
    else if profile == "mixed-py-ts"
    then "mixed-py-ts"
    else ""

unfoldable pub named : String → Bool → List String → List Check
named name allow commands =
    map (λ command. record { name = name; command = command; allow_not_applicable = allow })
      commands

-- The texts of the commands that are given to Python, before the scope and after it.
abbrev pub python_head : String
python_head = "python -c \"from pathlib import Path; root=Path(r'"

abbrev pub smoke_tail : String
smoke_tail =
    "'); html=sorted(root.rglob('*.html')); assert html, 'no html files found'; text=html[0].read_text(encoding='utf-8', errors='replace'); assert '<html' in text.lower(), 'missing html root'; assert '<script' in text.lower() or '.js' in text.lower(), 'missing interactive script'; print(html[0])\""

abbrev pub scan_tail : String
scan_tail =
    "'); files=list(root.rglob('*.html'))+list(root.rglob('*.js')); assert files, 'no html/js files found'; joined='\\n'.join(p.read_text(encoding='utf-8', errors='replace') for p in files); assert 'innerHTML' not in joined, 'innerHTML usage detected'; print('ok')\""

abbrev pub minimal_tail : String
minimal_tail =
    "'); assert root.exists(), 'scope does not exist'; files=[p for p in root.rglob('*') if p.is_file()]; assert files, 'no files found in scope'; print(len(files))\""

unfoldable pub static_web_checks : List String → List Check
static_web_checks scope_paths =
    named "html_static_smoke" false
      (concat (python_head ∷ first_path scope_paths ∷ smoke_tail ∷ []) ∷ [])
    ++ named "xss_static_scan" false
        (concat (python_head ∷ first_path scope_paths ∷ scan_tail ∷ []) ∷ [])

unfoldable pub generic_minimal_checks : List String → List Check
generic_minimal_checks scope_paths =
    named "workspace_sanity" false
      (concat (python_head ∷ first_path scope_paths ∷ minimal_tail ∷ []) ∷ [])

abbrev pub has_typecheck : String → Bool
has_typecheck profile =
    contains ("python-basic" ∷ "python-typecheck" ∷ "ts-basic" ∷ "node-ts" ∷ "mixed-py-ts" ∷ [])
      profile

unfoldable pub profile_hard_checks : String → RepoProfile → List String → List Check
profile_hard_checks profile repo scope_paths =
    named "lint" false (commands_for_scope repo.lint_commands scope_paths)
    ++ (named "tests" false (commands_for_scope repo.test_commands scope_paths)
        ++ (if has_typecheck profile
            then named "typecheck" false (commands_for_scope repo.typecheck_commands scope_paths)
            else []))

unfoldable pub profile_advisory_checks : RepoProfile → List String → List Check
profile_advisory_checks repo scope_paths =
    named "format" true (commands_for_scope repo.format_commands scope_paths)
    ++ named "build" true (commands_for_scope repo.build_commands scope_paths)

abbrev pub or_minimal : List String → List Check → List Check → List Check × List Check
or_minimal scope_paths [] advisory = (generic_minimal_checks scope_paths, [])
or_minimal scope_paths (check ∷ checks) advisory = (check ∷ checks, advisory)

-- The hard checks and the advisory ones.
unfoldable pub build_checks : String → RepoProfile → List String → List Check × List Check
build_checks profile repo scope_paths =
    if profile == "static-web"
    then (static_web_checks scope_paths, [])
    else if profile == "generic-minimal"
    then (generic_minimal_checks scope_paths, [])
    else or_minimal scope_paths (profile_hard_checks profile repo scope_paths)
        (profile_advisory_checks repo scope_paths)

abbrev pub first_only : List String → List String
first_only [] = []
first_only (command ∷ commands) = command ∷ []

unfoldable pub build_repair_checks : String → RepoProfile → List String → List Check
build_repair_checks repair_profile repo scope_paths =
    if not (contains ("python-fast-repair" ∷ "ts-fast-repair" ∷ "mixed-py-ts" ∷ []) repair_profile)
    then []
    else named "format" true (commands_for_scope repo.format_commands scope_paths)
      ++ (named "lint" true (commands_for_scope repo.lint_commands scope_paths)
          ++ (named "typecheck" true (commands_for_scope repo.typecheck_commands scope_paths)
              ++ named "tests" true
                  (first_only (commands_for_scope repo.test_commands scope_paths))))

-- How Python prints a list of texts that hold no quote and no character that is escaped.
abbrev quoted : String → String
quoted s = concat ("'" ∷ s ∷ "'" ∷ [])

unfoldable pub selection_reason : String → RepoProfile → String
selection_reason profile repo =
    if profile == "static-web"
    then "html-centric repository without Python or Node project metadata"
    else if profile == "generic-minimal"
    then "no trusted repository workflow and no strongly matched catalog profile"
    else concat
        ("repo profile languages=[" ∷ join ", " (map quoted (stripped repo.languages)) ∷ "]" ∷ [])

unfoldable pub confidence : String → String
confidence profile =
    if profile == "generic-minimal"
    then "low"
    else if profile == "static-web"
    then "medium"
    else "high"

-- `candidate_files` are those of the plan.
unfoldable pub build_verification_plan : RepoProfile → List String → VerificationPlan
build_verification_plan repo candidate_files =
    let profile = select_profile repo in
    let repair_profile = select_repair_profile profile in
    let scope_paths = select_scope candidate_files in
    let checks = build_checks profile repo scope_paths in
    record {
      profile = profile;
      repair_profile = repair_profile;
      scope_paths = scope_paths;
      selection_reason = selection_reason profile repo;
      confidence = confidence profile;
      bootstrap_commands = commands_for_scope repo.setup_commands scope_paths;
      hard_checks = checks.0;
      advisory_checks = checks.1;
      repair_checks = build_repair_checks repair_profile repo scope_paths;
    }
