-- ===== src/Schema/Planning.antt =====
-- app/contracts/workflow_schema.py: the sections on planning and replanning.
pub mod Sound
use dev_bot.Base.{String, Bool, true, false, ◌||◌, Option, none, some, List, [], ◌∷◌, if◌then◌else◌}
use Prim.Native.String
use dev_bot.Base.Result.{ok, err, ◌>>=◌, ◌>>◌}
use dev_bot.Base.Text.{is_empty}
use dev_bot.Base.Ints.{ℤ, pos, negsuc}
use dev_bot.Schema.Yaml.{Key, YamlValue, YamlFields, end, field, key_text, Conversions}
use dev_bot.Schema.Require.{
  Checked, SchemaError, workflow_validation_error, refuse, require_mapping, text_field, text_or,
  flag, int_field, strings_field, section_or, section_of, mapping_field, when,
}

pub record CommitteeRoleConfig : Type 0 where
  pub mode : String
  pub allowed_tools : List String
  pub disallowed_tools : List String
  pub output_schema : String

pub record PlanningCommitteeConfig : Type 0 where
  pub roles : List (Key × CommitteeRoleConfig)

pub record PlanningGates : Type 0 where
  pub require_out_of_scope : Bool
  pub require_candidate_files : Bool
  pub require_test_mapping : Bool
  pub require_verification_profile : Bool
  pub require_design_branches : Bool

pub record PlanningLegacyFallbackConfig : Type 0 where
  pub enabled : Bool
  pub use_only_on_committee_failure : Bool

pub record PlanningAutoselectCommitteeConfig : Type 0 where
  pub enabled : Bool
  pub min_acceptance_criteria : ℤ
  pub min_acceptance_criteria_when_complex : ℤ
  pub min_summary_chars_when_complex : ℤ
  pub min_repo_files : ℤ
  pub min_acceptance_criteria_with_large_repo : ℤ

pub record PlanningConfig : Type 0 where
  pub provider : String
  pub enabled : Bool
  pub mode : String
  pub test_plan_max_parallelism : ℤ
  pub cwd_source : String
  pub max_turns : ℤ
  pub timeout_seconds : ℤ
  pub settings_sources : List String
  pub allowed_tools : List String
  pub skill_mode : String
  pub legacy_fallback : PlanningLegacyFallbackConfig
  pub autoselect_committee : PlanningAutoselectCommitteeConfig
  pub committee : Option PlanningCommitteeConfig
  pub gates : PlanningGates

pub record ReplanningConfig : Type 0 where
  pub enabled : Bool
  pub auto_replan_on_reject_reasons : List String
  pub max_replans_per_issue : ℤ
  pub emit_replan_reason_artifact : Bool
  pub create_new_attempt_on_replan : Bool

unfoldable pub committee_role_from_dict :
    Conversions → YamlValue → String → Checked CommitteeRoleConfig
committee_role_from_dict py payload field_name = do
  fields ← require_mapping payload field_name
  let mode = text_field py fields "mode" ""
  let output_schema = text_field py fields "output_schema" ""
  when (is_empty mode || is_empty output_schema)
      (refuse field_name " requires mode and output_schema")
      do
        allowed ← strings_field fields "allowed_tools" [] (String.◌++◌ field_name ".allowed_tools")
        disallowed ←
            strings_field fields "disallowed_tools" [] (String.◌++◌ field_name ".disallowed_tools")
        ok (record {
          mode = mode;
          allowed_tools = allowed;
          disallowed_tools = disallowed;
          output_schema = output_schema;
        })

unfoldable pub committee_roles :
    Conversions → YamlFields → Checked (List (Key × CommitteeRoleConfig))
committee_roles py end = ok []
committee_roles py (field name payload rest) = do
  role ←
      committee_role_from_dict py payload (String.◌++◌ "planning.committee.roles." (key_text name))
  roles ← committee_roles py rest
  ok ((name, role) ∷ roles)

abbrev pub nonempty_roles : List (Key × CommitteeRoleConfig) → Checked PlanningCommitteeConfig
nonempty_roles [] = refuse "planning.committee.roles" " must not be empty"
nonempty_roles (role ∷ roles) = ok (record { roles = role ∷ roles })

unfoldable pub planning_committee_from_dict :
    Conversions → YamlValue → Checked PlanningCommitteeConfig
planning_committee_from_dict py payload = do
  fields ← require_mapping payload "planning.committee"
  raw_roles ← mapping_field fields "roles" "planning.committee.roles"
  roles ← committee_roles py raw_roles
  nonempty_roles roles

abbrev pub default_gates : PlanningGates
default_gates = record {
  require_out_of_scope = true;
  require_candidate_files = true;
  require_test_mapping = true;
  require_verification_profile = true;
  require_design_branches = true;
}

unfoldable pub planning_gates_from_dict : YamlValue → Checked PlanningGates
planning_gates_from_dict payload = do
  fields ← require_mapping payload "planning.gates"
  ok (record {
    require_out_of_scope = flag fields "require_out_of_scope" true;
    require_candidate_files = flag fields "require_candidate_files" true;
    require_test_mapping = flag fields "require_test_mapping" true;
    require_verification_profile = flag fields "require_verification_profile" true;
    require_design_branches = flag fields "require_design_branches" true;
  })

abbrev pub default_fallback : PlanningLegacyFallbackConfig
default_fallback = record { enabled = true; use_only_on_committee_failure = true }

unfoldable pub legacy_fallback_from_dict : YamlValue → Checked PlanningLegacyFallbackConfig
legacy_fallback_from_dict payload = do
  fields ← require_mapping payload "planning.legacy_fallback"
  ok (record {
    enabled = flag fields "enabled" true;
    use_only_on_committee_failure = flag fields "use_only_on_committee_failure" true;
  })

abbrev pub default_autoselect : PlanningAutoselectCommitteeConfig
default_autoselect = record {
  enabled = true;
  min_acceptance_criteria = pos 12;
  min_acceptance_criteria_when_complex = pos 8;
  min_summary_chars_when_complex = pos 2800;
  min_repo_files = pos 120;
  min_acceptance_criteria_with_large_repo = pos 6;
}

unfoldable pub autoselect_committee_from_dict :
    YamlValue → Checked PlanningAutoselectCommitteeConfig
autoselect_committee_from_dict payload = do
  fields ← require_mapping payload "planning.autoselect_committee"
  criteria ← int_field fields "min_acceptance_criteria" (pos 12)
  when_complex ← int_field fields "min_acceptance_criteria_when_complex" (pos 8)
  chars ← int_field fields "min_summary_chars_when_complex" (pos 2800)
  files ← int_field fields "min_repo_files" (pos 120)
  with_large_repo ← int_field fields "min_acceptance_criteria_with_large_repo" (pos 6)
  ok (record {
    enabled = flag fields "enabled" true;
    min_acceptance_criteria = criteria;
    min_acceptance_criteria_when_complex = when_complex;
    min_summary_chars_when_complex = chars;
    min_repo_files = files;
    min_acceptance_criteria_with_large_repo = with_large_repo;
  })

unfoldable pub planning_from_dict : Conversions → YamlValue → Checked PlanningConfig
planning_from_dict py payload = do
  fields ← require_mapping payload "planning"
  let provider = text_field py fields "provider" ""
  when (is_empty provider) (refuse "planning.provider" " is required") do
    committee ← section_of fields "committee" (planning_committee_from_dict py)
    gates ← section_or fields "gates" planning_gates_from_dict default_gates
    legacy_fallback ← section_or fields "legacy_fallback" legacy_fallback_from_dict default_fallback
    autoselect_committee ←
        section_or fields "autoselect_committee" autoselect_committee_from_dict default_autoselect
    parallelism ← int_field fields "test_plan_max_parallelism" (pos 3)
    max_turns ← int_field fields "max_turns" (pos 4)
    timeout_seconds ← int_field fields "timeout_seconds" (pos 300)
    settings_sources ←
        strings_field fields "settings_sources" ("project" ∷ []) "planning.settings_sources"
    allowed_tools ← strings_field fields "allowed_tools" [] "planning.allowed_tools"
    ok (record {
      provider = provider;
      enabled = flag fields "enabled" true;
      mode = text_or py fields "mode" "committee";
      test_plan_max_parallelism = parallelism;
      cwd_source = text_or py fields "cwd_source" "plan_workspace";
      max_turns = max_turns;
      timeout_seconds = timeout_seconds;
      settings_sources = settings_sources;
      allowed_tools = allowed_tools;
      skill_mode = text_field py fields "skill_mode" "";
      legacy_fallback = legacy_fallback;
      autoselect_committee = autoselect_committee;
      committee = committee;
      gates = gates;
    })

abbrev pub is_negative : ℤ → Bool
is_negative (pos n) = false
is_negative (negsuc n) = true

unfoldable pub replanning_from_dict : YamlValue → Checked ReplanningConfig
replanning_from_dict payload = do
  fields ← require_mapping payload "replanning"
  max_replans ← int_field fields "max_replans_per_issue" (pos 2)
  when (is_negative max_replans) (refuse "replanning.max_replans_per_issue" " must be >= 0") do
    reasons ←
        strings_field fields "auto_replan_on_reject_reasons"
          ("plan_misalignment" ∷ "scope_drift" ∷ []) "replanning.auto_replan_on_reject_reasons"
    ok (record {
      enabled = flag fields "enabled" true;
      auto_replan_on_reject_reasons = reasons;
      max_replans_per_issue = max_replans;
      emit_replan_reason_artifact = flag fields "emit_replan_reason_artifact" true;
      create_new_attempt_on_replan = flag fields "create_new_attempt_on_replan" true;
    })
