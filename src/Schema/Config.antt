-- ===== src/Schema/Config.antt =====
-- app/contracts/workflow_schema.py: the smaller sections, and the whole configuration.
pub mod Sound
use dev_bot.Base.{String, Bool, true, false, Option, none, some, List, [], ◌∷◌, if◌then◌else◌}
use dev_bot.Base.Eq.{string_eq}
use dev_bot.Base.Dict.{Dict, put}
use dev_bot.Base.Result.{ok, ◌>>=◌}
use dev_bot.Schema.Yaml.{
  YamlValue, mapping, YamlFields, end, field, Conversions, key_text, str, get_field,
}
use dev_bot.Schema.Require.{
  Checked, require_mapping, text_field, text_or, flag, section_of, mapping_field,
}
use dev_bot.Schema.Planning.{
  PlanningConfig, ReplanningConfig, planning_from_dict, replanning_from_dict,
}
use dev_bot.Schema.Implementation.{
  ImplementationConfig, ProtectedConfigConfig, implementation_from_dict, protected_config_from_dict,
}
use dev_bot.Schema.Codex.{CodexConfig, codex_from_dict}
use dev_bot.Schema.Checks.{
  ReviewConfig, VerificationConfig, review_from_dict, verification_from_dict,
}

pub record EvalsConfig : Type 0 where
  pub enabled : Bool
  pub strategy : String
  pub fixtures_root : String
  pub graders : Dict String String

pub record TelemetryConfig : Type 0 where
  pub sink : String
  pub otel_compatible_fields : Bool

pub record IncidentBundleConfig : Type 0 where
  pub enabled : Bool
  pub mount_readonly : Bool
  pub freeze_on_human_review : Bool
  pub cleanup_on_terminal : Bool
  pub keep_provenance_after_cleanup : Bool

pub record WorkflowConfig : Type 0 where
  pub planning : Option PlanningConfig
  pub codex : Option CodexConfig
  pub implementation : Option ImplementationConfig
  pub replanning : Option ReplanningConfig
  pub protected_config : Option ProtectedConfigConfig
  pub review : Option ReviewConfig
  pub verification : Option VerificationConfig
  pub incident_bundle : Option IncidentBundleConfig
  pub evals : Option EvalsConfig
  pub telemetry : Option TelemetryConfig

-- {str(name): str(value) for name, value in raw_graders.items()}: a later key takes the place of an equal text
unfoldable pub graders_from : Conversions → Dict String String → YamlFields → Dict String String
graders_from py graders end = graders
graders_from py graders (field name value rest) =
    graders_from py (put graders (key_text name) (str py value)) rest

unfoldable pub evals_from_dict : Conversions → YamlValue → Checked EvalsConfig
evals_from_dict py payload = do
  fields ← require_mapping payload "evals"
  raw_graders ← mapping_field fields "graders" "evals.graders"
  ok (record {
    enabled = flag fields "enabled" true;
    strategy = text_field py fields "strategy" "";
    fixtures_root = text_field py fields "fixtures_root" "";
    graders = graders_from py [] raw_graders;
  })

unfoldable pub telemetry_from_dict : Conversions → YamlValue → Checked TelemetryConfig
telemetry_from_dict py payload = do
  fields ← require_mapping payload "telemetry"
  ok (record {
    sink = text_or py fields "sink" "jsonl";
    otel_compatible_fields = flag fields "otel_compatible_fields" true;
  })

unfoldable pub incident_bundle_from_dict : YamlValue → Checked IncidentBundleConfig
incident_bundle_from_dict payload = do
  fields ← require_mapping payload "debug.incident_bundle"
  ok (record {
    enabled = flag fields "enabled" true;
    mount_readonly = flag fields "mount_readonly" true;
    freeze_on_human_review = flag fields "freeze_on_human_review" true;
    cleanup_on_terminal = flag fields "cleanup_on_terminal" true;
    keep_provenance_after_cleanup = flag fields "keep_provenance_after_cleanup" true;
  })

-- A debug section that is no mapping counts as none.
abbrev debug_fields : Option YamlValue → YamlFields
debug_fields (some (mapping fields)) = fields
debug_fields other = end

unfoldable pub workflow_from_dict : Conversions → YamlValue → Checked WorkflowConfig
workflow_from_dict py payload = do
  fields ← require_mapping payload "workflow"
  planning ← section_of fields "planning" (planning_from_dict py)
  codex ← section_of fields "codex" (codex_from_dict py)
  implementation ← section_of fields "implementation" (implementation_from_dict py)
  replanning ← section_of fields "replanning" replanning_from_dict
  protected_config ← section_of fields "protected_config" (protected_config_from_dict py)
  review ← section_of fields "review" (review_from_dict py)
  verification ← section_of fields "verification" (verification_from_dict py)
  let debug = debug_fields (get_field fields "debug")
  incident_bundle ← section_of debug "incident_bundle" incident_bundle_from_dict
  evals ← section_of fields "evals" (evals_from_dict py)
  telemetry ← section_of fields "telemetry" (telemetry_from_dict py)
  ok (record {
    planning = planning;
    codex = codex;
    implementation = implementation;
    replanning = replanning;
    protected_config = protected_config;
    review = review;
    verification = verification;
    incident_bundle = incident_bundle;
    evals = evals;
    telemetry = telemetry;
  })
