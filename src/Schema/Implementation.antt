-- ===== src/Schema/Implementation.antt =====
-- app/contracts/workflow_schema.py: the sections on the implementation, its candidates and protected files.
pub mod Sound
use dev_bot.Base.{
  String, Bool, true, false, not, ◌&&◌, Option, none, some, List, [], ◌∷◌, leb, if◌then◌else◌,
}
use dev_bot.Base.Result.{ok, err, ◌>>=◌, ◌>>◌}
use dev_bot.Base.Eq.{string_eq, ◌==◌}
use dev_bot.Base.Text.{is_empty}
use dev_bot.Base.Ints.{ℤ, pos, negsuc}
use dev_bot.Schema.Yaml.{Float, YamlValue, YamlFields, end, get_field, Conversions}
use dev_bot.Schema.Require.{
  Checked, SchemaError, workflow_validation_error, refuse, require_mapping,
  require_list_of_mappings, text_field, text_or, flag, int_field, float_field, strings_field,
  mappings_field, section_or, mapping_field, when,
}

pub record CandidateModeTriggers : Type 0 where
  pub rework_count_gte : ℤ
  pub planner_confidence_lt : Float
  pub require_clear_design_branches : Bool

pub record ProtectedConfigAllowlistSource : Type 0 where
  pub issue_body_section : String
  pub artifacts : List String

pub record ProtectedConfigConfig : Type 0 where
  pub default_policy : String
  pub allow_label : String
  pub protected_paths : List String
  pub allowlist_source : ProtectedConfigAllowlistSource

pub record CandidateModeConfig : Type 0 where
  pub enabled : Bool
  pub max_parallel_editors : ℤ
  pub triggers : CandidateModeTriggers

pub record ImplementationConfig : Type 0 where
  pub backend : String
  pub optional_backends : List String
  pub single_writer_default : Bool
  pub candidate_mode : CandidateModeConfig
  pub push_only_winner : Bool
  pub cleanup_loser_local_branches : Bool

abbrev pub default_confidence : Float
default_confidence = record { shown = "0.75"; nonzero = true; whole = some (pos 0) }

abbrev pub default_triggers : CandidateModeTriggers
default_triggers = record {
  rework_count_gte = pos 1;
  planner_confidence_lt = default_confidence;
  require_clear_design_branches = false;
}

unfoldable pub candidate_triggers_from_dict :
    Conversions → YamlValue → Checked CandidateModeTriggers
candidate_triggers_from_dict py payload = do
  fields ← require_mapping payload "implementation.candidate_mode.triggers"
  rework_count ← int_field fields "rework_count_gte" (pos 1)
  confidence ← float_field py fields "planner_confidence_lt" default_confidence
  ok (record {
    rework_count_gte = rework_count;
    planner_confidence_lt = confidence;
    require_clear_design_branches = flag fields "require_clear_design_branches" false;
  })

abbrev pub default_section : String
default_section = "保護設定変更許可リスト"

abbrev pub default_artifacts : List String
default_artifacts = "protected_config_allowlist.json" ∷ []

-- The section after a round of the loop: the first text other than the default one stays.
abbrev pub next_section : String → String → String
next_section current section =
    if not (is_empty section) && current == default_section then section else current

unfoldable pub allowlist_section : Conversions → String → List YamlFields → String
allowlist_section py current [] = current
allowlist_section py current (item ∷ items) =
    allowlist_section py (next_section current (text_field py item "issue_body_section" "")) items

abbrev pub cons_filled : String → List String → List String
cons_filled artifact artifacts = if is_empty artifact then artifacts else artifact ∷ artifacts

unfoldable pub listed_artifacts : Conversions → List YamlFields → List String
listed_artifacts py [] = []
listed_artifacts py (item ∷ items) =
    cons_filled (text_field py item "artifact" "") (listed_artifacts py items)

abbrev pub or_artifacts : List String → List String
or_artifacts [] = default_artifacts
or_artifacts (a ∷ artifacts) = a ∷ artifacts

abbrev pub default_source : ProtectedConfigAllowlistSource
default_source = record { issue_body_section = default_section; artifacts = default_artifacts }

unfoldable pub allowlist_source_from_dict :
    Conversions → YamlValue → Checked ProtectedConfigAllowlistSource
allowlist_source_from_dict py payload = do
  fields ← require_mapping payload "protected_config.allowlist_source"
  priority ← mappings_field fields "priority" "protected_config.allowlist_source.priority"
  ok (record {
    issue_body_section = allowlist_section py default_section priority;
    artifacts = or_artifacts (listed_artifacts py priority);
  })

unfoldable pub protected_config_from_dict : Conversions → YamlValue → Checked ProtectedConfigConfig
protected_config_from_dict py payload = do
  fields ← require_mapping payload "protected_config"
  protected_paths ← strings_field fields "protected_paths" [] "protected_config.protected_paths"
  allowlist_source ←
      section_or fields "allowlist_source" (allowlist_source_from_dict py) default_source
  ok (record {
    default_policy = text_or py fields "default" "deny";
    allow_label = text_or py fields "allow_label" "allow-protected-config";
    protected_paths = protected_paths;
    allowlist_source = allowlist_source;
  })

abbrev pub exceeds_two : ℤ → Bool
exceeds_two (pos n) = leb 3 n
exceeds_two (negsuc n) = false

abbrev pub default_candidate_mode : CandidateModeConfig
default_candidate_mode = record {
  enabled = true;
  max_parallel_editors = pos 2;
  triggers = default_triggers;
}

unfoldable pub candidate_mode_from_dict : Conversions → YamlValue → Checked CandidateModeConfig
candidate_mode_from_dict py payload = do
  fields ← require_mapping payload "implementation.candidate_mode"
  editors ← int_field fields "max_parallel_editors" (pos 2)
  when (exceeds_two editors)
      (err (workflow_validation_error "phase1 candidate editors must be <= 2"))
      do
        triggers ← section_or fields "triggers" (candidate_triggers_from_dict py) default_triggers
        ok (record {
          enabled = flag fields "enabled" true;
          max_parallel_editors = editors;
          triggers = triggers;
        })

unfoldable pub implementation_from_dict : Conversions → YamlValue → Checked ImplementationConfig
implementation_from_dict py payload = do
  fields ← require_mapping payload "implementation"
  let backend = text_field py fields "backend" ""
  when (is_empty backend) (refuse "implementation.backend" " is required") do
    candidate_mode ←
        section_or fields "candidate_mode" (candidate_mode_from_dict py) default_candidate_mode
    push_policy ← mapping_field fields "push_policy" "implementation.push_policy"
    optional_backends ←
        strings_field fields "optional_backends" [] "implementation.optional_backends"
    ok (record {
      backend = backend;
      optional_backends = optional_backends;
      single_writer_default = flag fields "single_writer_default" true;
      candidate_mode = candidate_mode;
      push_only_winner = flag push_policy "push_only_winner" true;
      cleanup_loser_local_branches = flag push_policy "cleanup_loser_local_branches" true;
    })
