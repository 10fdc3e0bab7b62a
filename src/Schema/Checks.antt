-- ===== src/Schema/Checks.antt =====
-- app/contracts/workflow_schema.py: the sections on review and verification.
pub mod Sound
use dev_bot.Base.{
  ℕ, suc, String, Bool, true, false, not, ◌||◌, Option, none, some, List, [], ◌∷◌, if◌then◌else◌,
}
use Prim.Native.String
use dev_bot.Base.Eq.{string_eq}
use dev_bot.Base.Sets.{contains}
use dev_bot.Base.Join.{join}
use dev_bot.Base.Text.{is_empty, show}
use dev_bot.Base.Result.{ok, err, ◌>>=◌, ◌>>◌}
use dev_bot.Base.Ints.{pos}
use dev_bot.Schema.Yaml.{
  Float, Key, YamlValue, mapping, YamlFields, end, field, key_text, Conversions,
}
use dev_bot.Schema.Require.{
  Checked, SchemaError, workflow_validation_error, refuse, require_mapping, text_field, text_or,
  flag, float_field, strings_field, mappings_field, section_or, mapping_field, when,
}

pub record ReviewThresholds : Type 0 where
  pub min_confidence_to_report : Float
  pub verifier_required : Bool

pub record ReviewConfig : Type 0 where
  pub enabled : Bool
  pub provider : String
  pub rules_file : String
  pub post_inline_to_github : Bool
  pub roles : List (Key × YamlFields)
  pub thresholds : ReviewThresholds

pub record VerificationCheck : Type 0 where
  pub name : String
  pub command : String
  pub category : String

pub record VerificationConfig : Type 0 where
  pub required_artifacts : List String
  pub required_checks : List VerificationCheck
  pub advisory_checks : List VerificationCheck

abbrev pub default_report_confidence : Float
default_report_confidence = record { shown = "0.8"; nonzero = true; whole = some (pos 0) }

abbrev pub default_thresholds : ReviewThresholds
default_thresholds = record {
  min_confidence_to_report = default_report_confidence;
  verifier_required = true;
}

unfoldable pub review_thresholds_from_dict : Conversions → YamlValue → Checked ReviewThresholds
review_thresholds_from_dict py payload = do
  fields ← require_mapping payload "review.thresholds"
  confidence ← float_field py fields "min_confidence_to_report" default_report_confidence
  ok (record {
    min_confidence_to_report = confidence;
    verifier_required = flag fields "verifier_required" true;
  })

unfoldable pub review_roles : YamlFields → Checked (List (Key × YamlFields))
review_roles end = ok []
review_roles (field name payload rest) = do
  role ← require_mapping payload (String.◌++◌ "review.roles." (key_text name))
  roles ← review_roles rest
  ok ((name, role) ∷ roles)

unfoldable pub review_from_dict : Conversions → YamlValue → Checked ReviewConfig
review_from_dict py payload = do
  fields ← require_mapping payload "review"
  raw_roles ← mapping_field fields "roles" "review.roles"
  roles ← review_roles raw_roles
  thresholds ← section_or fields "thresholds" (review_thresholds_from_dict py) default_thresholds
  ok (record {
    enabled = flag fields "enabled" true;
    provider = text_field py fields "provider" "";
    rules_file = text_or py fields "rules_file" "REVIEW.md";
    post_inline_to_github = flag fields "post_inline_to_github" true;
    roles = roles;
    thresholds = thresholds;
  })

unfoldable pub verification_check_from_dict :
    Conversions → YamlValue → String → Checked VerificationCheck
verification_check_from_dict py payload field_name = do
  fields ← require_mapping payload field_name
  let name = text_field py fields "name" ""
  let command = text_field py fields "command" ""
  when (is_empty name || is_empty command) (refuse field_name " requires name and command") do
    ok (record { name = name; command = command; category = text_field py fields "category" "" })

-- f"{list_name}[{index}]"
abbrev pub indexed : String → ℕ → String
indexed list_name index = String.◌++◌ list_name (String.◌++◌ "[" (String.◌++◌ (show index) "]"))

unfoldable pub verification_checks :
    Conversions → String → ℕ → List YamlFields → Checked (List VerificationCheck)
verification_checks py list_name index [] = ok []
verification_checks py list_name index (item ∷ items) = do
  check ← verification_check_from_dict py (mapping item) (indexed list_name index)
  checks ← verification_checks py list_name (suc index) items
  ok (check ∷ checks)

abbrev pub architecture_required_artifacts : List String
architecture_required_artifacts = "verification_plan.json" ∷ "runner_metadata.json" ∷ []

unfoldable pub absent_from : List String → List String → List String
absent_from present [] = []
absent_from present (a ∷ artifacts) =
    let rest = absent_from present artifacts in if contains present a then rest else a ∷ rest

abbrev pub is_some_missing : List String → Bool
is_some_missing [] = false
is_some_missing (a ∷ artifacts) = true

unfoldable pub verification_from_dict : Conversions → YamlValue → Checked VerificationConfig
verification_from_dict py payload = do
  fields ← require_mapping payload "verification"
  required_artifacts ←
      strings_field fields "required_artifacts" [] "verification.required_artifacts"
  let missing = absent_from required_artifacts architecture_required_artifacts
  when (is_some_missing missing)
      (refuse "verification.required_artifacts is missing architecture-required artifacts: "
        (join ", " missing))
      do
        raw_required ← mappings_field fields "required_checks" "verification.required_checks"
        required ← verification_checks py "verification.required_checks" 0 raw_required
        raw_advisory ← mappings_field fields "advisory_checks" "verification.advisory_checks"
        advisory ← verification_checks py "verification.advisory_checks" 0 raw_advisory
        ok (record {
          required_artifacts = required_artifacts;
          required_checks = required;
          advisory_checks = advisory;
        })
