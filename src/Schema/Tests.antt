-- ===== src/Schema/Tests.antt =====
-- app/contracts/workflow_schema.py: runs of the schema.
use dev_bot.Base.{◌≡◌, ◌≤◌, ◌+◌, ◌-◌, refl, String, true, none, some, [], ◌∷◌}
use dev_bot.Base.Text.{or_else, strip}
use dev_bot.Base.Result.{ok, err}
use dev_bot.Base.Ints.{pos, negsuc}
use dev_bot.ProtectedConfig.{protected_config_policy}
use dev_bot.Schema.Yaml.{
  named, YamlValue, null, integer, text, sequence, mapping, nil, cons, YamlFields, end, field,
  Conversions, to_int, show_int, str, truth, get_field,
}
use dev_bot.Schema.Require.{
  workflow_validation_error, conversion_error, require_mapping, section_of, section_or, int_field,
  text_field, text_or, flag, strings_field, mapping_field, require_list_of_strings,
}
use dev_bot.Schema.Implementation.{
  ProtectedConfigConfig, default_source, default_triggers, implementation_from_dict,
  candidate_mode_from_dict, protected_config_from_dict,
}
use dev_bot.Schema.Config.{WorkflowConfig, workflow_from_dict}
use dev_bot.Schema.Config.Sound.{Meets, workflow_from_dict-Meets}
use dev_bot.Schema.Use.{
  configured_policy, asked_policy, policy_of_accepted, candidate_parallelism,
  candidate_parallelism_bounds,
}

abbrev pub python : Conversions
python = record {
  shown = λ v. "[]";
  float_of_int = λ n. some (record { shown = show_int n; nonzero = true; whole = some n });
  float_of_text = λ s. none;
}

abbrev pub entry : String → YamlValue → YamlFields → YamlFields
entry name v rest = field (named name) v rest

abbrev editors : YamlValue → YamlValue
editors n = mapping (
    entry "implementation"
      (mapping (
        entry "backend" (text " codex ")
          (entry "candidate_mode" (mapping (entry "max_parallel_editors" n end)) end)))
      (entry "protected_config"
        (mapping (
          entry "allow_label" (text "")
            (entry "protected_paths" (sequence (cons (text "docs/**") nil)) end)))
        end))

abbrev asked : ProtectedConfigConfig
asked = record {
  default_policy = "deny";
  allow_label = "allow-protected-config";
  protected_paths = "docs/**" ∷ [];
  allowlist_source = default_source;
}

abbrev accepted : WorkflowConfig
accepted = record {
  planning = none;
  codex = none;
  implementation = some (record {
    backend = "codex";
    optional_backends = [];
    single_writer_default = true;
    candidate_mode = record {
      enabled = true;
      max_parallel_editors = pos 2;
      triggers = default_triggers;
    };
    push_only_winner = true;
    cleanup_loser_local_branches = true;
  });
  replanning = none;
  protected_config = some asked;
  review = none;
  verification = none;
  incident_bundle = none;
  evals = none;
  telemetry = none;
}

int_reads :
    (to_int (text " +1_000 ") ≡ some (pos 1000))
    × (to_int (text "-7") ≡ some (negsuc 6))
    × (to_int (text "1__0") ≡ none)
    × (to_int (text "many") ≡ none)
    × (to_int null ≡ none)
unfolding to_int strip
int_reads = (refl, refl, refl, refl, refl)

three_editors :
    workflow_from_dict python (editors (integer (pos 3)))
    ≡ err (workflow_validation_error "phase1 candidate editors must be <= 2")
unfolding workflow_from_dict implementation_from_dict candidate_mode_from_dict require_mapping
    section_of section_or int_field text_field get_field str strip to_int
three_editors = refl

-- A text that is no number raises an exception that is not the schema's.
no_number : workflow_from_dict python (editors (text "many")) ≡ err conversion_error
unfolding workflow_from_dict implementation_from_dict candidate_mode_from_dict require_mapping
    section_of section_or int_field text_field get_field str strip to_int
no_number = refl

workflow_from_dict-Meets_example : Meets (workflow_from_dict python (editors (integer (pos 2))))
workflow_from_dict-Meets_example = workflow_from_dict-Meets python (editors (integer (pos 2)))

editors_accepted : workflow_from_dict python (editors (integer (pos 2))) ≡ ok accepted
unfolding protected_config_from_dict text_or flag strings_field mapping_field
    require_list_of_strings truth or_else workflow_from_dict implementation_from_dict
    candidate_mode_from_dict require_mapping section_of section_or int_field text_field get_field
    str strip to_int
editors_accepted = refl

policy_of_accepted_example :
    protected_config_policy (configured_policy accepted.protected_config) ≡ asked_policy asked
policy_of_accepted_example =
    policy_of_accepted python (editors (integer (pos 2))) editors_accepted refl

candidate_parallelism_bounds_example :
    (1 ≤ candidate_parallelism (some accepted) 3)
    × (candidate_parallelism (some accepted) 3 ≤ 2)
    × (candidate_parallelism (some accepted) 3 ≤ 3 - 1 + 1)
candidate_parallelism_bounds_example =
    candidate_parallelism_bounds python (editors (integer (pos 2))) 3 editors_accepted
