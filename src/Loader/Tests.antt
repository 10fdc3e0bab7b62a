-- ===== src/Loader/Tests.antt =====
-- app/workflow_loader.py: runs of the loader.
use dev_bot.Base.{
  ◌≡◌, refl, inl, inr, String, true, false, Option, none, some, List, [], ◌∷◌, if◌then◌else◌,
}
use dev_bot.Base.Eq.{string_eq, ◌==◌}
use dev_bot.Base.Result.{ok}
use dev_bot.Schema.Yaml.{YamlValue, text, mapping, end, truth, get_field}
use dev_bot.Schema.Require.{require_mapping, section_of, text_or, flag, text_field}
use dev_bot.Base.Text.{strip, or_else}
use dev_bot.Schema.Config.{WorkflowConfig, workflow_from_dict, telemetry_from_dict}
use dev_bot.Schema.Tests.{python, entry}
use dev_bot.Loader.{load_workflow_definition, front_matter, closing_line, starts_front_matter}
use dev_bot.Loader.Refines.{Implements, load_workflow_definition-Implements, document, good, given}
use dev_bot.Loader.History.{Load, loads, GivenSound, load-loads-Sound, last_known_good}
use dev_bot.Loader.Strictness.{StrictAgrees, load_strict_iff}

abbrev first_text : String
first_text = "---\ngood\n---\nDo it."

abbrev broken_text : String
broken_text = "---\ngood"

-- A front matter "good" decodes to a section on telemetry, any other one to a text.
abbrev decode : String → Option YamlValue
decode s =
    if s == "good" then some (mapping (entry "telemetry" (mapping end) end)) else some (text s)

front_matter_runs :
    (front_matter first_text ≡ some ("good", "Do it."))
    × (front_matter broken_text ≡ none)
    × (front_matter "---\n---\n" ≡ none)
    × (front_matter "---\na\n---b\n---\nc" ≡ some ("a", "b\n---\nc"))
unfolding front_matter closing_line
front_matter_runs = (refl, refl, refl, refl)

abbrev kept : WorkflowConfig
kept = record {
  planning = none;
  codex = none;
  implementation = none;
  replanning = none;
  protected_config = none;
  review = none;
  verification = none;
  incident_bundle = none;
  evals = none;
  telemetry = some (record { sink = "jsonl"; otel_compatible_fields = true });
}

first_good : document python decode (some first_text) ≡ good kept
unfolding document front_matter starts_front_matter closing_line truth workflow_from_dict
    require_mapping section_of get_field telemetry_from_dict text_or flag or_else text_field strip
first_good = refl

abbrev between : List Load
between =
    record { path = "/w/WORKFLOW.md"; content = some broken_text; strict = true }
    ∷ record { path = "/v/WORKFLOW.md"; content = none; strict = false }
    ∷ []

load_workflow_definition-Implements_example :
    Implements
      (document python decode (some first_text))
      "/w/WORKFLOW.md"
      true
      []
      (load_workflow_definition python decode [] "/w/WORKFLOW.md" (some first_text) true)
load_workflow_definition-Implements_example =
    load_workflow_definition-Implements python decode [] "/w/WORKFLOW.md" (some first_text) true

load-loads-Sound_example : GivenSound python decode (
    given
      (load_workflow_definition python decode
        (loads python decode [] between)
        "/w/WORKFLOW.md"
        (some first_text)
        false).1)
load-loads-Sound_example =
    load-loads-Sound python decode between
      (record { path = "/w/WORKFLOW.md"; content = some first_text; strict = false })

load_strict_iff_example :
    StrictAgrees
      (load_workflow_definition python decode [] "/w/WORKFLOW.md" (some broken_text) true)
      (load_workflow_definition python decode [] "/w/WORKFLOW.md" (some broken_text) false)
load_strict_iff_example = load_strict_iff python decode [] "/w/WORKFLOW.md" (some broken_text)

last_known_good_example :
    given
      (load_workflow_definition python decode
        (loads python decode
          (load_workflow_definition python decode [] "/w/WORKFLOW.md" (some first_text) false).0
          between)
        "/w/WORKFLOW.md"
        (some broken_text)
        false).1
    ≡ ok (some kept)
unfolding document front_matter starts_front_matter closing_line
last_known_good_example =
    last_known_good python decode [] "/w/WORKFLOW.md" first_text false between broken_text
      first_good (inr tt, (inl refl, tt)) refl
