-- ===== src/Loader.antt =====
-- app/workflow_loader.py: WORKFLOW.md is read, and the last configuration that was good is kept for each path.
--
-- A call is given the resolved path and the text of the file, or `none` where there is no file. `yaml.safe_load` is
-- an argument; `none` is an exception of it.
pub mod Refines
mod Tests
pub mod History
pub mod Strictness
use dev_bot.Base.{
  String, Bool, true, false, Option, none, some, List, [], ◌∷◌, nat_beq, if◌then◌else◌,
}
use Prim.Native.Char.{code}
use Prim.Native.String
use dev_bot.Base.Eq.{string_eq}
use dev_bot.Base.Dict.{Dict, get, put, remove}
use dev_bot.Base.Result.{Result, ok, err}
use dev_bot.Base.Text.{strip}
use dev_bot.Schema.Yaml.{YamlValue, mapping, YamlFields, end, Conversions, truth}
use dev_bot.Schema.Require.{Checked, SchemaError, workflow_validation_error, conversion_error}
use dev_bot.Schema.Config.{WorkflowConfig, workflow_from_dict}

pub record WorkflowDefinition : Type 0 where
  pub path : String
  pub raw_text : String
  pub raw_config : YamlFields
  pub config : Option WorkflowConfig
  pub prompt_body : String
  pub config_error : String
  pub uses_cached_config : Bool

-- _LAST_KNOWN_GOOD_DEFINITIONS
abbrev pub Cache : Type 0
Cache = Dict String WorkflowDefinition

-- WorkflowLoadError, an exception of the schema, or one of `yaml.safe_load`.
pub data LoadError : Type 0 where
  workflow_load_error : String → LoadError
  schema_error : SchemaError → LoadError
  yaml_error : LoadError

abbrev pub Loaded : Type 0
Loaded = Cache × Result LoadError (Option WorkflowDefinition)

-- What follows a prefix.
abbrev pub past_prefix : String → String → Option String
past_prefix String.[] s = some s
past_prefix (String.◌∷◌ c p) String.[] = none
past_prefix (String.◌∷◌ c p) (String.◌∷◌ d s) =
    let rest = past_prefix p s in if nat_beq (code c) (code d) then rest else none

abbrev without_newline : String → String
without_newline String.[] = String.[]
without_newline (String.◌∷◌ c s) = if nat_beq (code c) b'\n' then s else String.◌∷◌ c s

abbrev with_char {ℓ} :
    {C : Type ℓ} → (C → String → String) → C → Option (String × String) → Option (String × String)
with_char cons c none = none
with_char cons c (some parts) = some (cons c parts.0, parts.1)

abbrev or_later : Option String → Option (String × String) → Option (String × String)
or_later (some rest) later = some ("", without_newline rest)
or_later none later = later

-- The text before the first line that begins with three dashes, and what follows that line's dashes.
unfoldable pub closing_line : String → Option (String × String)
closing_line String.[] = none
closing_line (String.◌∷◌ c s) =
    or_later (past_prefix "\n---" (String.◌∷◌ c s)) (with_char String.◌∷◌ c (closing_line s))

abbrev then_closing : Option String → Option (String × String)
then_closing none = none
then_closing (some s) = closing_line s

-- _FRONT_MATTER_RE.match(text): the groups `yaml` and `body`
unfoldable pub front_matter : String → Option (String × String)
front_matter s = then_closing (past_prefix "---\n" s)

unfoldable pub starts_front_matter : String → Bool
starts_front_matter s = elim (past_prefix "---\n" s) [ none ↦ false | some rest ↦ true ]

abbrev put_good : Cache → WorkflowDefinition → Option WorkflowConfig → Cache
put_good cache definition none = remove cache definition.path
put_good cache definition (some c) = put cache definition.path definition

unfoldable pub cache_last_known_good : Cache → WorkflowDefinition → Cache
cache_last_known_good cache definition = put_good cache definition definition.config

abbrev pub no_front_matter : String
no_front_matter = "WORKFLOW.md must begin with YAML front matter"

abbrev pub no_mapping : String
no_mapping = "workflow front matter must decode to a mapping"

abbrev pub fallback_from :
    String → String → YamlFields → String → String → Option WorkflowDefinition → WorkflowDefinition
fallback_from path raw_text raw_config prompt_body config_error none = record {
  path = path;
  raw_text = raw_text;
  raw_config = raw_config;
  config = none;
  prompt_body = prompt_body;
  config_error = config_error;
  uses_cached_config = false;
}
fallback_from path raw_text raw_config prompt_body config_error (some cached) = record {
  path = path;
  raw_text = raw_text;
  raw_config = raw_config;
  config = cached.config;
  prompt_body = prompt_body;
  config_error = String.◌++◌ config_error " (using last known good workflow config)";
  uses_cached_config = true;
}

unfoldable pub build_definition_with_fallback :
    Cache → String → String → YamlFields → String → String → WorkflowDefinition
build_definition_with_fallback cache path raw_text raw_config prompt_body config_error =
    fallback_from path raw_text raw_config prompt_body config_error (get cache path)

abbrev pub cached : Cache → WorkflowDefinition → Loaded
cached cache definition = (cache_last_known_good cache definition, ok (some definition))

-- `or {}`
abbrev pub or_no_fields : YamlValue → YamlValue
or_no_fields v = if truth v then v else mapping end

abbrev pub or_empty_mapping : Option YamlValue → Option YamlValue
or_empty_mapping none = none
or_empty_mapping (some v) = some (or_no_fields v)

module _ (py : Conversions) (safe_load : String → Option YamlValue) where
  abbrev pub refuse_load : Bool → Cache → LoadError → WorkflowDefinition → Loaded
  refuse_load strict cache why definition =
      (cache, if strict then err why else ok (some definition))

  abbrev pub load_schema :
      Cache → String → Bool → String → YamlFields → String → Checked WorkflowConfig → Loaded
  load_schema cache path strict raw_text raw_config prompt_body (ok config) = cached cache (record {
    path = path;
    raw_text = raw_text;
    raw_config = raw_config;
    config = some config;
    prompt_body = prompt_body;
    config_error = "";
    uses_cached_config = false;
  })
  load_schema cache path strict raw_text raw_config prompt_body
        (err (workflow_validation_error message)) =
      refuse_load strict cache (schema_error (workflow_validation_error message))
        (build_definition_with_fallback cache path raw_text raw_config prompt_body message)
  load_schema cache path strict raw_text raw_config prompt_body (err conversion_error) =
      (cache, err (schema_error conversion_error))

  abbrev pub load_mapping : Cache → String → Bool → String → String → Option YamlValue → Loaded
  load_mapping cache path strict raw_text body none = (cache, err yaml_error)
  load_mapping cache path strict raw_text body (some (mapping fields)) =
      load_schema cache path strict raw_text fields (strip body)
        (workflow_from_dict py (mapping fields))
  load_mapping cache path strict raw_text body (some v) =
      refuse_load strict cache (workflow_load_error no_mapping)
        (build_definition_with_fallback cache path raw_text end (strip body) no_mapping)

  abbrev pub load_yaml : Cache → String → Bool → String → Option (String × String) → Loaded
  load_yaml cache path strict raw_text none =
      refuse_load strict cache (workflow_load_error no_front_matter)
        (build_definition_with_fallback cache path raw_text end (strip raw_text) no_front_matter)
  load_yaml cache path strict raw_text (some parts) =
      load_mapping cache path strict raw_text parts.1 (or_empty_mapping (safe_load parts.0))

  abbrev pub load_text : Cache → String → Bool → String → Loaded
  load_text cache path strict raw_text =
      if starts_front_matter raw_text
      then load_yaml cache path strict raw_text (front_matter raw_text)
      else cached cache (record {
        path = path;
        raw_text = raw_text;
        raw_config = end;
        config = none;
        prompt_body = strip raw_text;
        config_error = "";
        uses_cached_config = false;
      })

  unfoldable pub load_workflow_definition : Cache → String → Option String → Bool → Loaded
  load_workflow_definition cache path none strict = (remove cache path, ok none)
  load_workflow_definition cache path (some raw_text) strict = load_text cache path strict raw_text

-- What load_workflow adds to the mapping, or `none` for the empty dict.
pub record WorkflowPayload : Type 0 where
  pub raw_config : YamlFields
  pub raw_text : String
  pub contract_body : String
  pub config : Option WorkflowConfig
  pub config_error : String
  pub uses_cached_config : Bool
  pub workflow_definition : WorkflowDefinition

unfoldable pub workflow_payload : WorkflowDefinition → WorkflowPayload
workflow_payload definition = record {
  raw_config = definition.raw_config;
  raw_text = definition.raw_text;
  contract_body = definition.prompt_body;
  config = definition.config;
  config_error = definition.config_error;
  uses_cached_config = definition.uses_cached_config;
  workflow_definition = definition;
}

abbrev payload_of :
    Result LoadError (Option WorkflowDefinition) → Result LoadError (Option WorkflowPayload)
payload_of (err why) = err why
payload_of (ok none) = ok none
payload_of (ok (some definition)) = ok (some (workflow_payload definition))

unfoldable pub load_workflow :
    Conversions
    → (String → Option YamlValue)
    → Cache
    → String
    → Option String
    → Cache × Result LoadError (Option WorkflowPayload)
load_workflow py safe_load cache path content =
    let (cache', loaded) = load_workflow_definition py safe_load cache path content false in
    (cache', payload_of loaded)
