-- ===== src/Loader/Refines.antt =====
-- app/workflow_loader.py: a load as a step of a map from paths to configurations.
use dev_bot.Base.{
  ◌≡◌, refl, ap, ◌∙◌, inl, inr, String, Bool, true, false, Option, none, some, if◌then◌else◌,
  Bool-cases, Option-cases,
}
use dev_bot.Base.Eq.{string_eq, ◌==◌}
use dev_bot.Base.Dict.{get, put, remove, get-put, get-remove}
use dev_bot.Base.Result.{Result, ok, err}
use dev_bot.Base.Text.{strip}
use dev_bot.Schema.Yaml.{
  YamlValue, null, boolean, integer, decimal, text, sequence, mapping, date, YamlFields, end,
  Conversions,
}
use dev_bot.Schema.Require.{Checked, workflow_validation_error, conversion_error}
use dev_bot.Schema.Config.{WorkflowConfig, workflow_from_dict}
use dev_bot.Loader.{
  WorkflowDefinition, Cache, LoadError, workflow_load_error, schema_error, yaml_error, Loaded,
  front_matter, starts_front_matter, cache_last_known_good, build_definition_with_fallback,
  no_front_matter, no_mapping, or_empty_mapping, refuse_load, load_schema, load_mapping, load_yaml,
  load_workflow_definition,
}

-- What a file is to the loader: missing, without front matter, good, with a fault that falls back, or failing by
-- an exception that nothing catches.
pub data WorkflowFile : Type 0 where
  absent plain : WorkflowFile
  good : WorkflowConfig → WorkflowFile
  faulty failing : LoadError → WorkflowFile

abbrev pub read_schema : Checked WorkflowConfig → WorkflowFile
read_schema (ok c) = good c
read_schema (err (workflow_validation_error message)) =
    faulty (schema_error (workflow_validation_error message))
read_schema (err conversion_error) = failing (schema_error conversion_error)

abbrev pub read_value : Conversions → Option YamlValue → WorkflowFile
read_value py none = failing yaml_error
read_value py (some (mapping fields)) = read_schema (workflow_from_dict py (mapping fields))
read_value py (some v) = faulty (workflow_load_error no_mapping)

abbrev pub read_front :
    Conversions → (String → Option YamlValue) → Option (String × String) → WorkflowFile
read_front py safe_load none = faulty (workflow_load_error no_front_matter)
read_front py safe_load (some parts) = read_value py (or_empty_mapping (safe_load parts.0))

unfoldable pub document : Conversions → (String → Option YamlValue) → Option String → WorkflowFile
document py safe_load none = absent
document py safe_load (some s) =
    if starts_front_matter s then read_front py safe_load (front_matter s) else plain

-- The configuration that is known for the path afterwards.
abbrev pub known_after : WorkflowFile → Option WorkflowConfig → Option WorkflowConfig
known_after absent known = none
known_after plain known = none
known_after (good c) known = some c
known_after (faulty why) known = known
known_after (failing why) known = known

-- The configuration that the caller is given.
abbrev pub outcome :
    Bool → WorkflowFile → Option WorkflowConfig → Result LoadError (Option WorkflowConfig)
outcome strict absent known = ok none
outcome strict plain known = ok none
outcome strict (good c) known = ok (some c)
outcome strict (faulty why) known = if strict then err why else ok known
outcome strict (failing why) known = err why

abbrev pub config_of : Option WorkflowDefinition → Option WorkflowConfig
config_of none = none
config_of (some definition) = definition.config

abbrev pub known : Cache → String → Option WorkflowConfig
known cache path = config_of (get cache path)

abbrev pub given :
    Result LoadError (Option WorkflowDefinition) → Result LoadError (Option WorkflowConfig)
given (err why) = err why
given (ok definition) = ok (config_of definition)

-- A load has done what the document asks for, and left the other paths alone.
pub record Implements (d : WorkflowFile) (path : String) (strict : Bool) (cache : Cache)
    (r : Loaded) : Type 0 where
  pub caller : given r.1 ≡ outcome strict d (known cache path)
  pub path_known : known r.0 path ≡ known_after d (known cache path)
  pub others : (other : String) → (path == other) ≡ false → get r.0 other ≡ get cache other

module _ (py : Conversions) (safe_load : String → Option YamlValue) (cache : Cache)
    (path : String) where
  same : (path == path) ≡ true
  same = (string_eq.equal_iff path path).1 refl

  get-put_self : (d : WorkflowDefinition) → get (put cache path d) path ≡ some d
  get-put_self d = get-put cache path path d ∙ rw same refl

  get-remove_self : get (remove cache path) path ≡ none
  get-remove_self = get-remove cache path path ∙ rw same refl

  fallback-known :
      (raw_text : String) (fields : YamlFields) (body message : String)
      → (build_definition_with_fallback cache path raw_text fields body message).config
        ≡ known cache path
  unfolding build_definition_with_fallback
  fallback-known raw_text fields body message = elim (Option-cases (get cache path)) [
    | inl e ↦ rw e refl
    | inr (d, e) ↦ rw e refl
  ]

  refuse_load-Implements :
      (strict : Bool) (why : LoadError) (definition : WorkflowDefinition)
      → definition.config ≡ known cache path
      → Implements
          (faulty why)
          path
          strict
          cache
          (refuse_load py safe_load strict cache why definition)
  refuse_load-Implements true why definition h = record {
    caller = refl;
    path_known = refl;
    others = λ other ne. refl;
  }
  refuse_load-Implements false why definition h = record {
    caller = ap ok h;
    path_known = refl;
    others = λ other ne. refl;
  }

  load_schema-Implements :
      (strict : Bool) (raw_text : String) (fields : YamlFields) (body : String)
      (r : Checked WorkflowConfig)
      → Implements
          (read_schema r)
          path
          strict
          cache
          (load_schema py safe_load cache path strict raw_text fields body r)
  unfolding cache_last_known_good
  load_schema-Implements strict raw_text fields body (ok c) = record {
    caller = refl;
    path_known = ap config_of (get-put_self _);
    others = λ other ne. get-put cache path other _ ∙ rw ne refl;
  }
  load_schema-Implements strict raw_text fields body (err (workflow_validation_error message)) =
      refuse_load-Implements strict _ _ (fallback-known raw_text fields body message)
  load_schema-Implements strict raw_text fields body (err conversion_error) = record {
    caller = refl;
    path_known = refl;
    others = λ other ne. refl;
  }

  load_mapping-Implements :
      (strict : Bool) (raw_text body : String) (v : Option YamlValue)
      → Implements
          (read_value py v)
          path
          strict
          cache
          (load_mapping py safe_load cache path strict raw_text body v)
  load_mapping-Implements strict raw_text body none = record {
    caller = refl;
    path_known = refl;
    others = λ other ne. refl;
  }
  load_mapping-Implements strict raw_text body (some (mapping fields)) =
      load_schema-Implements strict raw_text fields (strip body)
        (workflow_from_dict py (mapping fields))
  load_mapping-Implements strict raw_text body (some null) =
      refuse_load-Implements strict _ _ (fallback-known raw_text end (strip body) no_mapping)
  load_mapping-Implements strict raw_text body (some (boolean b)) =
      refuse_load-Implements strict _ _ (fallback-known raw_text end (strip body) no_mapping)
  load_mapping-Implements strict raw_text body (some (integer n)) =
      refuse_load-Implements strict _ _ (fallback-known raw_text end (strip body) no_mapping)
  load_mapping-Implements strict raw_text body (some (decimal x)) =
      refuse_load-Implements strict _ _ (fallback-known raw_text end (strip body) no_mapping)
  load_mapping-Implements strict raw_text body (some (text s)) =
      refuse_load-Implements strict _ _ (fallback-known raw_text end (strip body) no_mapping)
  load_mapping-Implements strict raw_text body (some (sequence xs)) =
      refuse_load-Implements strict _ _ (fallback-known raw_text end (strip body) no_mapping)
  load_mapping-Implements strict raw_text body (some (date s)) =
      refuse_load-Implements strict _ _ (fallback-known raw_text end (strip body) no_mapping)

  load_yaml-Implements :
      (strict : Bool) (raw_text : String) (parts : Option (String × String))
      → Implements
          (read_front py safe_load parts)
          path
          strict
          cache
          (load_yaml py safe_load cache path strict raw_text parts)
  load_yaml-Implements strict raw_text none =
      refuse_load-Implements strict _ _
        (fallback-known raw_text end (strip raw_text) no_front_matter)
  load_yaml-Implements strict raw_text (some parts) =
      load_mapping-Implements strict raw_text parts.1 (or_empty_mapping (safe_load parts.0))

  known-remove : known (remove cache path) path ≡ none
  known-remove = ap config_of get-remove_self

  others-remove :
      (other : String) → (path == other) ≡ false → get (remove cache path) other ≡ get cache other
  others-remove other ne = get-remove cache path other ∙ rw ne refl

  -- A load implements the step of its document, whatever the file holds and whatever is cached: the
  -- caller is given the configuration that the step gives, or the exception that it raises; the path's
  -- configuration afterwards is that of the step; and no other path's entry changes.
  pub load_workflow_definition-Implements :
      (content : Option String) (strict : Bool)
      → Implements
          (document py safe_load content)
          path
          strict
          cache
          (load_workflow_definition py safe_load cache path content strict)
  unfolding load_workflow_definition document cache_last_known_good
  load_workflow_definition-Implements none strict = record {
    caller = refl;
    path_known = known-remove;
    others = others-remove;
  }
  load_workflow_definition-Implements (some s) strict = elim (Bool-cases (starts_front_matter s)) [
    | inl front ↦ rw front (load_yaml-Implements strict s (front_matter s))
    | inr whole ↦
        rw whole (record { caller = refl; path_known = known-remove; others = others-remove })
  ]
