-- ===== src/Loader/Strictness.antt =====
-- app/workflow_loader.py: a strict load and one that falls back.
use dev_bot.Base.{
  ◌≡◌, refl, subst, inl, inr, ◌↔◌, String, true, false, Option, none, some, Bool-cases,
  Option-cases,
}
use dev_bot.Base.Eq.{string_eq}
use dev_bot.Base.Dict.{get}
use dev_bot.Base.Result.{Result, ok, err}
use dev_bot.Base.Text.{is_empty, strip}
use dev_bot.Schema.Yaml.{
  YamlValue, null, boolean, integer, decimal, text, sequence, mapping, date, YamlFields, end,
  Conversions,
}
use dev_bot.Schema.Require.{Checked, workflow_validation_error, conversion_error}
use dev_bot.Schema.Config.{WorkflowConfig}
use dev_bot.Schema.Config.Sound.{Meets, workflow_from_dict-Meets}
use dev_bot.Schema.Ensures.{is_empty-append_filled}
use dev_bot.Loader.{
  WorkflowDefinition, Cache, LoadError, Loaded, front_matter, starts_front_matter,
  build_definition_with_fallback, no_front_matter, no_mapping, refuse_load, load_schema,
  load_mapping, load_yaml, load_workflow_definition,
}

abbrev pub error_text : Option WorkflowDefinition → String
error_text none = ""
error_text (some definition) = definition.config_error

-- A strict load against one that falls back: they leave the same cache, and the strict one gives a definition
-- exactly where the other one gives it without an error.
pub record StrictAgrees (strict lenient : Loaded) : Type 0 where
  pub caches : strict.0 ≡ lenient.0
  pub results :
      (found : Option WorkflowDefinition)
      → (strict.1 ≡ ok found) ↔ ((lenient.1 ≡ ok found) × (is_empty (error_text found) ≡ true))

same_result :
    (cache : Cache) (found : Option WorkflowDefinition)
    → is_empty (error_text found) ≡ true
    → StrictAgrees (cache, ok found) (cache, ok found)
same_result cache found h = record {
  caches = refl;
  results = λ other.
      (λ e. (e, subst (λ f. is_empty (error_text f) ≡ true) (found_eq other e) h), λ p. p.0);
}
  where
    found_eq :
        (other : Option WorkflowDefinition)
        → ◌≡◌ {A = Result LoadError (Option WorkflowDefinition)} (ok found) (ok other)
        → found ≡ other
    found_eq other e = cc

same_error : (cache : Cache) (why : LoadError) → StrictAgrees (cache, err why) (cache, err why)
same_error cache why = record { caches = refl; results = λ other. (λ e. absurd (cc e), λ p. p.0) }

module _ (py : Conversions) (safe_load : String → Option YamlValue) (cache : Cache)
    (path : String) where
  refused :
      (why : LoadError) (definition : WorkflowDefinition)
      → is_empty definition.config_error ≡ false
      → StrictAgrees
          (refuse_load py safe_load true cache why definition)
          (refuse_load py safe_load false cache why definition)
  refused why definition h = record {
    caches = refl;
    results = λ other. (λ e. absurd (cc e), λ p. absurd (clash other p.0 p.1));
  }
    where
      clash :
          (other : Option WorkflowDefinition)
          → ◌≡◌ {A = Result LoadError (Option WorkflowDefinition)} (ok (some definition)) (ok other)
          → is_empty (error_text other) ≡ true
          → ⊥
      clash none e k = cc
      clash (some d) e k = cc

  fallback_error :
      (raw_text : String) (fields : YamlFields) (body message : String)
      → is_empty message ≡ false
      → is_empty
          (build_definition_with_fallback cache path raw_text fields body message).config_error
        ≡ false
  unfolding build_definition_with_fallback
  fallback_error raw_text fields body message h = elim (Option-cases (get cache path)) [
    | inl e ↦ rw e h
    | inr (d, e) ↦ rw e (is_empty-append_filled message _ h)
  ]

  schema_agrees :
      (raw_text : String) (fields : YamlFields) (body : String) (r : Checked WorkflowConfig)
      → Meets r
      → StrictAgrees
          (load_schema py safe_load cache path true raw_text fields body r)
          (load_schema py safe_load cache path false raw_text fields body r)
  schema_agrees raw_text fields body (ok c) h = same_result _ _ refl
  schema_agrees raw_text fields body (err (workflow_validation_error message)) h =
      refused _ _ (fallback_error raw_text fields body message h)
  schema_agrees raw_text fields body (err conversion_error) h = same_error cache _

  no_mapping_agrees :
      (raw_text body : String) (why : LoadError)
      → StrictAgrees
          (refuse_load py safe_load true cache why
            (build_definition_with_fallback cache path raw_text end (strip body) no_mapping))
          (refuse_load py safe_load false cache why
            (build_definition_with_fallback cache path raw_text end (strip body) no_mapping))
  no_mapping_agrees raw_text body why =
      refused _ _ (fallback_error raw_text end (strip body) no_mapping refl)

  mapping_agrees :
      (raw_text body : String) (v : Option YamlValue)
      → StrictAgrees
          (load_mapping py safe_load cache path true raw_text body v)
          (load_mapping py safe_load cache path false raw_text body v)
  mapping_agrees raw_text body none = same_error cache _
  mapping_agrees raw_text body (some (mapping fields)) =
      schema_agrees raw_text fields (strip body) _ (workflow_from_dict-Meets py (mapping fields))
  mapping_agrees raw_text body (some null) = no_mapping_agrees raw_text body _
  mapping_agrees raw_text body (some (boolean b)) = no_mapping_agrees raw_text body _
  mapping_agrees raw_text body (some (integer n)) = no_mapping_agrees raw_text body _
  mapping_agrees raw_text body (some (decimal x)) = no_mapping_agrees raw_text body _
  mapping_agrees raw_text body (some (text s)) = no_mapping_agrees raw_text body _
  mapping_agrees raw_text body (some (sequence xs)) = no_mapping_agrees raw_text body _
  mapping_agrees raw_text body (some (date s)) = no_mapping_agrees raw_text body _

  yaml_agrees :
      (raw_text : String) (parts : Option (String × String))
      → StrictAgrees
          (load_yaml py safe_load cache path true raw_text parts)
          (load_yaml py safe_load cache path false raw_text parts)
  yaml_agrees raw_text none =
      refused _ _ (fallback_error raw_text end (strip raw_text) no_front_matter refl)
  yaml_agrees raw_text (some parts) = mapping_agrees raw_text parts.1 _

  -- Whatever the file holds and whatever is cached, a strict load leaves the same cache as a load that falls
  -- back, and gives a definition exactly where that one gives the same definition with an empty error.
  pub load_strict_iff :
      (content : Option String)
      → StrictAgrees
          (load_workflow_definition py safe_load cache path content true)
          (load_workflow_definition py safe_load cache path content false)
  unfolding load_workflow_definition
  load_strict_iff none = same_result _ _ refl
  load_strict_iff (some s) = elim (Bool-cases (starts_front_matter s)) [
    | inl front ↦ rw front (yaml_agrees s (front_matter s))
    | inr whole ↦ rw whole (same_result _ _ refl)
  ]
