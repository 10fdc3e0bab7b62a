-- ===== src/Schema/Implementation/Sound.antt =====
-- app/contracts/workflow_schema.py: what every accepted section on the implementation and on protected files
-- satisfies.
use dev_bot.Base.{◌≤◌, ◌≡◌, refl, inl, inr, String, false, List, [], ◌∷◌, arith, Bool-cases}
use dev_bot.Base.Eq.{string_eq, ◌==◌}
use dev_bot.Base.Lists.{All}
use dev_bot.Base.Text.{is_empty, strip}
use dev_bot.Base.Ints.{ℤ, pos, negsuc}
use dev_bot.Schema.Yaml.{YamlValue, YamlFields, Conversions}
use dev_bot.Schema.Require.{text_field}
use dev_bot.Schema.Implementation.{
  CandidateModeConfig, ImplementationConfig, ProtectedConfigAllowlistSource, ProtectedConfigConfig,
  candidate_triggers_from_dict, next_section, allowlist_section, cons_filled, listed_artifacts,
  default_section, default_source, or_artifacts, allowlist_source_from_dict,
  protected_config_from_dict, exceeds_two, candidate_mode_from_dict, implementation_from_dict,
}
use dev_bot.Schema.Ensures.{
  Ensures, returns, raises, Anything, Ensures-bind, Ensures-refuse, Ensures-when,
  Ensures-require_mapping, Ensures-int_field, Ensures-float_field, Ensures-strings_field,
  Ensures-mappings_field, Ensures-mapping_field, Ensures-section_or, IsTrimmed,
  text_field-IsTrimmed, text_or-IsTrimmed, constant,
}

-- At most two editors.
abbrev pub AtMostTwo : ℤ → Type 0
AtMostTwo (pos n) = n ≤ 2
AtMostTwo (negsuc n) = Unit

pub record SoundImplementation (c : ImplementationConfig) : Type 0 where
  pub backend : IsTrimmed c.backend
  pub editors : AtMostTwo c.candidate_mode.max_parallel_editors

abbrev pub AllTrimmed : List String → Type 0
AllTrimmed [] = ⊥
AllTrimmed (s ∷ ss) = All IsTrimmed (s ∷ ss)

pub record SoundSource (c : ProtectedConfigAllowlistSource) : Type 0 where
  pub issue_body_section : IsTrimmed c.issue_body_section
  pub artifacts : AllTrimmed c.artifacts

pub record SoundProtected (c : ProtectedConfigConfig) : Type 0 where
  pub default_policy : IsTrimmed c.default_policy
  pub allow_label : IsTrimmed c.allow_label
  pub allowlist_source : SoundSource c.allowlist_source

Ensures-triggers :
    (py : Conversions) (v : YamlValue) → Ensures Anything (candidate_triggers_from_dict py v)
unfolding candidate_triggers_from_dict
Ensures-triggers py v = Ensures-bind _ _ (Ensures-require_mapping v _) λ fields _.
    Ensures-bind _ _ (Ensures-int_field fields _ _)
      λ n _. Ensures-bind _ _ (Ensures-float_field py fields _ _) λ x _. returns tt

AtMostTwo-of_test : (n : ℤ) → exceeds_two n ≡ false → AtMostTwo n
AtMostTwo-of_test (pos n) h = ground arith
AtMostTwo-of_test (negsuc n) h = tt

Ensures-candidate_mode :
    (py : Conversions) (v : YamlValue)
    → Ensures
        (λ (c : CandidateModeConfig). AtMostTwo c.max_parallel_editors)
        (candidate_mode_from_dict py v)
unfolding candidate_mode_from_dict
Ensures-candidate_mode py v = Ensures-bind _ _ (Ensures-require_mapping v _) λ fields _.
    Ensures-bind _ _ (Ensures-int_field fields _ _) λ n _. Ensures-when _ _ _ (raises refl) λ h.
      Ensures-bind _ _ (Ensures-section_or fields _ _ _ tt (Ensures-triggers py))
        λ t _. returns (AtMostTwo-of_test n h)

pub Ensures-implementation :
    (py : Conversions) (v : YamlValue) → Ensures SoundImplementation (implementation_from_dict py v)
unfolding implementation_from_dict
Ensures-implementation py v = Ensures-bind _ _ (Ensures-require_mapping v _) λ fields _.
    Ensures-when _ _ _ (Ensures-refuse "implementation.backend" " is required" refl) λ h.
      Ensures-bind _ _ (Ensures-section_or fields _ _ _ (omega arith) (Ensures-candidate_mode py))
        λ mode p. Ensures-bind _ _ (Ensures-mapping_field fields _ _) λ push _.
          Ensures-bind _ _ (Ensures-strings_field fields _ _ _) λ backends _.
            returns
              (record { backend = text_field-IsTrimmed py fields "backend" "" h; editors = p })

default_section-IsTrimmed : IsTrimmed default_section
unfolding strip
default_section-IsTrimmed = constant _ refl refl

next_section-IsTrimmed :
    (current section : String)
    → IsTrimmed current
    → (is_empty section ≡ false → IsTrimmed section)
    → IsTrimmed (next_section current section)
next_section-IsTrimmed current section h k = elim (Bool-cases (is_empty section)) [
  | inl e ↦ rw e h
  | inr f ↦ elim (Bool-cases (current == default_section)) [
    | inl same ↦ rw (f, same) (k f)
    | inr other ↦ rw (f, other) h
  ]
]

allowlist_section-IsTrimmed :
    (py : Conversions) (current : String) (items : List YamlFields)
    → IsTrimmed current
    → IsTrimmed (allowlist_section py current items)
unfolding allowlist_section
allowlist_section-IsTrimmed py current [] h = h
allowlist_section-IsTrimmed py current (item ∷ items) h =
    allowlist_section-IsTrimmed py
      (next_section current (text_field py item "issue_body_section" "")) items
      (next_section-IsTrimmed current (text_field py item "issue_body_section" "") h
        (text_field-IsTrimmed py item "issue_body_section" ""))

cons_filled-All :
    (s : String) (ss : List String)
    → (is_empty s ≡ false → IsTrimmed s)
    → All IsTrimmed ss
    → All IsTrimmed (cons_filled s ss)
cons_filled-All s ss h k = elim (Bool-cases (is_empty s)) [ inl e ↦ rw e k | inr f ↦ rw f (h f, k) ]

listed_artifacts-All :
    (py : Conversions) (items : List YamlFields) → All IsTrimmed (listed_artifacts py items)
unfolding listed_artifacts
listed_artifacts-All py [] = tt
listed_artifacts-All py (item ∷ items) =
    cons_filled-All _ _ (text_field-IsTrimmed py item "artifact" "") (listed_artifacts-All py items)

or_artifacts-AllTrimmed : (ss : List String) → All IsTrimmed ss → AllTrimmed (or_artifacts ss)
unfolding strip
or_artifacts-AllTrimmed [] h = (constant _ refl refl, tt)
or_artifacts-AllTrimmed (s ∷ ss) h = h

default_source-SoundSource : SoundSource default_source
default_source-SoundSource = record {
  issue_body_section = default_section-IsTrimmed;
  artifacts = or_artifacts-AllTrimmed [] tt;
}

Ensures-allowlist_source :
    (py : Conversions) (v : YamlValue) → Ensures SoundSource (allowlist_source_from_dict py v)
unfolding allowlist_source_from_dict
Ensures-allowlist_source py v = Ensures-bind _ _ (Ensures-require_mapping v _) λ fields _.
    Ensures-bind _ _ (Ensures-mappings_field fields _ _) λ items _. returns (record {
      issue_body_section =
          allowlist_section-IsTrimmed py default_section items default_section-IsTrimmed;
      artifacts = or_artifacts-AllTrimmed _ (listed_artifacts-All py items);
    })

pub Ensures-protected_config :
    (py : Conversions) (v : YamlValue) → Ensures SoundProtected (protected_config_from_dict py v)
unfolding protected_config_from_dict strip
Ensures-protected_config py v = Ensures-bind _ _ (Ensures-require_mapping v _) λ fields _.
    Ensures-bind _ _ (Ensures-strings_field fields _ _ _) λ paths _.
      Ensures-bind _ _
        (Ensures-section_or fields _ _ _ default_source-SoundSource (Ensures-allowlist_source py))
        λ source p. returns (record {
          default_policy = text_or-IsTrimmed py fields "default" "deny" (constant _ refl refl);
          allow_label =
              text_or-IsTrimmed py fields "allow_label" "allow-protected-config"
                (constant _ refl refl);
          allowlist_source = p;
        })
