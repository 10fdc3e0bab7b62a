-- ===== src/Schema/Checks/Sound.antt =====
-- app/contracts/workflow_schema.py: what every accepted section on review and verification satisfies.
use dev_bot.Base.{ℕ, suc, ◌≡◌, refl, inl, inr, String, true, false, List, [], ◌∷◌, Bool-cases}
use dev_bot.Base.Eq.{string_eq}
use dev_bot.Base.Sets.{contains}
use dev_bot.Base.Lists.{All}
use dev_bot.Base.Text.{strip}
use dev_bot.Schema.Yaml.{YamlValue, mapping, YamlFields, end, field, Conversions}
use dev_bot.Schema.Checks.{
  ReviewConfig, VerificationCheck, VerificationConfig, review_thresholds_from_dict, review_roles,
  review_from_dict, verification_check_from_dict, verification_checks,
  architecture_required_artifacts, absent_from, is_some_missing, verification_from_dict,
}
use dev_bot.Schema.Ensures.{
  Ensures, returns, Anything, Ensures-bind, Ensures-refuse, Ensures-refuse_filled, Ensures-when,
  Ensures-require_mapping, Ensures-float_field, Ensures-strings_field, Ensures-mappings_field,
  Ensures-mapping_field, Ensures-section_or, IsTrimmed, text_field-IsTrimmed, text_or-IsTrimmed,
  both_filled, constant,
}

pub record SoundCheck (check : VerificationCheck) : Type 0 where
  pub name : IsTrimmed check.name
  pub command : IsTrimmed check.command

pub record SoundVerification (c : VerificationConfig) : Type 0 where
  pub required_artifacts :
      All (λ a. contains c.required_artifacts a ≡ true) architecture_required_artifacts
  pub required_checks : All SoundCheck c.required_checks
  pub advisory_checks : All SoundCheck c.advisory_checks

Ensures-thresholds :
    (py : Conversions) (v : YamlValue) → Ensures Anything (review_thresholds_from_dict py v)
unfolding review_thresholds_from_dict
Ensures-thresholds py v =
    Ensures-bind _ _ (Ensures-require_mapping v _)
      λ fields _. Ensures-bind _ _ (Ensures-float_field py fields _ _) λ x _. returns tt

Ensures-review_roles : (fields : YamlFields) → Ensures Anything (review_roles fields)
unfolding review_roles
Ensures-review_roles end = returns tt
Ensures-review_roles (field name v rest) =
    Ensures-bind _ _ (Ensures-require_mapping v _)
      λ role _. Ensures-bind _ _ (Ensures-review_roles rest) λ roles _. returns tt

pub Ensures-review :
    (py : Conversions) (v : YamlValue)
    → Ensures (λ (c : ReviewConfig). IsTrimmed c.rules_file) (review_from_dict py v)
unfolding review_from_dict strip
Ensures-review py v = Ensures-bind _ _ (Ensures-require_mapping v _) λ fields _.
    Ensures-bind _ _ (Ensures-mapping_field fields _ _) λ raw _.
      Ensures-bind _ _ (Ensures-review_roles raw) λ roles _.
        Ensures-bind _ _ (Ensures-section_or fields _ _ _ tt (Ensures-thresholds py)) λ t _.
          returns (text_or-IsTrimmed py fields "rules_file" "REVIEW.md" (constant _ refl refl))

Ensures-check :
    (py : Conversions) (v : YamlValue) (name : String)
    → Ensures SoundCheck (verification_check_from_dict py v name)
unfolding verification_check_from_dict
Ensures-check py v name = Ensures-bind _ _ (Ensures-require_mapping v name) λ fields _.
    Ensures-when _ _ _ (Ensures-refuse name " requires name and command" refl) λ h.
      let (own, command) = both_filled _ _ h in
      returns (record {
        name = text_field-IsTrimmed py fields "name" "" own;
        command = text_field-IsTrimmed py fields "command" "" command;
      })

Ensures-checks :
    (py : Conversions) (name : String) (index : ℕ) (items : List YamlFields)
    → Ensures (All SoundCheck) (verification_checks py name index items)
unfolding verification_checks
Ensures-checks py name index [] = returns tt
Ensures-checks py name index (item ∷ items) =
    Ensures-bind _ _ (Ensures-check py (mapping item) _) λ check p.
      Ensures-bind _ _ (Ensures-checks py name (suc index) items) λ checks q. returns (p, q)

nothing_absent :
    (present artifacts : List String)
    → is_some_missing (absent_from present artifacts) ≡ false
    → All (λ a. contains present a ≡ true) artifacts
unfolding absent_from
nothing_absent present [] h = tt
nothing_absent present (a ∷ artifacts) h = elim (Bool-cases (contains present a)) [
  | inl e ↦ (e, nothing_absent present artifacts (rw e at h))
  | inr f ↦ absurd (cc (rw f at h))
]

pub Ensures-verification :
    (py : Conversions) (v : YamlValue) → Ensures SoundVerification (verification_from_dict py v)
unfolding verification_from_dict
Ensures-verification py v = Ensures-bind _ _ (Ensures-require_mapping v _) λ fields _.
    Ensures-bind _ _ (Ensures-strings_field fields _ _ _) λ artifacts _.
      Ensures-when _ _ _ (Ensures-refuse_filled _ _ refl) λ h.
        Ensures-bind _ _ (Ensures-mappings_field fields _ _) λ raw _.
          Ensures-bind _ _ (Ensures-checks py _ 0 raw) λ required p.
            Ensures-bind _ _ (Ensures-mappings_field fields _ _) λ raw' _.
              Ensures-bind _ _ (Ensures-checks py _ 0 raw') λ advisory q. returns (record {
                required_artifacts = nothing_absent artifacts architecture_required_artifacts h;
                required_checks = p;
                advisory_checks = q;
              })
