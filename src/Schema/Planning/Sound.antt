-- ===== src/Schema/Planning/Sound.antt =====
-- app/contracts/workflow_schema.py: what every planning and replanning section that is accepted satisfies.
use dev_bot.Base.{◌≡◌, refl, String, false, List, [], ◌∷◌}
use dev_bot.Base.Eq.{string_eq}
use dev_bot.Base.Lists.{All}
use dev_bot.Base.Text.{strip}
use dev_bot.Base.Ints.{ℤ, pos, negsuc}
use dev_bot.Schema.Yaml.{Key, YamlValue, YamlFields, end, field, Conversions}
use dev_bot.Schema.Planning.{
  CommitteeRoleConfig, PlanningCommitteeConfig, PlanningConfig, ReplanningConfig, is_negative,
  committee_role_from_dict, committee_roles, nonempty_roles, planning_committee_from_dict,
  planning_gates_from_dict, legacy_fallback_from_dict, autoselect_committee_from_dict,
  planning_from_dict, replanning_from_dict,
}
use dev_bot.Schema.Ensures.{
  Ensures, returns, Anything, OrNone, Ensures-bind, Ensures-refuse, Ensures-when,
  Ensures-require_mapping, Ensures-int_field, Ensures-strings_field, Ensures-mapping_field,
  Ensures-section_or, Ensures-section_of, IsTrimmed, text_field-IsTrimmed, text_or-IsTrimmed,
  both_filled, constant,
}

pub record SoundRole (role : CommitteeRoleConfig) : Type 0 where
  pub mode : IsTrimmed role.mode
  pub output_schema : IsTrimmed role.output_schema

abbrev pub HasRoles : List (Key × CommitteeRoleConfig) → Type 0
HasRoles [] = ⊥
HasRoles (role ∷ roles) = All (λ r. SoundRole r.1) (role ∷ roles)

pub record SoundPlanning (c : PlanningConfig) : Type 0 where
  pub provider : IsTrimmed c.provider
  pub mode : IsTrimmed c.mode
  pub cwd_source : IsTrimmed c.cwd_source
  pub committee : OrNone (λ committee. HasRoles committee.roles) c.committee

abbrev pub NonNegative : ℤ → Type 0
NonNegative (pos n) = Unit
NonNegative (negsuc n) = ⊥

Ensures-committee_role :
    (py : Conversions) (v : YamlValue) (name : String)
    → Ensures SoundRole (committee_role_from_dict py v name)
unfolding committee_role_from_dict
Ensures-committee_role py v name = Ensures-bind _ _ (Ensures-require_mapping v name) λ fields _.
    Ensures-when _ _ _ (Ensures-refuse name _ refl) λ h.
      Ensures-bind _ _ (Ensures-strings_field fields _ _ _) λ allowed _.
        Ensures-bind _ _ (Ensures-strings_field fields _ _ _) λ disallowed _.
          let (mode, output_schema) = both_filled _ _ h in
          returns (record {
            mode = text_field-IsTrimmed py fields "mode" "" mode;
            output_schema = text_field-IsTrimmed py fields "output_schema" "" output_schema;
          })

Ensures-committee_roles :
    (py : Conversions) (fields : YamlFields)
    → Ensures (All (λ r. SoundRole r.1)) (committee_roles py fields)
unfolding committee_roles
Ensures-committee_roles py end = returns tt
Ensures-committee_roles py (field name v rest) =
    Ensures-bind _ _ (Ensures-committee_role py v _)
      λ role p. Ensures-bind _ _ (Ensures-committee_roles py rest) λ roles q. returns (p, q)

Ensures-nonempty_roles :
    (roles : List (Key × CommitteeRoleConfig))
    → All (λ r. SoundRole r.1) roles
    → Ensures (λ (c : PlanningCommitteeConfig). HasRoles c.roles) (nonempty_roles roles)
Ensures-nonempty_roles [] h = Ensures-refuse "planning.committee.roles" " must not be empty" refl
Ensures-nonempty_roles (role ∷ roles) h = returns h

Ensures-planning_committee :
    (py : Conversions) (v : YamlValue)
    → Ensures
        (λ (c : PlanningCommitteeConfig). HasRoles c.roles)
        (planning_committee_from_dict py v)
unfolding planning_committee_from_dict
Ensures-planning_committee py v = Ensures-bind _ _ (Ensures-require_mapping v _) λ fields _.
    Ensures-bind _ _ (Ensures-mapping_field fields _ _) λ raw _.
      Ensures-bind _ _ (Ensures-committee_roles py raw) λ roles h. Ensures-nonempty_roles roles h

Ensures-planning_gates : (v : YamlValue) → Ensures Anything (planning_gates_from_dict v)
unfolding planning_gates_from_dict
Ensures-planning_gates v = Ensures-bind _ _ (Ensures-require_mapping v _) λ fields _. returns tt

Ensures-legacy_fallback : (v : YamlValue) → Ensures Anything (legacy_fallback_from_dict v)
unfolding legacy_fallback_from_dict
Ensures-legacy_fallback v = Ensures-bind _ _ (Ensures-require_mapping v _) λ fields _. returns tt

Ensures-autoselect : (v : YamlValue) → Ensures Anything (autoselect_committee_from_dict v)
unfolding autoselect_committee_from_dict
Ensures-autoselect v = Ensures-bind _ _ (Ensures-require_mapping v _) λ fields _.
    Ensures-bind _ _ (Ensures-int_field fields _ _) λ a _.
      Ensures-bind _ _ (Ensures-int_field fields _ _) λ b _.
        Ensures-bind _ _ (Ensures-int_field fields _ _) λ c _.
          Ensures-bind _ _ (Ensures-int_field fields _ _)
            λ d _. Ensures-bind _ _ (Ensures-int_field fields _ _) λ e _. returns tt

pub Ensures-planning :
    (py : Conversions) (v : YamlValue) → Ensures SoundPlanning (planning_from_dict py v)
unfolding planning_from_dict strip
Ensures-planning py v = Ensures-bind _ _ (Ensures-require_mapping v _) λ fields _.
    Ensures-when _ _ _ (Ensures-refuse "planning.provider" " is required" refl) λ h.
      Ensures-bind _ _ (Ensures-section_of fields _ _ (Ensures-planning_committee py)) λ c p.
        Ensures-bind _ _ (Ensures-section_or fields _ _ _ tt Ensures-planning_gates) λ g _.
          Ensures-bind _ _ (Ensures-section_or fields _ _ _ tt Ensures-legacy_fallback) λ l _.
            Ensures-bind _ _ (Ensures-section_or fields _ _ _ tt Ensures-autoselect) λ a _.
              Ensures-bind _ _ (Ensures-int_field fields _ _) λ n1 _.
                Ensures-bind _ _ (Ensures-int_field fields _ _) λ n2 _.
                  Ensures-bind _ _ (Ensures-int_field fields _ _) λ n3 _.
                    Ensures-bind _ _ (Ensures-strings_field fields _ _ _) λ s1 _.
                      Ensures-bind _ _ (Ensures-strings_field fields _ _ _) λ s2 _.
                        returns (record {
                          provider = text_field-IsTrimmed py fields "provider" "" h;
                          mode =
                              text_or-IsTrimmed py fields "mode" "committee" (constant _ refl refl);
                          cwd_source =
                              text_or-IsTrimmed py fields "cwd_source" "plan_workspace"
                                (constant _ refl refl);
                          committee = p;
                        })

NonNegative-of_test : (n : ℤ) → is_negative n ≡ false → NonNegative n
NonNegative-of_test (pos n) h = tt
NonNegative-of_test (negsuc n) h = cc

pub Ensures-replanning :
    (v : YamlValue)
    → Ensures
        (λ (c : ReplanningConfig). NonNegative c.max_replans_per_issue)
        (replanning_from_dict v)
unfolding replanning_from_dict
Ensures-replanning v = Ensures-bind _ _ (Ensures-require_mapping v _) λ fields _.
    Ensures-bind _ _ (Ensures-int_field fields _ _) λ n _.
      Ensures-when _ _ _ (Ensures-refuse "replanning.max_replans_per_issue" " must be >= 0" refl)
        λ h.
          Ensures-bind _ _ (Ensures-strings_field fields _ _ _)
            λ reasons _. returns (NonNegative-of_test n h)
