-- ===== src/Schema/Use.antt =====
-- app/pipeline.py: what the pipeline makes of a configuration: the policy on protected files, and the number of
-- candidates that run at once.
use dev_bot.Base.{
  ℕ, zero, suc, ◌≤◌, ◌≡◌, refl, ap, subst, ◌+◌, ◌-◌, inl, inr, ◌∙◌, String, false, Option, none,
  some, List, [], ◌∷◌, leb, if◌then◌else◌, Bool-cases, arith,
}
use dev_bot.Base.Lists.{All}
use dev_bot.Base.Result.{ok}
use dev_bot.Base.Items.{stripped}
use dev_bot.Base.Text.{is_empty, or_else, strip}
use dev_bot.Base.Ints.{ℤ, pos, negsuc}
use dev_bot.ProtectedConfig.{
  ConfiguredPolicy, ProtectedPolicy, protected_config_policy, protected_config_patterns, or_list,
}
use dev_bot.Schema.Yaml.{YamlValue, Conversions}
use dev_bot.Schema.Config.{WorkflowConfig, workflow_from_dict}
use dev_bot.Schema.Config.Sound.{IsSound, Meets, workflow_from_dict-Meets}
use dev_bot.Schema.Implementation.{ImplementationConfig, ProtectedConfigConfig}
use dev_bot.Schema.Implementation.Sound.{AtMostTwo, SoundImplementation, SoundProtected, AllTrimmed}
use dev_bot.Schema.Ensures.{IsTrimmed, OrNone}

-- What `_protected_config_policy` reads of the section.
abbrev pub configured : ProtectedConfigConfig → ConfiguredPolicy
configured c = record {
  protected_paths = c.protected_paths;
  allow_label = c.allow_label;
  default_policy = c.default_policy;
  issue_body_section = c.allowlist_source.issue_body_section;
  artifacts = c.allowlist_source.artifacts;
}

abbrev pub configured_policy : Option ProtectedConfigConfig → Option ConfiguredPolicy
configured_policy none = none
configured_policy (some c) = some (configured c)

or_else_trimmed : (s default : String) → IsTrimmed s → or_else (strip s) default ≡ s
unfolding or_else
or_else_trimmed s default h = ap (λ t. or_else t default) h.trimmed ∙ filled s h.filled
  where
    filled : (t : String) → is_empty t ≡ false → or_else t default ≡ t
    filled String.[] e = absurd (cc e)
    filled (String.◌∷◌ c t) e = refl

stripped_trimmed : (ss : List String) → All IsTrimmed ss → stripped ss ≡ ss
unfolding stripped
stripped_trimmed [] h = refl
stripped_trimmed (s ∷ ss) h = rw (h.0.trimmed, h.0.filled, stripped_trimmed ss h.1) refl

artifacts_kept : (ss default : List String) → AllTrimmed ss → or_list (stripped ss) default ≡ ss
artifacts_kept [] default h = absurd h
artifacts_kept (s ∷ ss) default h = ap (λ l. or_list l default) (stripped_trimmed (s ∷ ss) h)

-- The policy that the section asks for: its own values, and the program's patterns where it names no path.
abbrev pub asked_policy : ProtectedConfigConfig → ProtectedPolicy
asked_policy c = record {
  default_policy = c.default_policy;
  allow_label = c.allow_label;
  protected_paths = or_list (stripped c.protected_paths) protected_config_patterns;
  issue_body_section = c.allowlist_source.issue_body_section;
  allowlist_artifacts = c.allowlist_source.artifacts;
}

policy_of_sound :
    (c : ProtectedConfigConfig)
    → SoundProtected c
    → protected_config_policy (some (configured c)) ≡ asked_policy c
unfolding protected_config_policy
policy_of_sound c h =
    rw
      (
        or_else_trimmed c.default_policy _ h.default_policy,
        or_else_trimmed c.allow_label _ h.allow_label,
        or_else_trimmed c.allowlist_source.issue_body_section _
            h.allowlist_source.issue_body_section,
        artifacts_kept c.allowlist_source.artifacts _ h.allowlist_source.artifacts,
      )
      refl

accepted-IsSound :
    (py : Conversions) (v : YamlValue) {c : WorkflowConfig}
    → workflow_from_dict py v ≡ ok c
    → IsSound c
accepted-IsSound py v e = subst Meets e (workflow_from_dict-Meets py v)

-- A workflow that the schema accepts, with a section on protected files, gives the pipeline the policy that the
-- section asks for: the checks that the pipeline repeats change nothing, and a section without paths protects the
-- program's own patterns.
pub policy_of_accepted :
    (py : Conversions) (v : YamlValue) {c : WorkflowConfig} {p : ProtectedConfigConfig}
    → workflow_from_dict py v ≡ ok c
    → c.protected_config ≡ some p
    → protected_config_policy (configured_policy c.protected_config) ≡ asked_policy p
policy_of_accepted py v {c} {p} accepted e =
    ap (λ o. protected_config_policy (configured_policy o)) e
    ∙ policy_of_sound p
        (subst (OrNone SoundProtected) e (accepted-IsSound py v accepted).protected_config)

-- `n or 1`
abbrev one_if_zero : ℤ → ℤ
one_if_zero (pos zero) = pos 1
one_if_zero (pos (suc n)) = pos (suc n)
one_if_zero (negsuc n) = negsuc n

abbrev at_least_one : ℕ → ℕ
at_least_one zero = 1
at_least_one (suc m) = suc m

-- max(1, min(count, n))
abbrev between_one : ℕ → ℤ → ℕ
between_one count (negsuc n) = 1
between_one count (pos n) = at_least_one (if leb count n then count else n)

abbrev pub max_parallel : Option ImplementationConfig → ℤ
max_parallel none = pos 1
max_parallel (some c) = one_if_zero c.candidate_mode.max_parallel_editors

abbrev implementation_of : Option WorkflowConfig → Option ImplementationConfig
implementation_of none = none
implementation_of (some c) = c.implementation

unfoldable pub candidate_parallelism : Option WorkflowConfig → ℕ → ℕ
candidate_parallelism workflow candidate_count =
    if leb candidate_count 1
    then 1
    else between_one candidate_count (max_parallel (implementation_of workflow))

between_bounds :
    (count : ℕ) (n : ℤ)
    → AtMostTwo n
    → (1 ≤ between_one count (one_if_zero n))
      × (between_one count (one_if_zero n) ≤ 2)
      × (between_one count (one_if_zero n) ≤ count - 1 + 1)
between_bounds zero (pos zero) h = omega arith
between_bounds (suc count) (pos zero) h = ground arith
between_bounds zero (pos (suc n)) h = ground arith
between_bounds (suc count) (pos (suc n)) h = ground arith
between_bounds count (negsuc n) h = omega arith

max_parallel-AtMostTwo :
    (c : Option ImplementationConfig)
    → OrNone SoundImplementation c
    → (n : ℤ) × (max_parallel c ≡ one_if_zero n) × AtMostTwo n
max_parallel-AtMostTwo none h = (pos 1, refl, omega arith)
max_parallel-AtMostTwo (some c) h = (c.candidate_mode.max_parallel_editors, refl, h.editors)

-- Under a workflow that the schema accepts at least one and at most two candidates run at once, and no more than
-- there are, where there is any.
pub candidate_parallelism_bounds :
    (py : Conversions) (v : YamlValue) {c : WorkflowConfig} (count : ℕ)
    → workflow_from_dict py v ≡ ok c
    → (1 ≤ candidate_parallelism (some c) count)
      × (candidate_parallelism (some c) count ≤ 2)
      × (candidate_parallelism (some c) count ≤ count - 1 + 1)
unfolding candidate_parallelism
candidate_parallelism_bounds py v {c} count accepted = elim (Bool-cases (leb count 1)) [
  | inl few ↦ rw few (omega arith)
  | inr many ↦
      let (n, e, small) =
        max_parallel-AtMostTwo c.implementation (accepted-IsSound py v accepted).implementation in
      rw (many, e) (between_bounds count n small)
]
