-- ===== src/ProtectedConfig/Permitted.antt =====
-- app/pipeline.py: the violations of the policy on protected configuration, and what they mean for the
-- selection of a candidate.
use dev_bot.Base.{
  String, ◌≡◌, refl, sym, ap, ◌∙◌, inl, inr, Bool, true, false, not, ◌&&◌, Option, some, List, [],
  ◌∷◌, arith, if◌then◌else◌, Bool-cases,
}
use dev_bot.Base.Eq.{string_eq}
use dev_bot.Base.Sets.{contains}
use dev_bot.Base.Items.{stripped}
use dev_bot.Base.Lists.{All}
use dev_bot.Candidates.{eligible}
use dev_bot.Candidates.Scoring.{PlanFiles, CandidateExecutionResult, is_nil, winner_input}
use dev_bot.ProtectedConfig.{
  ConfiguredPolicy, LabelledIssue, ScopePlan, protected_config_policy, issue_labels,
  resolve_protected_config_allowlist, matches, matching, not_matching, judge,
  protected_config_violations, build_scope_analysis,
}

-- The paths that pass a test, in their order.
abbrev pub select : (String → Bool) → List String → List String
select test [] = []
select test (p ∷ ps) = let rest = select test ps in if test p then p ∷ rest else rest

pub matching-select :
    (patterns ps : List String) → matching patterns ps ≡ select (matches patterns) ps
unfolding matching
matching-select patterns [] = refl
matching-select patterns (p ∷ ps) =
    ap (λ rest. if matches patterns p then p ∷ rest else rest) (matching-select patterns ps)

select-select :
    (f g : String → Bool) (ps : List String) → select f (select g ps) ≡ select (λ p. g p && f p) ps
select-select f g [] = refl
select-select f g (p ∷ ps) = elim (Bool-cases (g p)) [
  | inl kept ↦ rw kept (ap (λ rest. if f p then p ∷ rest else rest) (select-select f g ps))
  | inr dropped ↦ rw dropped (select-select f g ps)
]

select_everything : (ps : List String) → ps ≡ select (λ p. true) ps
select_everything [] = refl
select_everything (p ∷ ps) = ap (λ rest. p ∷ rest) (select_everything ps)

not_matching-select :
    (patterns ps : List String)
    → not_matching patterns ps ≡ select (λ p. not (matches patterns p)) ps
unfolding not_matching
not_matching-select patterns [] = refl
not_matching-select patterns (p ∷ ps) = elim (Bool-cases (matches patterns p)) [
  | inl allowed ↦ rw allowed (not_matching-select patterns ps)
  | inr denied ↦ rw denied (ap (λ rest. p ∷ rest) (not_matching-select patterns ps))
]

-- Whether the label and the list allow a protected path.
abbrev allowed_by : Bool → List String → String → Bool
allowed_by label allowlist p = label && matches allowlist p

judge-select :
    (protected : List String) (label : Bool) (allowlist : List String)
    → (judge protected label allowlist).violations
      ≡ select (λ p. not (allowed_by label allowlist p)) protected
unfolding matches
judge-select [] label allowlist = refl
judge-select (p ∷ ps) false allowlist = select_everything (p ∷ ps)
judge-select (p ∷ ps) true [] = select_everything (p ∷ ps)
judge-select (p ∷ ps) true (a ∷ more) = not_matching-select (a ∷ more) (p ∷ ps)

-- A path that the policy protects and that neither the label nor the list allows.
abbrev pub is_forbidden : LabelledIssue → Option ConfiguredPolicy → String → Bool
is_forbidden issue workflow p =
    let policy = protected_config_policy workflow in
    matches policy.protected_paths p
    && not (
        contains (issue_labels issue) policy.allow_label
        && matches
            (resolve_protected_config_allowlist issue policy.issue_body_section
              policy.allowlist_artifacts)
            p)

-- The violations are the changed paths, in their order, that a protected pattern matches, unless the issue has the
-- label and a pattern of the allowlist matches the path.
pub protected_config_violations-select :
    (changed : List String) (issue : LabelledIssue) (workflow : Option ConfiguredPolicy)
    → (protected_config_violations changed issue workflow).violations
      ≡ select (is_forbidden issue workflow) changed
unfolding protected_config_violations
protected_config_violations-select changed issue workflow =
    let policy = protected_config_policy workflow in
    let label = contains (issue_labels issue) policy.allow_label in
    let allowlist =
      resolve_protected_config_allowlist issue policy.issue_body_section
        policy.allowlist_artifacts in
    judge-select (matching policy.protected_paths changed) label allowlist
    ∙ ap (select (λ p. not (allowed_by label allowlist p)))
        (matching-select policy.protected_paths changed)
    ∙ select-select (λ p. not (allowed_by label allowlist p)) (matches policy.protected_paths)
        changed

pub none_selected :
    (test : String → Bool) (ps : List String)
    → is_nil (select test ps) ≡ true
    → All (λ p. test p ≡ false) ps
none_selected test [] = λ h. tt
none_selected test (p ∷ ps) = elim (Bool-cases (test p)) [
  | inl hit ↦ rw hit (λ h. absurd (cc h))
  | inr miss ↦ λ h. (miss, none_selected test ps (ground (arith, h, miss)))
]

-- What an eligible candidate has not violated.
eligible-clean :
    (plan : PlanFiles) (r : CandidateExecutionResult)
    → eligible (winner_input plan r) ≡ true
    → (is_nil r.scope_analysis.must_not_touch_violations ≡ true)
      × (is_nil r.scope_analysis.protected_config_violations ≡ true)
unfolding eligible winner_input
eligible-clean plan r h = (ground (arith, h), ground (arith, h))

-- A candidate whose scope was analysed and that is eligible changed no file that the plan says must not be
-- touched, and no protected file that the issue does not allow.
pub eligible-permitted :
    (plan : ScopePlan) (changed : List String) (issue : LabelledIssue)
    (workflow : Option ConfiguredPolicy) (r : CandidateExecutionResult)
    → r.scope_analysis ≡ build_scope_analysis plan changed (some issue) workflow
    → eligible (winner_input plan.plan_files r) ≡ true
    → All (λ p. matches (stripped plan.must_not_touch) p ≡ false) (stripped changed)
      × All (λ p. is_forbidden issue workflow p ≡ false) (stripped changed)
unfolding build_scope_analysis
eligible-permitted plan changed issue workflow r analysed h =
    let (untouched, clean) = eligible-clean plan.plan_files r h in
    let ps = stripped changed in
    (
      none_selected (matches (stripped plan.must_not_touch)) ps (
          ap is_nil (sym (matching-select (stripped plan.must_not_touch) ps))
          ∙ ap (λ a. is_nil a.must_not_touch_violations) (sym analysed)
          ∙ untouched),
      none_selected (is_forbidden issue workflow) ps (
          ap is_nil (sym (protected_config_violations-select ps issue workflow))
          ∙ ap (λ a. is_nil a.protected_config_violations) (sym analysed)
          ∙ clean),
    )
