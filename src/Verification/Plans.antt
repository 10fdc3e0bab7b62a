-- ===== src/Verification/Plans.antt =====
-- app/verification_profiles.py, `build_verification_plan`: what every plan has.
use Prim.Native.String.{◌++◌ as str_append}
use dev_bot.Base.{
  String, ◌≡◌, ◌≢◌, refl, sym, ap, subst, ◌∙◌, inl, inr, Bool, true, false, not, ◌&&◌, ◌||◌, List,
  [], ◌∷◌, ◌++◌, map, arith, if◌then◌else◌, Bool-cases,
}
use dev_bot.Base.Eq.{string_eq, ◌==◌}
use dev_bot.Base.Sets.{contains}
use dev_bot.Base.Lists.{All, All-append}
use dev_bot.Base.Text.{is_empty, strip}
use dev_bot.Base.Visible.{has_visible, is_empty-strip, has_visible-append, has_visible-strip}
use dev_bot.Base.Items.{stripped}
use dev_bot.Base.Join.{concat}
use dev_bot.Verification.{
  Check, RepoProfile, python_head, smoke_tail, scan_tail, minimal_tail, named, static_web_checks,
  generic_minimal_checks, has_typecheck, profile_hard_checks, profile_advisory_checks, or_minimal,
  build_checks, first_only, build_repair_checks, build_verification_plan,
}
use dev_bot.Verification.Scope.{first_path, is_whole, commands_for_scope}

-- A check with a command, for which a missing tool is allowed or is not.
abbrev pub IsCheck : Bool → Check → Type 0
IsCheck allow c = (has_visible c.command ≡ true) × (c.allow_not_applicable ≡ allow)

All-stripped : (items : List String) → All (λ s. has_visible s ≡ true) (stripped items)
unfolding stripped
All-stripped [] = tt
All-stripped (s ∷ ss) = elim (Bool-cases (is_empty (strip s))) [
  | inl blank ↦
      subst (All (λ t. has_visible t ≡ true)) {x = stripped ss} (rw blank refl) (All-stripped ss)
  | inr filled ↦
      subst (All (λ t. has_visible t ≡ true)) {x = strip s ∷ stripped ss} (rw filled refl)
        (has_visible-strip s ∙ ground (arith, is_empty-strip s, filled), All-stripped ss)
]

-- A text that begins with something visible is visible.
visible_head : (s t : String) → has_visible s ≡ true → has_visible (str_append s t) ≡ true
visible_head s t h = has_visible-append s t ∙ ap (λ b. b || has_visible t) h

cd_visible : (t : String) → has_visible (str_append "cd " t) ≡ true
unfolding has_visible dev_bot.Base.Text.is_space
cd_visible t = visible_head "cd " t refl

All-in_directory :
    (dir : String) (commands : List String)
    → All
        (λ s. has_visible s ≡ true)
        (map (λ command. concat ("cd " ∷ dir ∷ " && " ∷ command ∷ [])) commands)
All-in_directory dir [] = tt
All-in_directory dir (c ∷ cs) = (cd_visible _, All-in_directory dir cs)

All-commands_for_scope :
    (commands scope_paths : List String)
    → All (λ s. has_visible s ≡ true) (commands_for_scope commands scope_paths)
unfolding commands_for_scope
All-commands_for_scope commands scope_paths = elim (Bool-cases (is_whole scope_paths)) [
  | inl whole ↦ rw whole (All-stripped commands)
  | inr part ↦ rw part (All-in_directory (first_path scope_paths) (stripped commands))
]

All-named :
    (name : String) (allow : Bool) (commands : List String)
    → All (λ s. has_visible s ≡ true) commands
    → All (IsCheck allow) (named name allow commands)
unfolding named
All-named name allow [] h = tt
All-named name allow (c ∷ cs) h = ((h.0, refl), All-named name allow cs h.1)

-- The checks of one kind of command.
All-kind :
    (name : String) (allow : Bool) (commands scope_paths : List String)
    → All (IsCheck allow) (named name allow (commands_for_scope commands scope_paths))
All-kind name allow commands scope_paths =
    All-named name allow (commands_for_scope commands scope_paths)
      (All-commands_for_scope commands scope_paths)

python_visible : (s t : String) → has_visible (concat (python_head ∷ s ∷ t ∷ [])) ≡ true
unfolding has_visible dev_bot.Base.Text.is_space
python_visible s t = visible_head python_head (str_append s (str_append t "")) refl

All-generic_minimal_checks :
    (scope_paths : List String) → All (IsCheck false) (generic_minimal_checks scope_paths)
unfolding generic_minimal_checks named
All-generic_minimal_checks scope_paths =
    ((python_visible (first_path scope_paths) minimal_tail, refl), tt)

All-static_web_checks :
    (scope_paths : List String) → All (IsCheck false) (static_web_checks scope_paths)
unfolding static_web_checks named
All-static_web_checks scope_paths = (
  (python_visible (first_path scope_paths) smoke_tail, refl),
  ((python_visible (first_path scope_paths) scan_tail, refl), tt),
)

All-typecheck :
    (b : Bool) (commands scope_paths : List String)
    → All
        (IsCheck false)
        (if b then named "typecheck" false (commands_for_scope commands scope_paths) else [])
All-typecheck true commands scope_paths = All-kind "typecheck" false commands scope_paths
All-typecheck false commands scope_paths = tt

All-profile_hard_checks :
    (profile : String) (repo : RepoProfile) (scope_paths : List String)
    → All (IsCheck false) (profile_hard_checks profile repo scope_paths)
unfolding profile_hard_checks
All-profile_hard_checks profile repo scope_paths =
    All-append (IsCheck false) _ _ (All-kind "lint" false repo.lint_commands scope_paths) (
      All-append (IsCheck false) _ _ (All-kind "tests" false repo.test_commands scope_paths)
        (All-typecheck (has_typecheck profile) repo.typecheck_commands scope_paths))

All-profile_advisory_checks :
    (repo : RepoProfile) (scope_paths : List String)
    → All (IsCheck true) (profile_advisory_checks repo scope_paths)
unfolding profile_advisory_checks
All-profile_advisory_checks repo scope_paths =
    All-append (IsCheck true) _ _ (All-kind "format" true repo.format_commands scope_paths)
      (All-kind "build" true repo.build_commands scope_paths)

-- What the hard checks and the advisory ones of a plan are.
abbrev pub AreChecks : List Check × List Check → Type 0
AreChecks (hard, advisory) = (hard ≢ []) × All (IsCheck false) hard × All (IsCheck true) advisory

not_nothing : (c : Check) (cs : List Check) → (c ∷ cs) ≢ []
not_nothing c cs e = cc e

minimal-AreChecks : (scope_paths : List String) → AreChecks (generic_minimal_checks scope_paths, [])
unfolding generic_minimal_checks named
minimal-AreChecks scope_paths = (not_nothing _ _, All-generic_minimal_checks scope_paths, tt)

web-AreChecks : (scope_paths : List String) → AreChecks (static_web_checks scope_paths, [])
unfolding static_web_checks named
web-AreChecks scope_paths = (not_nothing _ _, All-static_web_checks scope_paths, tt)

or_minimal-AreChecks :
    (scope_paths : List String) (hard advisory : List Check)
    → All (IsCheck false) hard
    → All (IsCheck true) advisory
    → AreChecks (or_minimal scope_paths hard advisory)
or_minimal-AreChecks scope_paths [] advisory h a = minimal-AreChecks scope_paths
or_minimal-AreChecks scope_paths (c ∷ cs) advisory h a = (not_nothing c cs, h, a)

build_checks-AreChecks :
    (profile : String) (repo : RepoProfile) (scope_paths : List String)
    → AreChecks (build_checks profile repo scope_paths)
unfolding build_checks
build_checks-AreChecks profile repo scope_paths = elim (Bool-cases (profile == "static-web")) [
  | inl web ↦ rw web (web-AreChecks scope_paths)
  | inr other ↦ elim (Bool-cases (profile == "generic-minimal")) [
    | inl minimal ↦ rw (other, minimal) (minimal-AreChecks scope_paths)
    | inr known ↦
        rw (other, known)
          (or_minimal-AreChecks scope_paths (profile_hard_checks profile repo scope_paths)
            (profile_advisory_checks repo scope_paths)
            (All-profile_hard_checks profile repo scope_paths)
            (All-profile_advisory_checks repo scope_paths))
  ]
]

All-first_only :
    (commands : List String)
    → All (λ s. has_visible s ≡ true) commands
    → All (λ s. has_visible s ≡ true) (first_only commands)
All-first_only [] h = tt
All-first_only (c ∷ cs) h = (h.0, tt)

All-build_repair_checks :
    (repair_profile : String) (repo : RepoProfile) (scope_paths : List String)
    → All (IsCheck true) (build_repair_checks repair_profile repo scope_paths)
unfolding build_repair_checks
All-build_repair_checks repair_profile repo scope_paths =
    elim (Bool-cases
      (contains ("python-fast-repair" ∷ "ts-fast-repair" ∷ "mixed-py-ts" ∷ []) repair_profile)) [
        | inr unknown ↦ rw unknown tt
        | inl known ↦ rw known (
            All-append (IsCheck true) _ _ (All-kind "format" true repo.format_commands scope_paths)
              (All-append (IsCheck true) _ _ (All-kind "lint" true repo.lint_commands scope_paths) (
                All-append (IsCheck true) _ _
                  (All-kind "typecheck" true repo.typecheck_commands scope_paths)
                  (All-named "tests" true _
                    (All-first_only _ (All-commands_for_scope repo.test_commands scope_paths))))))
      ]

-- Every plan has a hard check. Its checks have a command each, and a missing tool is allowed for the
-- advisory checks and those of a repair, and for no hard one.
pub build_verification_plan-AreChecks :
    (repo : RepoProfile) (candidate_files : List String)
    → let plan = build_verification_plan repo candidate_files in
      (plan.hard_checks ≢ [])
      × All (IsCheck false) plan.hard_checks
      × All (IsCheck true) plan.advisory_checks
      × All (IsCheck true) plan.repair_checks
unfolding build_verification_plan
build_verification_plan-AreChecks repo candidate_files =
    let plan = build_verification_plan repo candidate_files in
    let checks = build_checks-AreChecks plan.profile repo plan.scope_paths in
    (
      checks.0,
      checks.1,
      checks.2,
      All-build_repair_checks plan.repair_profile repo plan.scope_paths,
    )
