-- ===== src/Repair/Minor.antt =====
-- app/pipeline.py: when the session of a candidate is kept for a small repair (`_can_minor_repair_reuse`).
use dev_bot.Base.{
  ◌≤◌, String, ◌≡◌, ◌≢◌, ◌⊎◌, sym, ap, ◌∙◌, inl, inr, Bool, true, false, not, ◌||◌, Option, some,
  List, [], ◌∷◌, map, arith, ltb, if◌then◌else◌, Bool-cases, leb→le,
}
use dev_bot.Base.Eq.{string_eq}
use dev_bot.Base.Sets.{contains}
use dev_bot.Base.Items.{stripped}
use dev_bot.Base.Lists.{All, length}
use dev_bot.Candidates.Scoring.{has_severity, count_severity, is_nil}
use dev_bot.ProtectedConfig.{
  ConfiguredPolicy, LabelledIssue, ScopePlan, matches, build_scope_analysis,
}
use dev_bot.ProtectedConfig.Permitted.{
  is_forbidden, matching-select, protected_config_violations-select, none_selected,
}
use dev_bot.Repair.{
  Finding, ReviewAnswer, ReviewResult, RepairVerification, read_findings, build_review_result,
  max_review_severity, can_minor_repair_reuse,
}

guards :
    (repairable drift contract severe failed small : Bool)
    → (if not repairable
        then false
        else if drift
        then false
        else if not contract
        then false
        else if severe
        then false
        else if failed
        then false
        else small)
      ≡ true
    → (drift ≡ false) × (contract ≡ true) × (severe ≡ false) × (small ≡ true)
guards repairable drift contract severe failed small h =
    (ground (arith, h), ground (arith, h), ground (arith, h), ground (arith, h))

not_severe :
    (result : ReviewResult)
    → contains ("critical" ∷ "high" ∷ []) (max_review_severity result) ≡ false
    → (ltb 0 result.severity_counts.critical ≡ false) × (ltb 0 result.severity_counts.high ≡ false)
unfolding max_review_severity contains
not_severe result = elim (Bool-cases (ltb 0 result.severity_counts.critical)) [
  | inl critical ↦ rw critical (λ h. absurd (cc h))
  | inr no_critical ↦ elim (Bool-cases (ltb 0 result.severity_counts.high)) [
    | inl high ↦ rw (no_critical, high) (λ h. absurd (cc h))
    | inr no_high ↦ λ h. (no_critical, no_high)
  ]
]

none_counted :
    (word : String) (fs : List Finding)
    → ltb 0 (count_severity word (map (λ f. f.severity) fs)) ≡ false
    → All (λ f. has_severity word f.severity ≡ false) fs
unfolding count_severity
none_counted word [] = λ h. tt
none_counted word (f ∷ fs) = elim (Bool-cases (has_severity word f.severity)) [
  | inl hit ↦ rw hit (λ h. absurd (ground (arith, h)))
  | inr miss ↦ λ h. (miss, none_counted word fs (ground (arith, h, miss)))
]

contract_parts :
    (untouched allowed unrelated : Bool)
    → not (not untouched || not allowed || not unrelated) ≡ true
    → (untouched ≡ true) × (allowed ≡ true)
contract_parts untouched allowed unrelated h = (ground (arith, h), ground (arith, h))

-- The finding counts neither as critical nor as high.
abbrev pub IsMild : Finding → Type 0
IsMild f = (has_severity "critical" f.severity ≡ false) × (has_severity "high" f.severity ≡ false)

All-both :
    (P Q : Finding → Type 0) (fs : List Finding) → All P fs → All Q fs → All (λ f. P f × Q f) fs
All-both P Q [] p q = tt
All-both P Q (f ∷ fs) p q = ((p.0, q.0), All-both P Q fs p.1 q.1)

-- The findings that count are the postable ones, and all of them where none is postable.
counted_parts :
    (review : ReviewAnswer)
    → All IsMild (read_findings review)
    → All IsMild review.postable_findings
      × ((review.postable_findings ≢ []) ⊎ All IsMild review.findings)
counted_parts review = by_postable review.postable_findings
  where
    by_postable :
        (postable : List Finding)
        → All IsMild (if is_nil postable then review.findings else postable)
        → All IsMild postable × ((postable ≢ []) ⊎ All IsMild review.findings)
    by_postable [] h = (tt, inr h)
    by_postable (f ∷ fs) h = (h, inl (λ e. cc e))

-- The session of a candidate is kept for a small repair only where no postable finding of the review
-- is critical or high, nor any finding where none is postable, the candidate changed no file that must not be touched and no protected file that the issue does not
-- allow, and at most five files were changed.
pub can_minor_repair_reuse_lem :
    (candidate_id : String) (review : ReviewAnswer) (verification : RepairVerification)
    (plan : ScopePlan) (changed : List String) (issue : LabelledIssue)
    (workflow : Option ConfiguredPolicy)
    → can_minor_repair_reuse
        (build_review_result candidate_id review
          (build_scope_analysis plan changed (some issue) workflow))
        verification
        changed
      ≡ true
    → All IsMild review.postable_findings
      × ((review.postable_findings ≢ []) ⊎ All IsMild review.findings)
      × All (λ p. matches (stripped plan.must_not_touch) p ≡ false) (stripped changed)
      × All (λ p. is_forbidden issue workflow p ≡ false) (stripped changed)
      × (length (stripped changed) ≤ 5)
unfolding can_minor_repair_reuse build_review_result build_scope_analysis
can_minor_repair_reuse_lem candidate_id review verification plan changed issue workflow h =
    let result =
      build_review_result candidate_id review
        (build_scope_analysis plan changed (some issue) workflow) in
    let ps = stripped changed in
    let (no_drift, contract, mild, few) =
      guards _ result.scope_drift result.protected_contract_ok _ _ _ h in
    let (no_critical, no_high) = not_severe result mild in
    let (untouched, allowed) = contract_parts _ _ _ contract in
    let counted = counted_parts review (
      All-both _ _ (read_findings review)
        (none_counted "critical" (read_findings review) no_critical)
        (none_counted "high" (read_findings review) no_high)) in
    (
      counted.0,
      counted.1,
      none_selected (matches (stripped plan.must_not_touch)) ps
          (ap is_nil (sym (matching-select (stripped plan.must_not_touch) ps)) ∙ untouched),
      none_selected (is_forbidden issue workflow) ps
          (ap is_nil (sym (protected_config_violations-select ps issue workflow)) ∙ allowed),
      leb→le (length ps) 5 few,
    )
