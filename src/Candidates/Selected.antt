-- ===== src/Candidates/Selected.antt =====
-- app/pipeline.py: the selection of a candidate (`_select_candidate_result`), its lemmas.
use dev_bot.Base.{
  String, ◌≡◌, refl, sym, ap, subst, ◌∙◌, true, false, some, List, [], ◌∷◌, ◌++◌, arith, inl, inr,
  Bool-cases,
}
use dev_bot.Base.Lists.{All, All-if, Among}
use dev_bot.Base.Eq.{string_eq, ◌==◌}
use dev_bot.Base.Sets.{contains, beq_refl}
use dev_bot.Base.Dict
use dev_bot.Base.Dict.{Dict}
use dev_bot.Base.Result.{ok, >>=-eq-ok}
use dev_bot.Base.Sort.{same, same_iff}
use dev_bot.Candidates.{WinnerInput, candidate_rank_tuple, select_winner}
use dev_bot.Candidates.Scoring.{
  PlanFiles, CandidateExecutionResult, lower, has_severity, count_severity, winner_input,
}
use dev_bot.Candidates.Selection.{
  score_inputs, values, successful, ids, find_result, SelectionPayload, select_among,
  select_candidate_result,
}
use dev_bot.Candidates.Winner.{IsWinner, select_winner-IsWinner}

abbrev pub with_findings : CandidateExecutionResult → List String → CandidateExecutionResult
with_findings r fs = record r { review = record r.review { postable_findings = fs } }

other_word :
    (severity : String)
    → has_severity "critical" severity ≡ true
    → (has_severity "high" severity ≡ false)
      × (has_severity "medium" severity ≡ false)
      × (has_severity "low" severity ≡ false)
unfolding has_severity
other_word severity h =
    let e : lower severity ≡ lower "critical" =
      (same_iff (lower severity) (lower "critical")).0 h in
    rw e (unfold same in (refl, refl, refl))

-- A further finding of severity "critical" leaves the rank of a candidate as it is: the namespace
-- that is ranked has no `critical_count`.
pub critical_ignored :
    (plan : PlanFiles) (r : CandidateExecutionResult) (severity first : String) (rest : List String)
    → has_severity "critical" severity ≡ true
    → candidate_rank_tuple (winner_input plan (with_findings r (severity ∷ first ∷ rest)))
      ≡ candidate_rank_tuple (winner_input plan (with_findings r (first ∷ rest)))
unfolding candidate_rank_tuple winner_input count_severity
critical_ignored plan r severity first rest h =
    let (high, medium, low) = other_word severity h in rw (high, medium, low) refl

module _ (P : CandidateExecutionResult → Type 0) where
  find_result-All :
      (first : CandidateExecutionResult) (rs : List CandidateExecutionResult) (id : String)
      → P first
      → All P rs
      → P (find_result first rs id)
  unfolding find_result
  find_result-All first [] id p ps = p
  find_result-All first (r ∷ rs) id p ps = elim (Bool-cases (r.candidate_id == id)) [
    | inl found ↦ rw found ps.0
    | inr other ↦ rw other (find_result-All first rs id p ps.1)
  ]

pub successful-All :
    (rs : List CandidateExecutionResult) → All (λ r. r.success ≡ true) (successful rs)
unfolding successful
successful-All [] = tt
successful-All (r ∷ rs) = ground (arith, successful-All rs)

Among-successful :
    (results rs : List CandidateExecutionResult)
    → ((r : CandidateExecutionResult) → Among r rs → Among r results)
    → All (λ r. Among r results) (successful rs)
unfolding successful
Among-successful results [] sub = tt
Among-successful results (r ∷ rs) sub =
    All-if (λ r. Among r results) r.success r (successful rs) (sub r (inl refl))
      (Among-successful results rs (λ x m. sub x (inr m)))

find_result-id :
    (first : CandidateExecutionResult) (rs : List CandidateExecutionResult) (id : String)
    → contains (ids rs) id ≡ true
    → (find_result first rs id).candidate_id ≡ id
unfolding find_result contains
find_result-id first [] id h = absurd (cc h)
find_result-id first (r ∷ rs) id h = elim (Bool-cases (r.candidate_id == id)) [
  | inl found ↦ rw found ((string_eq.equal_iff r.candidate_id id).0 found)
  | inr other ↦ rw other (find_result-id first rs id (ground (arith, h, other)))
]

-- Every scored candidate has an identifier among those of the results.
values-put :
    (known : List String) (d : Dict String WinnerInput) (k : String) (w : WinnerInput)
    → All (λ v. contains known v.candidate_id ≡ true) (values d)
    → contains known w.candidate_id ≡ true
    → All (λ v. contains known v.candidate_id ≡ true) (values (Dict.put d k w))
unfolding Dict.put
values-put known [] k w h p = (p, tt)
values-put known ((j, v) ∷ d) k w h p = elim (Bool-cases (j == k)) [
  | inl old ↦ rw old (p, h.1)
  | inr new ↦ rw new (h.0, values-put known d k w h.1 p)
]

values-score_inputs :
    (plan : PlanFiles) (known : List String) (rs : List CandidateExecutionResult)
    (d : Dict String WinnerInput)
    → All (λ v. contains known v.candidate_id ≡ true) (values d)
    → All (λ r. contains known r.candidate_id ≡ true) rs
    → All (λ v. contains known v.candidate_id ≡ true) (values (score_inputs plan rs d))
unfolding score_inputs winner_input
values-score_inputs plan known [] d h k = h
values-score_inputs plan known (r ∷ rs) d h k =
    values-score_inputs plan known rs _
      (values-put known d r.candidate_id (winner_input plan r) h k.0) k.1

ids-known :
    (known : List String) (rs : List CandidateExecutionResult)
    → ((id : String) → contains (ids rs) id ≡ true → contains known id ≡ true)
    → All (λ r. contains known r.candidate_id ≡ true) rs
unfolding contains
ids-known known [] sub = tt
ids-known known (r ∷ rs) sub =
    (sub r.candidate_id (rw beq_refl refl), ids-known known rs (λ id m. sub id (ground (arith, m))))

scored_ids :
    (plan : PlanFiles) (rs : List CandidateExecutionResult)
    → All (λ v. contains (ids rs) v.candidate_id ≡ true) (values (score_inputs plan rs []))
scored_ids plan rs = values-score_inputs plan (ids rs) rs [] tt (ids-known (ids rs) rs (λ id m. m))

IsWinner-All :
    (P : WinnerInput → Type 0) (w : WinnerInput) (cs : List WinnerInput)
    → IsWinner w cs
    → All P cs
    → P w
IsWinner-All P w cs v h = middle v.before (subst (All P) v.split h)
  where
    middle : (before : List WinnerInput) → All P (before ++ w ∷ v.after) → P w
    middle [] k = k.0
    middle (c ∷ before) k = middle before k.1

selected_id :
    (plan : PlanFiles) (rs : List CandidateExecutionResult) (id : String)
    → select_winner (values (score_inputs plan rs [])) ≡ ok id
    → contains (ids rs) id ≡ true
selected_id plan rs id h =
    let (w, wins, named) = select_winner-IsWinner (values (score_inputs plan rs [])) id h in
    subst (λ i. contains (ids rs) i ≡ true) named
      (IsWinner-All (λ v. contains (ids rs) v.candidate_id ≡ true) w _ wins (scored_ids plan rs))

select_among_sound :
    (plan : PlanFiles) (P : CandidateExecutionResult → Type 0) (rs : List CandidateExecutionResult)
    (r : CandidateExecutionResult) (p : SelectionPayload)
    → All P rs
    → select_among plan rs ≡ ok (some r, p)
    → P r × (p.winner_candidate_id ≡ r.candidate_id)
unfolding select_among
select_among_sound plan P [] r p all h = absurd (cc h)
select_among_sound plan P (x ∷ []) r p all h =
    let same_result : x ≡ r = ground (arith, h) in (subst P same_result all.0, ground (arith, h))
select_among_sound plan P (x ∷ y ∷ rs) r p all h =
    let (id, chosen, made) =
      >>=-eq-ok (select_winner (values (score_inputs plan (x ∷ y ∷ rs) []))) _ h in
    let same_result : find_result x (x ∷ y ∷ rs) id ≡ r = ground (arith, made) in
    let same_id : id ≡ p.winner_candidate_id = ground (arith, made) in
    (
      subst P same_result (find_result-All P x (x ∷ y ∷ rs) id all.0 all),
      sym same_id
          ∙ (sym (find_result-id x (x ∷ y ∷ rs) id (selected_id plan (x ∷ y ∷ rs) id chosen))
              ∙ ap (λ (c : CandidateExecutionResult). c.candidate_id) same_result),
    )

pub successful-Among :
    (results : List CandidateExecutionResult) → All (λ r. Among r results) (successful results)
successful-Among results = Among-successful results results (λ x m. m)

-- The selected result is one of the candidate runs, it succeeded, and the payload names it.
pub select_candidate_result_sound :
    (plan : PlanFiles) (results : List CandidateExecutionResult) (r : CandidateExecutionResult)
    (p : SelectionPayload)
    → select_candidate_result plan results ≡ ok (some r, p)
    → Among r results × (r.success ≡ true) × (p.winner_candidate_id ≡ r.candidate_id)
unfolding select_candidate_result
select_candidate_result_sound plan results r p h =
    let found =
      select_among_sound plan (λ c. Among c results) (successful results) r p
        (Among-successful results results (λ x m. m)) h in
    let won =
      select_among_sound plan (λ c. c.success ≡ true) (successful results) r p
        (successful-All results) h in
    (found.0, won.0, won.1)
