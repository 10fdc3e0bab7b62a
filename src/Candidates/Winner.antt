-- ===== src/Candidates/Winner.antt =====
-- app/implementation/candidate_policy.py: `select_winner` against a description of the winner.
use dev_bot.Base.{
  ℕ, String, ◌≡◌, refl, ap, Bool, true, false, List, [], ◌∷◌, ◌++◌, arith, inl, inr, Bool-cases,
}
use dev_bot.Base.Lists.{All}
use dev_bot.Base.Result.{ok}
use dev_bot.Base.Sort.{lex_le_total, lex_le_trans, sort, sort-IsFirstLeast}
use dev_bot.Planning.{PlanV2}
use dev_bot.Planning.Gate.{gate_enables_candidates}
use dev_bot.Candidates.{
  WinnerInput, should_enable_candidate_mode, eligible, rank_le, candidate_rank_tuple, head_id,
  keep_eligible, select_winner,
}

rank_le_total : (a b : WinnerInput) → rank_le a b ≡ false → rank_le b a ≡ true
unfolding rank_le
rank_le_total a b h = lex_le_total (candidate_rank_tuple a) (candidate_rank_tuple b) h

rank_le_trans : (a b c : WinnerInput) → rank_le a b ≡ true → rank_le b c ≡ true → rank_le a c ≡ true
unfolding rank_le
rank_le_trans a b c h k =
    lex_le_trans (candidate_rank_tuple a) (candidate_rank_tuple b) (candidate_rank_tuple c) h k

-- `winner` stands in the list, is eligible, ranks strictly before every eligible candidate that
-- stands before it, and not behind any eligible candidate that stands after it.
pub record IsWinner (winner : WinnerInput) (candidates : List WinnerInput) : Type 0 where
  pub before : List WinnerInput
  pub after : List WinnerInput
  pub split : candidates ≡ before ++ winner ∷ after
  pub is_eligible : eligible winner ≡ true
  pub strictly : All (λ c. eligible c ≡ true → rank_le c winner ≡ false) before
  pub weakly : All (λ c. eligible c ≡ true → rank_le winner c ≡ true) after

module _ (w : WinnerInput) where
  prepend :
      (c : WinnerInput) (cs : List WinnerInput)
      → (eligible c ≡ true → rank_le c w ≡ false)
      → IsWinner w cs
      → IsWinner w (c ∷ cs)
  prepend c cs strict v = record {
    before = c ∷ v.before;
    after = v.after;
    split = ap (λ l. c ∷ l) v.split;
    is_eligible = v.is_eligible;
    strictly = (strict, v.strictly);
    weakly = v.weakly;
  }

  weakly_all :
      (cs : List WinnerInput)
      → All (λ c. rank_le w c ≡ true) (keep_eligible cs)
      → All (λ c. eligible c ≡ true → rank_le w c ≡ true) cs
  unfolding keep_eligible
  weakly_all [] a = tt
  weakly_all (c ∷ cs) a = elim (Bool-cases (eligible c)) [
    | inl kept ↦
        let a' : (rank_le w c ≡ true) × All (λ c. rank_le w c ≡ true) (keep_eligible cs) =
          rw (kept, keep_eligible) at a in
        (λ _. a'.0, weakly_all cs a'.1)
    | inr dropped ↦
        (λ kept. absurd (cc (kept, dropped)), weakly_all cs (rw (dropped, keep_eligible) at a))
  ]

  -- A split of the eligible candidates comes from a split of all.
  keep_eligible-split :
      (cs before after : List WinnerInput)
      → keep_eligible cs ≡ before ++ w ∷ after
      → All (λ c. rank_le c w ≡ false) before
      → All (λ c. rank_le w c ≡ true) after
      → IsWinner w cs
  unfolding keep_eligible
  keep_eligible-split [] [] after e b a = absurd (cc e)
  keep_eligible-split [] (x ∷ before) after e b a = absurd (cc e)
  keep_eligible-split (c ∷ cs) before after e b a = elim (Bool-cases (eligible c)) [
    | inr dropped ↦
        prepend c cs (λ kept. absurd (cc (kept, dropped)))
          (keep_eligible-split cs before after (ground (arith, e, dropped)) b a)
    | inl kept ↦
        kept_head c cs kept before (ground (arith, e, kept)) b
          (λ before' e' b'. keep_eligible-split cs before' after e' b' a)
  ]
    where
      kept_head :
          (c : WinnerInput) (cs : List WinnerInput)
          → eligible c ≡ true
          → (before : List WinnerInput) → c ∷ keep_eligible cs ≡ before ++ w ∷ after
          → All (λ c. rank_le c w ≡ false) before
          → ((before' : List WinnerInput)
              → keep_eligible cs ≡ before' ++ w ∷ after
              → All (λ c. rank_le c w ≡ false) before'
              → IsWinner w cs)
          → IsWinner w (c ∷ cs)
      kept_head c cs kept [] e b ih =
          let same : c ≡ w = ground (arith, e) in
          let rest : keep_eligible cs ≡ after = ground (arith, e) in
          record {
            before = [];
            after = cs;
            split = ap (λ x. x ∷ cs) same;
            is_eligible = rw (← same) kept;
            strictly = tt;
            weakly = weakly_all cs (rw rest a);
          }
      kept_head c cs kept (x ∷ before) e b ih =
          let same : c ≡ x = ground (arith, e) in
          prepend c cs (λ _. rw same b.0) (ih before (ground (arith, e)) b.1)

head_of_ok :
    (cs : List WinnerInput) (id : String)
    → select_winner cs ≡ ok id
    → (w : WinnerInput) × (rest : List WinnerInput) × (sort rank_le (keep_eligible cs) ≡ w ∷ rest)
      × (w.candidate_id ≡ id)
unfolding select_winner
head_of_ok cs id h = go (sort rank_le (keep_eligible cs)) h
  where
    go :
        (l : List WinnerInput)
        → head_id l ≡ ok id
        → (w : WinnerInput) × (rest : List WinnerInput) × (l ≡ w ∷ rest) × (w.candidate_id ≡ id)
    go [] e = absurd (cc e)
    go (w ∷ rest) e = (w, rest, refl, ground (arith, e))

-- The identifier that `select_winner` returns is that of an eligible candidate which ranks strictly
-- before the eligible candidates in front of it, and not behind those after it.
pub select_winner-IsWinner :
    (cs : List WinnerInput) (id : String)
    → select_winner cs ≡ ok id
    → (w : WinnerInput) × IsWinner w cs × (w.candidate_id ≡ id)
select_winner-IsWinner cs id h =
    let (w, rest, sorted, named) = head_of_ok cs id h in
    let least =
      sort-IsFirstLeast rank_le rank_le_total rank_le_trans (keep_eligible cs) w rest sorted in
    (
      w,
      keep_eligible-split w cs least.before least.after least.split least.greater least.not_smaller,
      named,
    )

-- With the thresholds 1 and 0.75 and clear design branches required, the policy enables candidates
-- for exactly the plans for which the quality gate does.
pub should_enable_candidate_mode-eq-gate :
    {F : Type 0} (lt : F → F → Bool) (three_quarters : F) (plan : PlanV2 F) (rework_count : ℕ)
    → should_enable_candidate_mode lt plan rework_count (record {
      rework_count_gte = 1;
      planner_confidence_lt = three_quarters;
      require_clear_design_branches = true;
    })
      ≡ gate_enables_candidates lt three_quarters plan rework_count
unfolding should_enable_candidate_mode gate_enables_candidates
should_enable_candidate_mode-eq-gate lt three_quarters plan rework_count = ground arith
