-- ===== src/Review/Tests.antt =====
-- A review of two findings with a confidence in percent.
use dev_bot.Base.{ℕ, String, ◌≡◌, refl, true, List, [], ◌∷◌, leb}
use dev_bot.Base.Eq.{nat_eq, string_eq}
use dev_bot.Base.Lists.{All}
use dev_bot.Base.Result.{ok}
use dev_bot.Review.{
  ReviewFinding, ReviewBundle, Parts, same_key, is_seen, dedupe_batch, dedupe_from, dedupe,
  is_postable, postable, run,
}
use dev_bot.Review.Dedupe.{NoRepeat, Thinned, flatten, dedupe_lem}

abbrev finding : String → ℕ → String → ReviewFinding ℕ
finding claim confidence status = record {
  severity = "high";
  file = "a.py";
  line_start = 1;
  line_end = 2;
  claim = claim;
  confidence = confidence;
  verifier_status = status;
}

abbrev parts : Parts ℕ Unit
parts = record {
  diff_reviewer = λ c. ok (finding "leak" 90 "unverified" ∷ []);
  history_reviewer = λ c. ok (finding "leak" 50 "unverified" ∷ finding "race" 70 "unverified" ∷ []);
  contract_reviewer = λ c. ok [];
  test_reviewer = λ c. ok [];
  evidence_verifier =
      λ c fs. ok (finding "leak" 90 "confirmed" ∷ finding "race" 70 "confirmed" ∷ []);
  ranker = λ c fs. ok fs;
}

abbrev bundle : ReviewBundle ℕ
bundle = record {
  all_findings = finding "leak" 90 "confirmed" ∷ finding "race" 70 "confirmed" ∷ [];
  postable_findings = finding "leak" 90 "confirmed" ∷ [];
}

abbrev batches : List (List (ReviewFinding ℕ))
batches =
    (finding "leak" 90 "unverified" ∷ [])
    ∷ (finding "leak" 50 "unverified" ∷ finding "race" 70 "unverified" ∷ [])
    ∷ []

keeps_first : dedupe batches ≡ finding "leak" 90 "unverified" ∷ finding "race" 70 "unverified" ∷ []
unfolding dedupe dedupe_from dedupe_batch is_seen same_key
keeps_first = refl

bundle_runs : run (λ a b. leb b a) parts tt 80 ≡ ok bundle
unfolding run dedupe dedupe_from dedupe_batch is_seen same_key postable is_postable
bundle_runs = refl

dedupe_lem_example :
    NoRepeat (dedupe batches)
    × All (λ f. is_seen (dedupe batches) f ≡ true) (flatten batches)
    × Thinned (dedupe batches) (flatten batches)
dedupe_lem_example = dedupe_lem batches
