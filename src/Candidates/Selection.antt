-- ===== src/Candidates/Selection.antt =====
-- app/pipeline.py: which candidate run is selected (`_select_candidate_result`).
use Prim.Native.Nat.{Ordering}
use Prim.Native.String.{compare}
use dev_bot.Base.{
  ℕ, String, Bool, true, false, ◌&&◌, Option, none, some, List, [], ◌∷◌, map, ltb, nat_beq,
  if◌then◌else◌,
}
use dev_bot.Base.Lists.{length}
use dev_bot.Base.Eq.{string_eq, ◌==◌}
use dev_bot.Base.Dict
use dev_bot.Base.Dict.{Dict}
use dev_bot.Base.Join.{concat}
use dev_bot.Base.Result.{Result, ok, ◌>>=◌}
use dev_bot.Base.Sort.{same, sort}
use dev_bot.Candidates.{
  WinnerInput, severity_vector, rank_rest, rank_le, eligible, exact_tie, select_winner,
}
use dev_bot.Candidates.Scoring.{PlanFiles, CandidateExecutionResult, winner_input}

-- `score_inputs`: a later result with the same identifier replaces an earlier one.
unfoldable pub score_inputs :
    PlanFiles → List CandidateExecutionResult → Dict String WinnerInput → Dict String WinnerInput
score_inputs plan [] scores = scores
score_inputs plan (r ∷ rs) scores =
    score_inputs plan rs (Dict.put scores r.candidate_id (winner_input plan r))

abbrev pub values : Dict String WinnerInput → List WinnerInput
values [] = []
values ((k, v) ∷ d) = v ∷ values d

abbrev text_le : String → String → Bool
text_le a b = elim (compare a b) [ Ordering.gt ↦ false | _ ↦ true ]

unfoldable pub tied_with : WinnerInput → Dict String WinnerInput → List String
tied_with winner [] = []
tied_with winner ((k, c) ∷ d) =
    let rest = tied_with winner d in if eligible c && exact_tie c winner then k ∷ rest else rest

abbrev ties : Dict String WinnerInput → Option WinnerInput → List String
ties scores none = []
ties scores (some winner) = if eligible winner then sort text_le (tied_with winner scores) else []

unfoldable pub exact_tie_candidate_ids : Dict String WinnerInput → String → List String
exact_tie_candidate_ids scores id = ties scores (Dict.get scores id)

abbrev dimensions : List String
dimensions =
    "plan_alignment" ∷ "unexpected_file_count" ∷ "missing_artifacts" ∷ "verification_failure_type"
    ∷ "diff_size" ∷ "duration_ms" ∷ []

abbrev won_on : String → String
won_on dimension = concat ("won by lower deterministic rank on " ∷ dimension ∷ [])

abbrev first_difference : List String → List ℕ → List ℕ → String
first_difference (name ∷ names) (x ∷ xs) (y ∷ ys) =
    let rest = first_difference names xs ys in if nat_beq x y then rest else won_on name
first_difference _ _ _ = "requires exact tie-break judge after identical deterministic rank"

abbrev reason_against : WinnerInput → List WinnerInput → String
reason_against winner [] = "only one eligible candidate remained after deterministic gating"
reason_against winner (runner ∷ _) =
    if same (severity_vector winner.review) (severity_vector runner.review)
    then first_difference dimensions (rank_rest winner) (rank_rest runner)
    else won_on "review_severity"

unfoldable pub competitors : String → Dict String WinnerInput → List WinnerInput
competitors id [] = []
competitors id ((k, c) ∷ d) = let rest = competitors id d in if k == id then rest else c ∷ rest

unfoldable pub winner_reason : WinnerInput → Dict String WinnerInput → String
winner_reason winner scores =
    reason_against winner (sort rank_le (competitors winner.candidate_id scores))

-- The selection's payload; the metrics of `candidates` are those of `winner_input`, by identifier.
pub record SelectionPayload : Type 0 where
  pub winner_candidate_id : String
  pub successful_candidates : List String
  pub selection_basis : String
  pub winner_reason : String
  pub exact_tie_detected : Bool
  pub tied_candidate_ids : List String
  pub winner_tiebreak_artifact : String
  pub candidates : List WinnerInput

unfoldable pub successful : List CandidateExecutionResult → List CandidateExecutionResult
successful [] = []
successful (r ∷ rs) = let rest = successful rs in if r.success then r ∷ rest else rest

abbrev pub ids : List CandidateExecutionResult → List String
ids = map (λ r. r.candidate_id)

unfoldable pub find_result :
    CandidateExecutionResult → List CandidateExecutionResult → String → CandidateExecutionResult
find_result first [] id = first
find_result first (r ∷ rs) id =
    let rest = find_result first rs id in if r.candidate_id == id then r else rest

abbrev reason_of : Option WinnerInput → Dict String WinnerInput → String
reason_of none scores = ""
reason_of (some w) scores = winner_reason w scores

abbrev pub Selected : Type 0
Selected = Option CandidateExecutionResult × SelectionPayload

-- `successful` split by its length: none, one, or more. `winner_id` is always a key of the scores.
unfoldable pub select_among : PlanFiles → List CandidateExecutionResult → Result String Selected
select_among plan [] = ok (
  none,
  record {
    winner_candidate_id = "";
    successful_candidates = [];
    selection_basis = "deterministic_rank";
    winner_reason = "no eligible candidate completed successfully";
    exact_tie_detected = false;
    tied_candidate_ids = [];
    winner_tiebreak_artifact = "";
    candidates = [];
  },
)
select_among plan (r ∷ []) = ok (
  some r,
  record {
    winner_candidate_id = r.candidate_id;
    successful_candidates = r.candidate_id ∷ [];
    selection_basis = "deterministic_rank";
    winner_reason = "only one candidate completed successfully";
    exact_tie_detected = false;
    tied_candidate_ids = [];
    winner_tiebreak_artifact = "";
    candidates = winner_input plan r ∷ [];
  },
)
select_among plan (r ∷ r' ∷ rs) =
    let all = r ∷ r' ∷ rs in
    let scores = score_inputs plan all [] in
    select_winner (values scores) >>= λ id.
    let tied = exact_tie_candidate_ids scores id in
    ok (
      some (find_result r all id),
      record {
        winner_candidate_id = id;
        successful_candidates = ids all;
        selection_basis = "deterministic_rank";
        winner_reason = reason_of (Dict.get scores id) scores;
        exact_tie_detected = ltb 1 (length tied);
        tied_candidate_ids = tied;
        winner_tiebreak_artifact = "";
        candidates = map (winner_input plan) all;
      },
    )

unfoldable pub select_candidate_result :
    PlanFiles → List CandidateExecutionResult → Result String Selected
select_candidate_result plan results = select_among plan (successful results)
