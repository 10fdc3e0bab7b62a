-- ===== src/Candidates/Tests.antt =====
-- The policy and the selection on concrete candidates.
use dev_bot.Base.{ℕ, String, ◌≡◌, refl, true, false, Option, none, some, List, [], ◌∷◌, ltb}
use dev_bot.Base.Dict
use dev_bot.Base.Result.{Result, ok, err}
use dev_bot.Base.Eq.{string_eq}
use dev_bot.Base.Sets.{contains}
use dev_bot.Base.Sort.{same, lex_le, sort}
use dev_bot.Base.Text.{strip}
use dev_bot.Planning.{PlanV2}
use dev_bot.Planning.Gate.{gate_enables_candidates}
use dev_bot.Base.Items.{stripped}
use dev_bot.Candidates.{
  WinnerInput, candidate_rank_tuple, exact_tie, rank_le, keep_eligible, eligible, select_winner,
  should_enable_candidate_mode,
}
use dev_bot.Candidates.Scoring.{
  PlanFiles, CandidateExecutionResult, winner_input, has_severity, has_failed_hard_checks,
  expected_plan_files, unexpected, count_severity,
}
use dev_bot.Candidates.Selection.{
  SelectionPayload, select_among, select_candidate_result, exact_tie_candidate_ids, tied_with,
  successful, score_inputs, find_result, winner_reason, competitors,
}
use dev_bot.Candidates.Winner.{
  IsWinner, select_winner-IsWinner, should_enable_candidate_mode-eq-gate,
}
use dev_bot.Candidates.Selected.{with_findings, critical_ignored}
use dev_bot.Candidates.Tiebreak.{
  JudgeResult, TiebreakPayload, by_id, tied_results, in_dict, resolve_exact_tie_winner,
  resolve_exact_tie_winner_total,
}

abbrev plan_files : PlanFiles
plan_files = record { candidate_files = "app/a.py" ∷ []; task_files = [] }

abbrev result : String → List String → ℕ → CandidateExecutionResult
result id findings duration = record {
  candidate_id = id;
  changed_files = "app/a.py" ∷ [];
  scope_analysis = record {
    unexpected_file_count = none;
    must_not_touch_violations = [];
    protected_config_violations = [];
  };
  command_results = record { category = some "hard"; status = some "pass" } ∷ [];
  review = record {
    postable_findings = findings;
    findings = [];
    unnecessary_changes = [];
    protected_path_touches = [];
  };
  proof_complete = true;
  missing_artifacts = [];
  success = true;
  failure_type = "";
  duration_ms = duration;
}

abbrev primary : CandidateExecutionResult
primary = result "primary" ("high" ∷ []) 5

abbrev alt1 : CandidateExecutionResult
alt1 = result "alt1" ("low" ∷ []) 9

abbrev inputs : List WinnerInput
inputs = winner_input plan_files primary ∷ winner_input plan_files alt1 ∷ []

low_beats_high : select_winner inputs ≡ ok "alt1"
unfolding select_winner eligible rank_le lex_le sort candidate_rank_tuple winner_input stripped
    strip expected_plan_files unexpected contains count_severity has_failed_hard_checks same
low_beats_high = refl

select_winner-IsWinner_example : (w : WinnerInput) × IsWinner w inputs × (w.candidate_id ≡ "alt1")
select_winner-IsWinner_example = select_winner-IsWinner inputs "alt1" low_beats_high

abbrev plan : PlanV2 ℕ
plan = record {
  goal = "g";
  acceptance_criteria = "works" ∷ [];
  out_of_scope = some [];
  version = 2;
  constraints = [];
  candidate_files = "app/a.py" ∷ [];
  must_not_touch = [];
  verification_focus = [];
  exploration_required = false;
  tasks = [];
  design_branches = [];
  risks = [];
  test_mapping = [];
  verification_profile = "python-basic";
  planner_confidence = 60;
}

should_enable_candidate_mode-eq-gate_example :
    should_enable_candidate_mode ltb plan 0 (record {
      rework_count_gte = 1;
      planner_confidence_lt = 75;
      require_clear_design_branches = true;
    })
    ≡ gate_enables_candidates ltb 75 plan 0
should_enable_candidate_mode-eq-gate_example = should_enable_candidate_mode-eq-gate ltb 75 plan 0

critical_ignored_example :
    candidate_rank_tuple
      (winner_input plan_files (with_findings primary ("Critical" ∷ "high" ∷ [])))
    ≡ candidate_rank_tuple (winner_input plan_files (with_findings primary ("high" ∷ [])))
unfolding has_severity same
critical_ignored_example = critical_ignored plan_files primary "Critical" "high" [] refl

abbrev payload : SelectionPayload
payload = record {
  winner_candidate_id = "alt1";
  successful_candidates = "primary" ∷ "alt1" ∷ [];
  selection_basis = "deterministic_rank";
  winner_reason = "won by lower deterministic rank on review_severity";
  exact_tie_detected = false;
  tied_candidate_ids = "alt1" ∷ [];
  winner_tiebreak_artifact = "";
  candidates = inputs;
}

selected : select_candidate_result plan_files (primary ∷ alt1 ∷ []) ≡ ok (some alt1, payload)
unfolding select_candidate_result select_among successful score_inputs Dict.put Dict.get find_result
    exact_tie_candidate_ids tied_with exact_tie winner_reason competitors select_winner eligible
    rank_le lex_le sort candidate_rank_tuple winner_input stripped strip expected_plan_files
    unexpected contains count_severity has_failed_hard_checks same
selected = refl

abbrev tied_payload : SelectionPayload
tied_payload = record payload { tied_candidate_ids = "alt1" ∷ "primary" ∷ [] }

abbrev answer : Result String JudgeResult
answer = err "timeout"

resolve_exact_tie_winner_total_example :
    (r : CandidateExecutionResult) × (p : SelectionPayload) × (artifact : Option TiebreakPayload)
    × (resolve_exact_tie_winner (primary ∷ alt1 ∷ []) alt1 tied_payload answer
        ≡ ok (r, p, artifact))
    × (r.success ≡ true)
    × (p.winner_candidate_id ≡ r.candidate_id)
unfolding by_id dev_bot.Candidates.Tiebreak.look_up stripped strip successful Dict.put Dict.get
resolve_exact_tie_winner_total_example =
    resolve_exact_tie_winner_total (primary ∷ alt1 ∷ []) alt1 tied_payload answer refl refl refl
