-- ===== src/Candidates/Tiebreak.antt =====
-- app/pipeline.py: an exact tie is put to a judge (`_resolve_exact_tie_winner`). The judge answers
-- through a language model; its answer, or the exception it raises, is an argument.
use dev_bot.Base.{
  String, ◌≡◌, refl, sym, subst, Bool, true, false, Option, none, some, List, [], ◌∷◌, arith, inl,
  inr, Bool-cases, Option-cases, ltb, if◌then◌else◌,
}
use dev_bot.Base.Lists.{length, All}
use dev_bot.Base.Eq.{string_eq}
use dev_bot.Base.Dict
use dev_bot.Base.Dict.{Dict, get-put, Entries, Entries-put, Entries-get}
use dev_bot.Base.Join.{concat}
use dev_bot.Base.Result.{Result, ok, err}
use dev_bot.Base.Text.{or_else, strip}
use dev_bot.Candidates.Scoring.{CandidateExecutionResult}
use dev_bot.Base.Items.{stripped}
use dev_bot.Candidates.Selection.{SelectionPayload, successful}
use dev_bot.Candidates.Selected.{successful-All}

-- The explanation is a list: a value that cannot be iterated raises in the source after the winner is
-- set, and is not modelled.
pub record JudgeResult : Type 0 where
  pub winner_candidate_id : String
  pub summary : String
  pub explanation : List String

pub record TiebreakPayload : Type 0 where
  pub provider_status : String
  pub selection_basis : String
  pub tied_candidate_ids : List String
  pub fallback_winner_candidate_id : String
  pub winner_candidate_id : String
  pub judge_summary : String
  pub explanation : List String
  pub error : String

abbrev Results : Type 0
Results = Dict String CandidateExecutionResult

-- {result.candidate_id: result for result in …}
unfoldable pub by_id : List CandidateExecutionResult → Results → Results
by_id [] d = d
by_id (r ∷ rs) d = by_id rs (Dict.put d r.candidate_id r)

abbrev with_found :
    Option CandidateExecutionResult → List CandidateExecutionResult → List CandidateExecutionResult
with_found none rs = rs
with_found (some r) rs = r ∷ rs

unfoldable pub look_up : List String → Results → List CandidateExecutionResult
look_up [] d = []
look_up (id ∷ ids) d = with_found (Dict.get d id) (look_up ids d)

abbrev pub in_dict : Option CandidateExecutionResult → Bool
in_dict none = false
in_dict (some r) = true

abbrev start_payload : List String → String → TiebreakPayload
start_payload tied fallback = record {
  provider_status = "success";
  selection_basis = "exact_tie_claude_judge";
  tied_candidate_ids = tied;
  fallback_winner_candidate_id = fallback;
  winner_candidate_id = fallback;
  judge_summary = "exact tie resolved by deterministic fallback ordering";
  explanation = [];
  error = "";
}

-- The identifier that the judgement comes to, and the artifact that is written.
unfoldable pub judged :
    List String → Results → String → Result String JudgeResult → String × TiebreakPayload
judged tied known fallback (ok answer) =
    let id = strip answer.winner_candidate_id in
    if in_dict (Dict.get known id)
    then (
      id,
      record (start_payload tied fallback) {
        winner_candidate_id = id;
        judge_summary = strip answer.summary;
        explanation = stripped answer.explanation;
      },
    )
    else (
      fallback,
      record (start_payload tied fallback) {
        provider_status = "fallback";
        selection_basis = "exact_tie_deterministic_fallback";
        judge_summary =
            "judge returned an invalid winner_candidate_id; used deterministic fallback ordering";
        explanation = concat ("invalid winner_candidate_id: " ∷ or_else id "<empty>" ∷ []) ∷ [];
      },
    )
judged tied known fallback (err message) = (
  fallback,
  record (start_payload tied fallback) {
    provider_status = "failed";
    selection_basis = "exact_tie_deterministic_fallback";
    judge_summary = "judge failed; used deterministic fallback ordering";
    error = message;
  },
)

abbrev pub Resolution : Type 0
Resolution = CandidateExecutionResult × SelectionPayload × Option TiebreakPayload

-- `tied_result_by_id[…]`, where a missing key is a KeyError.
abbrev resolved :
    Option CandidateExecutionResult
    → String × TiebreakPayload
    → SelectionPayload
    → Result String Resolution
resolved none (id, artifact) payload = err "KeyError"
resolved (some r) (id, artifact) payload = ok (
  r,
  record payload {
    winner_candidate_id = id;
    selection_basis = artifact.selection_basis;
    winner_reason = artifact.judge_summary;
    winner_tiebreak_artifact = "winner_tiebreak_judge.json";
  },
  some artifact,
)

abbrev pub tied_results :
    List CandidateExecutionResult → SelectionPayload → List CandidateExecutionResult
tied_results results payload =
    look_up (stripped payload.tied_candidate_ids) (by_id (successful results) [])

unfoldable pub resolve_exact_tie_winner :
    List CandidateExecutionResult
    → CandidateExecutionResult
    → SelectionPayload
    → Result String JudgeResult
    → Result String Resolution
resolve_exact_tie_winner results winner payload answer =
    let tied = stripped payload.tied_candidate_ids in
    let found = tied_results results payload in
    if ltb (length tied) 2
    then ok (winner, payload, none)
    else if ltb (length found) 2
    then ok (winner, payload, none)
    else let known = by_id found [] in
      let verdict = judged tied known winner.candidate_id answer in
      resolved (Dict.get known verdict.0) verdict payload

-- Each entry of a dictionary by identifiers is a result with this identifier, and has what all the
-- results have.
module _ (P : CandidateExecutionResult → Type 0) where
  by_id-Entries :
      (rs : List CandidateExecutionResult) (d : Results)
      → Entries (λ k r. P r × (r.candidate_id ≡ k)) d
      → All P rs
      → Entries (λ k r. P r × (r.candidate_id ≡ k)) (by_id rs d)
  unfolding by_id
  by_id-Entries [] d h ps = h
  by_id-Entries (r ∷ rs) d h ps =
      by_id-Entries rs (Dict.put d r.candidate_id r)
        (Entries-put (λ k r. P r × (r.candidate_id ≡ k)) d r.candidate_id r h (ps.0, refl)) ps.1

  look_up-All :
      (ids : List String) (d : Results)
      → Entries (λ k r. P r × (r.candidate_id ≡ k)) d
      → All P (look_up ids d)
  unfolding look_up
  look_up-All [] d h = tt
  look_up-All (id ∷ ids) d h = elim (Option-cases (Dict.get d id)) [
    | inl missing ↦ rw missing (look_up-All ids d h)
    | inr (r, found) ↦
        rw found
          ((Entries-get (λ k r. P r × (r.candidate_id ≡ k)) d id r h found).0, look_up-All ids d h)
  ]

-- The identifier that the judgement comes to is a known one or the fallback.
judged-known :
    (tied : List String) (known : Results) (fallback : String) (answer : Result String JudgeResult)
    → in_dict (Dict.get known fallback) ≡ true
    → in_dict (Dict.get known (judged tied known fallback answer).0) ≡ true
unfolding judged
judged-known tied known fallback (ok answer) h = ground (arith, h)
judged-known tied known fallback (err message) h = h

in_dict-eq-true :
    (o : Option CandidateExecutionResult)
    → in_dict o ≡ true
    → (r : CandidateExecutionResult) × (o ≡ some r)
in_dict-eq-true none h = absurd (cc h)
in_dict-eq-true (some r) h = (r, refl)

tied_results-All :
    (results : List CandidateExecutionResult) (payload : SelectionPayload)
    → All (λ r. r.success ≡ true) (tied_results results payload)
tied_results-All results payload =
    look_up-All (λ r. r.success ≡ true) (stripped payload.tied_candidate_ids)
      (by_id (successful results) [])
      (by_id-Entries (λ r. r.success ≡ true) (successful results) [] tt (successful-All results))

resolved-eq-ok :
    (o : Option CandidateExecutionResult) (verdict : String × TiebreakPayload)
    (payload : SelectionPayload) (r : CandidateExecutionResult) (p : SelectionPayload)
    (artifact : Option TiebreakPayload)
    → resolved o verdict payload ≡ ok (r, p, artifact)
    → o ≡ some r
resolved-eq-ok none (id, a) payload r p artifact h = absurd (cc h)
resolved-eq-ok (some x) (id, a) payload r p artifact h = ground (arith, h)

-- The winner of a resolved tie has what the given winner and all the successful results have.
pub resolve_exact_tie_winner-All :
    (P : CandidateExecutionResult → Type 0) (results : List CandidateExecutionResult)
    (winner : CandidateExecutionResult) (payload : SelectionPayload)
    (answer : Result String JudgeResult) (r : CandidateExecutionResult) (p : SelectionPayload)
    (artifact : Option TiebreakPayload)
    → P winner
    → All P (successful results)
    → resolve_exact_tie_winner results winner payload answer ≡ ok (r, p, artifact)
    → P r
unfolding resolve_exact_tie_winner
resolve_exact_tie_winner-All P results winner payload answer r p artifact h hs e =
    let found = tied_results results payload in
    let tied = stripped payload.tied_candidate_ids in
    let verdict = judged tied (by_id found []) winner.candidate_id answer in
    let known =
      look_up-All P tied (by_id (successful results) [])
        (by_id-Entries P (successful results) [] tt hs) in
    elim (Bool-cases (ltb (length tied) 2)) [
      | inl few ↦ let same : winner ≡ r = ground (arith, e, few) in subst P same h
      | inr more ↦ elim (Bool-cases (ltb (length found) 2)) [
        | inl few ↦ let same : winner ≡ r = ground (arith, e, few, more) in subst P same h
        | inr many ↦
            let made = rw (more, many) at e in
            let entry =
              Entries-get (λ k x. P x × (x.candidate_id ≡ k)) (by_id found []) verdict.0 r
                (by_id-Entries P found [] tt known)
                (resolved-eq-ok (Dict.get (by_id found []) verdict.0) verdict payload r p artifact
                  made) in
            entry.0
      ]
    ]

-- Where the selected winner succeeded, is named by the payload and is one of the tied results, the
-- tie is resolved whatever the judge answers, and also where it raises: no KeyError is met, and the
-- resolved winner succeeded and is the one that the new payload names.
pub resolve_exact_tie_winner_total :
    (results : List CandidateExecutionResult) (winner : CandidateExecutionResult)
    (payload : SelectionPayload) (answer : Result String JudgeResult)
    → winner.success ≡ true
    → payload.winner_candidate_id ≡ winner.candidate_id
    → in_dict (Dict.get (by_id (tied_results results payload) []) winner.candidate_id) ≡ true
    → (r : CandidateExecutionResult) × (p : SelectionPayload) × (artifact : Option TiebreakPayload)
      × (resolve_exact_tie_winner results winner payload answer ≡ ok (r, p, artifact))
      × (r.success ≡ true)
      × (p.winner_candidate_id ≡ r.candidate_id)
unfolding resolve_exact_tie_winner
resolve_exact_tie_winner_total results winner payload answer s n k =
    elim (Bool-cases (ltb (length (stripped payload.tied_candidate_ids)) 2)) [
      | inl few ↦ (winner, payload, none, rw few refl, s, n)
      | inr more ↦ elim (Bool-cases (ltb (length (tied_results results payload)) 2)) [
        | inl few ↦ (winner, payload, none, rw (more, few) refl, s, n)
        | inr many ↦
            let known = by_id (tied_results results payload) [] in
            let tied = stripped payload.tied_candidate_ids in
            let verdict = judged tied known winner.candidate_id answer in
            let (r, found) =
              in_dict-eq-true _ (judged-known tied known winner.candidate_id answer k) in
            let entries =
              by_id-Entries (λ r. r.success ≡ true) (tied_results results payload) [] tt
                (tied_results-All results payload) in
            let entry =
              Entries-get (λ k r. (r.success ≡ true) × (r.candidate_id ≡ k)) known verdict.0 r
                entries found in
            (
              r,
              record payload {
                winner_candidate_id = verdict.0;
                selection_basis = verdict.1.selection_basis;
                winner_reason = verdict.1.judge_summary;
                winner_tiebreak_artifact = "winner_tiebreak_judge.json";
              },
              some verdict.1,
              rw (more, many, found) refl,
              entry.0,
              sym entry.1,
            )
      ]
    ]
