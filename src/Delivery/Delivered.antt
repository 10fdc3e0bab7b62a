-- ===== src/Delivery/Delivered.antt =====
-- app/pipeline.py: the calls of a run come in order, whichever of them raises.
use dev_bot.Base.{
  ◌≡◌, refl, String, Bool, true, false, not, Option, none, some, List, [], ◌∷◌, arith,
  if◌then◌else◌,
}
use dev_bot.Base.Eq.{string_eq}
use dev_bot.Base.Lists.{Among}
use dev_bot.Base.Result.{Result, ok, err}
use dev_bot.Base.Action.{◌>>=◌, ◌>>◌, raise_if}
use dev_bot.Candidates.Scoring.{CandidateExecutionResult}
use dev_bot.Candidates.Selection.{SelectionPayload, Selected, select_candidate_result}
use dev_bot.Candidates.Selected.{select_candidate_result_sound, successful-All, successful-Among}
use dev_bot.Candidates.Tiebreak.{
  Resolution, TiebreakPayload, resolve_exact_tie_winner, resolve_exact_tie_winner-All,
}
use dev_bot.ProofOfWork.Complete.{all_available}
use dev_bot.Delivery.{
  run_artifacts, no_channel, no_artifacts, run_candidate_ids, inputs_written, tie_resolved,
  resolve_winner, run_proof, finish_run, execute_run, tiebreak_written, workspace_prepared,
  run_started,
}
use dev_bot.Delivery.Effects.{AttemptStatus, Effect, Trace, World, Run, performs, lift}
use dev_bot.Delivery.Told.{All-either, announce-All, tiebreak_written-All}
use dev_bot.Delivery.Ordered.{
  IsFree, IsDeliverable, CreatedBefore, Ordered, Ends, returned, raised, GoesOn-refl, Ends-bind,
  AllFree, Allowed-of_Among,
}
use dev_bot.Delivery.Keeping.{
  Keeping, Ends-then, free, fail_without_winner-Keeping, accept_winner-Keeping,
}
use dev_bot.Delivery.Pushing.{push_if_complete-Ends}

-- A winner that may be delivered.
abbrev IsWinnerOf : World → Option CandidateExecutionResult → Type 0
IsWinnerOf w none = Unit
IsWinnerOf w (some r) = Among r w.candidate_results × (r.success ≡ true)

finish_run-Ends :
    (w : World) (winner : Option CandidateExecutionResult)
    → IsWinnerOf w winner
    → Keeping w (finish_run w winner)
unfolding finish_run
finish_run-Ends w none h = fail_without_winner-Keeping w w.candidate_results
finish_run-Ends w (some r) h = Ends-then w _ _ (accept_winner-Keeping w r) λ _.
    push_if_complete-Ends w r (run_proof w).complete λ proved. record {
      result = r;
      among = h.0;
      succeeded = h.1;
      its_workspace = refl;
      its_branch = refl;
      proved = all_available w.workflow run_artifacts proved;
    }

abbrev WinnerOf : World → Option CandidateExecutionResult → Trace → Type 0
WinnerOf w winner s = IsWinnerOf w winner

either-Ends :
    {A : Type 0} {w : World} {Q : A → Trace → Type 0} (b : Bool) (one other : Run A) (s : Trace)
    → Ends w s Q (one s)
    → Ends w s Q (other s)
    → Ends w s Q ((if b then one else other) s)
either-Ends true one other s h k = h
either-Ends false one other s h k = k

tie_resolved-Ends :
    (w : World) (r : CandidateExecutionResult) (payload : SelectionPayload)
    (artifact : Option TiebreakPayload)
    → IsWinnerOf w (some r)
    → (s : Trace) → Ordered w s
    → Ends w s (WinnerOf w) (tie_resolved w (r, payload, artifact) s)
tie_resolved-Ends w r payload artifact h s o =
    Ends-bind (performs w (tiebreak_written artifact)) _ s
      (free w (tiebreak_written artifact) (tiebreak_written-All IsFree artifact refl refl refl) s o)
      λ _ t p _. returned (GoesOn-refl p.ordered) h

after_tie-Ends :
    (w : World) (resolution : Result String Resolution)
    → ((r : CandidateExecutionResult) (payload : SelectionPayload)
          (artifact : Option TiebreakPayload)
        → resolution ≡ ok (r, payload, artifact)
        → IsWinnerOf w (some r))
    → (s : Trace) → Ordered w s
    → Ends w s (WinnerOf w) ((lift resolution >>= tie_resolved w) s)
after_tie-Ends w (err why) h s o = raised (GoesOn-refl o)
after_tie-Ends w (ok (r, payload, artifact)) h s o =
    tie_resolved-Ends w r payload artifact (h r payload artifact refl) s o

resolve_winner-Ends :
    (w : World) (winner : Option CandidateExecutionResult) (payload : SelectionPayload)
    → IsWinnerOf w winner
    → (s : Trace) → Ordered w s
    → Ends w s (WinnerOf w) (resolve_winner w (winner, payload) s)
unfolding resolve_winner
resolve_winner-Ends w none payload h s o = returned (GoesOn-refl o) tt
resolve_winner-Ends w (some r) payload h s o =
    either-Ends payload.exact_tie_detected _ _ s
      (after_tie-Ends w (resolve_exact_tie_winner w.candidate_results r payload w.judge_answer)
        (λ x p a e. (
          resolve_exact_tie_winner-All (λ c. Among c w.candidate_results) w.candidate_results r
              payload w.judge_answer x p a h.0 (successful-Among w.candidate_results) e,
          resolve_exact_tie_winner-All (λ c. c.success ≡ true) w.candidate_results r payload
              w.judge_answer x p a h.1 (successful-All w.candidate_results) e,
        ))
        s o)
      (returned (GoesOn-refl o) h)

selected-IsWinnerOf :
    (w : World) (winner : Option CandidateExecutionResult) (payload : SelectionPayload)
    → select_candidate_result w.plan_files w.candidate_results ≡ ok (winner, payload)
    → IsWinnerOf w winner
selected-IsWinnerOf w none payload e = tt
selected-IsWinnerOf w (some r) payload e =
    let found = select_candidate_result_sound w.plan_files w.candidate_results r payload e in
    (found.0, found.1)

abbrev AfterSelection : World → Selected → Run (Unit {0})
AfterSelection w selected = do
  winner ← resolve_winner w selected
  performs w (Effect.write_attempt_artifact "winner_selection.json" ∷ [])
  finish_run w winner

after_selection-Ends :
    (w : World) (selected : Result String Selected)
    → select_candidate_result w.plan_files w.candidate_results ≡ selected
    → Keeping w (lift selected >>= AfterSelection w)
after_selection-Ends w (err why) e s o = raised (GoesOn-refl o)
after_selection-Ends w (ok (winner, payload)) e s o =
    Ends-bind (resolve_winner w (winner, payload)) _ s
      (resolve_winner-Ends w winner payload (selected-IsWinnerOf w winner payload e) s o)
      λ won t p h. Ends-then w _ _ (free w _ (refl, tt)) (λ _. finish_run-Ends w won h) t p.ordered

raise_if-Keeping : (w : World) (b : Bool) (why : String) → Keeping w (raise_if b why)
raise_if-Keeping w true why s o = raised (GoesOn-refl o)
raise_if-Keeping w false why s o = returned (GoesOn-refl o) tt

prepared-AllFree : (w : World) → AllFree (workspace_prepared w)
prepared-AllFree w =
    (refl, (refl, (refl, (refl, (refl, All-either IsFree w.bundle_enabled _ [] (refl, tt) tt)))))

inputs-AllFree : (ids : List String) → AllFree (inputs_written ids)
inputs-AllFree ids = ground (arith, announce-All IsFree (λ s. refl) ids)

execute_run-Keeping : (w : World) → Keeping w (execute_run w)
unfolding execute_run
execute_run-Keeping w =
    Ends-then w (raise_if (not w.channel_found) (no_channel w)) _ (raise_if-Keeping w _ _) λ _.
      Ends-then w (raise_if (not w.artifacts_found) no_artifacts) _ (raise_if-Keeping w _ _) λ _.
        Ends-then w (performs w run_started) _ (free w run_started (ground arith)) λ _.
          Ends-then w (performs w (workspace_prepared w)) _
            (free w (workspace_prepared w) (prepared-AllFree w))
            λ _.
              Ends-then w (performs w (inputs_written (run_candidate_ids w))) _
                (free w (inputs_written (run_candidate_ids w))
                  (inputs-AllFree (run_candidate_ids w)))
                λ _.
                  Ends-then w _ _
                    (free w (Effect.execute_candidates (run_candidate_ids w) ∷ []) (refl, tt))
                    λ _.
                      after_selection-Ends w
                        (select_candidate_result w.plan_files w.candidate_results) refl

Ends-Ordered :
    {A : Type 0} {w : World} {s : Trace} {Q : A → Trace → Type 0} {r : Result String A × Trace}
    → Ends w s Q r
    → Ordered w r.1
Ends-Ordered (returned p q) = p.ordered
Ends-Ordered (raised p) = p.ordered

execute_run-Ordered : (w : World) → Ordered w (execute_run w []).1
execute_run-Ordered w = Ends-Ordered (execute_run-Keeping w [] tt)

pub create_pull_request-IsDeliverable :
    (w : World) (head base : String)
    → Among (Effect.create_pull_request head base) (execute_run w []).1
    → (workspace : String) × (bootstrap : String) × IsDeliverable w workspace head
      × Among (Effect.push_branch workspace head bootstrap) (execute_run w []).1
      × Among (Effect.git_commit workspace) (execute_run w []).1
create_pull_request-IsDeliverable w head base m =
    let (s, before, sub) = Allowed-of_Among w _ _ (execute_run-Ordered w) m in
    let pushed = sub _ before.among in
    let (t, allowed, sub') = Allowed-of_Among w _ _ (execute_run-Ordered w) pushed in
    (before.workspace, before.bootstrap, allowed.0, pushed, sub' _ allowed.1)

pub completed-CreatedBefore :
    (w : World) (id : Option String)
    → Among (Effect.write_manifest AttemptStatus.completed id) (execute_run w []).1
    → Among Effect.ready_pull_request (execute_run w []).1 × CreatedBefore (execute_run w []).1
completed-CreatedBefore w id m =
    let (s, ready, sub) = Allowed-of_Among w _ _ (execute_run-Ordered w) m in
    let (t, created, sub') = Allowed-of_Among w _ _ (execute_run-Ordered w) (sub _ ready) in
    (sub _ ready, record { head = created.head; base = created.base; among = sub' _ created.among })
