-- ===== src/Delivery/Pushing.antt =====
-- app/pipeline.py: the push and the pull request of a winner come in order.
use dev_bot.Base.{◌≡◌, refl, Bool, true, false, List, [], ◌∷◌, arith, if◌then◌else◌}
use dev_bot.Base.Eq.{string_eq}
use dev_bot.Base.Lists.{Among}
use dev_bot.Base.Action.{◌>>◌}
use dev_bot.Candidates.Scoring.{CandidateExecutionResult}
use dev_bot.Delivery.{
  push_changes, commit_and_push, deliver, fail_without_proof, fail_without_changes,
  deliver_if_pushed, push_if_complete, pull_request_recorded, run_completed, completion_told,
  bootstrap_branch,
}
use dev_bot.Delivery.Effects.{RunWorkspace, Effect, Trace, World, performs, caught}
use dev_bot.Delivery.Told.{All-either}
use dev_bot.Delivery.Ordered.{
  IsFree, IsDeliverable, PushedBefore, CreatedBefore, Ordered, Ends, returned, NothingMore,
  GoesOn-refl, Ends-bind, Ends-performs, Ends-caught, AllAllowed-of_free,
}
use dev_bot.Delivery.Keeping.{
  Keeping, Ends-then, free, finalize_incident_bundle-Keeping, finalize_failure-Keeping,
}

-- What is pushed: with `true` the push is in the trace.
abbrev pub Pushed : RunWorkspace → Bool → Trace → Type 0
Pushed ws true s = PushedBefore ws.branch_name s
Pushed ws false s = Unit

module _ (w : World) (r : CandidateExecutionResult) where
  abbrev pub ws : RunWorkspace
  ws = w.workspace_of r

  push_changes-Ends :
      (changes : Bool) (s : Trace)
      → IsDeliverable w ws.workspace ws.branch_name
      → Ordered w s
      → Ends w s (Pushed ws) (push_changes w ws changes s)
  unfolding push_changes
  push_changes-Ends false s d h = returned (GoesOn-refl h) tt
  push_changes-Ends true s d h =
      Ends-bind (performs w committed) _ s
        (Ends-performs w committed s h (
          AllAllowed-of_free w committed s
            (refl, (refl, (refl, All-either IsFree w.has_local_main _ [] (refl, tt) tt)))))
        λ _ t p made.
          Ends-bind (performs w pushing) _ t
            (Ends-performs w pushing t p.ordered
              ((λ u q. (d, q.keeps (Effect.git_commit ws.workspace) made.1.0)), tt))
            λ _ u q there.
              returned (GoesOn-refl q.ordered) (record {
                workspace = ws.workspace;
                bootstrap = bootstrap_branch w;
                among = there.0;
              })
    where
      committed : List Effect
      committed =
          Effect.git_add ws.workspace
          ∷ Effect.git_commit ws.workspace
          ∷ Effect.git_verify_main ws.workspace
          ∷ (if w.has_local_main then Effect.git_ls_remote ws.workspace ∷ [] else [])

      pushing : List Effect
      pushing = Effect.push_branch ws.workspace ws.branch_name (bootstrap_branch w) ∷ []

  commit_and_push-Ends :
      (s : Trace)
      → IsDeliverable w ws.workspace ws.branch_name
      → Ordered w s
      → Ends w s (Pushed ws) (commit_and_push w ws s)
  unfolding commit_and_push
  commit_and_push-Ends s d h =
      Ends-bind (performs w (Effect.git_status ws.workspace ∷ [])) _ s
        (free w (Effect.git_status ws.workspace ∷ []) (refl, tt) s h)
        λ _ t p _. push_changes-Ends w.has_changes t d p.ordered

  completed-Ends :
      (s : Trace)
      → Among Effect.ready_pull_request s
      → Ordered w s
      → Ends w s NothingMore (
          (do
            performs w pull_request_recorded
            performs w (run_completed w r)
            performs w (completion_told w))
            s)
  completed-Ends s ready h =
      Ends-bind (performs w pull_request_recorded) _ s
        (free w pull_request_recorded (ground arith) s h)
        λ _ t p _.
          Ends-bind (performs w (run_completed w r)) _ t
            (Ends-performs w (run_completed w r) t p.ordered
              ((λ u q. q.keeps _ (p.keeps _ ready)), ((λ u q. q.keeps _ (p.keeps _ ready)), tt)))
            λ _ u q _. free w (completion_told w) (ground arith) u q.ordered

  ready-Ends :
      (s : Trace)
      → CreatedBefore s
      → Ordered w s
      → Ends w s NothingMore (
          (do
            caught (performs w (Effect.get_pull_request_status ∷ []))
            performs w (Effect.ready_pull_request ∷ [])
            performs w (if w.posts_inline then Effect.post_inline ∷ [] else [])
            performs w pull_request_recorded
            performs w (run_completed w r)
            performs w (completion_told w))
            s)
  ready-Ends s created h =
      Ends-bind (caught (performs w (Effect.get_pull_request_status ∷ []))) _ s
        (Ends-caught _ s (free w (Effect.get_pull_request_status ∷ []) (refl, tt) s h))
        λ _ u q _.
          Ends-bind (performs w (Effect.ready_pull_request ∷ [])) _ u
            (Ends-performs w (Effect.ready_pull_request ∷ []) u q.ordered (
              (λ v x. record {
                head = created.head;
                base = created.base;
                among = x.keeps _ (q.keeps _ created.among);
              }),
              tt,
            ))
            λ _ v x ready.
              Ends-bind (performs w (if w.posts_inline then Effect.post_inline ∷ [] else [])) _ v
                (free w (if w.posts_inline then Effect.post_inline ∷ [] else [])
                  (All-either IsFree w.posts_inline (Effect.post_inline ∷ []) [] (refl, tt) tt) v
                  x.ordered)
                λ _ z y _. completed-Ends z (y.keeps _ ready.0) y.ordered

  deliver-Ends :
      (s : Trace)
      → PushedBefore ws.branch_name s
      → Ordered w s
      → Ends w s NothingMore (deliver w r s)
  unfolding deliver
  deliver-Ends s pushed h =
      Ends-bind (performs w (Effect.create_pull_request ws.branch_name ws.base_branch ∷ [])) _ s
        (Ends-performs w (Effect.create_pull_request ws.branch_name ws.base_branch ∷ []) s h (
          (λ t p. record {
            workspace = pushed.workspace;
            bootstrap = pushed.bootstrap;
            among = p.keeps _ pushed.among;
          }),
          tt,
        ))
        λ _ t p made.
          ready-Ends t (record { head = ws.branch_name; base = ws.base_branch; among = made.0 })
            p.ordered

  fail_without_changes-Keeping : Keeping w (fail_without_changes w r)
  unfolding fail_without_changes
  fail_without_changes-Keeping = Ends-then w _ _ (finalize_incident_bundle-Keeping w) λ _.
      Ends-then w _ _ (free w _ (refl, tt))
        λ _. Ends-then w _ _ (finalize_failure-Keeping w _ _ _) λ _. free w _ (refl, tt)

  fail_without_proof-Keeping : Keeping w (fail_without_proof w r)
  unfolding fail_without_proof
  fail_without_proof-Keeping =
      Ends-then w _ _ (free w _ (refl, tt))
        λ _. Ends-then w _ _ (finalize_failure-Keeping w _ _ _) λ _. free w _ (refl, tt)

  deliver_if_pushed-Ends :
      (pushed : Bool) (s : Trace)
      → Pushed ws pushed s
      → Ordered w s
      → Ends w s NothingMore (deliver_if_pushed w r pushed s)
  deliver_if_pushed-Ends true s p h = deliver-Ends s p h
  deliver_if_pushed-Ends false s p h = fail_without_changes-Keeping s h

  pub push_if_complete-Ends :
      (complete : Bool)
      → (complete ≡ true → IsDeliverable w ws.workspace ws.branch_name)
      → Keeping w (push_if_complete w r complete)
  push_if_complete-Ends false d s h = fail_without_proof-Keeping s h
  push_if_complete-Ends true d s h =
      Ends-bind (commit_and_push w ws) _ s (commit_and_push-Ends s (d refl) h)
        λ pushed t p made. deliver_if_pushed-Ends pushed t made p.ordered
