-- ===== src/Scheduler/Dispatch.antt =====
-- app/issue_scheduler.py, `_dispatch_issue_if_ready`: when an issue reaches the orchestrator.
use dev_bot.Base.{
  ℕ, String, ◌≡◌, ◌⊎◌, ◌<◌, refl, sym, subst, ◌∙◌, inl, inr, true, false, ◌||◌, Option, none, some,
  ltb, ltb→lt, arith, if◌then◌else◌, Bool-cases, Option-cases,
}
use dev_bot.Base.Eq.{string_eq}
use dev_bot.Base.Lists.{All}
use dev_bot.Base.Result.{Result, ok, err, ◌>>=◌, >>=-eq-ok}
use dev_bot.Orchestrator.{State, key, enqueue, is_running, is_queued}
use dev_bot.Scheduler.{
  Gate, Issue, Env, core_planning_artifacts, has_planning_artifacts, project_enabled, complete_gate,
  scheduler_gate_for_issue, passes_gate, find_issue, is_closed, work_item, submit_open, after_gate,
  dispatch_bound, dispatch_issue_if_ready,
}

-- Where a project is set, GitHub answered the expected state and an approved plan.
abbrev pub GateOpen : Env → String → ℕ → String → Type 0
GateOpen env repo_full_name issue_number expected_state =
    (project_enabled env ≡ false)
    ⊎ ((gate : Gate) × (env.get_issue_project_fields repo_full_name issue_number ≡ ok gate)
        × (gate.state ≡ expected_state)
        × (gate.plan ≡ "Approved"))

-- What an issue with a thread needs to be submitted.
abbrev pub IsReady : Env → State → ℕ → String → String → ℕ → String → Issue → Type 0
IsReady env s thread_id issue_key repo_full_name issue_number expected_state issue =
    (is_running s thread_id ≡ false)
    × (is_queued s thread_id ≡ false)
    × (env.is_active (key issue_key) ≡ false)
    × (All (λ name. env.has_artifact thread_id name ≡ true) core_planning_artifacts)
    × GateOpen env repo_full_name issue_number expected_state
    × (find_issue env issue_key thread_id ≡ some issue)
    × (is_closed env issue ≡ false)

complete_gate-eq-some :
    (answer : Result String Gate) (gate : Gate)
    → complete_gate answer ≡ some gate
    → answer ≡ ok gate
complete_gate-eq-some (err e) gate h = absurd (cc h)
complete_gate-eq-some (ok other) gate h = ground (arith, h)

GateOpen-passes_gate :
    (env : Env) (repo_full_name : String) (issue_number : ℕ) (expected_state : String)
    → passes_gate env repo_full_name issue_number expected_state ≡ true
    → GateOpen env repo_full_name issue_number expected_state
unfolding passes_gate scheduler_gate_for_issue
GateOpen-passes_gate env repo_full_name issue_number expected_state h =
    elim (Bool-cases (project_enabled env)) [
      | inr off ↦ inl off
      | inl on ↦
          elim (Option-cases
            (complete_gate (env.get_issue_project_fields repo_full_name issue_number))) [
              | inl absent ↦ absurd (ground (arith, on, absent))
              | inr (gate, found) ↦ inr (
                gate,
                complete_gate-eq-some _ gate found,
                (string_eq.equal_iff _ _).0 (ground (arith, on, found)),
                (string_eq.equal_iff _ _).0 (ground (arith, on, found)),
              )
            ]
    ]

All-has_planning_artifacts :
    (env : Env) (thread_id : ℕ)
    → has_planning_artifacts env thread_id ≡ true
    → All (λ name. env.has_artifact thread_id name ≡ true) core_planning_artifacts
unfolding has_planning_artifacts
All-has_planning_artifacts env thread_id h =
    (ground arith, (ground arith, (ground arith, (ground arith, tt))))

-- The end of a dispatch of an issue with a thread.
abbrev Submitted : Env → State → ℕ → String → String → ℕ → String → State → Type 0
Submitted env s thread_id issue_key repo_full_name issue_number expected_state after =
    (after ≡ s)
    ⊎ (after ≡ after_gate env s)
    ⊎ ((issue : Issue) × IsReady env s thread_id issue_key repo_full_name issue_number
          expected_state issue
        × (after
            ≡ (enqueue (after_gate env s) (work_item thread_id issue_key repo_full_name issue)).0))

module _ (env : Env) (s : State) (repo_full_name issue_key : String) (issue_number : ℕ)
    (expected_state : String) where
  Submitted-submit_open :
      (thread_id : ℕ) (found : Option Issue)
      → find_issue env issue_key thread_id ≡ found
      → is_running s thread_id ≡ false
      → is_queued s thread_id ≡ false
      → env.is_active (key issue_key) ≡ false
      → has_planning_artifacts env thread_id ≡ true
      → passes_gate env repo_full_name issue_number expected_state ≡ true
      → Submitted env s thread_id issue_key repo_full_name issue_number expected_state
          (submit_open env (after_gate env s) thread_id issue_key repo_full_name found)
  Submitted-submit_open thread_id none f r q a p g = inr (inl refl)
  Submitted-submit_open thread_id (some issue) f r q a p g =
      elim (Bool-cases (is_closed env issue)) [
        | inl closed ↦ inr (inl (rw closed refl))
        | inr open_ ↦ inr (
            inr (
              issue,
              (
                r,
                q,
                a,
                All-has_planning_artifacts env thread_id p,
                GateOpen-passes_gate env repo_full_name issue_number expected_state g,
                f,
                open_,
              ),
              rw open_ refl,
            ))
      ]

  Submitted-dispatch_bound :
      (thread_id : ℕ)
      → Submitted env s thread_id issue_key repo_full_name issue_number expected_state
          (dispatch_bound env s thread_id issue_key repo_full_name issue_number expected_state)
  unfolding dispatch_bound
  Submitted-dispatch_bound thread_id =
      elim (Bool-cases (is_running s thread_id || is_queued s thread_id)) [
        | inl busy ↦ inl (rw busy refl)
        | inr idle ↦ elim (Bool-cases (env.is_active (key issue_key))) [
          | inl active ↦ inl (rw (idle, active) refl)
          | inr passive ↦ elim (Bool-cases (has_planning_artifacts env thread_id)) [
            | inr missing ↦ inl (rw (idle, passive, missing) refl)
            | inl planned ↦
                elim (Bool-cases (passes_gate env repo_full_name issue_number expected_state)) [
                  | inr shut ↦ inr (inl (rw (idle, passive, planned, shut) refl))
                  | inl passes ↦
                      subst
                        (Submitted env s thread_id issue_key repo_full_name issue_number
                          expected_state)
                        {x = submit_open env (after_gate env s) thread_id issue_key repo_full_name
                          (find_issue env issue_key thread_id)}
                        (rw (idle, passive, planned, passes) refl)
                        (Submitted-submit_open thread_id (find_issue env issue_key thread_id) refl
                          (ground (arith, idle)) (ground (arith, idle)) passive planned passes)
                ]
          ]
        ]
      ]

  -- A dispatch under a thread that is known or was just bound.
  with_thread :
      (thread_id bound : ℕ) (after : State)
      → (bound ≡ thread_id) ⊎ (env.ensure_issue_thread_binding issue_key ≡ ok bound)
      → ltb 0 bound ≡ true
      → dispatch_bound env s bound issue_key repo_full_name issue_number expected_state ≡ after
      → (after ≡ s)
        ⊎ (after ≡ after_gate env s)
        ⊎ ((bound : ℕ) × ((bound ≡ thread_id)
              ⊎ (env.ensure_issue_thread_binding issue_key ≡ ok bound))
            × (0 < bound)
            × (issue : Issue) × IsReady env s bound issue_key repo_full_name issue_number
                expected_state issue
            × (after
                ≡ (enqueue (after_gate env s) (work_item bound issue_key repo_full_name issue)).0))
  with_thread thread_id bound after origin positive e = elim (Submitted-dispatch_bound bound) [
    | inl same ↦ inl (sym e ∙ same)
    | inr (inl same) ↦ inr (inl (sym e ∙ same))
    | inr (inr (issue, ready, submitted)) ↦
        inr (inr (bound, origin, ltb→lt 0 bound positive, issue, ready, sym e ∙ submitted))
  ]

  -- A dispatch that returns submits nothing, before or after the gate was asked, or it submits one work
  -- item to the orchestrator as it then is: that of an open issue whose thread neither ran nor waited,
  -- whose key had no process, whose four planning artifacts are there, and which, where a project is
  -- set, has the expected state and an approved plan on the board. The thread is the one that is known,
  -- or else the one that the binding answered.
  pub Submitted-dispatch_issue_if_ready :
      (thread_id : ℕ) (after : State)
      → dispatch_issue_if_ready env s thread_id issue_key repo_full_name issue_number expected_state
        ≡ ok after
      → (after ≡ s)
        ⊎ (after ≡ after_gate env s)
        ⊎ ((bound : ℕ) × ((bound ≡ thread_id)
              ⊎ (env.ensure_issue_thread_binding issue_key ≡ ok bound))
            × (0 < bound)
            × (issue : Issue) × IsReady env s bound issue_key repo_full_name issue_number
                expected_state issue
            × (after
                ≡ (enqueue (after_gate env s) (work_item bound issue_key repo_full_name issue)).0))
  unfolding dispatch_issue_if_ready
  Submitted-dispatch_issue_if_ready thread_id after h = elim (Bool-cases (ltb 0 thread_id)) [
    | inl known ↦ with_thread thread_id thread_id after (inl refl) known (ground (arith, h, known))
    | inr unknown ↦
        let rest : (env.ensure_issue_thread_binding issue_key >>= λ bound.
        if ltb 0 bound
        then ok (dispatch_bound env s bound issue_key repo_full_name issue_number expected_state)
        else ok s)
            ≡ ok after =
          sym (rw unknown refl) ∙ h in
        let (bound, answer, e) = >>=-eq-ok (env.ensure_issue_thread_binding issue_key) _ rest in
        elim (Bool-cases (ltb 0 bound)) [
          | inl known ↦
              with_thread thread_id bound after (inr answer) known (ground (arith, e, known))
          | inr none_ ↦ inl (ground (arith, e, none_))
        ]
  ]
