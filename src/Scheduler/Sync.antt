-- ===== src/Scheduler/Sync.antt =====
-- app/issue_scheduler.py, `_resolve_synced_state`: the board's state and the store's.
use dev_bot.Base.{
  String, ◌≡◌, ◌↔◌, ◌⊎◌, ◌≢◌, refl, sym, ◌∙◌, inl, inr, true, false, ltb, arith, Bool-cases, ℕ,
}
use dev_bot.Base.Eq.{string_eq, ◌==◌}
use dev_bot.Base.Text.{or_else, strip}
use dev_bot.Orchestrator.{State, key, thread, is_running, is_queued}
use dev_bot.Scheduler.{Env, IssueMeta, is_busy, resolve_synced_state}

-- The orchestrator, a process of the issue or one of its thread is at work on it.
abbrev pub IsBusy : Env → State → String → ℕ → Type 0
IsBusy env s issue_key thread_id =
    (env.is_active (key issue_key) ≡ true)
    ⊎ (ltb 0 thread_id ≡ true)
      × ((env.is_active (thread thread_id) ≡ true)
          ⊎ (is_running s thread_id ≡ true)
          ⊎ (is_queued s thread_id ≡ true))

is_busy_iff :
    (env : Env) (s : State) (issue_key : String) (thread_id : ℕ)
    → (is_busy env s issue_key thread_id ≡ true) ↔ IsBusy env s issue_key thread_id
unfolding is_busy
is_busy_iff env s issue_key thread_id = ground arith

differs : (a b : String) → (a == b) ≡ false → a ≢ b
differs a b h e = cc (sym h ∙ (string_eq.equal_iff a b).1 e)

-- Either the board says In Progress, the store says Rework, and nothing is at work on the issue: then
-- the Rework is kept. Or one of these does not hold: then the board's state is taken, or the store's
-- where the board has none.
pub resolve_synced_state_cases :
    (env : Env) (s : State) (issue_key project_state : String) (meta : IssueMeta)
    → ((or_else project_state (strip meta.status) ≡ "In Progress")
        × (strip meta.status ≡ "Rework")
        × ¬ IsBusy env s issue_key meta.thread_id
        × (resolve_synced_state env s issue_key project_state meta ≡ "Rework"))
      ⊎ (((or_else project_state (strip meta.status) ≢ "In Progress")
            ⊎ (strip meta.status ≢ "Rework")
            ⊎ IsBusy env s issue_key meta.thread_id)
          × (resolve_synced_state env s issue_key project_state meta
              ≡ or_else project_state (strip meta.status)))
unfolding resolve_synced_state
resolve_synced_state_cases env s issue_key project_state meta =
    let local = strip meta.status in
    let synced = or_else project_state local in
    elim (Bool-cases (synced == "In Progress")) [
      | inr other ↦ inr (inl (differs _ _ other), rw other refl)
      | inl progress ↦ elim (Bool-cases (local == "Rework")) [
        | inr other ↦ inr (inr (inl (differs _ _ other)), rw (progress, other) refl)
        | inl rework ↦ elim (Bool-cases (is_busy env s issue_key meta.thread_id)) [
          | inl busy ↦ inr (
            inr (inr ((is_busy_iff env s issue_key meta.thread_id).0 busy)),
            rw (progress, rework, busy) refl,
          )
          | inr idle ↦ inl (
            (string_eq.equal_iff _ _).0 progress,
            (string_eq.equal_iff _ _).0 rework,
            λ b. cc (sym idle ∙ (is_busy_iff env s issue_key meta.thread_id).1 b),
            rw (progress, rework, idle) ((string_eq.equal_iff _ _).0 rework),
          )
        ]
      ]
    ]
