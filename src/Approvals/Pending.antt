-- ===== src/Approvals/Pending.antt =====
-- app/approvals.py: which futures `_pending` knows, over any sequence of operations.
use dev_bot.Base.{
  ℕ, ◌≤◌, ◌<◌, String, ◌≡◌, ◌≢◌, ◌⊎◌, refl, sym, ap, inl, inr, Bool, Option, none, some, arith,
  Bool-cases, nat_beq, nat_beq_iff,
}
use dev_bot.Base.Eq.{nat_eq, string_eq, ◌==◌}
use dev_bot.Base.Lists.{length, Among}
use dev_bot.Base.Dict
use dev_bot.Base.Dict.{Dict}
use dev_bot.Approvals.{
  Payload, Coordinator, initial, unanswered, cancelled, answered, future, create_future,
  create_request, is_some, register_restored_request, expire, is_unanswered, answer_future, resolve,
}
use dev_bot.Approvals.Futures.{length-add_last, length-end_future}
use dev_bot.Approvals.Steps.{
  Step, requested, restored, timed_out, resolved, Steps, stay, then_, told, thread_of, answer,
}
use dev_bot.Approvals.Answers.{Step-answered}

-- What an entry of `_pending` is after an operation on the thread `thread_id`: an old one, or that of the
-- thread, for a future just created.
abbrev pub OldOrNew : Coordinator → Coordinator → ℕ → ℕ → ℕ → Type 0
OldOrNew s t thread_id k n =
    (Dict.get s.pending k ≡ some n)
    ⊎ ((n ≡ length s.futures) × (length s.futures < length t.futures) × (thread_id ≡ k))

create_future-entries :
    (s : Coordinator) (thread_id k n : ℕ)
    → Dict.get (create_future thread_id s).pending k ≡ some n
    → OldOrNew s (create_future thread_id s) thread_id k n
unfolding create_future
create_future-entries s thread_id k n h = elim (Bool-cases (nat_beq thread_id k)) [
  | inl same ↦ inr (
    ground (arith, h, Dict.get-put s.pending thread_id k (length s.futures), same),
    omega (arith, length-add_last s.futures unanswered),
    (nat_beq_iff thread_id k).0 same,
  )
  | inr other ↦
      inl (ground (arith, h, Dict.get-put s.pending thread_id k (length s.futures), other))
]

removed-entries :
    (d : Dict ℕ ℕ) (thread_id k n : ℕ)
    → Dict.get (Dict.remove d thread_id) k ≡ some n
    → Dict.get d k ≡ some n
removed-entries d thread_id k n h = ground (arith, h, Dict.get-remove d thread_id k)

answer_future-entries :
    (s : Coordinator) (thread_id k n : ℕ) (approved : Bool) (o : Option ℕ)
    → Dict.get (answer_future thread_id approved o s).0.pending k ≡ some n
    → Dict.get s.pending k ≡ some n
answer_future-entries s thread_id k n approved none = λ h. h
answer_future-entries s thread_id k n approved (some m) =
    elim (Bool-cases (is_unanswered (future s.futures m))) [
      | inl open_ ↦ rw open_ (removed-entries s.pending thread_id k n)
      | inr shut ↦ rw shut (removed-entries s.pending thread_id k n)
    ]

pub Step-entries :
    {s t : Coordinator} (step : Step s t) (k n : ℕ)
    → Dict.get t.pending k ≡ some n
    → OldOrNew s t (thread_of step) k n
unfolding create_request register_restored_request expire resolve
Step-entries (requested s thread_id run_id tool_name input_text reason now) k n =
    create_future-entries _ thread_id k n
Step-entries (restored s thread_id) k n =
    elim (Bool-cases (is_some (Dict.get s.pending thread_id))) [
      | inl old ↦ rw old (λ h. inl h)
      | inr fresh ↦ rw fresh (create_future-entries s thread_id k n)
    ]
Step-entries (timed_out s thread_id m now) k n =
    λ h. inl (removed-entries s.pending thread_id k n h)
Step-entries (resolved s thread_id approved actor now) k n =
    λ h. inl (answer_future-entries _ thread_id k n approved (Dict.get s.pending thread_id) h)

answer_future-length :
    (s : Coordinator) (thread_id : ℕ) (approved : Bool) (o : Option ℕ)
    → length (answer_future thread_id approved o s).0.futures ≡ length s.futures
answer_future-length s thread_id approved none = refl
answer_future-length s thread_id approved (some m) =
    elim (Bool-cases (is_unanswered (future s.futures m))) [
      | inl open_ ↦ rw open_ (length-end_future s.futures m (answered approved))
      | inr shut ↦ rw shut refl
    ]

Step-length : {s t : Coordinator} → Step s t → length s.futures ≤ length t.futures
unfolding create_request create_future register_restored_request expire resolve
Step-length (requested s thread_id run_id tool_name input_text reason now) =
    omega (arith, length-add_last s.futures unanswered)
Step-length (restored s thread_id) = elim (Bool-cases (is_some (Dict.get s.pending thread_id))) [
  | inl old ↦ rw old (omega arith)
  | inr fresh ↦ rw fresh (omega (arith, length-add_last s.futures unanswered))
]
Step-length (timed_out s thread_id m now) = omega (arith, length-end_future s.futures m cancelled)
Step-length (resolved s thread_id approved actor now) =
    omega (arith, answer_future-length _ thread_id approved (Dict.get s.pending thread_id))

-- Every future that `_pending` knows exists.
pub Steps-entries :
    {payloads : Dict ℕ Payload} {runtime_status : Dict ℕ String} {s : Coordinator}
    → Steps (initial payloads runtime_status) s
    → (k n : ℕ) → Dict.get s.pending k ≡ some n
    → n < length s.futures
unfolding Dict.get
Steps-entries (stay s) k n h = absurd (cc h)
Steps-entries (then_ steps step) k n h = elim (Step-entries step k n h) [
  | inl old ↦ omega (arith, Steps-entries steps k n old, Step-length step)
  | inr (e, grown, _) ↦ omega (arith, e, grown)
]

-- The future exists, and no entry of `_pending` leads to it.
pub record IsLost (n : ℕ) (s : Coordinator) : Type 0 where
  pub exists : n < length s.futures
  pub unknown : (k : ℕ) → Dict.get s.pending k ≢ some n

-- A future that is lost once stays lost.
pub Step-IsLost : {s t : Coordinator} (n : ℕ) → Step s t → IsLost n s → IsLost n t
Step-IsLost n step lost = record {
  exists = omega (arith, lost.exists, Step-length step);
  unknown = λ k h. elim (Step-entries step k n h) [
    | inl old ↦ lost.unknown k old
    | inr (e, grown, _) ↦ absurd (omega (arith, e, lost.exists))
  ];
}

told_pending :
    (reply : String) (o : Option ℕ) (approved : Bool) (n : ℕ) (b : Bool)
    → Among {A = ℕ × Bool} (n, b) (told reply o approved)
    → o ≡ some n
told_pending reply none approved n b = λ m. absurd m
told_pending reply (some k) approved n b = elim (Bool-cases (reply == "resolved")) [
  | inl yes_ ↦
      rw yes_ (λ m. elim m [ inl e ↦ ap (λ (a : ℕ × Bool). some a.0) (sym e) | inr m ↦ absurd m ])
  | inr no_ ↦ rw no_ (λ m. absurd m)
]

-- Only a future that `_pending` knows is answered.
pub answer_pending :
    {s t : Coordinator} (step : Step s t) (n : ℕ) (b : Bool)
    → Among {A = ℕ × Bool} (n, b) (answer step)
    → Dict.get s.pending (thread_of step) ≡ some n
answer_pending (requested s thread_id run_id tool_name input_text reason now) n b m = absurd m
answer_pending (restored s thread_id) n b m = absurd m
answer_pending (timed_out s thread_id m' now) n b m = absurd m
answer_pending (resolved s thread_id approved actor now) n b m =
    told_pending _ (Dict.get s.pending thread_id) approved n b m

Steps-IsLost : {s t : Coordinator} (n : ℕ) → Steps s t → IsLost n s → IsLost n t
Steps-IsLost n (stay s) lost = lost
Steps-IsLost n (then_ steps step) lost = Step-IsLost n step (Steps-IsLost n steps lost)

-- No answer reaches a future that is lost.
pub lost-unanswered :
    {s t : Coordinator} (n : ℕ)
    → Steps s t
    → IsLost n s
    → ((b : Bool) → future s.futures n ≢ answered b)
    → (b : Bool) → future t.futures n ≢ answered b
lost-unanswered n (stay s) lost open_ b h = open_ b h
lost-unanswered n (then_ steps step) lost open_ b h = elim ((Step-answered step n b).0 h) [
  | inl old ↦ lost-unanswered n steps lost open_ b old
  | inr m ↦ (Steps-IsLost n steps lost).unknown (thread_of step) (answer_pending step n b m)
]
