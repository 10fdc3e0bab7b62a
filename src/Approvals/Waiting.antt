-- ===== src/Approvals/Waiting.antt =====
-- app/approvals.py, over any sequence of operations: the entries of `_pending` and the answers.
use dev_bot.Base.{
  ℕ, ◌<◌, String, ◌≡◌, ◌≢◌, ◌↔◌, refl, sym, ap, ◌∙◌, inl, inr, Bool, Option, none, some, List, [],
  ◌∷◌, map, arith, Bool-cases,
}
use dev_bot.Base.Eq.{nat_eq, string_eq}
use dev_bot.Base.Sets.{Distinct, beq_refl}
use dev_bot.Base.Lists.{length, Among}
use dev_bot.Base.Dict
use dev_bot.Base.Dict.{Dict}
use dev_bot.Approvals.{
  Future, answered, Payload, Coordinator, initial, future, is_unanswered, answer_future, resolve,
}
use dev_bot.Approvals.Steps.{
  Step, requested, restored, timed_out, resolved, Steps, stay, then_, answer, answers, thread_of,
}
use dev_bot.Approvals.Answers.{Step-answered, Steps-answers, answers-Distinct}
use dev_bot.Approvals.Pending.{Step-entries, Steps-entries, answer_pending}

not_answered_behind : (fs : List Future) (b : Bool) → future fs (length fs) ≢ answered b
unfolding future
not_answered_behind [] b h = cc h
not_answered_behind (f ∷ fs) b h = not_answered_behind fs b h

removed_same : (d : Dict ℕ ℕ) (k : ℕ) → Dict.get (Dict.remove d k) k ≡ none
removed_same d k = rw (Dict.get-remove d k k) (rw (beq_refl k) refl)

forgotten :
    (s : Coordinator) (thread_id n : ℕ) (approved : Bool) (o : Option ℕ)
    → o ≡ some n
    → Dict.get (answer_future thread_id approved o s).0.pending thread_id ≡ none
forgotten s thread_id n approved none = λ h. absurd (cc h)
forgotten s thread_id n approved (some m) = elim (Bool-cases (is_unanswered (future s.futures m))) [
  | inl open_ ↦ rw open_ (λ h. removed_same s.pending thread_id)
  | inr shut ↦ rw shut (λ h. removed_same s.pending thread_id)
]

-- An answer takes the thread out of `_pending`.
answer_forgets :
    {s t : Coordinator} (step : Step s t) (n : ℕ) (b : Bool)
    → Among {A = ℕ × Bool} (n, b) (answer step)
    → Dict.get t.pending (thread_of step) ≡ none
unfolding resolve
answer_forgets (requested s thread_id run_id tool_name input_text reason now) n b = λ m. absurd m
answer_forgets (restored s thread_id) n b = λ m. absurd m
answer_forgets (timed_out s thread_id m' now) n b = λ m. absurd m
answer_forgets (resolved s thread_id approved actor now) n b = λ m.
    forgotten _ thread_id n approved (Dict.get s.pending thread_id)
      (answer_pending (resolved s thread_id approved actor now) n b m)

-- The entries of `_pending` are of different futures, none of which has an answer.
record AreWaiting (s : Coordinator) : Type 0 where
  apart : (j k n : ℕ) → Dict.get s.pending j ≡ some n → Dict.get s.pending k ≡ some n → j ≡ k
  open_ : (k n : ℕ) (b : Bool) → Dict.get s.pending k ≡ some n → future s.futures n ≢ answered b

module _ {s t : Coordinator} (step : Step s t)
    (known : (k n : ℕ) → Dict.get s.pending k ≡ some n → n < length s.futures)
    (v : AreWaiting s) where
  Step-apart : (j k n : ℕ) → Dict.get t.pending j ≡ some n → Dict.get t.pending k ≡ some n → j ≡ k
  Step-apart j k n g h = elim (Step-entries step j n g) [
    | inl old_j ↦ elim (Step-entries step k n h) [
      | inl old_k ↦ v.apart j k n old_j old_k
      | inr (e, grown, at_k) ↦ absurd (omega (arith, known j n old_j, e))
    ]
    | inr (e, grown, at_j) ↦ elim (Step-entries step k n h) [
      | inl old_k ↦ absurd (omega (arith, known k n old_k, e))
      | inr (e', grown', at_k) ↦ sym at_j ∙ at_k
    ]
  ]

  Step-open : (k n : ℕ) (b : Bool) → Dict.get t.pending k ≡ some n → future t.futures n ≢ answered b
  Step-open k n b h a = elim (Step-entries step k n h) [
    | inl old ↦ elim ((Step-answered step n b).0 a) [
      | inl before ↦ v.open_ k n b old before
      | inr m ↦
          let same = v.apart (thread_of step) k n (answer_pending step n b m) old in
          cc (answer_forgets step n b m, same, h)
    ]
    | inr (e, grown, at_k) ↦ elim ((Step-answered step n b).0 a) [
      | inl before ↦ not_answered_behind s.futures b (ap (future s.futures) (sym e) ∙ before)
      | inr m ↦ absurd (omega (arith, known (thread_of step) n (answer_pending step n b m), e))
    ]
  ]

Steps-AreWaiting :
    {payloads : Dict ℕ Payload} {runtime_status : Dict ℕ String} {s : Coordinator}
    → Steps (initial payloads runtime_status) s
    → AreWaiting s
unfolding Dict.get
Steps-AreWaiting (stay s) = record {
  apart = λ j k n g h. absurd (cc g);
  open_ = λ k n b h. absurd (cc h);
}
Steps-AreWaiting (then_ steps step) =
    let v = Steps-AreWaiting steps in
    record {
      apart = Step-apart step (Steps-entries steps) v;
      open_ = Step-open step (Steps-entries steps) v;
    }

-- From the start of a coordinator, over any sequence of operations and timeouts: a wait's answer is b
-- exactly where a call of `resolve` with the answer b was told that it has reached this wait, no two
-- calls are told so of one wait, and a wait that has its answer is no longer in `_pending`.
pub Steps-answered :
    {payloads : Dict ℕ Payload} {runtime_status : Dict ℕ String} {s : Coordinator}
    (steps : Steps (initial payloads runtime_status) s)
    → ((n : ℕ) (b : Bool)
        → (future s.futures n ≡ answered b) ↔ Among {A = ℕ × Bool} (n, b) (answers steps))
      × Distinct (map (λ a. a.0) (answers steps))
      × ((k n : ℕ) (b : Bool)
          → ¬ ((Dict.get s.pending k ≡ some n) × (future s.futures n ≡ answered b)))
Steps-answered steps = (
  Steps-answers steps,
  answers-Distinct steps,
  λ k n b h. (Steps-AreWaiting steps).open_ k n b h.0 h.1,
)
