-- ===== src/Approvals/Answers.antt =====
-- app/approvals.py, over any sequence of operations: the answers that the futures get.
use dev_bot.Base.{
  ℕ, String, ◌≡◌, ◌≢◌, ◌↔◌, ◌⊎◌, refl, sym, ap, ◌∙◌, inl, inr, Bool, true, false, Option, none,
  some, List, [], ◌∷◌, map, arith, Bool-cases, nat_beq, nat_beq_iff,
}
use dev_bot.Base.Eq.{nat_eq, string_eq}
use dev_bot.Base.Sets.{contains, Distinct, Distinct-snoc}
use dev_bot.Base.Lists.{Among, Among-append, Among-append_left, Among-append_right}
use mathlib.Core.List.{map-append, append-nil}
use dev_bot.Base.Dict
use dev_bot.Base.Dict.{Dict}
use dev_bot.Approvals.{
  Future, unanswered, cancelled, answered, Payload, Coordinator, initial, future, create_future,
  create_request, is_some, register_restored_request, end_future, expire, is_unanswered,
  answer_future, resolve, update, map_payload, resolved_payload,
}
use dev_bot.Approvals.Futures.{
  future-end_future, other-end_future, kept_at-end_future, kept_at-add_last, answered_before-cancel,
  answered_before-add_last,
}
use dev_bot.Approvals.Steps.{
  Step, requested, restored, timed_out, resolved, Steps, stay, then_, told, answer, answers,
}

-- What an operation makes of the answer to the future `n`.
abbrev pub Adds : List Future → List Future → List (ℕ × Bool) → ℕ → Bool → Type 0
Adds fs gs told_now n b =
    (future gs n ≡ answered b) ↔ (future fs n ≡ answered b) ⊎ Among {A = ℕ × Bool} (n, b) told_now

Adds-nothing :
    (fs gs : List Future) (n : ℕ) (b : Bool)
    → (future fs n ≡ answered b → future gs n ≡ answered b)
    → (future gs n ≡ answered b → future fs n ≡ answered b)
    → Adds fs gs [] n b
Adds-nothing fs gs n b keeps was =
    (λ h. inl (was h), λ h. elim h [ inl old ↦ keeps old | inr m ↦ absurd m ])

answered_now :
    (fs : List Future) (m n : ℕ) (approved b : Bool)
    → future fs m ≡ unanswered
    → future (end_future fs m (answered approved)) n ≡ answered b
    → (future fs n ≡ answered b) ⊎ Among {A = ℕ × Bool} (n, b) ((m, approved) ∷ [])
answered_now fs m n approved b h e = elim (Bool-cases (nat_beq m n)) [
  | inl same ↦
      let m_n = (nat_beq_iff m n).0 same in
      let now = future-end_future fs m (answered approved) h in
      inr (inl (ground (arith, m_n, e, now, ap (future (end_future fs m (answered approved))) m_n)))
  | inr other ↦ inl (
      sym (other-end_future fs n m (answered approved) (λ m_n. cc (other, (nat_beq_iff m n).1 m_n)))
      ∙ e)
]

now_answered :
    (fs : List Future) (m n : ℕ) (approved b : Bool)
    → future fs m ≡ unanswered
    → Among {A = ℕ × Bool} (n, b) ((m, approved) ∷ [])
    → future (end_future fs m (answered approved)) n ≡ answered b
now_answered fs m n approved b h (inl e) =
    let now = future-end_future fs m (answered approved) h in
    ap (λ (a : ℕ × Bool). future (end_future fs m (answered approved)) a.0) e
    ∙ now
    ∙ ap (λ (a : ℕ × Bool). answered a.1) (sym e)
now_answered fs m n approved b h (inr m') = absurd m'

is_unanswered_lem : (f : Future) → is_unanswered f ≡ true → f ≡ unanswered
is_unanswered_lem f h = ground (arith, h)

-- The end of `resolve` answers the pending future where it says "resolved", and no other.
Adds-answer_future :
    (s : Coordinator) (thread_id n : ℕ) (approved b : Bool) (o : Option ℕ)
    → Adds s.futures
        (answer_future thread_id approved o s).0.futures
        (told (answer_future thread_id approved o s).1 o approved)
        n
        b
Adds-answer_future s thread_id n approved b none =
    Adds-nothing s.futures s.futures n b (λ h. h) (λ h. h)
Adds-answer_future s thread_id n approved b (some m) =
    elim (Bool-cases (is_unanswered (future s.futures m))) [
      | inl open_ ↦
          let waiting = is_unanswered_lem (future s.futures m) open_ in
          rw open_ (
            answered_now s.futures m n approved b waiting,
            λ h. elim h [
              | inl old ↦ kept_at-end_future s.futures n m (answered approved) b old
              | inr m ↦ now_answered s.futures _ n approved b waiting m
            ],
          )
      | inr shut ↦ rw shut (Adds-nothing s.futures s.futures n b (λ h. h) (λ h. h))
    ]

-- The state behind the update of the file in `resolve`.
abbrev filed : Coordinator → ℕ → Bool → String → String → Coordinator
filed s thread_id approved actor now = record s {
  payloads =
      update s.payloads thread_id
        (map_payload (resolved_payload approved actor now) (Dict.get s.payloads thread_id));
}

-- What a step answers is what `answer` says of it.
pub Step-answered :
    {s t : Coordinator} (step : Step s t) (n : ℕ) (b : Bool)
    → Adds s.futures t.futures (answer step) n b
unfolding create_request create_future register_restored_request expire resolve
Step-answered (requested s thread_id run_id tool_name input_text reason now) n b =
    Adds-nothing s.futures _ n b (kept_at-add_last s.futures n unanswered b)
      (answered_before-add_last s.futures n b)
Step-answered (restored s thread_id) n b =
    elim (Bool-cases (is_some (Dict.get s.pending thread_id))) [
      | inl old ↦ rw old (Adds-nothing s.futures s.futures n b (λ h. h) (λ h. h))
      | inr fresh ↦ rw fresh (
          Adds-nothing s.futures _ n b (kept_at-add_last s.futures n unanswered b)
            (answered_before-add_last s.futures n b))
    ]
Step-answered (timed_out s thread_id m now) n b =
    Adds-nothing s.futures _ n b (kept_at-end_future s.futures n m cancelled b)
      (answered_before-cancel s.futures n m b)
Step-answered (resolved s thread_id approved actor now) n b =
    Adds-answer_future (filed s thread_id approved actor now) thread_id n approved b
      (Dict.get s.pending thread_id)

Steps-answered_from :
    {s t : Coordinator} (steps : Steps s t) (n : ℕ) (b : Bool)
    → Adds s.futures t.futures (answers steps) n b
Steps-answered_from (stay s) n b = Adds-nothing s.futures s.futures n b (λ h. h) (λ h. h)
Steps-answered_from (then_ steps step) n b =
    let before = Steps-answered_from steps n b in
    let now = Step-answered step n b in
    let a : ℕ × Bool = (n, b) in
    (
      λ h. elim (now.0 h) [
        | inl old ↦ elim (before.0 old) [
          | inl start ↦ inl start
          | inr m ↦ inr (Among-append_left a (answers steps) (answer step) m)
        ]
        | inr m ↦ inr (Among-append_right a (answers steps) (answer step) m)
      ],
      λ h. elim h [
        | inl start ↦ now.1 (inl (before.1 (inl start)))
        | inr m ↦ elim (Among-append a (answers steps) (answer step) m) [
          | inl earlier ↦ now.1 (inl (before.1 (inr earlier)))
          | inr last ↦ now.1 (inr last)
        ]
      ],
    )

none_answered : (n : ℕ) (b : Bool) → future [] n ≢ answered b
unfolding future
none_answered n b h = cc h

-- From the start, the answers are those that were told.
pub Steps-answers :
    {payloads : Dict ℕ Payload} {runtime_status : Dict ℕ String} {s : Coordinator}
    (steps : Steps (initial payloads runtime_status) s) (n : ℕ) (b : Bool)
    → (future s.futures n ≡ answered b) ↔ Among {A = ℕ × Bool} (n, b) (answers steps)
Steps-answers steps n b =
    let all = Steps-answered_from steps n b in
    (
      λ h. elim (all.0 h) [ inl start ↦ absurd (none_answered n b start) | inr m ↦ m ],
      λ m. all.1 (inr m),
    )

-- A step tells of an answer at most once, and only for a future that had none.
answer_cases :
    {s t : Coordinator} (step : Step s t)
    → (answer step ≡ [])
      ⊎ ((n : ℕ) × (b : Bool) × (answer step ≡ (n, b) ∷ []) × (future s.futures n ≡ unanswered))
unfolding resolve
answer_cases (requested s thread_id run_id tool_name input_text reason now) = inl refl
answer_cases (restored s thread_id) = inl refl
answer_cases (timed_out s thread_id m now) = inl refl
answer_cases (resolved s thread_id approved actor now) = by_pending (Dict.get s.pending thread_id)
  where
    by_pending :
        (o : Option ℕ)
        → (told
              (answer_future thread_id approved o (filed s thread_id approved actor now)).1
              o
              approved
            ≡ [])
          ⊎ ((n : ℕ) × (b : Bool) × (told
                  (answer_future thread_id approved o (filed s thread_id approved actor now)).1
                  o
                  approved
                ≡ (n, b) ∷ [])
              × (future s.futures n ≡ unanswered))
    by_pending none = inl refl
    by_pending (some m) = elim (Bool-cases (is_unanswered (future s.futures m))) [
      | inl open_ ↦ inr (m, approved, rw open_ refl, is_unanswered_lem _ open_)
      | inr shut ↦ inl (rw shut refl)
    ]

of_contained :
    (n : ℕ) (as_told : List (ℕ × Bool))
    → contains (map (λ a. a.0) as_told) n ≡ true
    → (b : Bool) × Among {A = ℕ × Bool} (n, b) as_told
unfolding contains
of_contained n [] h = absurd (cc h)
of_contained n ((m, b) ∷ rest) h = elim (Bool-cases (nat_beq m n)) [
  | inl same ↦
      (b, inl (ap (λ (k : ℕ). let a : ℕ × Bool = (k, b) in a) (sym ((nat_beq_iff m n).0 same))))
  | inr other ↦ let (c, among) = of_contained n rest (ground (arith, other, h)) in (c, inr among)
]

not_answered_yet :
    {payloads : Dict ℕ Payload} {runtime_status : Dict ℕ String} {s : Coordinator}
    (steps : Steps (initial payloads runtime_status) s) (n : ℕ)
    → future s.futures n ≡ unanswered
    → contains (map (λ a. a.0) (answers steps)) n ≡ false
not_answered_yet steps n h = elim (Bool-cases (contains (map (λ a. a.0) (answers steps)) n)) [
  | inl told_of ↦
      let (b, among) = of_contained n (answers steps) told_of in
      absurd (cc (h, (Steps-answers steps n b).1 among))
  | inr new ↦ new
]

-- No two calls of `resolve` are told of one wait.
pub answers-Distinct :
    {payloads : Dict ℕ Payload} {runtime_status : Dict ℕ String} {s : Coordinator}
    (steps : Steps (initial payloads runtime_status) s)
    → Distinct (map (λ a. a.0) (answers steps))
answers-Distinct (stay s) = tt
answers-Distinct (then_ steps step) = elim (answer_cases step) [
  | inl nothing ↦ rw (nothing, append-nil) (answers-Distinct steps)
  | inr (n, b, e, waiting) ↦
      rw (e, map-append)
        (Distinct-snoc _ n (answers-Distinct steps) (not_answered_yet steps n waiting))
]
