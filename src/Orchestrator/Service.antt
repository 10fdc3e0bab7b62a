-- ===== src/Orchestrator/Service.antt =====
-- app/orchestrator.py: what the orchestrator promises its callers, over reachable states.
use dev_bot.Base.{
  ℕ, ◌<◌, String, ◌≡◌, refl, true, false, none, List, [], ◌∷◌, ◌++◌, map, arith, inl, inr,
  Bool-cases,
}
use dev_bot.Base.Lists.{length}
use dev_bot.Base.Eq.{nat_eq, string_eq, ◌==◌}
use dev_bot.Base.Sets.{contains, add, Disjoint, contains-add, beq_refl, contains-discard}
use dev_bot.Base.Dict
use dev_bot.Base.Dict.{keys, Entries-get, get-remove, put_of_new}
use dev_bot.Orchestrator.{
  WorkItem, State, drop_ended, created, item_key, refuses, enqueue, ensure_started,
  cleanup_finished, check_room, take_next, dispatch, waiting,
}
use dev_bot.Orchestrator.Steps.{Reach}
use dev_bot.Orchestrator.Invariant.Ended.{drop_ended_of_alive}
use dev_bot.Orchestrator.Invariant.Reachable.{Reach-IsValid}

Disjoint-contains :
    (xs ys : List String) (x : String)
    → Disjoint xs ys
    → contains xs x ≡ true
    → contains ys x ≡ false
unfolding contains
Disjoint-contains [] ys x d h = absurd (cc h)
Disjoint-contains (z ∷ xs) ys x d h = elim (Bool-cases (z == x)) [
  | inl same ↦ rw (← (string_eq.equal_iff z x).0 same) d.0
  | inr other ↦ Disjoint-contains xs ys x d.1 (ground (arith, other))
]

-- In a reachable state no key is both queued and running.
queued_not_running :
    {max : ℕ} {s : State} (k : String)
    → Reach max s
    → contains (map item_key s.queue) k ≡ true
    → (contains s.running_keys k ≡ false) × (Dict.get s.running k ≡ none)
queued_not_running {s = s} k r h =
    let v = Reach-IsValid r in
    let apart = Disjoint-contains s.queued_keys s.running_keys k v.apart (rw v.keys_queued h) in
    (apart, Dict.get_of_absent s.running k (rw v.tracked at apart))

ensure_started_fields :
    (s : State)
    → ((ensure_started s).queue ≡ s.queue) × ((ensure_started s).queued_keys ≡ s.queued_keys)
unfolding ensure_started
ensure_started_fields s = ground arith

accepted :
    (s : State) (item : WorkItem)
    → refuses s item ≡ false
    → ((enqueue s item).1 ≡ true)
      × ((enqueue s item).0.queue ≡ s.queue ++ item ∷ [])
      × ((enqueue s item).0.queued_keys ≡ add s.queued_keys (item_key item))
unfolding enqueue
accepted s item h = rw h (refl, (ensure_started_fields _).0, (ensure_started_fields _).1)

room_found :
    (max : ℕ) (s : State)
    → length s.running < max
    → check_room max s ≡ record s { dispatcher = waiting }
unfolding check_room
room_found max s h = ground arith

-- With room for a task, two steps of the dispatcher start the item at the head of the queue: its
-- task is added behind the running ones, none of which is overwritten, and its key is tracked.
pub dispatch_next :
    {max : ℕ} {s : State} (item : WorkItem) (rest : List WorkItem)
    → Reach max s
    → length s.running < max
    → s.queue ≡ item ∷ rest
    → ((take_next (check_room max s)).queue ≡ rest)
      × ((take_next (check_room max s)).running
          ≡ drop_ended s.running ++ (item_key item, record { item = item; stage = created }) ∷ [])
      × (contains (take_next (check_room max s)).running_keys (item_key item) ≡ true)
      × (contains (take_next (check_room max s)).queued_keys (item_key item) ≡ false)
unfolding take_next dispatch cleanup_finished
dispatch_next {max} {s} item rest r h q =
    let v = Reach-IsValid r in
    let queued : contains (map item_key s.queue) (item_key item) ≡ true =
      rw q (unfold contains in ground (arith, beq_refl (item_key item))) in
    let idle = (queued_not_running (item_key item) r queued).0 in
    let absent : contains (keys (drop_ended s.running)) (item_key item) ≡ false =
      rw (drop_ended_of_alive s.running v.alive) (rw v.tracked at idle) in
    rw (room_found max s h, q)
      (
        refl,
        put_of_new (drop_ended s.running) (item_key item) _ absent,
        simp (contains-add, beq_refl),
        simp (contains-discard, beq_refl),
      )
