-- ===== src/Orchestrator/Invariant/Queue.antt =====
-- app/orchestrator.py: `enqueue`, `restore` and the invariant.
use dev_bot.Base.{
  ℕ, String, ◌≡◌, refl, sym, false, Option, none, some, List, [], ◌∷◌, ◌++◌, arith, inl, inr,
  Bool-cases,
}
use dev_bot.Base.Lists.{length}
use dev_bot.Base.Eq.{nat_eq, string_eq}
use dev_bot.Base.Sets.{contains, add, Distinct, add_of_new, Distinct-snoc, Disjoint-snoc}
use dev_bot.Base.Dict.{Dict}
use dev_bot.Orchestrator.{
  WorkItem, Dispatcher, State, item_key, refuses, ensure_started, enqueue, checking, is_stopped,
  thread_queued, add_thread, StoreCall,
}
use dev_bot.Orchestrator.Invariant.{at_most_one, thread_ids, HasRoom, IsValid}
use mathlib.Core.List.{map-append, append-nil, append_assoc}

thread_ids-snoc :
    (items : List WorkItem) (item : WorkItem)
    → thread_ids (items ++ item ∷ []) ≡ thread_ids items ++ at_most_one item.thread_id
thread_ids-snoc [] item = append-nil _
thread_ids-snoc (i ∷ items) item = simp (thread_ids-snoc items item, append_assoc)

add_thread_of_new :
    (ts : List ℕ) (o : Option ℕ)
    → thread_queued ts o ≡ false
    → add_thread ts o ≡ ts ++ at_most_one o
add_thread_of_new ts none h = sym (append-nil ts)
add_thread_of_new ts (some t) h = add_of_new ts t h

Distinct-thread :
    (ts : List ℕ) (o : Option ℕ)
    → Distinct ts
    → thread_queued ts o ≡ false
    → Distinct (ts ++ at_most_one o)
Distinct-thread ts none d h = rw append-nil d
Distinct-thread ts (some t) d h = Distinct-snoc ts t d h

module _ {max : ℕ} (s : State) (v : IsValid max s) where
  pub set_dispatcher-IsValid :
      (d : Dispatcher)
      → HasRoom d (length s.running) max
      → IsValid max (record s { dispatcher = d })
  set_dispatcher-IsValid d h = record {
    keys_queued = v.keys_queued;
    threads_queued = v.threads_queued;
    keys_distinct = v.keys_distinct;
    threads_distinct = v.threads_distinct;
    apart = v.apart;
    tracked = v.tracked;
    running_distinct = v.running_distinct;
    keyed = v.keyed;
    alive = v.alive;
    bounded = v.bounded;
    room = h;
  }

  pub ensure_started-IsValid : IsValid max (ensure_started s)
  unfolding ensure_started
  ensure_started-IsValid = elim (Bool-cases (is_stopped s.dispatcher)) [
    | inl idle ↦ rw idle (set_dispatcher-IsValid checking tt)
    | inr busy ↦ rw busy v
  ]

  pub refuses-eq-false :
      (item : WorkItem)
      → refuses s item ≡ false
      → (thread_queued s.queued_thread_ids item.thread_id ≡ false)
        × (contains s.running_keys (item_key item) ≡ false)
        × (contains s.queued_keys (item_key item) ≡ false)
  unfolding refuses
  refuses-eq-false item h = ground arith

  -- The item is appended and its key and thread are added.
  append-IsValid :
      (item : WorkItem) (ids : Dict ℕ String) (calls : List StoreCall)
      → refuses s item ≡ false
      → IsValid max (record s {
        queue = s.queue ++ item ∷ [];
        queued_thread_ids = add_thread s.queued_thread_ids item.thread_id;
        queued_keys = add s.queued_keys (item_key item);
        thread_to_key = ids;
        calls = calls;
      })
  append-IsValid item ids calls h =
      let (no_thread, not_running, not_queued) = refuses-eq-false item h in
      let appended = add_of_new s.queued_keys (item_key item) not_queued in
      let with_thread = add_thread_of_new s.queued_thread_ids item.thread_id no_thread in
      record {
        keys_queued = rw (appended, v.keys_queued) (sym (map-append item_key s.queue (item ∷ [])));
        threads_queued = rw (with_thread, thread_ids-snoc s.queue item, v.threads_queued) refl;
        keys_distinct = rw appended (Distinct-snoc _ _ v.keys_distinct not_queued);
        threads_distinct = rw with_thread (Distinct-thread _ _ v.threads_distinct no_thread);
        apart = rw appended (Disjoint-snoc _ _ _ v.apart not_running);
        tracked = v.tracked;
        running_distinct = v.running_distinct;
        keyed = v.keyed;
        alive = v.alive;
        bounded = v.bounded;
        room = v.room;
      }

pub enqueue-IsValid :
    {max : ℕ} (s : State) (item : WorkItem) → IsValid max s → IsValid max (enqueue s item).0
unfolding enqueue
enqueue-IsValid s item v = elim (Bool-cases (refuses s item)) [
  | inl no_change ↦ rw no_change v
  | inr accepted ↦ rw accepted (ensure_started-IsValid _ (append-IsValid s v item _ _ accepted))
]
