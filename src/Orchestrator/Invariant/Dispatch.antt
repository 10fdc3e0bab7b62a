-- ===== src/Orchestrator/Invariant/Dispatch.antt =====
-- app/orchestrator.py: the dispatcher's rounds and the invariant.
use dev_bot.Base.{
  ℕ, ◌≤◌, ◌<◌, ◌≡◌, refl, subst, ap, ◌∙◌, Option, none, some, List, [], ◌∷◌, ◌++◌, map, arith, inl,
  inr, Bool-cases, leb,
}
use dev_bot.Base.Lists.{length}
use dev_bot.Base.Eq.{nat_eq, string_eq}
use dev_bot.Base.Sets.{add, discard, Distinct, discard_head, Distinct-add, Disjoint-add}
use dev_bot.Base.Dict.{keys-put, length-put, Entries-put}
use dev_bot.Orchestrator.{
  WorkItem, created, Dispatcher, sleeping, waiting, checking, State, item_key, drop_ended,
  cleanup_finished, active_count, check_room, wake, drop_thread, dispatch, take_next,
}
use dev_bot.Orchestrator.Invariant.{at_most_one, thread_ids, HasRoom, Keyed, IsAlive, IsValid}
use dev_bot.Orchestrator.Invariant.Queue.{set_dispatcher-IsValid}
use dev_bot.Orchestrator.Invariant.Ended.{drop_ended_of_alive}

pub HasRoom-le : (d : Dispatcher) {m n : ℕ} (max : ℕ) → m ≤ n → HasRoom d n max → HasRoom d m max
HasRoom-le waiting max h r = omega arith
HasRoom-le _ max h r = tt

pub cleanup_finished-IsValid :
    {max : ℕ} (s : State) → IsValid max s → IsValid max (cleanup_finished s)
unfolding cleanup_finished
cleanup_finished-IsValid s v = rw (drop_ended_of_alive s.running v.alive) v

pub active_count-IsValid : {max : ℕ} (s : State) → IsValid max s → IsValid max (active_count s).0
unfolding active_count
active_count-IsValid s v = cleanup_finished-IsValid s v

pub check_room-IsValid : {max : ℕ} (s : State) → IsValid max s → IsValid max (check_room max s)
unfolding check_room
check_room-IsValid {max} s v = elim (Bool-cases (leb max (length s.running))) [
  | inl full ↦ rw full (set_dispatcher-IsValid s v sleeping tt)
  | inr free ↦ rw free (set_dispatcher-IsValid s v waiting (ground (arith, free)))
]

pub wake-IsValid : {max : ℕ} (s : State) → IsValid max s → IsValid max (wake s)
unfolding wake
wake-IsValid s v = set_dispatcher-IsValid _ (cleanup_finished-IsValid s v) checking tt

drop_thread_head :
    (o : Option ℕ) (ts : List ℕ)
    → Distinct (at_most_one o ++ ts)
    → drop_thread (at_most_one o ++ ts) o ≡ ts
drop_thread_head none ts d = refl
drop_thread_head (some t) ts d = discard_head t ts d

Distinct-rest : (o : Option ℕ) (ts : List ℕ) → Distinct (at_most_one o ++ ts) → Distinct ts
Distinct-rest none ts d = d
Distinct-rest (some t) ts d = d.1

module _ {max : ℕ} (s : State) (v : IsValid max s) (item : WorkItem) (rest : List WorkItem)
    (q : s.queue ≡ item ∷ rest) where
  keys_eq : s.queued_keys ≡ item_key item ∷ map item_key rest
  keys_eq = v.keys_queued ∙ ap (map item_key) q

  threads_eq : s.queued_thread_ids ≡ at_most_one item.thread_id ++ thread_ids rest
  threads_eq = v.threads_queued ∙ ap thread_ids q

  keys_rest : discard s.queued_keys (item_key item) ≡ map item_key rest
  keys_rest =
      rw keys_eq (discard_head (item_key item) (map item_key rest) (rw keys_eq at v.keys_distinct))

  threads_rest : drop_thread s.queued_thread_ids item.thread_id ≡ thread_ids rest
  threads_rest =
      rw threads_eq
        (drop_thread_head item.thread_id (thread_ids rest) (rw threads_eq at v.threads_distinct))

  same : drop_ended s.running ≡ s.running
  same = drop_ended_of_alive s.running v.alive

  pub dispatch-IsValid : length s.running < max → IsValid max (dispatch item rest s)
  unfolding dispatch cleanup_finished
  dispatch-IsValid h = record {
    keys_queued = keys_rest;
    threads_queued = threads_rest;
    keys_distinct = rw keys_rest (rw keys_eq at v.keys_distinct).1;
    threads_distinct =
        rw threads_rest
          (Distinct-rest item.thread_id (thread_ids rest) (rw threads_eq at v.threads_distinct));
    apart = rw keys_rest (
        Disjoint-add (map item_key rest) s.running_keys (item_key item) (rw keys_eq at v.apart).1
          (rw keys_eq at v.keys_distinct).0);
    tracked = rw (same, keys-put) (ap (λ ks. add ks (item_key item)) v.tracked);
    running_distinct = rw (same, keys-put) (Distinct-add _ (item_key item) v.running_distinct);
    keyed = rw same (Entries-put Keyed s.running (item_key item) _ v.keyed refl);
    alive = rw same (Entries-put IsAlive s.running (item_key item) _ v.alive refl);
    bounded = rw same (
        omega (
          arith,
          length-put s.running (item_key item) (record { item = item; stage = created }),
          h,
        ));
    room = tt;
  }

pub take_next-IsValid :
    {max : ℕ} (s : State) → IsValid max s → s.dispatcher ≡ waiting → IsValid max (take_next s)
unfolding take_next
take_next-IsValid {max} s v w = go s.queue refl
  where
    go :
        (items : List WorkItem)
        → s.queue ≡ items
        → IsValid max (elim items [ [] ↦ s | item ∷ rest ↦ dispatch item rest s ])
    go [] q = v
    go (item ∷ rest) q =
        dispatch-IsValid s v item rest q (subst (λ d. HasRoom d (length s.running) max) w v.room)
