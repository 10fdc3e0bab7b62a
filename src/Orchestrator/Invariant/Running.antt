-- ===== src/Orchestrator/Invariant/Running.antt =====
-- app/orchestrator.py: the steps of the tasks, `drain` and the invariant.
use dev_bot.Base.{ℕ, String, ◌≡◌, refl, ap, false, Option, none, some, [], ◌∷◌, arith}
use dev_bot.Base.Eq.{nat_eq, string_eq}
use dev_bot.Base.Sets.{discard, Disjoint-discard, Distinct-discard}
use dev_bot.Base.Dict
use dev_bot.Base.Dict.{
  Dict, keys, keys-put_old, keys-remove, length-put_old, length-remove, contains_of_get,
  Entries-put, Entries-remove, Entries-get,
}
use dev_bot.Orchestrator.{
  WorkItem, Task, Stage, created, started, ended, stopped, State, item_key, is_done,
}
use dev_bot.Orchestrator.Tasks.{
  Outcome, end_item, set_stage, start, begin_task, finish, end_task, cancel_task, cancel_tasks,
  drain,
}
use dev_bot.Orchestrator.Invariant.{Keyed, IsAlive, IsValid}
use dev_bot.Orchestrator.Invariant.Dispatch.{HasRoom-le}

pub end_item-IsValid :
    {max : ℕ} (item : WorkItem) (outcome : Outcome) (s : State)
    → IsValid max s
    → IsValid max (end_item item outcome s)
unfolding end_item
end_item-IsValid item outcome s v =
    let k = item_key item in
    let shorter = length-remove s.running k in
    record {
      keys_queued = v.keys_queued;
      threads_queued = v.threads_queued;
      keys_distinct = v.keys_distinct;
      threads_distinct = v.threads_distinct;
      apart = Disjoint-discard s.queued_keys s.running_keys k v.apart;
      tracked = rw keys-remove (ap (λ ks. discard ks k) v.tracked);
      running_distinct = rw keys-remove (Distinct-discard _ k v.running_distinct);
      keyed = Entries-remove Keyed s.running k v.keyed;
      alive = Entries-remove IsAlive s.running k v.alive;
      bounded = omega (arith, shorter, v.bounded);
      room = HasRoom-le s.dispatcher _ shorter v.room;
    }

-- A task moves to another stage in place.
restage-IsValid :
    {max : ℕ} (s : State) (k : String) (t : Task) (stage : Stage)
    → IsValid max s
    → Dict.get s.running k ≡ some t
    → is_done stage ≡ false
    → IsValid max (record s { running = Dict.put s.running k (record t { stage = stage }) })
restage-IsValid s k t stage v e live =
    let old = contains_of_get s.running k t e in
    let t' : Task = record t { stage = stage } in
    let same_keys = keys-put_old s.running k t' old in
    let same_length = length-put_old s.running k t' old in
    record {
      keys_queued = v.keys_queued;
      threads_queued = v.threads_queued;
      keys_distinct = v.keys_distinct;
      threads_distinct = v.threads_distinct;
      apart = v.apart;
      tracked = rw same_keys v.tracked;
      running_distinct = rw same_keys v.running_distinct;
      keyed = Entries-put Keyed s.running k t' v.keyed (Entries-get Keyed s.running k t v.keyed e);
      alive = Entries-put IsAlive s.running k t' v.alive live;
      bounded = rw same_length v.bounded;
      room = rw same_length v.room;
    }

begin_task-IsValid :
    {max : ℕ} (s : State) (k : String) (o : Option Task)
    → IsValid max s
    → Dict.get s.running k ≡ o
    → IsValid max (begin_task s k o)
begin_task-IsValid {max} s k none v e = v
begin_task-IsValid {max} s k (some t) v e = by_stage t.stage
  where
    by_stage :
        (stage : Stage)
        → IsValid max (elim stage [
          | created ↦ record s { running = set_stage s.running k (some t) started }
          | _ ↦ s
        ])
    by_stage created = restage-IsValid s k t started v e refl
    by_stage started = v
    by_stage ended = v

pub start-IsValid : {max : ℕ} (k : String) (s : State) → IsValid max s → IsValid max (start k s)
unfolding start
start-IsValid k s v = begin_task-IsValid s k (Dict.get s.running k) v refl

end_task-IsValid :
    {max : ℕ} (s : State) (o : Option Task) (outcome : Outcome)
    → IsValid max s
    → IsValid max (end_task s o outcome)
end_task-IsValid {max} s none outcome v = v
end_task-IsValid {max} s (some t) outcome v = by_stage t.stage
  where
    by_stage :
        (stage : Stage) → IsValid max (elim stage [ started ↦ end_item t.item outcome s | _ ↦ s ])
    by_stage created = v
    by_stage started = end_item-IsValid t.item outcome s v
    by_stage ended = v

pub finish-IsValid :
    {max : ℕ} (k : String) (outcome : Outcome) (s : State)
    → IsValid max s
    → IsValid max (finish k outcome s)
unfolding finish
finish-IsValid k outcome s v = end_task-IsValid s (Dict.get s.running k) outcome v

-- Nothing is queued, and the dispatcher does not run.
pub record IsQuiet (s : State) : Type 0 where
  pub queue : s.queue ≡ []
  pub queued_thread_ids : s.queued_thread_ids ≡ []
  pub queued_keys : s.queued_keys ≡ []
  pub dispatcher : s.dispatcher ≡ stopped

cancel_task-IsQuiet :
    (answer : WorkItem → Outcome) (k : String) (t : Task) (s : State)
    → IsQuiet s
    → IsQuiet (cancel_task answer k t s)
unfolding cancel_task
cancel_task-IsQuiet answer k t s h = ground arith

pub cancel_tasks-IsQuiet :
    (answer : WorkItem → Outcome) (d : Dict String Task) (s : State)
    → IsQuiet s
    → IsQuiet (cancel_tasks answer d s)
unfolding cancel_tasks
cancel_tasks-IsQuiet answer [] s h = h
cancel_tasks-IsQuiet answer ((k, t) ∷ d) s h =
    cancel_tasks-IsQuiet answer d (cancel_task answer k t s) (cancel_task-IsQuiet answer k t s h)

-- `drain` leaves nothing queued and nothing running.
pub drain-IsQuiet : (answer : WorkItem → Outcome) (s : State) → IsQuiet (drain answer s)
unfolding drain
drain-IsQuiet answer s =
    let h =
      cancel_tasks-IsQuiet answer s.running _ (record {
        queue = refl;
        queued_thread_ids = refl;
        queued_keys = refl;
        dispatcher = refl;
      }) in
    record {
      queue = h.queue;
      queued_thread_ids = h.queued_thread_ids;
      queued_keys = h.queued_keys;
      dispatcher = h.dispatcher;
    }

quiet-IsValid :
    {max : ℕ} (s : State) → IsQuiet s → s.running ≡ [] → s.running_keys ≡ [] → IsValid max s
quiet-IsValid {max} s h r k = record {
  keys_queued = rw (h.queue, h.queued_keys);
  threads_queued = rw (h.queue, h.queued_thread_ids);
  keys_distinct = rw h.queued_keys tt;
  threads_distinct = rw h.queued_thread_ids tt;
  apart = rw h.queued_keys tt;
  tracked = rw (r, k) refl;
  running_distinct = rw r tt;
  keyed = rw r tt;
  alive = rw r tt;
  bounded = rw r (omega arith);
  room = rw h.dispatcher tt;
}

pub drain-IsValid :
    {max : ℕ} (answer : WorkItem → Outcome) (s : State) → IsValid max (drain answer s)
drain-IsValid answer s =
    let h = drain-IsQuiet answer s in
    quiet-IsValid (drain answer s) h (unfold drain in refl) (unfold drain in refl)
