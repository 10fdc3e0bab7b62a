-- ===== src/Orchestrator/Tests.antt =====
-- Runs of the orchestrator on concrete items.
use dev_bot.Base.{◌≡◌, refl, true, false, some, [], ◌∷◌, ◌++◌, arith}
use dev_bot.Base.Eq.{string_eq, nat_eq}
use dev_bot.Base.Sets.{contains}
use dev_bot.Base.Dict
use dev_bot.Orchestrator.{
  WorkItem, State, created, init, item_key, refuses, enqueue, drop_ended, ensure_started,
  check_room, take_next, is_running,
}
use dev_bot.Orchestrator.Tasks.{start}
use dev_bot.Orchestrator.Steps.{Reach, here, next, submit, look, take, begin}
use dev_bot.Orchestrator.Invariant.{IsValid}
use dev_bot.Orchestrator.Invariant.Reachable.{Reach-IsValid}
use dev_bot.Orchestrator.Service.{dispatch_next}
use dev_bot.Orchestrator.Fifo.{all_accepted, all_removed, fifo}

abbrev item : WorkItem
item = record {
  thread_id = some 7;
  repo_full_name = "owner/repo";
  number = some "1";
  issue_key = "owner/repo#1";
  workspace_key = "owner/repo#1";
}

abbrev keyless : WorkItem
keyless = record {
  thread_id = some 8;
  repo_full_name = "owner/repo";
  number = some "1";
  issue_key = "";
  workspace_key = "";
}

abbrev queued : State
queued = (enqueue init item).0

abbrev dispatched : State
dispatched = take_next (check_room 2 queued)

abbrev inside : State
inside = start "owner/repo#1" dispatched

Reach-queued : Reach 2 queued
Reach-queued = next here (submit item)

Reach-dispatched : Reach 2 dispatched
unfolding enqueue ensure_started refuses contains check_room Dict.get
Reach-dispatched = next (next Reach-queued (look refl)) (take refl)

Reach-inside : Reach 2 inside
Reach-inside = next Reach-dispatched (begin "owner/repo#1")

-- The key is formatted from the repository and the number where the item carries none.
same_key : item_key keyless ≡ item_key item
unfolding item_key
same_key = refl

runs_once : is_running dispatched 7 ≡ true
unfolding is_running take_next check_room enqueue ensure_started refuses contains item_key Dict.get
    Dict.put
runs_once = refl

Reach-IsValid_example : IsValid 2 inside
Reach-IsValid_example = Reach-IsValid Reach-inside

dispatch_next_example :
    ((take_next (check_room 2 queued)).queue ≡ [])
    × ((take_next (check_room 2 queued)).running
        ≡ drop_ended queued.running
          ++ (item_key item, record { item = item; stage = created }) ∷ [])
    × (contains (take_next (check_room 2 queued)).running_keys (item_key item) ≡ true)
    × (contains (take_next (check_room 2 queued)).queued_keys (item_key item) ≡ false)
unfolding enqueue ensure_started refuses contains item_key Dict.get
dispatch_next_example = dispatch_next item [] Reach-queued (omega arith) refl

fifo_example : all_accepted Reach-dispatched ≡ all_removed Reach-dispatched ++ dispatched.queue
fifo_example = fifo Reach-dispatched
