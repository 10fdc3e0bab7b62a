-- ===== src/Orchestrator/Invariant.antt =====
-- The invariant of the orchestrator's bookkeeping: what relates `_queue`, `_queued_keys`,
-- `_queued_thread_ids`, `_running` and `_running_keys`.
pub mod Ended
pub mod Queue
pub mod Dispatch
pub mod Running
pub mod Reachable
use dev_bot.Base.{
  ℕ, zero, ◌≤◌, ◌<◌, String, ◌≡◌, Option, none, some, false, List, [], ◌∷◌, ◌++◌, map,
}
use dev_bot.Base.Lists.{length}
use dev_bot.Base.Eq.{nat_eq, string_eq}
use dev_bot.Base.Sets.{Distinct, Disjoint}
use dev_bot.Base.Dict.{Dict, keys, Entries}
use dev_bot.Orchestrator.{WorkItem, Task, Dispatcher, waiting, State, init, item_key, is_done}

abbrev pub at_most_one : Option ℕ → List ℕ
at_most_one none = []
at_most_one (some t) = t ∷ []

abbrev pub thread_ids : List WorkItem → List ℕ
thread_ids [] = []
thread_ids (item ∷ items) = at_most_one item.thread_id ++ thread_ids items

abbrev pub HasRoom : Dispatcher → ℕ → ℕ → Type 0
HasRoom waiting n max = n < max
HasRoom _ n max = Unit

-- The task under a key belongs to an item with this key.
abbrev pub Keyed : String → Task → Type 0
Keyed k t = item_key t.item ≡ k

-- The task has not ended.
abbrev pub IsAlive : String → Task → Type 0
IsAlive k t = is_done t.stage ≡ false

pub record IsValid (max : ℕ) (s : State) : Type 0 where
  pub keys_queued : s.queued_keys ≡ map item_key s.queue
  pub threads_queued : s.queued_thread_ids ≡ thread_ids s.queue
  pub keys_distinct : Distinct s.queued_keys
  pub threads_distinct : Distinct s.queued_thread_ids
  pub apart : Disjoint s.queued_keys s.running_keys
  pub tracked : s.running_keys ≡ keys s.running
  pub running_distinct : Distinct (keys s.running)
  pub keyed : Entries Keyed s.running
  pub alive : Entries IsAlive s.running
  pub bounded : length s.running ≤ max
  pub room : HasRoom s.dispatcher (length s.running) max
