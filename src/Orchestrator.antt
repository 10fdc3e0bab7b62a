-- ===== src/Orchestrator.antt =====
-- app/orchestrator.py: the run queue, its dispatcher and the running tasks. Each part of a method
-- between two awaits that can suspend is one function on the state.
pub mod Tasks
pub mod Steps
pub mod Invariant
pub mod Service
pub mod Fifo
mod Tests
use Prim.Native.String
use dev_bot.Base.{
  ℕ, zero, String, Bool, true, false, ◌&&◌, ◌||◌, not, Option, none, some, List, [], ◌∷◌, ◌++◌, leb,
  if◌then◌else◌,
}
use dev_bot.Base.Lists.{length}
use dev_bot.Base.Eq.{nat_eq, string_eq}
use dev_bot.Base.Sets.{contains, add, discard}
use dev_bot.Base.Dict
use dev_bot.Base.Dict.{Dict}
use dev_bot.Base.Text.{or_else, is_empty, show}

-- `number` is the text of `issue["number"]`, or none where the key is missing.
pub record WorkItem : Type 0 where
  pub thread_id : Option ℕ
  pub repo_full_name : String
  pub number : Option String
  pub issue_key : String
  pub workspace_key : String

-- The identifier that a call of the state store takes: a key (str) or a thread (int).
pub data Target : Type 0 where
  key : String → Target
  thread : ℕ → Target

-- The calls of the state store, in the order in which they are made. A failure is recorded with its
-- stage, its message and the two details, `repo` and `issue_key`.
pub data StoreCall : Type 0 where
  set_runtime_status set_status : Target → String → StoreCall
  record_failure : Target → String → String → String → String → StoreCall

-- A task that is created but has not run yet, one inside the executor, and one that has ended.
pub data Stage : Type 0 where
  created started ended : Stage

pub record Task : Type 0 where
  pub item : WorkItem
  pub stage : Stage

-- Where `_dispatch_loop` stands: not running, at the top of its loop, in `sleep`, in `queue.get`.
pub data Dispatcher : Type 0 where
  stopped checking sleeping waiting : Dispatcher

pub record State : Type 0 where
  pub queue : List WorkItem
  pub running : Dict String Task
  pub running_keys : List String
  pub queued_thread_ids : List ℕ
  pub queued_keys : List String
  pub thread_to_key : Dict ℕ String
  pub dispatcher : Dispatcher
  pub calls : List StoreCall

abbrev pub init : State
init = record {
  queue = [];
  running = [];
  running_keys = [];
  queued_thread_ids = [];
  queued_keys = [];
  thread_to_key = [];
  dispatcher = stopped;
  calls = [];
}

-- str of an optional number
abbrev show_thread : Option ℕ → String
show_thread none = "None"
show_thread (some t) = show t

abbrev number_or_thread : Option String → Option ℕ → String
number_or_thread none t = show_thread t
number_or_thread (some n) t = n

unfoldable pub item_key : WorkItem → String
unfolding or_else
item_key item = or_else item.issue_key (
    or_else item.workspace_key (
      String.◌++◌ item.repo_full_name
        (String.◌++◌ "#" (number_or_thread item.number item.thread_id))))

abbrev pub is_done : Stage → Bool
is_done ended = true
is_done _ = false

abbrev pub live : Option Task → Bool
live none = false
live (some t) = not (is_done t.stage)

unfoldable pub is_key_running : State → String → Bool
is_key_running s k = live (Dict.get s.running k)

-- The guard on the thread in `enqueue`.
abbrev pub thread_queued : List ℕ → Option ℕ → Bool
thread_queued ts none = false
thread_queued ts (some t) = contains ts t

abbrev pub thread_running : State → Option ℕ → String → Bool
thread_running s none k = false
thread_running s (some t) k = is_key_running s k

unfoldable pub refuses : State → WorkItem → Bool
unfolding is_key_running
refuses s item =
    let k = item_key item in
    thread_queued s.queued_thread_ids item.thread_id
    || contains s.running_keys k
    || contains s.queued_keys k
    || thread_running s item.thread_id k

abbrev pub key_or : String → Target → Target
key_or k t = if is_empty k then t else key k

abbrev pub add_thread : List ℕ → Option ℕ → List ℕ
add_thread ts none = ts
add_thread ts (some t) = add ts t

abbrev pub map_thread : Dict ℕ String → Option ℕ → String → Dict ℕ String
map_thread d none k = d
map_thread d (some t) k = Dict.put d t k

-- The target of the "queued" mark.
abbrev queued_target : WorkItem → Target
queued_target item = elim item.thread_id [
  | none ↦ key (or_else item.issue_key item.workspace_key)
  | some t ↦ key_or item.issue_key (thread t)
]

abbrev pub is_stopped : Dispatcher → Bool
is_stopped stopped = true
is_stopped _ = false

unfoldable pub ensure_started : State → State
ensure_started s = if is_stopped s.dispatcher then record s { dispatcher = checking } else s

-- The queue has no bound, so `put` does not suspend, and the method is one step.
unfoldable pub enqueue : State → WorkItem → State × Bool
enqueue s item = if refuses s item then (s, false) else (
  ensure_started (record s {
    queue = s.queue ++ item ∷ [];
    queued_thread_ids = add_thread s.queued_thread_ids item.thread_id;
    queued_keys = add s.queued_keys (item_key item);
    thread_to_key = map_thread s.thread_to_key item.thread_id (item_key item);
    calls = s.calls ++ set_runtime_status (queued_target item) "queued" ∷ [];
  }),
  true,
)

-- `restore`: a refused item does not stop the loop.
unfoldable pub restore : State → List WorkItem → State
restore s [] = s
restore s (item ∷ items) = restore (enqueue s item).0 items

unfoldable pub is_running : State → ℕ → Bool
unfolding is_key_running
is_running s t = elim (Dict.get s.thread_to_key t) [
  | none ↦ false
  | some k ↦ not (is_empty k) && is_key_running s k
]

unfoldable pub is_queued : State → ℕ → Bool
is_queued s t = contains s.queued_thread_ids t

unfoldable pub pending_count : State → ℕ
pending_count s = length s.queue

unfoldable pub drop_ended : Dict String Task → Dict String Task
drop_ended [] = []
drop_ended ((k, t) ∷ d) = let rest = drop_ended d in if is_done t.stage then rest else (k, t) ∷ rest

unfoldable pub cleanup_finished : State → State
unfolding drop_ended
cleanup_finished s = record s { running = drop_ended s.running }

unfoldable pub active_count : State → State × ℕ
unfolding cleanup_finished
active_count s = let s' = cleanup_finished s in (s', length s'.running)

-- The test at the top of `_dispatch_loop`.
unfoldable pub check_room : ℕ → State → State
check_room max s =
    if leb max (length s.running)
    then record s { dispatcher = sleeping }
    else record s { dispatcher = waiting }

-- After `sleep(1)`.
unfoldable pub wake : State → State
unfolding cleanup_finished
wake s = record (cleanup_finished s) { dispatcher = checking }

abbrev pub drop_thread : List ℕ → Option ℕ → List ℕ
drop_thread ts none = ts
drop_thread ts (some t) = discard ts t

-- `item.thread_id or item_key`: thread 0 is false
abbrev thread_or_key : Option ℕ → String → Target
thread_or_key none k = key k
thread_or_key (some zero) k = key k
thread_or_key (some t) k = thread t

unfoldable pub dispatch_target : WorkItem → Target
dispatch_target item =
    key_or item.issue_key (key_or item.workspace_key (thread_or_key item.thread_id (item_key item)))

-- The rest of the loop's round, once `queue.get` has returned an item.
unfoldable pub dispatch : WorkItem → List WorkItem → State → State
unfolding cleanup_finished dispatch_target
dispatch item rest s =
    let k = item_key item in
    let s' = cleanup_finished s in
    record s' {
      queue = rest;
      running = Dict.put s'.running k (record { item = item; stage = created });
      running_keys = add s'.running_keys k;
      queued_thread_ids = drop_thread s'.queued_thread_ids item.thread_id;
      queued_keys = discard s'.queued_keys k;
      thread_to_key = map_thread s'.thread_to_key item.thread_id k;
      dispatcher = checking;
      calls = s'.calls ++ set_runtime_status (dispatch_target item) "running" ∷ [];
    }

-- `queue.get` waits while the queue is empty.
unfoldable pub take_next : State → State
unfolding dispatch
take_next s = elim s.queue [ [] ↦ s | item ∷ rest ↦ dispatch item rest s ]
