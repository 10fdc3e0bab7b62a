-- ===== src/Orchestrator/Fifo.antt =====
-- app/orchestrator.py: the queue against the history of what was accepted and what was removed.
use dev_bot.Base.{
  ℕ, String, ◌≡◌, refl, sym, List, [], ◌∷◌, ◌++◌, arith, inl, inr, Bool-cases, if◌then◌else◌,
}
use dev_bot.Base.Eq.{string_eq}
use mathlib.Core.List.{append-nil, append_assoc}
use dev_bot.Orchestrator.{
  WorkItem, State, refuses, enqueue, ensure_started, active_count, check_room, wake, dispatch,
  take_next,
}
use dev_bot.Orchestrator.Tasks.{Outcome, start, finish}
use dev_bot.Orchestrator.Steps.{
  Step, submit, count, look, awake, take, begin, conclude, shut_down, Reach, here, next,
}
use dev_bot.Orchestrator.Invariant.Running.{drain-IsQuiet}

abbrev first : List WorkItem → List WorkItem
first [] = []
first (item ∷ items) = item ∷ []

-- The items that a step accepts, and those that it takes out of the queue: `take` removes the first,
-- and `drain` all of them.
abbrev pub accepted : {max : ℕ} {s t : State} → Step max s t → List WorkItem
accepted {s = s} (submit item) = if refuses s item then [] else item ∷ []
accepted _ = []

abbrev pub removed : {max : ℕ} {s t : State} → Step max s t → List WorkItem
removed {s = s} (take h) = first s.queue
removed {s = s} (shut_down answer) = s.queue
removed _ = []

abbrev pub all_accepted : {max : ℕ} {s : State} → Reach max s → List WorkItem
all_accepted here = []
all_accepted (next r step) = all_accepted r ++ accepted step

abbrev pub all_removed : {max : ℕ} {s : State} → Reach max s → List WorkItem
all_removed here = []
all_removed (next r step) = all_removed r ++ removed step

enqueue-queue :
    (s : State) (item : WorkItem)
    → (enqueue s item).0.queue ≡ s.queue ++ (if refuses s item then [] else item ∷ [])
unfolding enqueue ensure_started
enqueue-queue s item = elim (Bool-cases (refuses s item)) [
  | inl no_change ↦ rw no_change (sym (append-nil s.queue))
  | inr accepting ↦ rw accepting (ground arith)
]

check_room-queue : (max : ℕ) (s : State) → (check_room max s).queue ≡ s.queue
unfolding check_room
check_room-queue max s = ground arith

take_next-queue : (s : State) → first s.queue ++ (take_next s).queue ≡ s.queue
unfolding take_next dispatch
take_next-queue s = ground arith

start-queue : (k : String) (s : State) → (start k s).queue ≡ s.queue
unfolding start
start-queue k s = ground arith

finish-queue : (k : String) (outcome : Outcome) (s : State) → (finish k outcome s).queue ≡ s.queue
unfolding finish
finish-queue k outcome s = ground arith

Step-queue :
    {max : ℕ} {s t : State} (step : Step max s t)
    → s.queue ++ accepted step ≡ removed step ++ t.queue
Step-queue {s = s} (submit item) = sym (enqueue-queue s item)
Step-queue {s = s} count = rw append-nil (unfold active_count in refl)
Step-queue {max} {s} (look h) = rw (append-nil, check_room-queue max s) refl
Step-queue {s = s} (awake h) = rw append-nil (unfold wake in refl)
Step-queue {s = s} (take h) = rw append-nil (sym (take_next-queue s))
Step-queue {s = s} (begin k) = rw (append-nil, start-queue k s) refl
Step-queue {s = s} (conclude k outcome) = rw (append-nil, finish-queue k outcome s) refl
Step-queue {s = s} (shut_down answer) = rw (drain-IsQuiet answer s).queue refl

-- In every reachable state the accepted items, in the order of their acceptance, are those removed
-- so far, in the order of their removal, followed by the queue: the dispatcher loses, repeats and
-- reorders none.
pub fifo : {max : ℕ} {s : State} (r : Reach max s) → all_accepted r ≡ all_removed r ++ s.queue
fifo here = refl
fifo {s = t} (next {s} r step) = rw (fifo r, append_assoc, Step-queue step, ← append_assoc) refl
