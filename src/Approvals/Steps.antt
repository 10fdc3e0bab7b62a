-- ===== src/Approvals/Steps.antt =====
-- app/approvals.py: the operations of the coordinator in any order, and the answers that they deliver.
use dev_bot.Base.{ℕ, String, Bool, Option, none, some, List, [], ◌∷◌, ◌++◌, if◌then◌else◌}
use dev_bot.Base.Eq.{nat_eq, string_eq, ◌==◌}
use dev_bot.Base.Dict
use dev_bot.Base.Dict.{Dict}
use dev_bot.Approvals.{Coordinator, create_request, register_restored_request, expire, resolve}

-- One operation of the coordinator, or the timeout of a wait.
pub data Step : Coordinator → Coordinator → Type 0 where
  requested :
      (s : Coordinator) (thread_id : ℕ) (run_id tool_name input_text reason now : String)
      → Step s (create_request thread_id run_id tool_name input_text reason now s)
  restored : (s : Coordinator) (thread_id : ℕ) → Step s (register_restored_request thread_id s)
  timed_out : (s : Coordinator) (thread_id n : ℕ) (now : String) → Step s (expire thread_id n now s)
  resolved :
      (s : Coordinator) (thread_id : ℕ) (approved : Bool) (actor now : String)
      → Step s (resolve thread_id approved actor now s).0

pub data Steps : Coordinator → Coordinator → Type 0 where
  stay : (s : Coordinator) → Steps s s
  then_ : {s t u : Coordinator} → Steps s t → Step t u → Steps s u

-- The thread of an operation.
abbrev pub thread_of : {s t : Coordinator} → Step s t → ℕ
thread_of (requested s thread_id run_id tool_name input_text reason now) = thread_id
thread_of (restored s thread_id) = thread_id
thread_of (timed_out s thread_id n now) = thread_id
thread_of (resolved s thread_id approved actor now) = thread_id

-- What a caller of `resolve` is told of its answer: with "resolved", that the pending future has it.
abbrev pub told : String → Option ℕ → Bool → List (ℕ × Bool)
told reply none approved = []
told reply (some n) approved = if reply == "resolved" then (n, approved) ∷ [] else []

abbrev pub answer : {s t : Coordinator} → Step s t → List (ℕ × Bool)
answer (resolved s thread_id approved actor now) =
    told (resolve thread_id approved actor now s).1 (Dict.get s.pending thread_id) approved
answer _ = []

-- The futures and their answers, as the callers of `resolve` were told, in their order.
abbrev pub answers : {s t : Coordinator} → Steps s t → List (ℕ × Bool)
answers (stay s) = []
answers (then_ steps step) = answers steps ++ answer step
