-- ===== src/Orchestrator/Invariant/Reachable.antt =====
-- app/orchestrator.py: the invariant over the steps of the system.
use dev_bot.Base.{ℕ, refl, arith}
use dev_bot.Base.Eq.{nat_eq, string_eq}
use dev_bot.Orchestrator.{State, init}
use dev_bot.Orchestrator.Steps.{
  Step, submit, count, look, awake, take, begin, conclude, shut_down, Reach, here, next,
}
use dev_bot.Orchestrator.Invariant.{IsValid}
use dev_bot.Orchestrator.Invariant.Queue.{enqueue-IsValid}
use dev_bot.Orchestrator.Invariant.Dispatch.{
  active_count-IsValid, check_room-IsValid, wake-IsValid, take_next-IsValid,
}
use dev_bot.Orchestrator.Invariant.Running.{start-IsValid, finish-IsValid, drain-IsValid}

init-IsValid : (max : ℕ) → IsValid max init
init-IsValid max = record {
  keys_queued = refl;
  threads_queued = refl;
  keys_distinct = tt;
  threads_distinct = tt;
  apart = tt;
  tracked = refl;
  running_distinct = tt;
  keyed = tt;
  alive = tt;
  bounded = omega arith;
  room = tt;
}

Step-IsValid : {max : ℕ} {s t : State} → Step max s t → IsValid max s → IsValid max t
Step-IsValid {s} (submit item) v = enqueue-IsValid s item v
Step-IsValid {s} count v = active_count-IsValid s v
Step-IsValid {s} (look h) v = check_room-IsValid s v
Step-IsValid {s} (awake h) v = wake-IsValid s v
Step-IsValid {s} (take h) v = take_next-IsValid s v h
Step-IsValid {s} (begin k) v = start-IsValid k s v
Step-IsValid {s} (conclude k outcome) v = finish-IsValid k outcome s v
Step-IsValid {s} (shut_down answer) v = drain-IsValid answer s

-- Whatever calls and task steps are made, in any order, from the initial state: the queued keys and
-- threads are exactly those of the queued items and have no duplicates, no queued key is a running
-- one, `_running_keys` holds exactly the keys of `_running`, each once, every entry of `_running`
-- stands under its item's key and has not ended, and at most `max` tasks run.
pub Reach-IsValid : {max : ℕ} {s : State} → Reach max s → IsValid max s
Reach-IsValid {max} here = init-IsValid max
Reach-IsValid (next r step) = Step-IsValid step (Reach-IsValid r)
