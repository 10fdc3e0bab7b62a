-- ===== src/Orchestrator/Invariant/Ended.antt =====
-- app/orchestrator.py: `_cleanup_finished` and the invariant.
use dev_bot.Base.{String, ◌≡◌, refl, ap, [], ◌∷◌}
use dev_bot.Base.Eq.{string_eq}
use dev_bot.Base.Dict.{Dict, Entries}
use dev_bot.Orchestrator.{Task, drop_ended}
use dev_bot.Orchestrator.Invariant.{IsAlive}

-- Where no task has ended, none is dropped.
pub drop_ended_of_alive : (d : Dict String Task) → Entries IsAlive d → drop_ended d ≡ d
unfolding drop_ended
drop_ended_of_alive [] h = refl
drop_ended_of_alive ((k, t) ∷ d) h = rw h.0 (ap (λ rest. (k, t) ∷ rest) (drop_ended_of_alive d h.1))
