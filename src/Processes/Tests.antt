-- ===== src/Processes/Tests.antt =====
-- The process registry on concrete input.
use dev_bot.Base.{ℕ, ◌≡◌, refl, Option, none, some, [], nat_beq, if◌then◌else◌}
use dev_bot.Base.Eq.{string_eq}
use dev_bot.Base.Dict
use dev_bot.Base.Lists.{any}
use dev_bot.Processes.{
  ProcessRecord, ProcessRegistry, SignalOutcome, delivered, process_lookup_error, load_all,
  without_type, new_record, register, active_records, is_active,
}
use dev_bot.Processes.Live.{is_active_lem, runs}

abbrev empty_registry : ProcessRegistry
empty_registry = record { records = []; legacy = [] }

abbrev own_group : ℕ → Option ℕ
own_group pid = some pid

abbrev planner_started : ProcessRegistry
planner_started = register own_group "o/r#1" "run-1" 41 "planner" empty_registry

-- Process 41 has ended, the others run.
abbrev outcome : ℕ → SignalOutcome
outcome pid = if nat_beq pid 41 then process_lookup_error else delivered

abbrev both_started : ProcessRegistry
both_started = register own_group "o/r#1" "run-1" 42 "codex" planner_started

no_legacy : Dict.get both_started.legacy "o/r#1" ≡ none
unfolding register Dict.get dev_bot.Processes.write_records
no_legacy = refl

is_active_lem_example :
    ((is_active outcome outcome "o/r#1" both_started).0
      ≡ any (runs outcome outcome) (load_all both_started "o/r#1"))
    × (load_all (is_active outcome outcome "o/r#1" both_started).1 "o/r#1"
        ≡ active_records outcome outcome (load_all both_started "o/r#1"))
is_active_lem_example = is_active_lem outcome outcome "o/r#1" both_started no_legacy
