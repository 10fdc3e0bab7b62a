-- ===== src/Processes.antt =====
-- app/process_registry.py: the processes of an issue that runners started.
--
-- The operating system is a parameter: the group of a process, and what comes of a signal to a group or to a
-- process. A field that is no number counts as 0.
pub mod Live
mod Tests
use dev_bot.Base.{
  ℕ, zero, suc, String, Bool, true, false, not, ◌&&◌, ◌||◌, Option, none, some, List, [], ◌∷◌, ◌++◌,
  ltb, nat_beq, if◌then◌else◌,
}
use dev_bot.Base.Eq.{string_eq, ◌==◌}
use dev_bot.Base.Dict
use dev_bot.Base.Dict.{Dict}
use dev_bot.Base.Lists.{length}
use dev_bot.Base.Result.{Result, ok, err}
use dev_bot.StateStore.Keys.{safe_issue_key}

pub record ProcessRecord : Type 0 where
  pub issue_key : String
  pub run_id : String
  pub pid : ℕ
  pub pgid : ℕ
  pub runner_type : String

-- A file holds one record, or a dict with a list of them.
pub data RecordFile : Type 0 where
  one : ProcessRecord → RecordFile
  many : List ProcessRecord → RecordFile

-- `records` is keyed by the safe key of the issue, `legacy` by the issue's key.
pub record ProcessRegistry : Type 0 where
  pub records : Dict String RecordFile
  pub legacy : Dict String ProcessRecord

-- What `os.kill` or `os.killpg` comes to.
pub data SignalOutcome : Type 0 where
  delivered process_lookup_error permission_error : SignalOutcome

-- What is left of the records of another type.
unfoldable pub without_type : String → List ProcessRecord → List ProcessRecord
without_type runner_type [] = []
without_type runner_type (r ∷ rs) =
    let rest = without_type runner_type rs in
    if r.runner_type == runner_type then rest else r ∷ rest

abbrev pub in_file : RecordFile → List ProcessRecord
in_file (one r) = r ∷ []
in_file (many rs) = rs

abbrev pub in_legacy : Option ProcessRecord → List ProcessRecord
in_legacy none = []
in_legacy (some r) = r ∷ []

abbrev pub in_either : Option RecordFile → Option ProcessRecord → List ProcessRecord
in_either none older = in_legacy older
in_either (some file) older = in_file file

unfoldable pub load_all : ProcessRegistry → String → List ProcessRecord
load_all s key = in_either (Dict.get s.records (safe_issue_key key)) (Dict.get s.legacy key)

abbrev latest : List ProcessRecord → Option ProcessRecord
latest [] = none
latest (r ∷ []) = some r
latest (r ∷ next ∷ rs) = latest (next ∷ rs)

-- `none` is the empty dict.
unfoldable pub load : ProcessRegistry → String → Option ProcessRecord
load s key = elim (Dict.get s.records (safe_issue_key key)) [
  | none ↦ Dict.get s.legacy key
  | some file ↦ latest (in_file file)
]

abbrev pub file_of : List ProcessRecord → RecordFile
file_of [] = many []
file_of (r ∷ []) = one r
file_of (r ∷ next ∷ rs) = many (r ∷ next ∷ rs)

unfoldable pub write_records : String → List ProcessRecord → ProcessRegistry → ProcessRegistry
write_records key rs s = record s { records = Dict.put s.records (safe_issue_key key) (file_of rs) }

abbrev pub or_pid : Option ℕ → ℕ → ℕ
or_pid none pid = pid
or_pid (some pgid) pid = pgid

-- `getpgid` is `none` where it raises an OSError.
abbrev pub new_record : (ℕ → Option ℕ) → String → String → ℕ → String → ProcessRecord
new_record getpgid key run_id pid runner_type = record {
  issue_key = key;
  run_id = run_id;
  pid = pid;
  pgid = or_pid (getpgid pid) pid;
  runner_type = runner_type;
}

unfoldable pub register :
    (ℕ → Option ℕ) → String → String → ℕ → String → ProcessRegistry → ProcessRegistry
register getpgid key run_id pid runner_type s =
    write_records key
      (without_type runner_type (load_all s key)
        ++ new_record getpgid key run_id pid runner_type ∷ [])
      s

abbrev pub unlink : String → ProcessRegistry → ProcessRegistry
unlink key s = record s { records = Dict.remove s.records (safe_issue_key key) }

abbrev pub write_remaining : String → List ProcessRecord → ProcessRegistry → ProcessRegistry
write_remaining key [] s = unlink key s
write_remaining key (r ∷ rs) s = write_records key (r ∷ rs) s

abbrev pub drop_type : String → Option String → ProcessRegistry → ProcessRegistry
drop_type key none s = unlink key s
drop_type key (some runner_type) s =
    write_remaining key (without_type runner_type (load_all s key)) s

abbrev pub unregister_file :
    String → Option String → ProcessRegistry → Option RecordFile → ProcessRegistry
unregister_file key runner_type s none = s
unregister_file key runner_type s (some file) = drop_type key runner_type s

unfoldable pub unregister : String → Option String → ProcessRegistry → ProcessRegistry
unregister key runner_type s =
    unregister_file key runner_type s (Dict.get s.records (safe_issue_key key))

module _ (killpg kill : ℕ → SignalOutcome) where
  -- What the signal comes to; `none` where the record names no process.
  unfoldable pub signal : ProcessRecord → Option SignalOutcome
  signal r =
      if ltb 0 r.pgid then some (killpg r.pgid) else if ltb 0 r.pid then some (kill r.pid) else none

abbrev pub is_found : Option SignalOutcome → Bool
is_found none = false
is_found (some delivered) = true
is_found (some process_lookup_error) = false
is_found (some permission_error) = true

module _ (killpg kill : ℕ → SignalOutcome) where
  -- A process that may not be signalled is one that runs.
  unfoldable pub active_records : List ProcessRecord → List ProcessRecord
  active_records [] = []
  active_records (r ∷ rs) =
      let rest = active_records rs in if is_found (signal killpg kill r) then r ∷ rest else rest

  abbrev pub keep_active :
      String → List ProcessRecord → List ProcessRecord → ProcessRegistry → Bool × ProcessRegistry
  keep_active key payloads [] s = (false, unregister key none s)
  keep_active key payloads (r ∷ rs) s = (
    true,
    if nat_beq (length (r ∷ rs)) (length payloads) then s else write_records key (r ∷ rs) s,
  )

  abbrev pub is_active_of : String → List ProcessRecord → ProcessRegistry → Bool × ProcessRegistry
  is_active_of key [] s = (false, s)
  is_active_of key (r ∷ rs) s = keep_active key (r ∷ rs) (active_records (r ∷ rs)) s

  unfoldable pub is_active : String → ProcessRegistry → Bool × ProcessRegistry
  is_active key s = is_active_of key (load_all s key) s

-- What the loop of `terminate` makes of the outcome; a PermissionError is not caught.
abbrev pub go_through :
    Option SignalOutcome → Bool → Result SignalOutcome Bool → Result SignalOutcome Bool
go_through none stopped rest = rest
go_through (some delivered) stopped rest = rest
go_through (some process_lookup_error) stopped rest = rest
go_through (some permission_error) stopped rest = err permission_error

module _ (killpg kill : ℕ → SignalOutcome) where
  abbrev pub was_delivered : Option SignalOutcome → Bool
  was_delivered none = false
  was_delivered (some delivered) = true
  was_delivered (some process_lookup_error) = false
  was_delivered (some permission_error) = false

  unfoldable pub send_all : List ProcessRecord → Bool → Result SignalOutcome Bool
  send_all [] stopped = ok stopped
  send_all (r ∷ rs) stopped =
      let rest = send_all rs (stopped || was_delivered (signal killpg kill r)) in
      go_through (signal killpg kill r) stopped rest

  abbrev pub end_all :
      String
      → Result SignalOutcome Bool
      → ProcessRegistry
      → Result SignalOutcome Bool × ProcessRegistry
  end_all key (ok stopped) s = (ok stopped, unregister key none s)
  end_all key (err why) s = (err why, s)

  abbrev pub terminate_of :
      String → List ProcessRecord → ProcessRegistry → Result SignalOutcome Bool × ProcessRegistry
  terminate_of key [] s = (ok false, s)
  terminate_of key (r ∷ rs) s = end_all key (send_all (r ∷ rs) false) s

  unfoldable pub terminate : String → ProcessRegistry → Result SignalOutcome Bool × ProcessRegistry
  terminate key s = terminate_of key (load_all s key) s
