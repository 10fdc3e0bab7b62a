-- ===== src/StateStore/Runs.antt =====
-- app/state_store.py: runs and attempts.
use Prim.Native.Char.{code}
use Prim.Native.String.{◌++◌ as str_append}
use dev_bot.Base.{
  ℕ, ◌+◌, String, Bool, true, false, ◌&&◌, Option, none, some, [], ◌∷◌, nat_beq, ltb, leb,
  if◌then◌else◌,
}
use dev_bot.Base.Eq.{string_eq, nat_eq}
use dev_bot.Base.Dict
use dev_bot.Base.Text.{is_empty, show}
use dev_bot.Base.Action.{pure, gets, modify, or_raise, ◌>>=◌, ◌>>◌}
use dev_bot.StateStore.{
  FileStateStore, Op, value_error, Meta, text, number, object, Identifier, thread, key, get_text,
  get_int, int_of, resolve_entity_key, load_meta, issue_dir, entity_dir, in_dir, update_meta,
}
use dev_bot.StateStore.Files.{put_file, current_attempt_id, execution_run_dir}
use dev_bot.StateStore.Keys.{is_issue_key}
use dev_bot.StateStore.Binding.{create_draft}

pub record RunMeta : Type 0 where
  pub thread_id : String
  pub parent_message_id : String
  pub channel_id : String
  pub issue_key : String
  pub created_at : String
  pub status : String
  pub current_run_id : String
  pub attempt_count : ℕ

abbrev pub keep_issue : ℕ → String → FileStateStore → FileStateStore
keep_issue thread_id issue_key s =
    if is_empty issue_key
    then s
    else update_meta (thread thread_id) (("issue_key", text issue_key) ∷ []) s

unfoldable pub create_run : String → ℕ → ℕ → ℕ → String → FileStateStore → RunMeta × FileStateStore
create_run now thread_id parent_message_id channel_id issue_key s = (
  record {
    thread_id = show thread_id;
    parent_message_id = show parent_message_id;
    channel_id = show channel_id;
    issue_key = issue_key;
    created_at = now;
    status = "draft";
    current_run_id = "";
    attempt_count = 0;
  },
  keep_issue thread_id issue_key
      (create_draft now thread_id parent_message_id channel_id "draft" s),
)

-- An issue with an attempt at hand counts its attempts, not its runs.
abbrev pub counted_attempts : FileStateStore → String → ℕ → ℕ
counted_attempts s entity_key attempt_count =
    if is_issue_key entity_key && has_attempt (Dict.get s.attempts (issue_dir entity_key))
    then attempt_count
    else attempt_count + 1
  where
    has_attempt : Option String → Bool
    has_attempt none = false
    has_attempt (some _) = true

abbrev pub run_thread : Identifier → Meta → String
run_thread (thread n) meta = show n
run_thread (key s) meta = get_text meta "thread_id" ""

abbrev pub run_payload : String → String → String → String → Meta
run_payload run_id now issue_key thread_id =
    ("run_id", text run_id)
    ∷ ("created_at", text now)
    ∷ ("issue_key", text issue_key)
    ∷ ("thread_id", text thread_id)
    ∷ []

-- `run_id` is the time of the call, `now` that of the record. Making directories is left out.
unfoldable pub create_execution_run : String → String → Identifier → Op String
create_execution_run run_id now identifier = do
  entity_key ← gets (λ s. resolve_entity_key s identifier)
  meta ← gets (λ s. load_meta s (key entity_key))
  attempt_count ← or_raise (get_int meta "attempt_count") value_error
  modify (λ s.
      update_meta (key entity_key)
        (("current_run_id", text run_id)
          ∷ ("attempt_count", number (counted_attempts s entity_key attempt_count))
          ∷ [])
        s)
  modify (λ s.
      put_file (in_dir (execution_run_dir s (key entity_key) run_id) "meta.json")
        (object (
          run_payload run_id now (if is_issue_key entity_key then entity_key else "")
            (run_thread identifier meta)))
        s)
  pure run_id

-- current.removeprefix("att-"), where it starts so
abbrev pub after_prefix : String → String → Option String
after_prefix String.[] s = some s
after_prefix (String.◌∷◌ p ps) String.[] = none
after_prefix (String.◌∷◌ p ps) (String.◌∷◌ c s) =
    let rest = after_prefix ps s in if nat_beq (code p) (code c) then rest else none

abbrev pub next_of : Option ℕ → ℕ
next_of none = 1
next_of (some n) = n + 1

abbrev pub next_index_of : Option String → ℕ
next_index_of none = 1
next_index_of (some digits) = next_of (int_of digits)

unfoldable pub next_index : String → ℕ
next_index current = next_index_of (after_prefix "att-" current)

-- f"att-{n:03d}"
unfoldable pub attempt_name : ℕ → String
attempt_name n = str_append "att-" (
    if ltb n 10
    then str_append "00" (show n)
    else if ltb n 100
    then str_append "0" (show n)
    else show n)

abbrev pub put_attempt : String → String → FileStateStore → FileStateStore
put_attempt entity_key attempt_id s = record s {
  attempts = Dict.put s.attempts (entity_dir s (key entity_key)) attempt_id;
}

abbrev max : ℕ → ℕ → ℕ
max a b = if leb a b then b else a

unfoldable pub create_attempt : Identifier → Op String
create_attempt identifier = do
  entity_key ← gets (λ s. resolve_entity_key s identifier)
  current ← gets (λ s. current_attempt_id s (key entity_key))
  modify (put_attempt entity_key (attempt_name (next_index current)))
  meta ← gets (λ s. load_meta s (key entity_key))
  attempt_count ← or_raise (get_int meta "attempt_count") value_error
  modify (
      update_meta (key entity_key) (
        ("current_attempt_id", text (attempt_name (next_index current)))
        ∷ ("attempt_count", number (max attempt_count (next_index current)))
        ∷ []))
  pure (attempt_name (next_index current))
