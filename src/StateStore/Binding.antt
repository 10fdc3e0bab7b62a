-- ===== src/StateStore/Binding.antt =====
-- app/state_store.py: drafts and records of issues, and the binding of a thread to an issue.
use dev_bot.Base.{
  ℕ, String, Bool, true, false, not, ◌&&◌, Option, none, some, List, [], ◌∷◌, nat_beq,
  if◌then◌else◌,
}
use dev_bot.Base.Eq.{string_eq, nat_eq, ◌==◌}
use dev_bot.Base.Dict
use dev_bot.Base.Text.{is_empty, strip, show}
use dev_bot.Base.Join.{concat}
use dev_bot.Base.Action.{pure, gets, modify, raise_if, or_raise, ◌>>=◌, ◌>>◌}
use dev_bot.StateStore.{
  FileStateStore, Op, Error, runtime_error, value_error, Meta, text, number, Document, Line,
  load_draft_meta, load_issue_meta, issue_key_for_thread, get_text, get_filled, get_number,
  issue_dir, draft_dir, in_dir, update_issue_meta, update_draft_meta,
}
use dev_bot.StateStore.Keys.{safe_issue_key, split_issue_key}

-- `now` is the time of the creation.
unfoldable pub create_draft : String → ℕ → ℕ → ℕ → String → FileStateStore → FileStateStore
create_draft now thread_id parent_message_id channel_id status s = record s {
  draft_metas = Dict.put s.draft_metas (show thread_id) (
      ("draft_id", text (show thread_id))
      ∷ ("thread_id", text (show thread_id))
      ∷ ("parent_message_id", text (show parent_message_id))
      ∷ ("channel_id", text (show channel_id))
      ∷ ("created_at", text now)
      ∷ ("status", text status)
      ∷ ("issue_key", text "")
      ∷ ("current_run_id", text "")
      ∷ ("attempt_count", number 0)
      ∷ []);
}

abbrev pub is_empty_meta : Meta → Bool
is_empty_meta [] = true
is_empty_meta (_ ∷ _) = false

-- What a draft takes over from the record of its issue.
abbrev pub create_missing_draft : String → ℕ → Meta → Op (Unit {0})
create_missing_draft now thread_id issue_meta = do
  parent_message_id ← or_raise (get_number issue_meta "parent_message_id") value_error
  channel_id ← or_raise (get_number issue_meta "channel_id") value_error
  modify (
      create_draft now thread_id parent_message_id channel_id
        (get_filled issue_meta "status" "collecting_requirements"))

unfoldable pub draft_of_issue : String → ℕ → Meta → Op (Unit {0})
draft_of_issue now thread_id issue_meta s =
    if is_empty_meta (load_draft_meta s (show thread_id))
    then create_missing_draft now thread_id issue_meta s
    else pure tt s

abbrev pub put_binding : ℕ → String → FileStateStore → FileStateStore
put_binding thread_id issue_key s = record s { bindings = Dict.put s.bindings thread_id issue_key }

-- What `bind_thread` does once it found that the thread and the issue are free for each other.
unfoldable pub write_binding : String → ℕ → String → Meta → Op (Unit {0})
write_binding now thread_id issue_key issue_meta = do
  modify (put_binding thread_id issue_key)
  draft_of_issue now thread_id issue_meta
  modify (λ s.
      if is_empty_meta issue_meta
      then s
      else update_issue_meta issue_key (("thread_id", text (show thread_id)) ∷ []) s)
  modify (update_draft_meta (show thread_id) (("issue_key", text issue_key) ∷ []))

abbrev pub already_bound : String → String → Error
already_bound what whom = runtime_error (concat (what ∷ " is already bound to " ∷ whom ∷ []))

unfoldable pub bind_thread : String → ℕ → String → Op (Unit {0})
bind_thread now thread_id issue_key = do
  current ← gets (λ s. issue_key_for_thread s thread_id)
  raise_if (not (is_empty current) && not (current == issue_key))
      (already_bound (concat ("Thread " ∷ show thread_id ∷ [])) current)
  issue_meta ← gets (λ s. load_issue_meta s issue_key)
  raise_if
      (not (is_empty (strip (get_text issue_meta "thread_id" "")))
        && not (strip (get_text issue_meta "thread_id" "") == show thread_id))
      (already_bound (concat ("Issue " ∷ issue_key ∷ []))
        (concat ("thread " ∷ strip (get_text issue_meta "thread_id" "") ∷ [])))
  write_binding now thread_id issue_key issue_meta

-- str(n) if n else ""
abbrev pub shown_or_empty : ℕ → String
shown_or_empty n = if nat_beq n 0 then "" else show n

abbrev pub shown_thread : Option ℕ → String
shown_thread none = ""
shown_thread (some thread_id) = show thread_id

unfoldable pub new_issue_meta : String → String → String × String → Option ℕ → ℕ → ℕ → String → Meta
new_issue_meta now issue_key parts thread_id parent_message_id channel_id status =
    ("issue_key", text issue_key)
    ∷ ("github_repo", text parts.0)
    ∷ ("issue_number", text parts.1)
    ∷ ("thread_id", text (shown_thread thread_id))
    ∷ ("parent_message_id", text (shown_or_empty parent_message_id))
    ∷ ("channel_id", text (shown_or_empty channel_id))
    ∷ ("created_at", text now)
    ∷ ("status", text status)
    ∷ ("current_run_id", text "")
    ∷ ("attempt_count", number 0)
    ∷ []

abbrev pub put_issue_meta : String → Meta → FileStateStore → FileStateStore
put_issue_meta issue_key meta s = record s {
  issue_metas = Dict.put s.issue_metas (safe_issue_key issue_key) meta;
}

abbrev pub bind_given : String → Option ℕ → String → Op (Unit {0})
bind_given now none issue_key = pure tt
bind_given now (some thread_id) issue_key = bind_thread now thread_id issue_key

unfoldable pub create_issue_record : String → String → Option ℕ → ℕ → ℕ → String → Op (Unit {0})
create_issue_record now issue_key thread_id parent_message_id channel_id status = do
  parts ← or_raise (split_issue_key issue_key) value_error
  modify (
      put_issue_meta issue_key
        (new_issue_meta now issue_key parts thread_id parent_message_id channel_id status))
  bind_given now thread_id issue_key

abbrev pub promoted_filenames : List String
promoted_filenames =
    "requirement_summary.json" ∷ "plan.json" ∷ "test_plan.json" ∷ "verification_plan.json"
    ∷ "candidate_decision.json" ∷ "committee_plan.json" ∷ "committee_reports.json"
    ∷ "planning_progress.json" ∷ "issue.json" ∷ []

abbrev pub promote_found : String → String → FileStateStore → Option Document → FileStateStore
promote_found issue_key filename s none = s
promote_found issue_key filename s (some payload) = record s {
  files =
      Dict.put s.files (in_dir (concat (issue_dir issue_key ∷ "/latest" ∷ [])) filename) payload;
}

abbrev pub promote_file : String → String → String → FileStateStore → FileStateStore
promote_file thread_id issue_key filename s =
    promote_found issue_key filename s (Dict.get s.files (in_dir (draft_dir thread_id) filename))

abbrev pub promote_files : String → String → List String → FileStateStore → FileStateStore
promote_files thread_id issue_key [] s = s
promote_files thread_id issue_key (filename ∷ filenames) s =
    promote_files thread_id issue_key filenames (promote_file thread_id issue_key filename s)

-- A file of texts is copied where the issue has none.
abbrev pub copy_found :
    String → String → FileStateStore → Option (List Line) → Option (List Line) → FileStateStore
copy_found issue_key filename s none target = s
copy_found issue_key filename s (some source) (some old) = s
copy_found issue_key filename s (some source) none = record s {
  texts = Dict.put s.texts (in_dir (issue_dir issue_key) filename) source;
}

abbrev pub copy_text : String → String → String → FileStateStore → FileStateStore
copy_text thread_id issue_key filename s =
    copy_found issue_key filename s (Dict.get s.texts (in_dir (draft_dir thread_id) filename))
      (Dict.get s.texts (in_dir (issue_dir issue_key) filename))

-- A draft without a directory has no file to promote.
unfoldable pub promote_draft_artifacts : ℕ → String → FileStateStore → FileStateStore
promote_draft_artifacts thread_id issue_key s = copy_text (show thread_id) issue_key "run.log" (
    copy_text (show thread_id) issue_key "conversation.jsonl"
      (promote_files (show thread_id) issue_key promoted_filenames s))

unfoldable pub create_bound_record : String → ℕ → String → Meta → Op (Unit {0})
create_bound_record now thread_id issue_key draft_meta = do
  parent_message_id ← or_raise (get_number draft_meta "parent_message_id") value_error
  channel_id ← or_raise (get_number draft_meta "channel_id") value_error
  create_issue_record now issue_key (some thread_id) parent_message_id channel_id
      (get_text draft_meta "status" "draft")

unfoldable pub record_missing : String → ℕ → String → Meta → Op (Unit {0})
record_missing now thread_id issue_key draft_meta s =
    if is_empty_meta (load_issue_meta s issue_key)
    then create_bound_record now thread_id issue_key draft_meta s
    else pure tt s

abbrev pub key_of : String → ℕ → String
key_of repo_full_name issue_number = concat (repo_full_name ∷ "#" ∷ show issue_number ∷ [])

-- The draft notes the issue.
unfoldable pub note_issue : ℕ → String → ℕ → Op String
note_issue thread_id repo_full_name issue_number = do
  modify (
      update_draft_meta (show thread_id) (
        ("issue_key", text (key_of repo_full_name issue_number))
        ∷ ("github_repo", text repo_full_name)
        ∷ ("issue_number", text (show issue_number))
        ∷ []))
  pure (key_of repo_full_name issue_number)

-- What `bind_issue` does once the issue has a record.
unfoldable pub bind_recorded : String → ℕ → String → ℕ → Op String
bind_recorded now thread_id repo_full_name issue_number = do
  modify (promote_draft_artifacts thread_id (key_of repo_full_name issue_number))
  bind_thread now thread_id (key_of repo_full_name issue_number)
  note_issue thread_id repo_full_name issue_number

unfoldable pub bind_issue : String → ℕ → String → ℕ → Op String
bind_issue now thread_id repo_full_name issue_number = do
  draft_meta ← gets (λ s. load_draft_meta s (show thread_id))
  record_missing now thread_id (key_of repo_full_name issue_number) draft_meta
  bind_recorded now thread_id repo_full_name issue_number

unfoldable pub has_run : FileStateStore → ℕ → Bool
has_run s thread_id = elim (Dict.get s.draft_metas (show thread_id)) [
  | some meta ↦ true
  | none ↦
      not (is_empty (issue_key_for_thread s thread_id))
      && (elim (Dict.get s.issue_metas (safe_issue_key (issue_key_for_thread s thread_id))) [
        | some meta ↦ true
        | none ↦ false
      ])
]
