-- ===== src/StateStore/Tests.antt =====
-- The state store on concrete input.
use dev_bot.Base.{
  ℕ, ◌≤◌, String, ◌≡◌, refl, Bool, true, Option, none, some, List, [], ◌∷◌, ◌++◌, if◌then◌else◌,
}
use dev_bot.Base.Eq.{string_eq, nat_eq}
use dev_bot.Base.Dict
use dev_bot.Base.Lists.{length}
use dev_bot.Base.Result.{ok, err}
use dev_bot.StateStore.{
  FileStateStore, Activity, Document, json, items, thread, key, issue_key_for_thread,
  thread_id_for_issue,
}
use dev_bot.StateStore.Keys.{has_char, is_issue_key}
use dev_bot.StateStore.Files.{write_artifact, load_artifact, last_200}
use dev_bot.StateStore.Binding.{bind_issue, already_bound, create_draft}
use dev_bot.StateStore.Runs.{create_attempt}
use dev_bot.StateStore.Threads.{IsBound}
use dev_bot.StateStore.Bound.{bind_issue-IsBound}
use dev_bot.StateStore.Views.{load_artifact_of_thread}
use dev_bot.StateStore.History.{record_all, history, record_all-last_200}

abbrev empty_store : FileStateStore
empty_store = record {
  draft_metas = [];
  issue_metas = [];
  bindings = [];
  files = [];
  texts = [];
  attempts = [];
  legacy_metas = [];
  legacy_files = [];
}

abbrev with_draft : FileStateStore
with_draft = create_draft "now" 7 5 3 "draft" empty_store

with_draft-IsBound : IsBound with_draft
unfolding create_draft
with_draft-IsBound = (tt, tt)

-- Thread 7 is bound to o/r#1.
abbrev bound_store : FileStateStore
bound_store = (bind_issue "now" 7 "o/r" 1 with_draft).1

slash : has_char b'/' "o/r" ≡ true
unfolding has_char
slash = refl

bind_issue-IsBound_example : IsBound (bind_issue "now" 7 "o/r" 1 with_draft).1
bind_issue-IsBound_example = bind_issue-IsBound "now" 7 "o/r" 1 with_draft slash with_draft-IsBound

bound_to : Dict.get bound_store.bindings 7 ≡ some "o/r#1"
unfolding dev_bot.StateStore.get_text dev_bot.StateStore.get_filled dev_bot.StateStore.int_of
    dev_bot.StateStore.get_number dev_bot.StateStore.get_int issue_key_for_thread
    dev_bot.StateStore.resolve_entity_key dev_bot.StateStore.load_meta
    dev_bot.StateStore.update_fields dev_bot.StateStore.update_meta
    dev_bot.StateStore.update_draft_meta create_draft dev_bot.StateStore.Binding.draft_of_issue
    dev_bot.StateStore.Binding.write_binding dev_bot.StateStore.Binding.bind_thread
    dev_bot.StateStore.Binding.new_issue_meta dev_bot.StateStore.Binding.create_issue_record
    dev_bot.StateStore.Binding.promote_draft_artifacts
    dev_bot.StateStore.Binding.create_bound_record dev_bot.StateStore.Binding.record_missing
    dev_bot.StateStore.Binding.note_issue dev_bot.StateStore.Binding.bind_recorded bind_issue
    dev_bot.StateStore.Binding.has_run has_char is_issue_key dev_bot.StateStore.Keys.replace_char
    dev_bot.StateStore.Keys.safe_issue_key dev_bot.StateStore.Keys.split_issue_key
    dev_bot.Base.Text.or_else dev_bot.Base.Text.is_space dev_bot.Base.Text.strip_left
    dev_bot.Base.Text.strip_right dev_bot.Base.Text.strip dev_bot.Base.Text.show_from
    dev_bot.Base.Text.show Dict.get Dict.put dev_bot.Base.Decimal.value_from
    dev_bot.Base.Decimal.is_digits
bound_to = refl

abbrev bound_thread : ℕ
bound_thread = 7

-- Thread 7 is refused for another issue, but the record of that issue has been written, and names the thread.
refused : (bind_issue "later" 7 "o/r" 2 bound_store).0 ≡ err (already_bound "Thread 7" "o/r#1")
unfolding dev_bot.StateStore.get_text dev_bot.StateStore.get_filled dev_bot.StateStore.int_of
    dev_bot.StateStore.get_number dev_bot.StateStore.get_int issue_key_for_thread
    dev_bot.StateStore.resolve_entity_key dev_bot.StateStore.load_meta
    dev_bot.StateStore.update_fields dev_bot.StateStore.update_meta
    dev_bot.StateStore.update_draft_meta create_draft dev_bot.StateStore.Binding.draft_of_issue
    dev_bot.StateStore.Binding.write_binding dev_bot.StateStore.Binding.bind_thread
    dev_bot.StateStore.Binding.new_issue_meta dev_bot.StateStore.Binding.create_issue_record
    dev_bot.StateStore.Binding.promote_draft_artifacts
    dev_bot.StateStore.Binding.create_bound_record dev_bot.StateStore.Binding.record_missing
    dev_bot.StateStore.Binding.note_issue dev_bot.StateStore.Binding.bind_recorded bind_issue
    dev_bot.StateStore.Binding.has_run has_char is_issue_key dev_bot.StateStore.Keys.replace_char
    dev_bot.StateStore.Keys.safe_issue_key dev_bot.StateStore.Keys.split_issue_key
    dev_bot.Base.Text.or_else dev_bot.Base.Text.is_space dev_bot.Base.Text.strip_left
    dev_bot.Base.Text.strip_right dev_bot.Base.Text.strip dev_bot.Base.Text.show_from
    dev_bot.Base.Text.show Dict.get Dict.put dev_bot.Base.Decimal.value_from
    dev_bot.Base.Decimal.is_digits
refused = refl

written : thread_id_for_issue (bind_issue "later" 7 "o/r" 2 bound_store).1 "o/r#2" ≡ "7"
unfolding dev_bot.StateStore.get_text dev_bot.StateStore.get_filled dev_bot.StateStore.int_of
    dev_bot.StateStore.get_number dev_bot.StateStore.get_int issue_key_for_thread
    dev_bot.StateStore.resolve_entity_key dev_bot.StateStore.load_meta
    dev_bot.StateStore.update_fields dev_bot.StateStore.update_meta
    dev_bot.StateStore.update_draft_meta create_draft dev_bot.StateStore.Binding.draft_of_issue
    dev_bot.StateStore.Binding.write_binding dev_bot.StateStore.Binding.bind_thread
    dev_bot.StateStore.Binding.new_issue_meta dev_bot.StateStore.Binding.create_issue_record
    dev_bot.StateStore.Binding.promote_draft_artifacts
    dev_bot.StateStore.Binding.create_bound_record dev_bot.StateStore.Binding.record_missing
    dev_bot.StateStore.Binding.note_issue dev_bot.StateStore.Binding.bind_recorded bind_issue
    dev_bot.StateStore.Binding.has_run has_char is_issue_key dev_bot.StateStore.Keys.replace_char
    dev_bot.StateStore.Keys.safe_issue_key dev_bot.StateStore.Keys.split_issue_key
    dev_bot.Base.Text.or_else dev_bot.Base.Text.is_space dev_bot.Base.Text.strip_left
    dev_bot.Base.Text.strip_right dev_bot.Base.Text.strip dev_bot.Base.Text.show_from
    dev_bot.Base.Text.show Dict.get Dict.put dev_bot.Base.Decimal.value_from
    dev_bot.Base.Decimal.is_digits
written = refl

abbrev plan : Document
plan = json "{\"goal\": \"x\"}"

bound_key : is_issue_key (issue_key_for_thread bound_store 7) ≡ true
unfolding dev_bot.StateStore.get_text dev_bot.StateStore.get_filled dev_bot.StateStore.int_of
    dev_bot.StateStore.get_number dev_bot.StateStore.get_int issue_key_for_thread
    dev_bot.StateStore.resolve_entity_key dev_bot.StateStore.load_meta
    dev_bot.StateStore.update_fields dev_bot.StateStore.update_meta
    dev_bot.StateStore.update_draft_meta create_draft dev_bot.StateStore.Binding.draft_of_issue
    dev_bot.StateStore.Binding.write_binding dev_bot.StateStore.Binding.bind_thread
    dev_bot.StateStore.Binding.new_issue_meta dev_bot.StateStore.Binding.create_issue_record
    dev_bot.StateStore.Binding.promote_draft_artifacts
    dev_bot.StateStore.Binding.create_bound_record dev_bot.StateStore.Binding.record_missing
    dev_bot.StateStore.Binding.note_issue dev_bot.StateStore.Binding.bind_recorded bind_issue
    dev_bot.StateStore.Binding.has_run has_char is_issue_key dev_bot.StateStore.Keys.replace_char
    dev_bot.StateStore.Keys.safe_issue_key dev_bot.StateStore.Keys.split_issue_key
    dev_bot.Base.Text.or_else dev_bot.Base.Text.is_space dev_bot.Base.Text.strip_left
    dev_bot.Base.Text.strip_right dev_bot.Base.Text.strip dev_bot.Base.Text.show_from
    dev_bot.Base.Text.show Dict.get Dict.put dev_bot.Base.Decimal.value_from
    dev_bot.Base.Decimal.is_digits
bound_key = refl

load_artifact_of_thread_example :
    (load_artifact
        (write_artifact (thread 7) "plan.json" plan bound_store)
        (key (issue_key_for_thread bound_store 7))
        "plan.json"
      ≡ plan)
    × (load_artifact
          (write_artifact (key (issue_key_for_thread bound_store 7)) "plan.json" plan bound_store)
          (thread 7)
          "plan.json"
        ≡ plan)
load_artifact_of_thread_example = load_artifact_of_thread bound_store 7 "plan.json" plan bound_key

abbrev planning : Activity
planning = record {
  timestamp = "now";
  phase = "planning";
  summary = "plans";
  status = "running";
  run_id = "";
  details = "{}";
}

record_all-last_200_example :
    (history (record_all (thread 7) (planning ∷ planning ∷ []) bound_store) (thread 7)
      ≡ last_200 (history bound_store (thread 7) ++ planning ∷ planning ∷ []))
    × (length (history (record_all (thread 7) (planning ∷ planning ∷ []) bound_store) (thread 7))
        ≤ 200)
record_all-last_200_example = record_all-last_200 bound_store (thread 7) planning (planning ∷ [])

first_attempt : (create_attempt (thread 7) bound_store).0 ≡ ok "att-001"
unfolding dev_bot.StateStore.get_text dev_bot.StateStore.get_filled dev_bot.StateStore.int_of
    dev_bot.StateStore.get_number dev_bot.StateStore.get_int issue_key_for_thread
    dev_bot.StateStore.resolve_entity_key dev_bot.StateStore.load_meta
    dev_bot.StateStore.update_fields dev_bot.StateStore.update_meta
    dev_bot.StateStore.update_draft_meta create_draft dev_bot.StateStore.Binding.draft_of_issue
    dev_bot.StateStore.Binding.write_binding dev_bot.StateStore.Binding.bind_thread
    dev_bot.StateStore.Binding.new_issue_meta dev_bot.StateStore.Binding.create_issue_record
    dev_bot.StateStore.Binding.promote_draft_artifacts
    dev_bot.StateStore.Binding.create_bound_record dev_bot.StateStore.Binding.record_missing
    dev_bot.StateStore.Binding.note_issue dev_bot.StateStore.Binding.bind_recorded bind_issue
    dev_bot.StateStore.Binding.has_run has_char is_issue_key dev_bot.StateStore.Keys.replace_char
    dev_bot.StateStore.Keys.safe_issue_key dev_bot.StateStore.Keys.split_issue_key
    dev_bot.Base.Text.or_else dev_bot.Base.Text.is_space dev_bot.Base.Text.strip_left
    dev_bot.Base.Text.strip_right dev_bot.Base.Text.strip dev_bot.Base.Text.show_from
    dev_bot.Base.Text.show Dict.get Dict.put dev_bot.Base.Decimal.value_from
    dev_bot.Base.Decimal.is_digits dev_bot.StateStore.Files.delete_artifact
    dev_bot.StateStore.Files.execution_run_dir dev_bot.StateStore.Files.current_attempt_id
    dev_bot.StateStore.Files.attempt_dir dev_bot.StateStore.Files.append_message
    dev_bot.StateStore.Files.append_log dev_bot.StateStore.Files.record_activity
    dev_bot.StateStore.Runs.create_run dev_bot.StateStore.Runs.create_execution_run
    dev_bot.StateStore.Runs.next_index dev_bot.StateStore.Runs.attempt_name create_attempt
first_attempt = refl
