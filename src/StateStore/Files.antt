-- ===== src/StateStore/Files.antt =====
-- app/state_store.py: the documents of drafts, issues, runs, attempts and candidates.
use dev_bot.Base.{◌-◌, String, Option, none, some, List, [], ◌∷◌, ◌++◌}
use dev_bot.Base.Eq.{string_eq, nat_eq}
use dev_bot.Base.Dict
use dev_bot.Base.Lists.{length}
use dev_bot.Base.Text.{or_else, strip, strip_right}
use dev_bot.Base.Join.{concat}
use dev_bot.Chat.{drop}
use dev_bot.StateStore.{
  FileStateStore, Document, activity, items, object, json, Activity, Line, message, line,
  Identifier, key, resolve_entity_key, identifier_text, issue_dir, draft_dir, key_dir, artifact_dir,
  in_dir, entity_dir, load_meta, get_text, current_run_id,
}

abbrev pub put_file : String → Document → FileStateStore → FileStateStore
put_file path payload s = record s { files = Dict.put s.files path payload }

abbrev pub or_empty : Option Document → Document
or_empty none = json "{}"
or_empty (some payload) = payload

unfoldable pub write_artifact : Identifier → String → Document → FileStateStore → FileStateStore
write_artifact identifier filename payload s =
    put_file (in_dir (artifact_dir (resolve_entity_key s identifier)) filename) payload s

abbrev pub first_of : Option Document → Document → Document
first_of none older = older
first_of (some payload) older = payload

unfoldable pub load_artifact : FileStateStore → Identifier → String → Document
load_artifact s identifier filename =
    first_of (Dict.get s.files (in_dir (artifact_dir (resolve_entity_key s identifier)) filename))
      (or_empty (Dict.get s.legacy_files (in_dir (identifier_text identifier) filename)))

unfoldable pub delete_artifact : Identifier → String → FileStateStore → FileStateStore
delete_artifact identifier filename s = record s {
  files = Dict.remove s.files (in_dir (artifact_dir (resolve_entity_key s identifier)) filename);
}

abbrev pub delete_draft_artifact : String → String → FileStateStore → FileStateStore
delete_draft_artifact thread_id filename s = record s {
  files = Dict.remove s.files (in_dir (draft_dir thread_id) filename);
}

-- A run is given by its identifier, or is "" for the one at hand.
unfoldable pub execution_run_dir : FileStateStore → Identifier → String → String
execution_run_dir s identifier run_id =
    let entity_key = resolve_entity_key s identifier in
    concat (key_dir entity_key ∷ "/runs/" ∷ or_else run_id (current_run_id s (key entity_key)) ∷ [])

abbrev pub execution_artifacts_dir : FileStateStore → Identifier → String → String
execution_artifacts_dir s identifier run_id =
    concat (execution_run_dir s identifier run_id ∷ "/artifacts" ∷ [])

abbrev pub write_execution_artifact :
    Identifier → String → Document → String → FileStateStore → FileStateStore
write_execution_artifact identifier filename payload run_id s =
    write_artifact identifier filename payload
      (put_file (in_dir (execution_artifacts_dir s identifier run_id) filename) payload s)

abbrev pub load_execution_artifact : FileStateStore → Identifier → String → String → Document
load_execution_artifact s identifier filename run_id =
    or_empty (Dict.get s.files (in_dir (execution_artifacts_dir s identifier run_id) filename))

abbrev own_attempt : FileStateStore → String → Option String → String
own_attempt s entity_key none =
    strip (get_text (load_meta s (key entity_key)) "current_attempt_id" "")
own_attempt s entity_key (some attempt_id) = strip attempt_id

unfoldable pub current_attempt_id : FileStateStore → Identifier → String
current_attempt_id s identifier =
    let entity_key = resolve_entity_key s identifier in
    own_attempt s entity_key (Dict.get s.attempts (entity_dir s (key entity_key)))

unfoldable pub attempt_dir : FileStateStore → Identifier → String → String
attempt_dir s identifier attempt_id =
    let entity_key = resolve_entity_key s identifier in
    concat (
      entity_dir s (key entity_key)
      ∷ "/attempts/"
      ∷ or_else attempt_id (current_attempt_id s (key entity_key))
      ∷ [])

abbrev pub attempt_artifacts_dir : FileStateStore → Identifier → String → String
attempt_artifacts_dir s identifier attempt_id =
    concat (attempt_dir s identifier attempt_id ∷ "/artifacts" ∷ [])

abbrev pub candidate_dir : FileStateStore → Identifier → String → String → String
candidate_dir s identifier attempt_id candidate_id =
    concat (attempt_dir s identifier attempt_id ∷ "/candidates/" ∷ candidate_id ∷ [])

abbrev pub candidate_artifacts_dir : FileStateStore → Identifier → String → String → String
candidate_artifacts_dir s identifier attempt_id candidate_id =
    concat (candidate_dir s identifier attempt_id candidate_id ∷ "/artifacts" ∷ [])

abbrev pub write_attempt_artifact :
    Identifier → String → String → Document → FileStateStore → FileStateStore
write_attempt_artifact identifier attempt_id filename payload s =
    put_file (in_dir (attempt_artifacts_dir s identifier attempt_id) filename) payload s

abbrev pub load_attempt_artifact : FileStateStore → Identifier → String → String → Document
load_attempt_artifact s identifier attempt_id filename =
    or_empty (Dict.get s.files (in_dir (attempt_artifacts_dir s identifier attempt_id) filename))

abbrev pub write_candidate_artifact :
    Identifier → String → String → String → Document → FileStateStore → FileStateStore
write_candidate_artifact identifier attempt_id candidate_id filename payload s =
    put_file (in_dir (candidate_artifacts_dir s identifier attempt_id candidate_id) filename)
      payload s

abbrev pub load_candidate_artifact :
    FileStateStore → Identifier → String → String → String → Document
load_candidate_artifact s identifier attempt_id candidate_id filename = or_empty (
    Dict.get s.files
      (in_dir (candidate_artifacts_dir s identifier attempt_id candidate_id) filename))

-- The directory is one of issues, also for a draft.
abbrev pub planning_dir : FileStateStore → Identifier → String
planning_dir s identifier = concat (issue_dir (resolve_entity_key s identifier) ∷ "/planning" ∷ [])

abbrev pub write_planning_artifact :
    Identifier → String → Document → FileStateStore → FileStateStore
write_planning_artifact identifier filename payload s =
    put_file (in_dir (planning_dir s identifier) filename) payload s

abbrev pub load_planning_artifact : FileStateStore → Identifier → String → Document
load_planning_artifact s identifier filename =
    or_empty (Dict.get s.files (in_dir (planning_dir s identifier) filename))

abbrev lines : Option (List Line) → List Line
lines none = []
lines (some ls) = ls

abbrev pub append_line : String → Line → FileStateStore → FileStateStore
append_line path last s = record s {
  texts = Dict.put s.texts path (lines (Dict.get s.texts path) ++ last ∷ []);
}

-- `now` is the timestamp.
unfoldable pub append_message :
    String → Identifier → String → String → FileStateStore → FileStateStore
append_message now identifier role content s =
    append_line (in_dir (entity_dir s identifier) "conversation.jsonl") (message now role content) s

unfoldable pub append_log : Identifier → String → FileStateStore → FileStateStore
append_log identifier entry s =
    append_line (in_dir (entity_dir s identifier) "run.log") (line (strip_right entry)) s

-- The "items" of the history, where it has a list of them.
abbrev pub history_items : Document → List Activity
history_items (items past) = past
history_items (activity a) = []
history_items (object meta) = []
history_items (json s) = []

-- `items[-200:]`
abbrev pub last_200 : List Activity → List Activity
last_200 past = drop (length past - 200) past

unfoldable pub record_activity : Identifier → Activity → FileStateStore → FileStateStore
record_activity identifier payload s =
    let started = write_artifact identifier "current_activity.json" (activity payload) s in
    let past = history_items (load_artifact started identifier "activity_history.json") in
    let kept =
      write_artifact identifier "activity_history.json" (items (last_200 (past ++ payload ∷ [])))
        started in
    append_log identifier
      (concat ("[activity:" ∷ payload.phase ∷ ":" ∷ payload.status ∷ "] " ∷ payload.summary ∷ []))
      kept

abbrev pub clear_activity : Identifier → FileStateStore → FileStateStore
clear_activity identifier s = write_artifact identifier "current_activity.json" (json "{}") s
