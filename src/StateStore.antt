-- ===== src/StateStore.antt =====
-- app/state_store.py: `FileStateStore`, its documents and what they are read as.
--
-- A file of JSON is the value that it holds; a nested value, and a document that the store only passes on,
-- stands for its text. File names given by callers are not "meta.json" nor the name of a directory of the
-- store. `legacy` holds the directories that older versions left under the root, which are only read.
pub mod Keys
pub mod Binding
pub mod Files
pub mod Runs
pub mod Threads
pub mod OneThread
pub mod Bound
pub mod History
pub mod Views
mod Tests
use dev_bot.Base.{
  ℕ, String, Bool, true, false, not, ◌&&◌, ◌||◌, Option, none, some, List, [], ◌∷◌, ◌++◌,
  if◌then◌else◌, nat_beq,
}
use dev_bot.Base.Eq.{string_eq, nat_eq, ◌==◌}
use dev_bot.Base.Dict
use dev_bot.Base.Dict.{Dict}
use dev_bot.Base.Text.{is_empty, or_else, strip, show}
use dev_bot.Base.Decimal.{is_digits, value_from}
use dev_bot.Base.Join.{concat}
use dev_bot.Base.Action.{Action}
use dev_bot.StateStore.Keys.{is_issue_key, safe_issue_key}

pub data Value : Type 0 where
  text : String → Value
  number : ℕ → Value
  nested : String → Value

-- The dict of a `meta.json`.
abbrev pub Meta : Type 0
Meta = Dict String Value

pub record Activity : Type 0 where
  pub timestamp : String
  pub phase : String
  pub summary : String
  pub status : String
  pub run_id : String
  pub details : String

-- Any other document: an activity, {"items": [...]} of activities, an object as the run's payload, or any
-- document by its text.
pub data Document : Type 0 where
  activity : Activity → Document
  items : List Activity → Document
  object : Meta → Document
  json : String → Document

-- What one call appends to a file of texts.
pub data Line : Type 0 where
  message : (timestamp role content : String) → Line
  line : String → Line

-- The directories are named by the text of the thread and by the safe key of the issue. `files` and `texts`
-- are keyed by paths from the root, `attempts` (the files "current_attempt.txt") by their directories.
pub record FileStateStore : Type 0 where
  pub draft_metas : Dict String Meta
  pub issue_metas : Dict String Meta
  pub bindings : Dict ℕ String
  pub files : Dict String Document
  pub texts : Dict String (List Line)
  pub attempts : Dict String String
  pub legacy_metas : Dict String Meta
  pub legacy_files : Dict String Document

pub data Error : Type 0 where
  runtime_error : String → Error
  value_error : Error

abbrev pub Op {ℓ} : Type ℓ → Type ℓ
Op A = Action FileStateStore Error A

pub data Identifier : Type 0 where
  thread : ℕ → Identifier
  key : String → Identifier

-- str(value)
abbrev pub value_text : Value → String
value_text (text s) = s
value_text (number n) = show n
value_text (nested s) = s

abbrev pub text_in : Option Value → String → String
text_in none default = default
text_in (some v) default = value_text v

-- str(meta.get(field, default))
unfoldable pub get_text : Meta → String → String → String
get_text meta field default = text_in (Dict.get meta field) default

abbrev pub filled_in : Option Value → String → String
filled_in none default = default
filled_in (some (text s)) default = or_else s default
filled_in (some (number n)) default = if nat_beq n 0 then default else show n
filled_in (some (nested s)) default = s

-- str(meta.get(field, default) or default)
unfoldable pub get_filled : Meta → String → String → String
get_filled meta field default = filled_in (Dict.get meta field) default

-- int(s), for texts of decimal digits
unfoldable pub int_of : String → Option ℕ
int_of s =
    if not (is_empty (strip s)) && is_digits (strip s) then some (value_from 0 (strip s)) else none

abbrev pub number_in : Option Value → Option ℕ
number_in none = some 0
number_in (some (text s)) = if is_empty s then some 0 else int_of s
number_in (some (number n)) = some n
number_in (some (nested s)) = none

-- int(meta.get(field, 0) or 0)
unfoldable pub get_number : Meta → String → Option ℕ
get_number meta field = number_in (Dict.get meta field)

abbrev pub int_in : Option Value → Option ℕ
int_in none = some 0
int_in (some (text s)) = int_of s
int_in (some (number n)) = some n
int_in (some (nested s)) = none

-- int(meta.get(field, 0))
unfoldable pub get_int : Meta → String → Option ℕ
get_int meta field = int_in (Dict.get meta field)

-- {} where the file is missing
abbrev pub meta_or_empty : Option Meta → Meta
meta_or_empty none = []
meta_or_empty (some meta) = meta

abbrev pub load_draft_meta : FileStateStore → String → Meta
load_draft_meta s thread_id = meta_or_empty (Dict.get s.draft_metas thread_id)

abbrev pub load_issue_meta : FileStateStore → String → Meta
load_issue_meta s issue_key = meta_or_empty (Dict.get s.issue_metas (safe_issue_key issue_key))

abbrev pub thread_id_for_issue : FileStateStore → String → String
thread_id_for_issue s issue_key = get_text (load_issue_meta s issue_key) "thread_id" ""

unfoldable pub issue_key_for_thread : FileStateStore → ℕ → String
issue_key_for_thread s thread_id = elim (Dict.get s.bindings thread_id) [
  | some issue_key ↦ issue_key
  | none ↦ get_text (load_draft_meta s (show thread_id)) "issue_key" ""
]

-- What `str(identifier)` is.
abbrev pub identifier_text : Identifier → String
identifier_text (thread n) = show n
identifier_text (key s) = s

-- `isdigit` is of ASCII digits.
abbrev pub resolve_text : FileStateStore → String → String
resolve_text s given =
    if is_issue_key given
    then given
    else if not (is_empty given) && is_digits given
    then or_else (issue_key_for_thread s (value_from 0 given)) given
    else given

-- `_resolve_entity_key`
unfoldable pub resolve_entity_key : FileStateStore → Identifier → String
resolve_entity_key s (thread n) = or_else (issue_key_for_thread s n) (show n)
resolve_entity_key s (key given) = resolve_text s given

abbrev pub issue_dir : String → String
issue_dir issue_key = concat ("issues/" ∷ safe_issue_key issue_key ∷ [])

abbrev pub draft_dir : String → String
draft_dir thread_id = concat ("drafts/" ∷ thread_id ∷ [])

-- `entity_dir` of a resolved key; the operations resolve the identifier first.
abbrev pub key_dir : String → String
key_dir entity_key = if is_issue_key entity_key then issue_dir entity_key else draft_dir entity_key

-- `target_dir` in the operations on artifacts
abbrev pub artifact_dir : String → String
artifact_dir entity_key =
    if is_issue_key entity_key
    then concat (issue_dir entity_key ∷ "/latest" ∷ [])
    else draft_dir entity_key

abbrev pub in_dir : String → String → String
in_dir dir filename = concat (dir ∷ "/" ∷ filename ∷ [])

-- The `meta.json` of a resolved key, where there is one.
abbrev pub meta_of_key : FileStateStore → String → Option Meta
meta_of_key s entity_key =
    if is_issue_key entity_key
    then Dict.get s.issue_metas (safe_issue_key entity_key)
    else Dict.get s.draft_metas entity_key

-- `load_meta` looks in the older place of the identifier as it is given.
unfoldable pub load_meta : FileStateStore → Identifier → Meta
unfolding resolve_entity_key
load_meta s identifier = elim (meta_of_key s (resolve_entity_key s identifier)) [
  | some meta ↦ meta
  | none ↦ meta_or_empty (Dict.get s.legacy_metas (identifier_text identifier))
]

abbrev pub entity_dir : FileStateStore → Identifier → String
entity_dir s identifier = key_dir (resolve_entity_key s identifier)

-- meta.update(fields)
unfoldable pub update_fields : Meta → Meta → Meta
update_fields meta [] = meta
update_fields meta ((field, value) ∷ fields) = update_fields (Dict.put meta field value) fields

abbrev pub updated_with : Dict String Meta → String → Meta → Option Meta → Dict String Meta
updated_with metas dir fields none = metas
updated_with metas dir fields (some meta) = Dict.put metas dir (update_fields meta fields)

abbrev pub updated : Dict String Meta → String → Meta → Dict String Meta
updated metas dir fields = updated_with metas dir fields (Dict.get metas dir)

abbrev pub update_key : String → Meta → FileStateStore → FileStateStore
update_key entity_key fields s =
    if is_issue_key entity_key
    then record s { issue_metas = updated s.issue_metas (safe_issue_key entity_key) fields }
    else record s { draft_metas = updated s.draft_metas entity_key fields }

unfoldable pub update_meta : Identifier → Meta → FileStateStore → FileStateStore
update_meta identifier fields s = update_key (resolve_entity_key s identifier) fields s

unfoldable pub update_draft_meta : String → Meta → FileStateStore → FileStateStore
update_draft_meta thread_id fields s = record s {
  draft_metas = updated s.draft_metas thread_id fields;
}

abbrev pub update_issue_meta : String → Meta → FileStateStore → FileStateStore
update_issue_meta issue_key fields s = update_meta (key issue_key) fields s

abbrev pub update_status : Identifier → String → FileStateStore → FileStateStore
update_status identifier status s = update_meta identifier (("status", text status) ∷ []) s

abbrev pub current_run_id : FileStateStore → Identifier → String
current_run_id s identifier = get_text (load_meta s identifier) "current_run_id" ""
