-- ===== src/StateStore/Views.antt =====
-- app/state_store.py: an artifact that is written is the one that is loaded, by the thread and by its issue.
use text.Mathlib.TextLemmas.{append_cancel_left, append-nil}
use dev_bot.Base.{
  ℕ, String, ◌≡◌, refl, sym, ap, ◌∙◌, Bool, true, false, Option, some, if◌then◌else◌, [], ◌∷◌,
}
use dev_bot.Base.Eq.{string_eq, ◌==◌}
use dev_bot.Base.Sets.{beq_refl}
use dev_bot.Base.Dict
use dev_bot.Base.Dict.{get-put}
use dev_bot.Base.Text.{or_else, show}
use dev_bot.Base.Join.{concat}
use dev_bot.StateStore.{
  FileStateStore, Document, Identifier, thread, key, issue_key_for_thread, resolve_entity_key,
  artifact_dir, in_dir, identifier_text,
}
use dev_bot.StateStore.Keys.{is_issue_key, has_char}
use dev_bot.StateStore.Files.{write_artifact, load_artifact, or_empty, first_of}

abbrev pub artifact_path : FileStateStore → Identifier → String → String
artifact_path s identifier filename =
    in_dir (artifact_dir (resolve_entity_key s identifier)) filename

resolve-write_artifact :
    (s : FileStateStore) (i j : Identifier) (f : String) (payload : Document)
    → resolve_entity_key (write_artifact i f payload s) j ≡ resolve_entity_key s j
unfolding write_artifact resolve_entity_key issue_key_for_thread
resolve-write_artifact s i (thread n) f payload = refl
resolve-write_artifact s i (key k) f payload = refl

first_of-if :
    (b : Bool) (payload older : Document) (old : Option Document)
    → first_of (if b then some payload else old) older ≡ (if b then payload else first_of old older)
first_of-if true payload older old = refl
first_of-if false payload older old = refl

-- After an artifact is written, a load at the same path gives it, and a load at any other path gives what
-- it gave before.
pub load_artifact-write_artifact :
    (s : FileStateStore) (i j : Identifier) (f g : String) (payload : Document)
    → load_artifact (write_artifact i f payload s) j g
      ≡ (if artifact_path s i f == artifact_path s j g then payload else load_artifact s j g)
unfolding load_artifact write_artifact
load_artifact-write_artifact s i j f g payload =
    let older = or_empty (Dict.get s.legacy_files (in_dir (identifier_text j) g)) in
    ap
      (λ k.
        first_of
          (Dict.get (Dict.put s.files (artifact_path s i f) payload) (in_dir (artifact_dir k) g))
          older)
      (resolve-write_artifact s i j f payload)
    ∙ ap (λ o. first_of o older)
        (get-put s.files (artifact_path s i f) (artifact_path s j g) payload)
    ∙ first_of-if (artifact_path s i f == artifact_path s j g) payload older
        (Dict.get s.files (artifact_path s j g))

-- What is written under a path is loaded from it.
pub load_same :
    (s : FileStateStore) (i j : Identifier) (f : String) (payload : Document)
    → resolve_entity_key s i ≡ resolve_entity_key s j
    → load_artifact (write_artifact i f payload s) j f ≡ payload
load_same s i j f payload e =
    load_artifact-write_artifact s i j f f payload
    ∙ ap
        (λ k.
          if in_dir (artifact_dir k) f == artifact_path s j f then payload else load_artifact s j f)
        e
    ∙ ap (λ b. if b then payload else load_artifact s j f) (beq_refl (artifact_path s j f))

-- Two file names in one directory have two paths.
pub in_dir-injective : (dir f g : String) → in_dir dir f ≡ in_dir dir g → f ≡ g
in_dir-injective dir f g e =
    let after_dir = append_cancel_left dir (concat ("/" ∷ f ∷ [])) (concat ("/" ∷ g ∷ [])) e in
    let names = append_cancel_left "/" (concat (f ∷ [])) (concat (g ∷ [])) after_dir in
    sym (append-nil f) ∙ names ∙ append-nil g

or_else_of_key : (k given : String) → is_issue_key k ≡ true → or_else k given ≡ k
unfolding is_issue_key has_char or_else
or_else_of_key String.[] given h = absurd (cc h)
or_else_of_key (String.◌∷◌ c k) given h = refl

resolve_of_thread :
    (s : FileStateStore) (t : ℕ)
    → is_issue_key (issue_key_for_thread s t) ≡ true
    → resolve_entity_key s (thread t) ≡ resolve_entity_key s (key (issue_key_for_thread s t))
unfolding resolve_entity_key
resolve_of_thread s t h = or_else_of_key (issue_key_for_thread s t) (show t) h ∙ rw h refl

-- Where the key of the issue that a thread is bound to has "#" and "/": an artifact that is written for the
-- thread is the one that is loaded for the issue, and the other way round.
pub load_artifact_of_thread :
    (s : FileStateStore) (t : ℕ) (f : String) (payload : Document)
    → is_issue_key (issue_key_for_thread s t) ≡ true
    → (load_artifact (write_artifact (thread t) f payload s) (key (issue_key_for_thread s t)) f
        ≡ payload)
      × (load_artifact (write_artifact (key (issue_key_for_thread s t)) f payload s) (thread t) f
          ≡ payload)
load_artifact_of_thread s t f payload h =
    let e : resolve_entity_key s (thread t)
        ≡ resolve_entity_key s (key (issue_key_for_thread s t)) =
      resolve_of_thread s t h in
    (
      load_same s (thread t) (key (issue_key_for_thread s t)) f payload e,
      load_same s (key (issue_key_for_thread s t)) (thread t) f payload (sym e),
    )
