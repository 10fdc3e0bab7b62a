-- ===== src/StateStore/Bound.antt =====
-- app/state_store.py: `bind_issue` as a whole.
use Prim.Native.Char.{code}
use Prim.Native.String.{◌++◌ as str_append}
use package.text.Mathlib.TextLemmas.{nil-append, cons-append}
use dev_bot.Base.{
  ℕ, String, ◌≡◌, refl, ap, ◌∙◌, true, ◌||◌, Option, none, some, List, [], ◌∷◌, arith, nat_beq,
}
use dev_bot.Base.Eq.{string_eq, nat_eq}
use dev_bot.Base.Dict
use dev_bot.Base.Dict.{Entries-get}
use dev_bot.Base.Text.{show}
use dev_bot.Base.Join.{concat}
use dev_bot.Base.Action.{Keeps, >>=-Keeps, ◌>>◌, modify}
use dev_bot.StateStore.{
  FileStateStore, Document, Line, text, load_draft_meta, update_draft_meta, draft_dir, in_dir,
}
use dev_bot.StateStore.Keys.{is_issue_key, has_char}
use dev_bot.StateStore.Binding.{
  bind_thread, promote_found, promote_file, promote_files, copy_found, copy_text, note_issue,
  bind_recorded, promote_draft_artifacts, promoted_filenames, key_of, bind_issue,
}
use dev_bot.StateStore.Threads.{IsBound, Ready, bind_thread-Ready}
use dev_bot.StateStore.OneThread.{record_missing-IsBound}

-- The bindings and the records of issues are those of the other state.
abbrev SameRecords : FileStateStore → FileStateStore → Type 0
SameRecords s s' = (s'.bindings ≡ s.bindings) × (s'.issue_metas ≡ s.issue_metas)

SameRecords-Ready : (k : String) (s s' : FileStateStore) → SameRecords s s' → Ready k s → Ready k s'
SameRecords-Ready k s s' (hb, hi) h = rw (hb, hi) h

promote_found-same :
    (k f : String) (s : FileStateStore) (o : Option Document)
    → SameRecords s (promote_found k f s o)
promote_found-same k f s none = (refl, refl)
promote_found-same k f s (some payload) = (refl, refl)

promote_files-same :
    (t k : String) (fs : List String) (s : FileStateStore) → SameRecords s (promote_files t k fs s)
promote_files-same t k [] s = (refl, refl)
promote_files-same t k (f ∷ fs) s =
    let (b, i) = promote_found-same k f s (Dict.get s.files (in_dir (draft_dir t) f)) in
    let (bs, is) = promote_files-same t k fs (promote_file t k f s) in (bs ∙ b, is ∙ i)

copy_found-same :
    (k f : String) (s : FileStateStore) (source target : Option (List Line))
    → SameRecords s (copy_found k f s source target)
copy_found-same k f s none target = (refl, refl)
copy_found-same k f s (some source) none = (refl, refl)
copy_found-same k f s (some source) (some old) = (refl, refl)

copy_text-same : (t k f : String) (s : FileStateStore) → SameRecords s (copy_text t k f s)
copy_text-same t k f s = copy_found-same k f s _ _

promote-same :
    (t : ℕ) (k : String) (s : FileStateStore) → SameRecords s (promote_draft_artifacts t k s)
unfolding promote_draft_artifacts
promote-same t k s =
    let s1 = promote_files (show t) k promoted_filenames s in
    let s2 = copy_text (show t) k "conversation.jsonl" s1 in
    let (b1, i1) = promote_files-same (show t) k promoted_filenames s in
    let (b2, i2) = copy_text-same (show t) k "conversation.jsonl" s1 in
    let (b3, i3) = copy_text-same (show t) k "run.log" s2 in (b3 ∙ b2 ∙ b1, i3 ∙ i2 ∙ i1)

has_char-append :
    (c : ℕ) (s t : String) → has_char c (str_append s t) ≡ (has_char c s || has_char c t)
unfolding has_char
has_char-append c String.[] t = ap (has_char c) (nil-append t)
has_char-append c (String.◌∷◌ d s) t =
    ap (has_char c) (cons-append d s t)
    ∙ ap (λ b. nat_beq (code d) c || b) (has_char-append c s t)
    ∙ ground arith

has_hash : has_char b'#' "#" ≡ true
unfolding has_char
has_hash = refl

key_of-is_issue_key :
    (repo_full_name : String) (n : ℕ)
    → has_char b'/' repo_full_name ≡ true
    → is_issue_key (key_of repo_full_name n) ≡ true
unfolding is_issue_key
key_of-is_issue_key repo_full_name n slash =
    let rest = concat ("#" ∷ show n ∷ []) in
    let tail = concat (show n ∷ []) in
    ground (
      arith,
      has_char-append b'#' repo_full_name rest,
      has_char-append b'/' repo_full_name rest,
      has_char-append b'#' "#" tail,
      slash,
      has_hash,
    )

note_issue-Ready :
    (t : ℕ) (repo : String) (n : ℕ) (k : String) → Keeps (Ready k) (note_issue t repo n)
unfolding note_issue update_draft_meta
note_issue-Ready t repo n k s h = h

bind_recorded-Ready :
    (now : String) (t : ℕ) (repo : String) (n : ℕ)
    → is_issue_key (key_of repo n) ≡ true
    → Keeps (Ready (key_of repo n)) (bind_recorded now t repo n)
unfolding bind_recorded
bind_recorded-Ready now t repo n h =
    let k = key_of repo n in
    >>=-Keeps (Ready k) (modify (promote_draft_artifacts t k))
      (λ _. bind_thread now t k >> note_issue t repo n)
      (λ s r. SameRecords-Ready k s (promote_draft_artifacts t k s) (promote-same t k s) r)
      (λ _.
        >>=-Keeps (Ready k) (bind_thread now t k) (λ _. note_issue t repo n)
          (bind_thread-Ready now t k h) (λ _. note_issue-Ready t repo n k))

-- For a repository with a slash in its name: where every bound thread is the one that the record of its
-- issue names, and the records hold numbers for message and channel, it is so after `bind_issue`, whether it
-- returns or raises.
pub bind_issue-IsBound :
    (now : String) (t : ℕ) (repo_full_name : String) (n : ℕ) (s : FileStateStore)
    → has_char b'/' repo_full_name ≡ true
    → IsBound s
    → IsBound (bind_issue now t repo_full_name n s).1
unfolding bind_issue
bind_issue-IsBound now t repo_full_name n s slash bound =
    let k = key_of repo_full_name n in
    let h = key_of-is_issue_key repo_full_name n slash in
    record_missing-IsBound now t k (load_draft_meta s (show t))
      (bind_recorded now t repo_full_name n) s h (bind_recorded-Ready now t repo_full_name n h)
      bound
