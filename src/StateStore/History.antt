-- ===== src/StateStore/History.antt =====
-- app/state_store.py: the history of activities.
use dev_bot.Base.{
  ℕ, zero, suc, ◌+◌, ◌-◌, ◌≤◌, String, ◌≡◌, ◌≢◌, refl, sym, ap, subst, ◌∙◌, inl, inr, false, List,
  [], ◌∷◌, ◌++◌, arith, if◌then◌else◌, Bool-cases,
}
use dev_bot.Base.Eq.{string_eq, ◌==◌}
use dev_bot.Base.Lists.{length, length-append}
use dev_bot.Chat.{drop}
use dev_bot.Chat.Chunks.{length-drop}
use dev_bot.StateStore.{
  FileStateStore, Document, activity, items, Activity, Identifier, thread, key,
  issue_key_for_thread, resolve_entity_key, artifact_dir, in_dir,
}
use dev_bot.StateStore.Views.{load_artifact-write_artifact, load_same, in_dir-injective}
use dev_bot.StateStore.Files.{
  write_artifact, load_artifact, append_log, history_items, last_200, record_activity,
}

module _ {A : Type 0} where
  drop-nil : (n : ℕ) → drop {A = A} n [] ≡ []
  drop-nil zero = refl
  drop-nil (suc n) = refl

  drop-drop : (m n : ℕ) (xs : List A) → drop m (drop n xs) ≡ drop (n + m) xs
  drop-drop m zero xs = ap (λ k. drop k xs) (omega arith)
  drop-drop m (suc n) [] = drop-nil m ∙ sym (drop-nil (suc n + m))
  drop-drop m (suc n) (x ∷ xs) =
      drop-drop m n xs ∙ ap (λ k. drop k (x ∷ xs)) {x = suc (n + m)} {y = suc n + m} (omega arith)

  drop-append : (n : ℕ) (xs ys : List A) → n ≤ length xs → drop n (xs ++ ys) ≡ drop n xs ++ ys
  drop-append zero xs ys h = refl
  drop-append (suc n) [] ys h = absurd (omega (arith, h))
  drop-append (suc n) (x ∷ xs) ys h = drop-append n xs ys (omega (arith, h))

  -- Keeping the last ones of a list in between makes no difference.
  last-last :
      (k : ℕ) (xs ys : List A)
      → drop (length (drop (length xs - k) xs ++ ys) - k) (drop (length xs - k) xs ++ ys)
        ≡ drop (length (xs ++ ys) - k) (xs ++ ys)
  last-last k xs ys =
      let first = length xs - k in
      let together : drop first xs ++ ys ≡ drop first (xs ++ ys) =
        sym (drop-append first xs ys (omega arith)) in
      let total : first + (length (drop first (xs ++ ys)) - k) ≡ length (xs ++ ys) - k =
        omega (arith, length-drop first (xs ++ ys), length-append xs ys) in
      ap (λ zs. drop (length zs - k) zs) together
      ∙ drop-drop (length (drop first (xs ++ ys)) - k) first (xs ++ ys)
      ∙ ap (λ n. drop n (xs ++ ys)) total

pub last_200-last_200 : (xs ys : List Activity) → last_200 (last_200 xs ++ ys) ≡ last_200 (xs ++ ys)
last_200-last_200 xs ys = last-last 200 xs ys

pub length-last_200 : (xs : List Activity) → length (last_200 xs) ≤ 200
length-last_200 xs = omega (arith, length-drop (length xs - 200) xs)

abbrev pub current_file : String
current_file = "current_activity.json"

abbrev pub history_file : String
history_file = "activity_history.json"

other_file : (dir : String) → (in_dir dir current_file == in_dir dir history_file) ≡ false
other_file dir = elim (Bool-cases (in_dir dir current_file == in_dir dir history_file)) [
  | inr other ↦ other
  | inl same ↦ absurd (
      different (in_dir-injective dir current_file history_file ((string_eq.equal_iff _ _).0 same)))
]
  where
    different : current_file ≢ history_file
    different e =
        let unequal : (current_file == history_file) ≡ false = refl in
        let equal = (string_eq.equal_iff current_file history_file).1 e in cc (equal, unequal)

load_other :
    (s : FileStateStore) (i : Identifier) (payload : Document)
    → load_artifact (write_artifact i current_file payload s) i history_file
      ≡ load_artifact s i history_file
load_other s i payload =
    load_artifact-write_artifact s i i current_file history_file payload
    ∙ ap (λ b. if b then payload else load_artifact s i history_file)
        (other_file (artifact_dir (resolve_entity_key s i)))

load-append_log :
    (s : FileStateStore) (i : Identifier) (entry f : String)
    → load_artifact (append_log i entry s) i f ≡ load_artifact s i f
unfolding load_artifact append_log resolve_entity_key issue_key_for_thread
load-append_log s (thread n) entry f = refl
load-append_log s (key k) entry f = refl

abbrev pub history : FileStateStore → Identifier → List Activity
history s i = history_items (load_artifact s i history_file)

history-record_activity :
    (s : FileStateStore) (i : Identifier) (a : Activity)
    → history (record_activity i a s) i ≡ last_200 (history s i ++ a ∷ [])
unfolding record_activity
history-record_activity s i a =
    let started = write_artifact i current_file (activity a) s in
    let kept = items (last_200 (history started i ++ a ∷ [])) in
    ap history_items (load-append_log (write_artifact i history_file kept started) i _ history_file)
    ∙ ap history_items (load_same started i i history_file kept refl)
    ∙ ap (λ past. last_200 (history_items past ++ a ∷ [])) (load_other s i (activity a))

-- The activities are recorded one after the other.
unfoldable pub record_all : Identifier → List Activity → FileStateStore → FileStateStore
record_all i [] s = s
record_all i (a ∷ more) s = record_all i more (record_activity i a s)

append_one :
    (xs : List Activity) (a : Activity) (more : List Activity)
    → (xs ++ a ∷ []) ++ more ≡ xs ++ a ∷ more
append_one [] a more = refl
append_one (x ∷ xs) a more = ap (λ ys. x ∷ ys) (append_one xs a more)

record_all-history :
    (s : FileStateStore) (i : Identifier) (a : Activity) (more : List Activity)
    → history (record_all i (a ∷ more) s) i ≡ last_200 (history s i ++ a ∷ more)
unfolding record_all
record_all-history s i a [] = history-record_activity s i a
record_all-history s i a (b ∷ more) =
    record_all-history (record_activity i a s) i b more
    ∙ ap (λ past. last_200 (past ++ b ∷ more)) (history-record_activity s i a)
    ∙ last_200-last_200 (history s i ++ a ∷ []) (b ∷ more)
    ∙ ap last_200 (append_one (history s i) a (b ∷ more))

-- However many activities are recorded, at least one, the history is the last 200 of those that it had
-- and the recorded ones, in their order; so it never has more than 200.
pub record_all-last_200 :
    (s : FileStateStore) (i : Identifier) (a : Activity) (more : List Activity)
    → (history (record_all i (a ∷ more) s) i ≡ last_200 (history s i ++ a ∷ more))
      × (length (history (record_all i (a ∷ more) s) i) ≤ 200)
record_all-last_200 s i a more = (
  record_all-history s i a more,
  subst (λ past. length past ≤ 200) (sym (record_all-history s i a more))
      (length-last_200 (history s i ++ a ∷ more)),
)
