-- ===== src/Processes/Live.antt =====
-- app/process_registry.py: what the registry holds after a process is registered and after the live ones are
-- looked for.
use dev_bot.Base.{
  ℕ, ◌≤◌, String, ◌≡◌, refl, sym, ap, ◌∙◌, inl, inr, Bool, true, false, Option, none, some, List,
  [], ◌∷◌, arith, nat_beq, nat_beq_iff, if◌then◌else◌, Bool-cases,
}
use dev_bot.Base.Eq.{string_eq, ◌==◌}
use dev_bot.Base.Sets.{beq_refl}
use dev_bot.Base.Dict
use dev_bot.Base.Dict.{get-put, get-remove}
use dev_bot.Base.Lists.{length, any}
use dev_bot.StateStore.Keys.{safe_issue_key}
use dev_bot.Processes.{
  ProcessRecord, RecordFile, ProcessRegistry, SignalOutcome, in_file, in_legacy, in_either,
  load_all, file_of, write_records, unregister, unregister_file, signal, is_found, active_records,
  keep_active, is_active_of, is_active,
}

in_file-file_of : (rs : List ProcessRecord) → in_file (file_of rs) ≡ rs
in_file-file_of [] = refl
in_file-file_of (r ∷ []) = refl
in_file-file_of (r ∷ next ∷ rs) = refl

in_either-if :
    (b : Bool) (file : RecordFile) (old : Option RecordFile) (older : Option ProcessRecord)
    → in_either (if b then some file else old) older
      ≡ (if b then in_file file else in_either old older)
in_either-if true file old older = refl
in_either-if false file old older = refl

load_all-write_records :
    (key other : String) (rs : List ProcessRecord) (s : ProcessRegistry)
    → load_all (write_records key rs s) other
      ≡ (if safe_issue_key key == safe_issue_key other then rs else load_all s other)
unfolding load_all write_records
load_all-write_records key other rs s =
    let older = Dict.get s.legacy other in
    ap (λ o. in_either o older)
      (get-put s.records (safe_issue_key key) (safe_issue_key other) (file_of rs))
    ∙ in_either-if (safe_issue_key key == safe_issue_key other) (file_of rs)
        (Dict.get s.records (safe_issue_key other)) older
    ∙ ap (λ xs. if safe_issue_key key == safe_issue_key other then xs else load_all s other)
        (in_file-file_of rs)

load_written :
    (key : String) (rs : List ProcessRecord) (s : ProcessRegistry)
    → load_all (write_records key rs s) key ≡ rs
load_written key rs s =
    load_all-write_records key key rs s
    ∙ ap (λ b. if b then rs else load_all s key) (beq_refl (safe_issue_key key))

load_unregistered :
    (key : String) (s : ProcessRegistry)
    → Dict.get s.legacy key ≡ none
    → load_all (unregister key none s) key ≡ []
unfolding unregister load_all
load_unregistered key s no_legacy = after (Dict.get s.records (safe_issue_key key)) refl
  where
    gone : Dict.get (Dict.remove s.records (safe_issue_key key)) (safe_issue_key key) ≡ none
    gone =
        get-remove s.records (safe_issue_key key) (safe_issue_key key)
        ∙ ap (λ b. if b then none else Dict.get s.records (safe_issue_key key))
            (beq_refl (safe_issue_key key))

    after :
        (o : Option RecordFile)
        → Dict.get s.records (safe_issue_key key) ≡ o
        → load_all (unregister_file key none s o) key ≡ []
    after none e = ap (λ o. in_either o (Dict.get s.legacy key)) e ∙ ap in_legacy no_legacy
    after (some file) e =
        ap (λ o. in_either o (Dict.get s.legacy key)) gone ∙ ap in_legacy no_legacy

module _ (killpg kill : ℕ → SignalOutcome) where
  abbrev pub runs : ProcessRecord → Bool
  runs r = is_found (signal killpg kill r)

  abbrev some_left : List ProcessRecord → Bool
  some_left [] = false
  some_left (r ∷ rs) = true

  any-active : (rs : List ProcessRecord) → some_left (active_records killpg kill rs) ≡ any runs rs
  unfolding active_records
  any-active [] = refl
  any-active (r ∷ rs) = elim (Bool-cases (runs r)) [
    | inl live ↦ rw live refl
    | inr dead ↦ rw dead (any-active rs)
  ]

  length-active : (rs : List ProcessRecord) → length (active_records killpg kill rs) ≤ length rs
  unfolding active_records
  length-active [] = omega arith
  length-active (r ∷ rs) = elim (Bool-cases (runs r)) [
    | inl live ↦ rw live (omega (arith, length-active rs))
    | inr dead ↦ rw dead (omega (arith, length-active rs))
  ]

  all_active :
      (rs : List ProcessRecord)
      → length (active_records killpg kill rs) ≡ length rs
      → active_records killpg kill rs ≡ rs
  unfolding active_records
  all_active [] = λ h. refl
  all_active (r ∷ rs) = elim (Bool-cases (runs r)) [
    | inl live ↦ rw live (λ h. ap (λ xs. r ∷ xs) (all_active rs (omega (arith, h))))
    | inr dead ↦ rw dead (λ h. absurd (omega (arith, h, length-active rs)))
  ]

  abbrev IsLive : List ProcessRecord → String → Bool × ProcessRegistry → Type 0
  IsLive rs key done =
      (done.0 ≡ any runs rs) × (load_all done.1 key ≡ active_records killpg kill rs)

  keep_active-IsLive :
      (key : String) (s : ProcessRegistry) (rs left : List ProcessRecord)
      → Dict.get s.legacy key ≡ none
      → load_all s key ≡ rs
      → active_records killpg kill rs ≡ left
      → IsLive rs key (keep_active killpg kill key rs left s)
  keep_active-IsLive key s rs [] no_legacy e kept =
      (ap some_left (sym kept) ∙ any-active rs, load_unregistered key s no_legacy ∙ sym kept)
  keep_active-IsLive key s rs (r ∷ left) no_legacy e kept = (
    ap some_left (sym kept) ∙ any-active rs,
    elim (Bool-cases (nat_beq (length (r ∷ left)) (length rs))) [
      | inl all_left ↦
          let same = (nat_beq_iff (length (r ∷ left)) (length rs)).0 all_left in
          rw all_left (e ∙ sym (all_active rs (ap length kept ∙ same)))
      | inr fewer ↦ rw fewer (load_written key (r ∷ left) s ∙ sym kept)
    ],
  )

  is_active_of-IsLive :
      (key : String) (s : ProcessRegistry) (rs : List ProcessRecord)
      → Dict.get s.legacy key ≡ none
      → load_all s key ≡ rs
      → IsLive rs key (is_active_of killpg kill key rs s)
  unfolding active_records
  is_active_of-IsLive key s [] no_legacy e = (refl, e)
  is_active_of-IsLive key s (r ∷ rs) no_legacy e =
      keep_active-IsLive key s (r ∷ rs) (active_records killpg kill (r ∷ rs)) no_legacy e refl

-- An issue without a file of an older version is active exactly when one of its recorded processes runs, and
-- afterwards its records are those of the processes that run, in their order.
pub is_active_lem :
    (killpg kill : ℕ → SignalOutcome) (key : String) (s : ProcessRegistry)
    → Dict.get s.legacy key ≡ none
    → ((is_active killpg kill key s).0 ≡ any (runs killpg kill) (load_all s key))
      × (load_all (is_active killpg kill key s).1 key ≡ active_records killpg kill (load_all s key))
unfolding is_active
is_active_lem killpg kill key s no_legacy =
    is_active_of-IsLive killpg kill key s (load_all s key) no_legacy refl
