-- ===== src/StateStore/Threads.antt =====
-- app/state_store.py: the threads of issues, through `bind_issue`.
use dev_bot.Base.{
  ℕ, String, ◌≡◌, refl, sym, ap, subst, ◌∙◌, inl, inr, true, false, not, ◌&&◌, some, [], ◌∷◌, arith,
  if◌then◌else◌, Bool-cases,
}
use dev_bot.Base.Eq.{string_eq, nat_eq, ◌==◌}
use dev_bot.Base.Sets.{beq_refl}
use dev_bot.Base.Dict
use dev_bot.Base.Dict.{Dict, get-put, Entries, Entries-put, Entries-get, Entries-map}
use dev_bot.Base.Text.{is_empty, strip, show}
use dev_bot.Base.Decimal.{is_empty-show, strip-show}
use dev_bot.Base.Result.{ok}
use dev_bot.Base.Action.{Keeps}
use dev_bot.StateStore.{
  FileStateStore, Meta, Value, text, key, get_text, get_number, get_filled, text_in, number_in,
  updated_with, meta_or_empty, load_draft_meta, issue_key_for_thread, update_fields, updated,
  update_meta, update_draft_meta, resolve_entity_key,
}
use dev_bot.StateStore.Keys.{is_issue_key, safe_issue_key}
use dev_bot.StateStore.Binding.{
  is_empty_meta, put_binding, draft_of_issue, write_binding, bind_thread, create_draft,
}

-- The issue's record names the thread.
abbrev pub NamesThread : Dict String Meta → ℕ → String → Type 0
NamesThread metas t issue_key =
    strip (get_text (meta_or_empty (Dict.get metas (safe_issue_key issue_key))) "thread_id" "")
    ≡ show t

-- The message and the channel of a record are numbers.
abbrev pub CanRead : Meta → Type 0
CanRead meta =
    (n : ℕ) × (get_number meta "parent_message_id" ≡ some n)
    × (m : ℕ) × (get_number meta "channel_id" ≡ some m)

abbrev pub IsBound : FileStateStore → Type 0
IsBound s =
    Entries (NamesThread s.issue_metas) s.bindings
    × Entries (λ dir meta. CanRead meta) s.issue_metas

module _ (now : String) (t : ℕ) (k : String) where
  abbrev with_thread : Dict String Meta → Dict String Meta
  with_thread metas = updated metas (safe_issue_key k) (("thread_id", text (show t)) ∷ [])

  update_issue :
      (fields : Meta) (s : FileStateStore)
      → is_issue_key k ≡ true
      → ((update_meta (key k) fields s).bindings ≡ s.bindings)
        × ((update_meta (key k) fields s).issue_metas
            ≡ updated s.issue_metas (safe_issue_key k) fields)
  unfolding update_meta resolve_entity_key
  update_issue fields s h = (rw h (rw h refl), rw h (rw h refl))

  draft_of_issue-state :
      (meta : Meta) (s : FileStateStore)
      → CanRead meta
      → (after : FileStateStore) × (draft_of_issue now t meta s ≡ (ok tt, after))
        × (after.bindings ≡ s.bindings)
        × (after.issue_metas ≡ s.issue_metas)
  unfolding draft_of_issue create_draft
  draft_of_issue-state meta s (n, hn, m, hm) =
      elim (Bool-cases (is_empty_meta (load_draft_meta s (show t)))) [
        | inl missing ↦ (
          create_draft now t n m (get_filled meta "status" "collecting_requirements") s,
          rw (missing, hn, hm) refl,
          refl,
          refl,
        )
        | inr old ↦ (s, rw old refl, refl, refl)
      ]

  write_binding-state :
      (meta : Meta) (s : FileStateStore)
      → is_issue_key k ≡ true
      → is_empty_meta meta ≡ false
      → CanRead meta
      → let after = (write_binding now t k meta s).1 in
        (after.bindings ≡ Dict.put s.bindings t k) × (after.issue_metas ≡ with_thread s.issue_metas)
  unfolding write_binding update_draft_meta
  write_binding-state meta s h filled readable =
      let (drafted, e, hb, hi) = draft_of_issue-state meta (put_binding t k s) readable in
      let (ub, ui) = update_issue (("thread_id", text (show t)) ∷ []) drafted h in
      rw (e, filled) (ub ∙ hb, ui ∙ ap with_thread hi)

-- The issue has a record, which is not empty.
abbrev pub HasRecord : String → FileStateStore → Type 0
HasRecord k s =
    (meta : Meta) × (Dict.get s.issue_metas (safe_issue_key k) ≡ some meta)
    × (is_empty_meta meta ≡ false)

abbrev pub thread_of : Meta → String
thread_of meta = strip (get_text meta "thread_id" "")

abbrev named_now : ℕ → Meta → Meta
named_now t meta = Dict.put meta "thread_id" (text (show t))

is_empty_meta-put :
    (meta : Meta) (f : String) (v : Value) → is_empty_meta (Dict.put meta f v) ≡ false
unfolding Dict.put
is_empty_meta-put [] f v = refl
is_empty_meta-put ((g, w) ∷ meta) f v = elim (Bool-cases (g == f)) [
  | inl same ↦ rw same refl
  | inr other ↦ rw other refl
]

thread_of-named_now : (t : ℕ) (meta : Meta) → thread_of (named_now t meta) ≡ show t
unfolding get_text
thread_of-named_now t meta =
    ap (λ o. strip (text_in o "")) (get-put meta "thread_id" "thread_id" (text (show t)))
    ∙ strip-show t

CanRead-named_now : (t : ℕ) (meta : Meta) → CanRead meta → CanRead (named_now t meta)
unfolding get_number
CanRead-named_now t meta (n, hn, m, hm) = (
  n,
  ap number_in (get-put meta "thread_id" "parent_message_id" (text (show t))) ∙ hn,
  m,
  ap number_in (get-put meta "thread_id" "channel_id" (text (show t))) ∙ hm,
)

with_thread-some :
    (now : String) (t : ℕ) (k : String) (metas : Dict String Meta) (meta : Meta)
    → Dict.get metas (safe_issue_key k) ≡ some meta
    → with_thread now t k metas ≡ Dict.put metas (safe_issue_key k) (named_now t meta)
unfolding update_fields
with_thread-some now t k metas meta g =
    ap (updated_with metas (safe_issue_key k) (("thread_id", text (show t)) ∷ [])) g

-- A thread that is free for the issue is the one that any thread bound to the issue is.
free_for :
    (t other : ℕ) (name : String)
    → (not (is_empty name) && not (name == show t)) ≡ false
    → name ≡ show other
    → show t ≡ show other
free_for t other name free e = elim (Bool-cases (name == show t)) [
  | inl same ↦ sym ((string_eq.equal_iff name (show t)).0 same) ∙ e
  | inr different ↦ absurd (
      filled
        (subst (λ b. (not (is_empty name) && not b) ≡ false) {x = name == show t} different free))
]
  where
    filled : (not (is_empty name) && true) ≡ false → ⊥
    filled h = ground (arith, ap is_empty e, is_empty-show other, h)

NamesThread-with_thread :
    (t : ℕ) (k : String) (metas : Dict String Meta) (meta : Meta)
    → Dict.get metas (safe_issue_key k) ≡ some meta
    → (not (is_empty (thread_of meta)) && not (thread_of meta == show t)) ≡ false
    → (other : ℕ) (j : String) → NamesThread metas other j
    → NamesThread (Dict.put metas (safe_issue_key k) (named_now t meta)) other j
NamesThread-with_thread t k metas meta g free other j h =
    let e = get-put metas (safe_issue_key k) (safe_issue_key j) (named_now t meta) in
    elim (Bool-cases (safe_issue_key k == safe_issue_key j)) [
      | inr different ↦ rw (e, different) h
      | inl same ↦
          let found : Dict.get metas (safe_issue_key j) ≡ some meta =
            ap (Dict.get metas) (sym ((string_eq.equal_iff _ _).0 same)) ∙ g in
          let name : thread_of meta ≡ show other =
            ap (λ o. thread_of (meta_or_empty o)) (sym found) ∙ h in
          rw (e, same) (thread_of-named_now t meta ∙ free_for t other (thread_of meta) free name)
    ]

abbrev pub Ready : String → FileStateStore → Type 0
Ready k s = IsBound s × HasRecord k s

write_binding-Ready :
    (now : String) (t : ℕ) (k : String) (s : FileStateStore) (meta : Meta)
    → is_issue_key k ≡ true
    → IsBound s
    → Dict.get s.issue_metas (safe_issue_key k) ≡ some meta
    → is_empty_meta meta ≡ false
    → (not (is_empty (thread_of meta)) && not (thread_of meta == show t)) ≡ false
    → Ready k (write_binding now t k meta s).1
write_binding-Ready now t k s meta h (bound, readable) g filled free =
    let own = Entries-get (λ dir m. CanRead m) s.issue_metas (safe_issue_key k) meta readable g in
    let (hb, hi) = write_binding-state now t k meta s h filled own in
    let metas = Dict.put s.issue_metas (safe_issue_key k) (named_now t meta) in
    let now_metas : (write_binding now t k meta s).1.issue_metas ≡ metas =
      hi ∙ with_thread-some now t k s.issue_metas meta g in
    let e = get-put s.issue_metas (safe_issue_key k) (safe_issue_key k) (named_now t meta) in
    let found : Dict.get metas (safe_issue_key k) ≡ some (named_now t meta) =
      e
      ∙ ap (λ b. if b then some (named_now t meta) else Dict.get s.issue_metas (safe_issue_key k))
          (beq_refl (safe_issue_key k)) in
    let names : NamesThread metas t k =
      ap (λ o. thread_of (meta_or_empty o)) found ∙ thread_of-named_now t meta in
    let all_names : Entries (NamesThread metas) (Dict.put s.bindings t k) =
      Entries-put (NamesThread metas) s.bindings t k
        (Entries-map (NamesThread s.issue_metas) (NamesThread metas) s.bindings
          (NamesThread-with_thread t k s.issue_metas meta g free) bound)
        names in
    let all_readable : Entries (λ dir m. CanRead m) metas =
      Entries-put (λ dir m. CanRead m) s.issue_metas (safe_issue_key k) (named_now t meta) readable
        (CanRead-named_now t meta own) in
    rw (hb, now_metas)
      (
        (all_names, all_readable),
        (named_now t meta, found, is_empty_meta-put meta "thread_id" (text (show t))),
      )

pub bind_thread-Ready :
    (now : String) (t : ℕ) (k : String)
    → is_issue_key k ≡ true
    → Keeps (Ready k) (bind_thread now t k)
unfolding bind_thread
bind_thread-Ready now t k h s (bound, (meta, g, filled)) =
    let current = issue_key_for_thread s t in
    elim (Bool-cases (not (is_empty current) && not (current == k))) [
      | inl elsewhere ↦ rw elsewhere (bound, (meta, g, filled))
      | inr free_thread ↦
          elim (Bool-cases (not (is_empty (thread_of meta)) && not (thread_of meta == show t))) [
            | inl taken ↦ rw (free_thread, g, taken) (bound, (meta, g, filled))
            | inr free ↦
                rw (free_thread, g, free) (write_binding-Ready now t k s meta h bound g filled free)
          ]
    ]
