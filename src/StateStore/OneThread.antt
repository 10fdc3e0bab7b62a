-- ===== src/StateStore/OneThread.antt =====
-- app/state_store.py: the record that `bind_issue` makes for an issue that has none.
use dev_bot.Base.{
  ℕ, String, ◌≡◌, refl, sym, ap, subst, ◌∙◌, inl, inr, Bool, true, false, not, ◌&&◌, ◌||◌, Option,
  none, some, List, [], ◌∷◌, arith, if◌then◌else◌, Bool-cases, Option-cases, nat_beq, nat_beq_iff,
}
use dev_bot.Base.Eq.{string_eq, nat_eq, ◌==◌}
use dev_bot.Base.Sets.{beq_refl}
use dev_bot.Base.Dict
use dev_bot.Base.Dict.{Dict, get-put, Entries, Entries-put, Entries-get, Entries-map}
use dev_bot.Base.Text.{is_empty, strip, show}
use dev_bot.Base.Decimal.{value_from-show, is_digits-show, is_empty-show, strip-show}
use dev_bot.Base.Action.{Keeps, go_on, >>=-Keeps}
use dev_bot.StateStore.{
  FileStateStore, Op, Meta, text, get_text, get_number, number_in, int_of, meta_or_empty,
  load_issue_meta,
}
use dev_bot.StateStore.Keys.{is_issue_key, safe_issue_key, split_issue_key}
use dev_bot.StateStore.Binding.{
  is_empty_meta, bind_thread, shown_or_empty, new_issue_meta, put_issue_meta, create_issue_record,
  create_bound_record, record_missing,
}
use dev_bot.StateStore.Threads.{NamesThread, CanRead, IsBound, Ready, thread_of, bind_thread-Ready}

-- The number that a record keeps is read again.
number_in-shown : (n : ℕ) → number_in (some (text (shown_or_empty n))) ≡ some n
unfolding int_of
number_in-shown n = elim (Bool-cases (nat_beq n 0)) [
  | inl zero_number ↦ rw zero_number (ap some (sym ((nat_beq_iff n 0).0 zero_number)))
  | inr other ↦
      rw (other, is_empty-show, strip-show)
        (rw (is_empty-show, is_digits-show) (ap some (value_from-show n)))
]

nothing : (meta : Meta) → is_empty_meta meta ≡ true → meta ≡ []
nothing [] h = refl
nothing (entry ∷ meta) h = absurd (cc h)

no_thread : (other : ℕ) → thread_of [] ≡ show other → ⊥
unfolding get_text strip dev_bot.Base.Text.strip_left dev_bot.Base.Text.strip_right Dict.get
no_thread other e = ground (arith, ap is_empty e, is_empty-show other)

NamesThread-put_new :
    (metas : Dict String Meta) (k : String) (meta : Meta)
    → is_empty_meta (meta_or_empty (Dict.get metas (safe_issue_key k))) ≡ true
    → (other : ℕ) (j : String) → NamesThread metas other j
    → NamesThread (Dict.put metas (safe_issue_key k) meta) other j
NamesThread-put_new metas k meta missing other j h =
    let e = get-put metas (safe_issue_key k) (safe_issue_key j) meta in
    elim (Bool-cases (safe_issue_key k == safe_issue_key j)) [
      | inr different ↦ rw (e, different) h
      | inl same ↦
          let dirs : safe_issue_key j ≡ safe_issue_key k = sym ((string_eq.equal_iff _ _).0 same) in
          let empty : meta_or_empty (Dict.get metas (safe_issue_key j)) ≡ [] =
            ap (λ dir. meta_or_empty (Dict.get metas dir)) dirs
            ∙ nothing (meta_or_empty (Dict.get metas (safe_issue_key k))) missing in
          absurd (no_thread other (ap thread_of (sym empty) ∙ h))
    ]

module _ (now : String) (t : ℕ) (k : String) where
  new_issue_meta-CanRead :
      (parts : String × String) (p c : ℕ) (status : String)
      → CanRead (new_issue_meta now k parts (some t) p c status)
  unfolding new_issue_meta get_number Dict.get
  new_issue_meta-CanRead parts p c status = (p, number_in-shown p, c, number_in-shown c)

  new_issue_meta-filled :
      (parts : String × String) (p c : ℕ) (status : String)
      → is_empty_meta (new_issue_meta now k parts (some t) p c status) ≡ false
  unfolding new_issue_meta
  new_issue_meta-filled parts p c status = refl

  put_issue_meta-Ready :
      (s : FileStateStore) (meta : Meta)
      → IsBound s
      → is_empty_meta (load_issue_meta s k) ≡ true
      → CanRead meta
      → is_empty_meta meta ≡ false
      → Ready k (put_issue_meta k meta s)
  put_issue_meta-Ready s meta (bound, readable) missing own filled = (
    (
      Entries-map (NamesThread s.issue_metas)
          (NamesThread (Dict.put s.issue_metas (safe_issue_key k) meta)) s.bindings
          (NamesThread-put_new s.issue_metas k meta missing) bound,
      Entries-put (λ dir m. CanRead m) s.issue_metas (safe_issue_key k) meta readable own,
    ),
    (
      meta,
      get-put s.issue_metas (safe_issue_key k) (safe_issue_key k) meta
          ∙ ap (λ b. if b then some meta else Dict.get s.issue_metas (safe_issue_key k))
              (beq_refl (safe_issue_key k)),
      filled,
    ),
  )

  -- The record is made, or the call raises before anything is written.
  create_issue_record-IsBound :
      (p c : ℕ) (status : String) (next : Op String) (s : FileStateStore)
      → is_issue_key k ≡ true
      → Keeps (Ready k) next
      → IsBound s
      → is_empty_meta (load_issue_meta s k) ≡ true
      → IsBound (go_on (λ _. next) (create_issue_record now k (some t) p c status s)).1
  unfolding create_issue_record
  create_issue_record-IsBound p c status next s h keeps bound missing =
      elim (Option-cases (split_issue_key k)) [
        | inl none_split ↦ rw none_split bound
        | inr (parts, e) ↦
            let meta = new_issue_meta now k parts (some t) p c status in
            rw e
              (>>=-Keeps (Ready k) (bind_thread now t k) (λ _. next) (bind_thread-Ready now t k h)
                (λ _. keeps) (put_issue_meta k meta s)
                (put_issue_meta-Ready s meta bound missing (new_issue_meta-CanRead parts p c status)
                  (new_issue_meta-filled parts p c status))).0
      ]

  pub record_missing-IsBound :
      (draft_meta : Meta) (next : Op String) (s : FileStateStore)
      → is_issue_key k ≡ true
      → Keeps (Ready k) next
      → IsBound s
      → IsBound (go_on (λ _. next) (record_missing now t k draft_meta s)).1
  unfolding record_missing create_bound_record
  record_missing-IsBound draft_meta next s h keeps bound =
      elim (Bool-cases (is_empty_meta (load_issue_meta s k))) [
        | inl missing ↦ elim (Option-cases (get_number draft_meta "parent_message_id")) [
          | inl unread ↦ rw (missing, unread) bound
          | inr (p, hp) ↦ elim (Option-cases (get_number draft_meta "channel_id")) [
            | inl unread ↦ rw (missing, hp, unread) bound
            | inr (c, hc) ↦
                rw (missing, hp, hc)
                  (create_issue_record-IsBound p c (get_text draft_meta "status" "draft") next s h
                    keeps bound missing)
          ]
        ]
        | inr there ↦
            rw there
              (keeps s (bound, record_there (Dict.get s.issue_metas (safe_issue_key k)) there)).0
      ]
    where
      record_there :
          (o : Option Meta)
          → is_empty_meta (meta_or_empty o) ≡ false
          → (meta : Meta) × (o ≡ some meta) × (is_empty_meta meta ≡ false)
      record_there none filled = absurd (cc filled)
      record_there (some meta) filled = (meta, refl, filled)
