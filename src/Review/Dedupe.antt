-- ===== src/Review/Dedupe.antt =====
-- app/review/orchestrator.py, `_dedupe`: findings with the same file, lines and claim.
use dev_bot.Base.{
  ◌≡◌, refl, sym, ◌∙◌, inl, inr, true, false, ◌||◌, List, [], ◌∷◌, ◌++◌, arith, Bool-cases, subst,
}
use mathlib.Core.List.{append-nil, append_assoc}
use dev_bot.Base.Eq.{nat_eq, string_eq}
use dev_bot.Base.Lists.{All}
use dev_bot.Review.{ReviewFinding, same_key, is_seen, dedupe_batch, dedupe_from, dedupe}

-- The first list is the second without some of its members.
pub data Thinned {A : Type 0} : List A → List A → Type 0 where
  done : Thinned [] []
  keep : {xs ys : List A} (x : A) → Thinned xs ys → Thinned (x ∷ xs) (x ∷ ys)
  skip : {xs ys : List A} (x : A) → Thinned xs ys → Thinned xs (x ∷ ys)

Thinned-append :
    {A : Type 0} {xs ys us vs : List A}
    → Thinned xs ys
    → Thinned us vs
    → Thinned (xs ++ us) (ys ++ vs)
Thinned-append done k = k
Thinned-append (keep x h) k = keep x (Thinned-append h k)
Thinned-append (skip x h) k = skip x (Thinned-append h k)

abbrev pub flatten {ℓ} : {A : Type ℓ} → List (List A) → List A
flatten [] = []
flatten (xs ∷ xss) = xs ++ flatten xss

module _ {F : Type 0} where
  -- No two findings have the same file, lines and claim.
  abbrev pub NoRepeat : List (ReviewFinding F) → Type 0
  NoRepeat [] = Unit
  NoRepeat (f ∷ fs) = (is_seen fs f ≡ false) × NoRepeat fs

  same_key_refl : (f : ReviewFinding F) → same_key f f ≡ true
  unfolding same_key
  same_key_refl f =
      ground (arith, string_eq.equal_iff f.file f.file, string_eq.equal_iff f.claim f.claim)

  same_key_comm : (f g : ReviewFinding F) → same_key f g ≡ same_key g f
  unfolding same_key
  same_key_comm f g = ground (
    arith,
    string_eq.equal_iff f.file g.file,
    string_eq.equal_iff g.file f.file,
    string_eq.equal_iff f.claim g.claim,
    string_eq.equal_iff g.claim f.claim,
  )

  is_seen-append :
      (fs gs : List (ReviewFinding F)) (f : ReviewFinding F)
      → is_seen (fs ++ gs) f ≡ (is_seen fs f || is_seen gs f)
  unfolding is_seen
  is_seen-append [] gs f = refl
  is_seen-append (g ∷ fs) gs f = ground (arith, is_seen-append fs gs f)

  NoRepeat-snoc :
      (fs : List (ReviewFinding F)) (f : ReviewFinding F)
      → NoRepeat fs
      → is_seen fs f ≡ false
      → NoRepeat (fs ++ f ∷ [])
  unfolding is_seen
  NoRepeat-snoc [] f h s = (refl, tt)
  NoRepeat-snoc (g ∷ fs) f h s = (
    ground (arith, is_seen-append fs (f ∷ []) g, same_key_comm f g, h.0, s),
    NoRepeat-snoc fs f h.1 (ground (arith, s)),
  )

  NoRepeat-dedupe_batch :
      (fs gs : List (ReviewFinding F)) → NoRepeat fs → NoRepeat (dedupe_batch fs gs)
  unfolding dedupe_batch
  NoRepeat-dedupe_batch fs [] h = h
  NoRepeat-dedupe_batch fs (g ∷ gs) h = elim (Bool-cases (is_seen fs g)) [
    | inl old ↦ rw old (NoRepeat-dedupe_batch fs gs h)
    | inr fresh ↦ rw fresh (NoRepeat-dedupe_batch (fs ++ g ∷ []) gs (NoRepeat-snoc fs g h fresh))
  ]

  is_seen-dedupe_batch :
      (fs gs : List (ReviewFinding F)) (f : ReviewFinding F)
      → is_seen fs f ≡ true
      → is_seen (dedupe_batch fs gs) f ≡ true
  unfolding dedupe_batch is_seen
  is_seen-dedupe_batch fs [] f h = h
  is_seen-dedupe_batch fs (g ∷ gs) f h = ground (
    arith,
    is_seen-dedupe_batch fs gs f h,
    is_seen-dedupe_batch (fs ++ g ∷ []) gs f,
    is_seen-append fs (g ∷ []) f,
    h,
  )

  All-dedupe_batch :
      (fs gs : List (ReviewFinding F)) → All (λ f. is_seen (dedupe_batch fs gs) f ≡ true) gs
  unfolding dedupe_batch is_seen
  All-dedupe_batch fs [] = tt
  All-dedupe_batch fs (g ∷ gs) = elim (Bool-cases (is_seen fs g)) [
    | inl old ↦
        subst (λ l. All (λ f. is_seen l f ≡ true) (g ∷ gs)) {x = dedupe_batch fs gs}
          (ground (arith, old)) (is_seen-dedupe_batch fs gs g old, All-dedupe_batch fs gs)
    | inr fresh ↦
        subst (λ l. All (λ f. is_seen l f ≡ true) (g ∷ gs)) {x = dedupe_batch (fs ++ g ∷ []) gs}
          (ground (arith, fresh))
          (
            is_seen-dedupe_batch (fs ++ g ∷ []) gs g
                (ground (arith, is_seen-append fs (g ∷ []) g, same_key_refl g)),
            All-dedupe_batch (fs ++ g ∷ []) gs,
          )
  ]

  -- What is kept of a batch, behind what was kept before.
  Thinned-dedupe_batch :
      (fs gs hs : List (ReviewFinding F)) → Thinned fs hs → Thinned (dedupe_batch fs gs) (hs ++ gs)
  unfolding dedupe_batch
  Thinned-dedupe_batch fs [] hs h = subst (Thinned fs) (sym (append-nil hs)) h
  Thinned-dedupe_batch fs (g ∷ gs) hs h = elim (Bool-cases (is_seen fs g)) [
    | inl old ↦ rw old (
        subst (Thinned (dedupe_batch fs gs)) (append_assoc hs (g ∷ []) gs) (
          Thinned-dedupe_batch fs gs (hs ++ g ∷ []) (
            subst (λ l. Thinned l (hs ++ g ∷ [])) (append-nil fs)
              (Thinned-append h (skip g done)))))
    | inr fresh ↦ rw fresh (
        subst (Thinned (dedupe_batch (fs ++ g ∷ []) gs)) (append_assoc hs (g ∷ []) gs)
          (Thinned-dedupe_batch (fs ++ g ∷ []) gs (hs ++ g ∷ []) (Thinned-append h (keep g done))))
  ]

  dedupe_batch-append :
      (fs gs hs : List (ReviewFinding F))
      → dedupe_batch fs (gs ++ hs) ≡ dedupe_batch (dedupe_batch fs gs) hs
  unfolding dedupe_batch
  dedupe_batch-append fs [] hs = refl
  dedupe_batch-append fs (g ∷ gs) hs =
      ground (arith, dedupe_batch-append fs gs hs, dedupe_batch-append (fs ++ g ∷ []) gs hs)

  -- The batches are read as one list.
  dedupe_from-flatten :
      (fs : List (ReviewFinding F)) (batches : List (List (ReviewFinding F)))
      → dedupe_from fs batches ≡ dedupe_batch fs (flatten batches)
  unfolding dedupe_from dedupe_batch
  dedupe_from-flatten fs [] = refl
  dedupe_from-flatten fs (batch ∷ batches) =
      dedupe_from-flatten (dedupe_batch fs batch) batches
      ∙ sym (dedupe_batch-append fs batch (flatten batches))

  -- Of the findings of all batches some are kept, in their order: no two of those that are kept have the
  -- same file, lines and claim, and every finding shares these with one that is kept.
  pub dedupe_lem :
      (batches : List (List (ReviewFinding F)))
      → NoRepeat (dedupe batches)
        × All (λ f. is_seen (dedupe batches) f ≡ true) (flatten batches)
        × Thinned (dedupe batches) (flatten batches)
  unfolding dedupe
  dedupe_lem batches = rw (dedupe_from-flatten [] batches) (
    NoRepeat-dedupe_batch [] (flatten batches) tt,
    All-dedupe_batch [] (flatten batches),
    Thinned-dedupe_batch [] (flatten batches) [] done,
  )
