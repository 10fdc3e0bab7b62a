-- ===== src/Base/Sets.antt =====
-- Python's `set` as a list in the order of insertion.
use mathlib.Core.Path.{◌≡◌, refl}
use mathlib.Core.Bool.{Bool, true, false, not, ◌&&◌, ◌||◌}
use mathlib.Core.List.{List, [], ◌∷◌, ◌++◌}
use native.Mathlib.Omega.{arith}
use dev_bot.Base.Tests.{if◌then◌else◌}
use dev_bot.Base.Eq.{Eq, ◌==◌}

module _ {ℓ} {A : Type ℓ} ⦃e : Eq A⦄ where
  -- x in s
  unfoldable pub contains : List A → A → Bool
  contains [] x = false
  contains (y ∷ ys) x = y == x || contains ys x

  -- s.add(x)
  unfoldable pub add : List A → A → List A
  unfolding contains
  add xs x = if contains xs x then xs else xs ++ x ∷ []

  -- s.discard(x)
  unfoldable pub discard : List A → A → List A
  discard [] x = []
  discard (y ∷ ys) x = let rest = discard ys x in if y == x then rest else y ∷ rest

  -- No member stands twice.
  abbrev pub Distinct : List A → Type 0
  Distinct [] = Unit
  Distinct (x ∷ xs) = (contains xs x ≡ false) × Distinct xs

  -- No member of the first list is one of the second.
  abbrev pub Disjoint : List A → List A → Type 0
  Disjoint [] ys = Unit
  Disjoint (x ∷ xs) ys = (contains ys x ≡ false) × Disjoint xs ys

module _ {ℓ} {A : Type ℓ} ⦃e : Eq A⦄ where
  pub beq_refl : (a : A) → (a == a) ≡ true
  beq_refl a = (e.equal_iff a a).1 refl

  pub contains-append :
      (xs ys : List A) (x : A) → contains (xs ++ ys) x ≡ (contains xs x || contains ys x)
  unfolding contains
  contains-append [] ys x = refl
  contains-append (y ∷ xs) ys x = ground (arith, contains-append xs ys x)

  pub contains-discard :
      (xs : List A) (x y : A) → contains (discard xs x) y ≡ (not (x == y) && contains xs y)
  unfolding contains discard
  contains-discard [] x y = ground arith
  contains-discard (z ∷ xs) x y =
      ground (arith, contains-discard xs x y, e.equal_iff z x, e.equal_iff z y, e.equal_iff x y)

  pub contains-add : (xs : List A) (x y : A) → contains (add xs x) y ≡ (x == y || contains xs y)
  unfolding add
  contains-add xs x y = ground (arith, contains-append xs (x ∷ []) y, e.equal_iff x y)

  pub add_of_new : (xs : List A) (x : A) → contains xs x ≡ false → add xs x ≡ xs ++ x ∷ []
  unfolding add
  add_of_new xs x h = rw h

  pub discard_of_absent : (xs : List A) (x : A) → contains xs x ≡ false → discard xs x ≡ xs
  unfolding contains discard
  discard_of_absent [] x h = refl
  discard_of_absent (y ∷ xs) x h = ground (arith, discard_of_absent xs x)

  -- Discarding the oldest member leaves the rest.
  pub discard_head : (x : A) (xs : List A) → Distinct (x ∷ xs) → discard (x ∷ xs) x ≡ xs
  unfolding discard
  discard_head x xs h = rw (beq_refl x) (discard_of_absent xs x h.0)

  pub Distinct-snoc :
      (xs : List A) (x : A) → Distinct xs → contains xs x ≡ false → Distinct (xs ++ x ∷ [])
  unfolding contains
  Distinct-snoc [] x d h = (refl, tt)
  Distinct-snoc (y ∷ xs) x d h = (
    ground (arith, contains-append xs (x ∷ []) y, e.equal_iff x y, e.equal_iff y x, d.0),
    Distinct-snoc xs x d.1 (ground arith),
  )

  pub Distinct-add : (xs : List A) (x : A) → Distinct xs → Distinct (add xs x)
  unfolding add
  Distinct-add xs x d = ground (arith, Distinct-snoc xs x d)

  pub Distinct-discard : (xs : List A) (x : A) → Distinct xs → Distinct (discard xs x)
  unfolding discard
  Distinct-discard [] x d = tt
  Distinct-discard (y ∷ xs) x d =
      ground (arith, Distinct-discard xs x d.1, contains-discard xs x y, d.0)

module _ {ℓ} {A : Type ℓ} ⦃e : Eq A⦄ where
  pub Disjoint-snoc :
      (xs ys : List A) (x : A) → Disjoint xs ys → contains ys x ≡ false → Disjoint (xs ++ x ∷ []) ys
  Disjoint-snoc [] ys x d h = (h, tt)
  Disjoint-snoc (z ∷ xs) ys x d h = (d.0, Disjoint-snoc xs ys x d.1 h)

  pub Disjoint-add :
      (xs ys : List A) (x : A) → Disjoint xs ys → contains xs x ≡ false → Disjoint xs (add ys x)
  unfolding contains
  Disjoint-add [] ys x d h = tt
  Disjoint-add (z ∷ xs) ys x d h = (
    ground (arith, contains-add ys x z, d.0, e.equal_iff x z, e.equal_iff z x),
    Disjoint-add xs ys x d.1 (ground arith),
  )

  pub Disjoint-discard : (xs ys : List A) (x : A) → Disjoint xs ys → Disjoint xs (discard ys x)
  Disjoint-discard [] ys x d = tt
  Disjoint-discard (z ∷ xs) ys x d =
      (ground (arith, contains-discard ys x z, d.0), Disjoint-discard xs ys x d.1)
