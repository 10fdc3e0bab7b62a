-- ===== src/Base/Sort.antt =====
-- Python's stable `sort` by a key, and the lexicographic order on tuples of numbers.
use Prim.Native.Nat.{ℕ}
use mathlib.Core.Path.{◌≡◌, refl, ap}
use mathlib.Core.Logic.{◌↔◌, inl, inr}
use mathlib.Core.Bool.{Bool, true, false, ◌&&◌, ◌||◌}
use mathlib.Core.List.{List, [], ◌∷◌, ◌++◌}
use native.Mathlib.Omega.{arith}
use dev_bot.Base.Tests.{ltb, nat_beq, if◌then◌else◌, Bool-cases}
use dev_bot.Base.Lists.{All}

-- The comparison of two tuples of equal length; Python also puts a proper prefix first.
unfoldable pub lex_le : List ℕ → List ℕ → Bool
lex_le [] ys = true
lex_le (x ∷ xs) [] = false
lex_le (x ∷ xs) (y ∷ ys) = let rest = lex_le xs ys in ltb x y || nat_beq x y && rest

-- The equality of two tuples.
unfoldable pub same : List ℕ → List ℕ → Bool
same [] [] = true
same (x ∷ xs) (y ∷ ys) = let rest = same xs ys in nat_beq x y && rest
same _ _ = false

pub same_iff : (xs ys : List ℕ) → (same xs ys ≡ true) ↔ (xs ≡ ys)
unfolding same
same_iff [] [] = (λ h. refl, λ h. refl)
same_iff [] (y ∷ ys) = (λ h. absurd (cc h), λ h. absurd (cc h))
same_iff (x ∷ xs) [] = (λ h. absurd (cc h), λ h. absurd (cc h))
same_iff (x ∷ xs) (y ∷ ys) = ground (arith, same_iff xs ys)

pub lex_le_total : (xs ys : List ℕ) → lex_le xs ys ≡ false → lex_le ys xs ≡ true
unfolding lex_le
lex_le_total [] ys h = absurd (cc h)
lex_le_total (x ∷ xs) [] h = refl
lex_le_total (x ∷ xs) (y ∷ ys) h = ground (arith, lex_le_total xs ys)

pub lex_le_trans :
    (xs ys zs : List ℕ) → lex_le xs ys ≡ true → lex_le ys zs ≡ true → lex_le xs zs ≡ true
unfolding lex_le
lex_le_trans [] ys zs h k = refl
lex_le_trans (x ∷ xs) [] zs h k = absurd (cc h)
lex_le_trans (x ∷ xs) (y ∷ ys) [] h k = absurd (cc k)
lex_le_trans (x ∷ xs) (y ∷ ys) (z ∷ zs) h k = ground (arith, lex_le_trans xs ys zs)

module _ {ℓ} {A : Type ℓ} (le : A → A → Bool) where
  unfoldable pub insert : A → List A → List A
  insert x [] = x ∷ []
  insert x (y ∷ ys) = let rest = insert x ys in if le x y then x ∷ y ∷ ys else y ∷ rest

  -- Elements that compare equal keep their order.
  unfoldable pub sort : List A → List A
  unfolding insert
  sort [] = []
  sort (x ∷ xs) = insert x (sort xs)

-- `m` is the first of the least members of `xs`: those before it are greater, and those behind it
-- are not smaller.
pub record IsFirstLeast {ℓ} {A : Type ℓ} (le : A → A → Bool) (m : A) (xs : List A) : Type ℓ where
  pub before : List A
  pub after : List A
  pub split : xs ≡ before ++ m ∷ after
  pub greater : All (λ d. le d m ≡ false) before
  pub not_smaller : All (λ d. le m d ≡ true) after

module _ {ℓ} {A : Type ℓ} (le : A → A → Bool) (total : (x y : A) → le x y ≡ false → le y x ≡ true)
    (trans : (x y z : A) → le x y ≡ true → le y z ≡ true → le x z ≡ true) where
  below_all :
      (x m : A) (ds : List A)
      → le x m ≡ true
      → All (λ d. le m d ≡ true) ds
      → All (λ d. le x d ≡ true) ds
  below_all x m [] h k = tt
  below_all x m (d ∷ ds) h (p, ps) = (trans x m d h p, below_all x m ds h ps)

  above_all :
      (x m : A) (ds : List A)
      → le x m ≡ true
      → All (λ d. le d m ≡ false) ds
      → All (λ d. le x d ≡ true) ds
  above_all x m [] h k = tt
  above_all x m (d ∷ ds) h (p, ps) = (trans x m d h (total d m p), above_all x m ds h ps)

  join :
      (P : A → Type 0) (xs ys : List A) (m : A) → All P xs → P m → All P ys → All P (xs ++ m ∷ ys)
  join P [] ys m hx hm hy = (hm, hy)
  join P (x ∷ xs) ys m hx hm hy = (hx.0, join P xs ys m hx.1 hm hy)

  insert-nonempty : (x : A) (ys : List A) → insert le x ys ≡ [] → ⊥
  unfolding insert
  insert-nonempty x [] h = cc h
  insert-nonempty x (y ∷ ys) h = ground (arith, h)

  pub sort-eq-nil : (xs : List A) → sort le xs ≡ [] → xs ≡ []
  unfolding sort
  sort-eq-nil [] h = refl
  sort-eq-nil (x ∷ xs) h = absurd (insert-nonempty x (sort le xs) h)

  insert-IsFirstLeast :
      (x : A) (xs sorted : List A) (m : A) (rest : List A)
      → (sorted ≡ [] → xs ≡ [])
      → ((m' : A) (rest' : List A) → sorted ≡ m' ∷ rest' → IsFirstLeast le m' xs)
      → insert le x sorted ≡ m ∷ rest
      → IsFirstLeast le m (x ∷ xs)
  unfolding insert
  insert-IsFirstLeast x xs [] m rest none_left ih h =
      let same : x ≡ m = ground (arith, h) in
      record {
        before = [];
        after = [];
        split = cc (same, none_left refl);
        greater = tt;
        not_smaller = tt;
      }
  insert-IsFirstLeast x xs (m' ∷ rest') m rest none_left ih h = elim (Bool-cases (le x m')) [
    | inl first ↦
        let same : x ≡ m = ground (arith, h, first) in
        let old = ih m' rest' refl in
        record {
          before = [];
          after = xs;
          split = cc same;
          greater = tt;
          not_smaller =
              rw (← same, old.split)
                (join (λ d. le x d ≡ true) old.before old.after m'
                  (above_all x m' old.before first old.greater) first
                  (below_all x m' old.after first old.not_smaller));
        }
    | inr later ↦
        let same : m' ≡ m = ground (arith, h, later) in
        let old = ih m' rest' refl in
        rw (← same) (record {
          before = x ∷ old.before;
          after = old.after;
          split = ap (λ l. x ∷ l) old.split;
          greater = (later, old.greater);
          not_smaller = old.not_smaller;
        })
  ]

  -- The head of the sorted list is the first least member.
  pub sort-IsFirstLeast :
      (xs : List A) (m : A) (rest : List A) → sort le xs ≡ m ∷ rest → IsFirstLeast le m xs
  unfolding sort
  sort-IsFirstLeast [] m rest h = absurd (cc h)
  sort-IsFirstLeast (x ∷ xs) m rest h =
      insert-IsFirstLeast x xs (sort le xs) m rest (sort-eq-nil xs) (sort-IsFirstLeast xs) h
