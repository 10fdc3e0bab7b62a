-- ===== src/Base/Visible.antt =====
-- Texts that are not blank: what `strip` leaves of them.
use Prim.Native.Char.{Char, code}
use Prim.Native.String.{String, [], ◌∷◌, ◌++◌}
use text.Mathlib.TextLemmas.{nil-append, cons-append}
use mathlib.Core.Path.{◌≡◌, refl, ap, sym, subst, ◌∙◌}
use mathlib.Core.Bool.{Bool, true, false, not, ◌||◌}
use native.Mathlib.Omega.{arith}
use mathlib.Core.Logic.{inl, inr}
use dev_bot.Base.Tests.{Bool-cases}
use dev_bot.Base.Text.{is_empty, is_space, strip, strip_left, strip_right}

-- A character of the text is not white space.
unfoldable pub has_visible : String → Bool
has_visible [] = false
has_visible (c ∷ s) = not (is_space (code c)) || has_visible s

has_visible-strip_left : (s : String) → has_visible (strip_left s) ≡ has_visible s
unfolding has_visible strip_left
has_visible-strip_left [] = refl
has_visible-strip_left (c ∷ s) = elim (Bool-cases (is_space (code c))) [
  | inl space ↦ rw space (has_visible-strip_left s)
  | inr other ↦ rw other (unfold has_visible in rw other refl)
]

is_empty-strip_right : (s : String) → is_empty (strip_right s) ≡ not (has_visible s)
unfolding has_visible strip_right
is_empty-strip_right [] = refl
is_empty-strip_right (c ∷ s) = elim (Bool-cases (is_space (code c))) [
  | inr other ↦ rw other refl
  | inl space ↦ elim (Bool-cases (is_empty (strip_right s))) [
    | inl blank ↦ rw (space, blank) (sym blank ∙ is_empty-strip_right s)
    | inr more ↦ rw (space, more) (sym more ∙ is_empty-strip_right s)
  ]
]

pub is_empty-strip : (s : String) → is_empty (strip s) ≡ not (has_visible s)
unfolding strip
is_empty-strip s = is_empty-strip_right (strip_left s) ∙ ap not (has_visible-strip_left s)

or_assoc : (a b c : Bool) → ((a || b) || c) ≡ (a || (b || c))
or_assoc true b c = refl
or_assoc false b c = refl

pub has_visible-append : (s t : String) → has_visible (s ++ t) ≡ (has_visible s || has_visible t)
unfolding has_visible
has_visible-append [] t = ap has_visible (nil-append t)
has_visible-append (c ∷ s) t =
    ap has_visible (cons-append c s t)
    ∙ ap (λ b. not (is_space (code c)) || b) (has_visible-append s t)
    ∙ sym (or_assoc (not (is_space (code c))) (has_visible s) (has_visible t))

invisible : (s : String) → is_empty (strip_right s) ≡ true → false ≡ has_visible s
invisible s h = ground (arith, is_empty-strip_right s, h)

has_visible-strip_right : (s : String) → has_visible (strip_right s) ≡ has_visible s
unfolding has_visible strip_right
has_visible-strip_right [] = refl
has_visible-strip_right (c ∷ s) = elim (Bool-cases (is_space (code c))) [
  | inr other ↦ rw other (rw other refl)
  | inl space ↦ elim (Bool-cases (is_empty (strip_right s))) [
    | inl blank ↦ rw (space, blank) (invisible s blank)
    | inr more ↦ rw (space, more) (rw space (has_visible-strip_right s))
  ]
]

-- Stripping again leaves something exactly where it did before.
pub has_visible-strip : (s : String) → has_visible (strip s) ≡ has_visible s
unfolding strip
has_visible-strip s = has_visible-strip_right (strip_left s) ∙ has_visible-strip_left s

strip_left_keep : (c : Char) (s : String) → is_space (code c) ≡ false → strip_left (c ∷ s) ≡ c ∷ s
unfolding strip_left
strip_left_keep c s h = rw h refl

strip_right_keep :
    (c : Char) (s : String)
    → is_empty (strip_right s) ≡ false
    → strip_right (c ∷ s) ≡ c ∷ strip_right s
unfolding strip_right
strip_right_keep c s h = elim (Bool-cases (is_space (code c))) [
  | inl space ↦ rw (space, h) refl
  | inr other ↦ rw other refl
]

strip_right_visible :
    (c : Char) (s : String) → is_space (code c) ≡ false → strip_right (c ∷ s) ≡ c ∷ strip_right s
unfolding strip_right
strip_right_visible c s h = rw h refl

strip_left_visible :
    (c : Char) (s : String)
    → is_space (code c) ≡ false
    → strip_left (strip_right (c ∷ s)) ≡ strip_right (c ∷ s)
strip_left_visible c s h =
    ap strip_left (strip_right_visible c s h)
    ∙ strip_left_keep c (strip_right s) h
    ∙ sym (strip_right_visible c s h)

strip_left-nil : strip_left (strip_right []) ≡ strip_right []
unfolding strip_left strip_right
strip_left-nil = refl

strip_left-strip :
    (s : String) → strip_left (strip_right (strip_left s)) ≡ strip_right (strip_left s)
unfolding strip_left
strip_left-strip [] = strip_left-nil
strip_left-strip (c ∷ s) = elim (Bool-cases (is_space (code c))) [
  | inl space ↦ rw space (strip_left-strip s)
  | inr other ↦
      subst (λ t. strip_left (strip_right t) ≡ strip_right t) {x = c ∷ s} (rw other refl)
        (strip_left_visible c s other)
]

strip_right-strip_right : (s : String) → strip_right (strip_right s) ≡ strip_right s
unfolding strip_right
strip_right-strip_right [] = refl
strip_right-strip_right (c ∷ s) = elim (Bool-cases (is_space (code c))) [
  | inr other ↦ rw other (rw other (ap (λ t. c ∷ t) (strip_right-strip_right s)))
  | inl space ↦ elim (Bool-cases (is_empty (strip_right s))) [
    | inl blank ↦ rw (space, blank) refl
    | inr more ↦
        rw (space, more)
          (strip_right_keep c (strip_right s) (ap is_empty (strip_right-strip_right s) ∙ more)
            ∙ ap (λ t. c ∷ t) (strip_right-strip_right s))
  ]
]

-- Stripping twice is stripping once.
pub strip-strip : (s : String) → strip (strip s) ≡ strip s
unfolding strip
strip-strip s = ap strip_right (strip_left-strip s) ∙ strip_right-strip_right (strip_left s)
