-- ===== src/Base/Decimal.antt =====
-- The decimal text of a natural number: `int` reads what `str` writes.
use Prim.Native.Nat.{ℕ, zero, suc, ◌+◌, ◌-◌, ◌*◌, ◌/◌, ◌%◌, ◌<◌}
use Prim.Native.Char.{Char, code}
use Prim.Native.String.{String, [], ◌∷◌, ◌++◌}
use text.Mathlib.TextLemmas.{nil-append, cons-append}
use mathlib.Core.Path.{◌≡◌, refl, ap, subst, ◌∙◌}
use mathlib.Core.Logic.{inl, inr}
use mathlib.Core.Bool.{Bool, true, false, ◌&&◌}
use native.Mathlib.Omega.{arith}
use dev_bot.Base.Tests.{ltb, leb, Bool-cases}
use dev_bot.Base.Text.{is_empty, is_space, strip, strip_left, strip_right, digit, show, show_from}

-- `int(s)` of a text of digits, which is read from the left
unfoldable pub value_from : ℕ → String → ℕ
value_from v [] = v
value_from v (c ∷ s) = value_from (v * 10 + (code c - 48)) s

unfoldable pub is_digits : String → Bool
is_digits [] = true
is_digits (c ∷ s) = leb 48 (code c) && leb (code c) 57 && is_digits s

one_append : (c : Char) (s : String) → (c ∷ []) ++ s ≡ c ∷ s
one_append c s = cons-append c [] s ∙ ap (λ t. c ∷ t) (nil-append s)

digit_lem :
    (d v : ℕ) (s : String)
    → d < 10
    → (value_from v (digit d ++ s) ≡ value_from (v * 10 + d) s)
      × (is_digits (digit d ++ s) ≡ is_digits s)
      × (is_empty (digit d ++ s) ≡ false)
unfolding value_from is_digits
digit_lem zero v s h =
    let e = one_append "0" s in (ap (value_from v) e, ap is_digits e, ap is_empty e)
digit_lem (suc zero) v s h =
    let e = one_append "1" s in (ap (value_from v) e, ap is_digits e, ap is_empty e)
digit_lem (suc (suc zero)) v s h =
    let e = one_append "2" s in (ap (value_from v) e, ap is_digits e, ap is_empty e)
digit_lem (suc (suc (suc zero))) v s h =
    let e = one_append "3" s in (ap (value_from v) e, ap is_digits e, ap is_empty e)
digit_lem (suc (suc (suc (suc zero)))) v s h =
    let e = one_append "4" s in (ap (value_from v) e, ap is_digits e, ap is_empty e)
digit_lem (suc (suc (suc (suc (suc zero))))) v s h =
    let e = one_append "5" s in (ap (value_from v) e, ap is_digits e, ap is_empty e)
digit_lem (suc (suc (suc (suc (suc (suc zero)))))) v s h =
    let e = one_append "6" s in (ap (value_from v) e, ap is_digits e, ap is_empty e)
digit_lem (suc (suc (suc (suc (suc (suc (suc zero))))))) v s h =
    let e = one_append "7" s in (ap (value_from v) e, ap is_digits e, ap is_empty e)
digit_lem (suc (suc (suc (suc (suc (suc (suc (suc zero)))))))) v s h =
    let e = one_append "8" s in (ap (value_from v) e, ap is_digits e, ap is_empty e)
digit_lem (suc (suc (suc (suc (suc (suc (suc (suc (suc zero))))))))) v s h =
    let e = one_append "9" s in (ap (value_from v) e, ap is_digits e, ap is_empty e)
digit_lem (suc (suc (suc (suc (suc (suc (suc (suc (suc (suc d)))))))))) v s h =
    absurd (omega (arith, h))

value-show_from :
    (fuel n : ℕ) (s : String)
    → n < fuel
    → (value_from 0 (show_from fuel n s) ≡ value_from n s)
      × (is_digits (show_from fuel n s) ≡ is_digits s)
unfolding show_from
value-show_from zero n s h = absurd (omega (arith, h))
value-show_from (suc fuel) n s h =
    let last = digit_lem (n % 10) in
    elim (Bool-cases (ltb n 10)) [
      | inl small ↦
          let one : 0 * 10 + n % 10 ≡ n = ground (arith, small) in
          rw small
            ((last 0 s (omega arith)).0 ∙ ap (λ k. value_from k s) one, (last 0 s (omega arith)).1)
      | inr large ↦
          let rest =
            value-show_from fuel (n / 10) (digit (n % 10) ++ s) (ground (arith, large, h)) in
          let whole : n / 10 * 10 + n % 10 ≡ n = omega arith in
          rw large (
            rest.0 ∙ (last (n / 10) s (omega arith)).0 ∙ ap (λ k. value_from k s) whole,
            rest.1 ∙ (last 0 s (omega arith)).1,
          )
    ]

-- Reading the text of a number gives the number.
pub value_from-show : (n : ℕ) → value_from 0 (show n) ≡ n
unfolding show value_from
value_from-show n = (value-show_from (n + 1) n [] (omega arith)).0

pub is_digits-show : (n : ℕ) → is_digits (show n) ≡ true
unfolding show is_digits
is_digits-show n = (value-show_from (n + 1) n [] (omega arith)).1

digit_filled : (n : ℕ) (s : String) → is_empty (digit (n % 10) ++ s) ≡ false
digit_filled n s = (digit_lem (n % 10) 0 s (omega arith)).2

show_from_filled :
    (fuel n : ℕ) (s : String) → is_empty s ≡ false → is_empty (show_from fuel n s) ≡ false
unfolding show_from
show_from_filled zero n s h = h
show_from_filled (suc fuel) n s h = elim (Bool-cases (ltb n 10)) [
  | inl small ↦ rw small (digit_filled n s)
  | inr large ↦ rw large (show_from_filled fuel (n / 10) (digit (n % 10) ++ s) (digit_filled n s))
]

show_from-suc_filled : (fuel n : ℕ) (s : String) → is_empty (show_from (suc fuel) n s) ≡ false
unfolding show_from
show_from-suc_filled fuel n s = elim (Bool-cases (ltb n 10)) [
  | inl small ↦ rw small (digit_filled n s)
  | inr large ↦ rw large (show_from_filled fuel (n / 10) (digit (n % 10) ++ s) (digit_filled n s))
]

pub is_empty-show : (n : ℕ) → is_empty (show n) ≡ false
unfolding show
is_empty-show n =
    subst (λ fuel. is_empty (show_from fuel n []) ≡ false) {x = suc n} (omega arith)
      (show_from-suc_filled n n [])

digit_not_space : (c : Char) → leb 48 (code c) && leb (code c) 57 ≡ true → is_space (code c) ≡ false
unfolding is_space
digit_not_space c h = ground (arith, h)

strip_right_digits : (s : String) → is_digits s ≡ true → strip_right s ≡ s
unfolding is_digits strip_right
strip_right_digits [] h = refl
strip_right_digits (c ∷ s) h =
    rw (digit_not_space c (ground (arith, h)))
      (ap (λ t. c ∷ t) (strip_right_digits s (ground (arith, h))))

strip_left_digits : (s : String) → is_digits s ≡ true → strip_left s ≡ s
unfolding is_digits strip_left
strip_left_digits [] h = refl
strip_left_digits (c ∷ s) h = rw (digit_not_space c (ground (arith, h))) refl

pub strip-show : (n : ℕ) → strip (show n) ≡ show n
unfolding strip
strip-show n =
    ap strip_right (strip_left_digits (show n) (is_digits-show n))
    ∙ strip_right_digits (show n) (is_digits-show n)
