-- ===== src/Base/Text.antt =====
-- Python's `str` where the program formats, strips and tests whole texts.
use Prim.Native.Nat.{ℕ, zero, suc, ◌+◌, ◌/◌, ◌%◌}
use Prim.Native.Char.{code}
use Prim.Native.String
use Prim.Native.String.{String, [], ◌∷◌}
use mathlib.Core.Path.{◌≡◌, refl}
use mathlib.Core.Logic.{◌↔◌}
use mathlib.Core.Bool.{Bool, true, false, ◌&&◌, ◌||◌}
use dev_bot.Base.Tests.{ltb, leb, nat_beq, if◌then◌else◌}

-- The empty text is the one that Python takes for false.
abbrev pub is_empty : String → Bool
is_empty [] = true
is_empty (_ ∷ _) = false

pub is_empty_iff : (s : String) → (is_empty s ≡ true) ↔ (s ≡ "")
is_empty_iff [] = (λ h. refl, λ h. refl)
is_empty_iff (c ∷ s) = (λ h. absurd (cc h), λ h. absurd (cons-ne-nil h))
  where
    cons-ne-nil : c ∷ s ≡ [] → ⊥
    cons-ne-nil e = cc e

-- a or b
unfoldable pub or_else : String → String → String
or_else [] b = b
or_else (c ∷ a) b = c ∷ a

-- What `str.strip()` takes off: Unicode whitespace, by code point.
unfoldable pub is_space : ℕ → Bool
is_space c =
    leb 9 c && leb c 13
    || leb 28 c && leb c 32
    || nat_beq c 133
    || nat_beq c 160
    || nat_beq c 5760
    || leb 8192 c && leb c 8202
    || nat_beq c 8232
    || nat_beq c 8233
    || nat_beq c 8239
    || nat_beq c 8287
    || nat_beq c 12288

unfoldable pub strip_left : String → String
unfolding is_space
strip_left [] = []
strip_left (c ∷ s) = let rest = strip_left s in if is_space (code c) then rest else c ∷ s

unfoldable pub strip_right : String → String
unfolding is_space
strip_right [] = []
strip_right (c ∷ s) =
    let rest = strip_right s in if is_space (code c) && is_empty rest then [] else c ∷ rest

unfoldable pub strip : String → String
unfolding strip_left strip_right
strip s = strip_right (strip_left s)

abbrev pub digit : ℕ → String
digit d =
    if nat_beq d 0
    then "0"
    else if nat_beq d 1
    then "1"
    else if nat_beq d 2
    then "2"
    else if nat_beq d 3
    then "3"
    else if nat_beq d 4
    then "4"
    else if nat_beq d 5
    then "5"
    else if nat_beq d 6
    then "6"
    else if nat_beq d 7
    then "7"
    else if nat_beq d 8
    then "8"
    else "9"

-- The digits in front of `acc`; fuel above the number is enough, since each round divides it by 10.
unfoldable pub show_from : ℕ → ℕ → String → String
show_from zero n acc = acc
show_from (suc fuel) n acc =
    let longer = String.◌++◌ (digit (n % 10)) acc in
    let rest = show_from fuel (n / 10) longer in if ltb n 10 then longer else rest

-- str(n) of a natural number
unfoldable pub show : ℕ → String
unfolding show_from
show n = show_from (n + 1) n []

show_runs : show 1203 ≡ "1203"
unfolding show
show_runs = refl

strip_runs : strip "  a b " ≡ "a b"
unfolding strip
strip_runs = refl
