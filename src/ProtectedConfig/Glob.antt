-- ===== src/ProtectedConfig/Glob.antt =====
-- app/pipeline.py: `fnmatch.fnmatch`, by which the pipeline compares paths with patterns. A text is the list of
-- its code points, and the case of letters counts.
use dev_bot.Base.{
  ℕ, zero, suc, ◌-◌, Bool, true, false, not, ◌&&◌, ◌||◌, Option, none, some, List, [], ◌∷◌, leb,
  nat_beq, if◌then◌else◌,
}
use dev_bot.Base.Codes.{Codes}
use dev_bot.Base.Lists.{length}

-- A part of a pattern. A class is negated or not, and has ranges of characters.
pub data Token : Type 0 where
  star any_one : Token
  exactly : ℕ → Token
  one_of : Bool → List (ℕ × ℕ) → Token

-- The text before the bracket that closes a class, and what follows it.
abbrev until_bracket : Codes → Option (Codes × Codes)
until_bracket [] = none
until_bracket (c ∷ s) =
    let rest = until_bracket s in
    if nat_beq c b']'
    then some ([], s)
    else elim rest [ none ↦ none | some parts ↦ some (c ∷ parts.0, parts.1) ]

-- A bracket that comes first belongs to the class.
abbrev closing_from : Codes → Option (Codes × Codes)
closing_from [] = none
closing_from (c ∷ s) =
    if nat_beq c b']'
    then elim (until_bracket s) [ none ↦ none | some parts ↦ some (c ∷ parts.0, parts.1) ]
    else until_bracket (c ∷ s)

abbrev ranges : Codes → List (ℕ × ℕ)
ranges [] = []
ranges (c ∷ []) = (c, c) ∷ []
ranges (c ∷ d ∷ []) = (c, c) ∷ (d, d) ∷ []
ranges (c ∷ d ∷ e ∷ s) =
    let alone = ranges (d ∷ e ∷ s) in
    let after = ranges s in if nat_beq d b'-' then (c, e) ∷ after else (c, c) ∷ alone

abbrev is_negated : Codes → Bool
is_negated [] = false
is_negated (c ∷ s) = nat_beq c b'!'

abbrev without_mark : Codes → Codes
without_mark [] = []
without_mark (c ∷ s) = if nat_beq c b'!' then s else c ∷ s

-- The class behind a bracket and the rest of the pattern.
unfoldable pub class_of : Codes → Option (Token × Codes)
class_of s = elim (closing_from (without_mark s)) [
  | none ↦ none
  | some parts ↦ some (one_of (is_negated s) (ranges parts.0), parts.1)
]

-- The tokens behind the first characters of a text, whose number is given: those of a class that was read.
unfoldable pub tokens_after : ℕ → Codes → List Token
tokens_after n [] = []
tokens_after (suc n) (c ∷ s) = tokens_after n s
tokens_after zero (c ∷ s) =
    let plain = tokens_after zero s in
    let after = λ (rest : Codes). tokens_after (length s - length rest) s in
    if nat_beq c b'*'
    then star ∷ plain
    else if nat_beq c b'?'
    then any_one ∷ plain
    else if nat_beq c b'['
    then elim (class_of s) [ none ↦ exactly c ∷ plain | some parts ↦ parts.0 ∷ after parts.1 ]
    else exactly c ∷ plain

unfoldable pub tokens : Codes → List Token
tokens pattern_ = tokens_after 0 pattern_

abbrev in_ranges : List (ℕ × ℕ) → ℕ → Bool
in_ranges [] c = false
in_ranges (r ∷ rs) c = leb r.0 c && leb c r.1 || in_ranges rs c

-- xor
abbrev differs : Bool → Bool → Bool
differs true b = not b
differs false b = b

-- Some text behind the place fits.
abbrev some_end : (Codes → Bool) → Codes → Bool
some_end fits [] = fits []
some_end fits (c ∷ s) = fits (c ∷ s) || some_end fits s

abbrev one_fits : (ℕ → Bool) → (Codes → Bool) → Codes → Bool
one_fits test fits [] = false
one_fits test fits (c ∷ s) = test c && fits s

unfoldable pub fits : List Token → Codes → Bool
fits [] [] = true
fits [] (c ∷ s) = false
fits (star ∷ ts) s = some_end (fits ts) s
fits (any_one ∷ ts) s = one_fits (λ c. true) (fits ts) s
fits (exactly d ∷ ts) s = one_fits (λ c. nat_beq c d) (fits ts) s
fits (one_of negated rs ∷ ts) s = one_fits (λ c. differs negated (in_ranges rs c)) (fits ts) s

-- fnmatch.fnmatch(path, pattern)
unfoldable pub fnmatch : Codes → Codes → Bool
fnmatch path pattern_ = fits (tokens pattern_) path
