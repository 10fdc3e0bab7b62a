-- ===== src/RateLimit/RepoName.antt =====
-- app/discord_security.py, `validate_repo_name`: the pattern as the automaton that it is, since no
-- character that a part may hold is the one that ends it.
use dev_bot.Base.{
  ℕ, [], ◌∷◌, ◌++◌, ◌≡◌, ◌↔◌, ◌⊎◌, inl, inr, refl, ap, ◌∙◌, Bool, true, false, ◌&&◌, ◌||◌, not, leb,
  nat_beq, arith, if◌then◌else◌, Bool-cases,
}
use dev_bot.Base.Codes.{Codes}

-- [a-zA-Z0-9._-]
unfoldable pub is_name_char : ℕ → Bool
is_name_char c =
    leb 97 c && leb c 122
    || leb 65 c && leb c 90
    || leb 48 c && leb c 57
    || nat_beq c 46
    || nat_beq c 95
    || nat_beq c 45

abbrev pub is_empty : Codes → Bool
is_empty [] = true
is_empty (c ∷ s) = false

abbrev starts_with_dot : Codes → Bool
starts_with_dot [] = false
starts_with_dot (c ∷ s) = nat_beq c 46

-- `".." in name`
unfoldable pub has_two_dots : Codes → Bool
has_two_dots [] = false
has_two_dots (c ∷ s) = nat_beq c 46 && starts_with_dot s || has_two_dots s

-- The part behind the slash: `[...]+$`, where `$` also matches in front of a last line feed.
unfoldable pub match_repo : Bool → Codes → Bool
unfolding is_name_char
match_repo seen [] = seen
match_repo seen (c ∷ s) =
    let rest = match_repo true s in
    if is_name_char c then rest else seen && nat_beq c 10 && is_empty s

-- `^[...]+/` and the part behind it; `seen` tells that a character was matched.
unfoldable pub match_owner : Bool → Codes → Bool
unfolding is_name_char match_repo
match_owner seen [] = false
match_owner seen (c ∷ s) =
    let rest = match_owner true s in
    if is_name_char c then rest else seen && nat_beq c 47 && match_repo false s

unfoldable pub validate_repo_name : Codes → Bool
unfolding has_two_dots match_owner
validate_repo_name name =
    if is_empty name || has_two_dots name then false else match_owner false name

-- A text of the characters that a part may hold.
abbrev pub is_part : Codes → Bool
is_part [] = true
is_part (c ∷ s) = is_name_char c && is_part s

-- The names of the form `owner/repo`, with or without a line feed at the end.
abbrev pub IsRepoName : Codes → Type 0
IsRepoName name =
    (owner : Codes) × (repo : Codes) × (tail : Codes) × (name ≡ owner ++ (47 ∷ (repo ++ tail)))
    × (is_empty owner ≡ false)
    × (is_part owner ≡ true)
    × (is_empty repo ≡ false)
    × (is_part repo ≡ true)
    × ((tail ≡ []) ⊎ (tail ≡ 10 ∷ []))

match_repo-part :
    (seen : Bool) (repo tail : Codes)
    → is_part repo ≡ true
    → match_repo seen (repo ++ tail) ≡ match_repo (seen || not (is_empty repo)) tail
unfolding match_repo
match_repo-part seen [] tail h = ap (λ b. match_repo b tail) (ground arith)
match_repo-part true (c ∷ repo) tail h = ground (arith, match_repo-part true repo tail)
match_repo-part false (c ∷ repo) tail h = ground (arith, match_repo-part true repo tail)

match_owner-part :
    (seen : Bool) (owner tail : Codes)
    → is_part owner ≡ true
    → match_owner seen (owner ++ tail) ≡ match_owner (seen || not (is_empty owner)) tail
unfolding match_owner
match_owner-part seen [] tail h = ap (λ b. match_owner b tail) (ground arith)
match_owner-part true (c ∷ owner) tail h = ground (arith, match_owner-part true owner tail)
match_owner-part false (c ∷ owner) tail h = ground (arith, match_owner-part true owner tail)

-- The end of the text, with or without a line feed.
match_repo-tail : (tail : Codes) → (tail ≡ []) ⊎ (tail ≡ 10 ∷ []) → match_repo true tail ≡ true
unfolding match_repo
match_repo-tail tail (inl e) = rw e refl
match_repo-tail tail (inr e) = rw e refl

slash : (rest : Codes) → match_owner true (47 ∷ rest) ≡ match_repo false rest
unfolding match_owner is_name_char
slash rest = refl

accepted :
    (name : Codes) → IsRepoName name → (is_empty name ≡ false) × (match_owner false name ≡ true)
accepted name (owner, repo, tail, e, n, p, m, q, t) = rw e (
  not_empty owner (repo ++ tail) n,
  match_owner-part false owner (47 ∷ (repo ++ tail)) p
      ∙ ap (λ b. match_owner b (47 ∷ (repo ++ tail))) {y = true} (ground (arith, n))
      ∙ slash (repo ++ tail)
      ∙ match_repo-part false repo tail q
      ∙ ap (λ b. match_repo b tail) {y = true} (ground (arith, m))
      ∙ match_repo-tail tail t,
)
  where
    not_empty :
        (owner rest : Codes) → is_empty owner ≡ false → is_empty (owner ++ (47 ∷ rest)) ≡ false
    not_empty [] rest h = refl
    not_empty (c ∷ owner) rest h = refl

only : (c : ℕ) (s : Codes) → c ≡ 10 → is_empty s ≡ true → c ∷ s ≡ 10 ∷ []
only c [] e h = ap (λ d. d ∷ []) e
only c (d ∷ s) e h = absurd (cc h)

-- What the automaton takes is a part with an optional line feed.
match_repo_split :
    (seen : Bool) (s : Codes)
    → match_repo seen s ≡ true
    → (repo : Codes) × (tail : Codes) × (s ≡ repo ++ tail)
      × (is_part repo ≡ true)
      × ((seen || not (is_empty repo)) ≡ true)
      × ((tail ≡ []) ⊎ (tail ≡ 10 ∷ []))
unfolding match_repo
match_repo_split seen [] h = ([], [], refl, refl, ground arith, inl refl)
match_repo_split seen (c ∷ s) h = elim (Bool-cases (is_name_char c)) [
  | inl part ↦
      let (repo, tail, e, p, q, t) = match_repo_split true s (ground (arith, part)) in
      (c ∷ repo, tail, ap (λ r. c ∷ r) e, ground (arith, part), ground arith, t)
  | inr other ↦ (
    [],
    c ∷ s,
    refl,
    refl,
    ground (arith, other),
    inr (only c s (ground (arith, other)) (ground (arith, other))),
  )
]

match_owner_split :
    (seen : Bool) (s : Codes)
    → match_owner seen s ≡ true
    → (owner : Codes) × (rest : Codes) × (s ≡ owner ++ (47 ∷ rest))
      × (is_part owner ≡ true)
      × ((seen || not (is_empty owner)) ≡ true)
      × (match_repo false rest ≡ true)
unfolding match_owner
match_owner_split seen [] h = absurd (cc h)
match_owner_split seen (c ∷ s) h = elim (Bool-cases (is_name_char c)) [
  | inl part ↦
      let (owner, rest, e, p, q, t) = match_owner_split true s (ground (arith, part)) in
      (c ∷ owner, rest, ap (λ r. c ∷ r) e, ground (arith, part), ground arith, t)
  | inr other ↦ (
    [],
    s,
    ap (λ d. d ∷ s) (ground (arith, other)),
    refl,
    ground (arith, other),
    ground (arith, other),
  )
]

parts : (name : Codes) → match_owner false name ≡ true → IsRepoName name
parts name h =
    let (owner, rest, e, p, q, m) = match_owner_split false name h in
    both owner rest e p q (match_repo_split false rest m)
  where
    both :
        (owner rest : Codes)
        → name ≡ owner ++ (47 ∷ rest)
        → is_part owner ≡ true
        → (false || not (is_empty owner)) ≡ true
        → (repo : Codes) × (tail : Codes) × (rest ≡ repo ++ tail)
          × (is_part repo ≡ true)
          × ((false || not (is_empty repo)) ≡ true)
          × ((tail ≡ []) ⊎ (tail ≡ 10 ∷ []))
        → IsRepoName name
    both owner rest e p q (repo, tail, f, r, s, t) =
        (owner, repo, tail, e ∙ ap (λ r. owner ++ (47 ∷ r)) f, ground arith, p, ground arith, r, t)

-- A name is accepted exactly when it has no two dots in a row and is two parts with a slash between
-- them, with or without a line feed behind the second part.
pub validate_repo_name_iff :
    (name : Codes)
    → (validate_repo_name name ≡ true) ↔ ((has_two_dots name ≡ false) × IsRepoName name)
unfolding validate_repo_name
validate_repo_name_iff name =
    (λ h. (ground arith, parts name (ground arith)), λ h. ground (arith, accepted name h.1, h.0))
