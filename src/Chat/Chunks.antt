-- ===== src/Chat/Chunks.antt =====
-- app/chat_inputs.py, `chunk_message`: the loop, the lengths of the chunks and what they hold.
use mathlib.Core.List.{append-nil}
use dev_bot.Base.{
  ℕ, zero, suc, ◌-◌, ◌≤◌, ◌<◌, ◌≡◌, refl, ap, ◌∙◌, inl, inr, true, Option, some, List, [], ◌∷◌,
  ◌++◌, ltb, ltb→lt, leb, if◌then◌else◌, Bool-cases, Option-cases, arith,
}
use dev_bot.Base.Lists.{length, All}
use dev_bot.Base.Codes.{Codes}
use dev_bot.Base.Text.{is_space}
use dev_bot.Chat.{
  take, drop, last_newline, or_limit, last_chunk, rstrip, lstrip_newlines, with_chunk, chunks_from,
  or_blank, chunk_message,
}

-- The characters that are not white space.
abbrev pub visible : Codes → Codes
visible [] = []
visible (c ∷ s) = let rest = visible s in if is_space c then rest else c ∷ rest

abbrev pub joined : List Codes → Codes
joined [] = []
joined (chunk ∷ chunks) = chunk ++ joined chunks

visible-append : (s t : Codes) → visible (s ++ t) ≡ visible s ++ visible t
visible-append [] t = refl
visible-append (c ∷ s) t = ground (arith, visible-append s t)

visible-take-drop : (n : ℕ) (s : Codes) → visible (take n s) ++ visible (drop n s) ≡ visible s
visible-take-drop zero s = refl
visible-take-drop (suc n) [] = refl
visible-take-drop (suc n) (c ∷ s) = ground (arith, visible-take-drop n s)

visible_of_blank : (s : Codes) → rstrip s ≡ [] → visible s ≡ []
unfolding rstrip
visible_of_blank [] h = refl
visible_of_blank (c ∷ s) h = ground (arith, visible_of_blank s)

visible-rstrip : (s : Codes) → visible (rstrip s) ≡ visible s
unfolding rstrip
visible-rstrip [] = refl
visible-rstrip (c ∷ s) = ground (arith, visible-rstrip s, visible_of_blank s)

newline_is_space : is_space 10 ≡ true
unfolding is_space
newline_is_space = refl

visible-lstrip_newlines : (s : Codes) → visible (lstrip_newlines s) ≡ visible s
unfolding lstrip_newlines
visible-lstrip_newlines [] = refl
visible-lstrip_newlines (c ∷ s) =
    ground (arith, visible-lstrip_newlines s, newline_is_space, ap is_space {x = c} {y = 10})

length-rstrip : (s : Codes) → length (rstrip s) ≤ length s
unfolding rstrip
length-rstrip [] = omega arith
length-rstrip (c ∷ s) = ground (arith, length-rstrip s)

length-lstrip_newlines : (s : Codes) → length (lstrip_newlines s) ≤ length s
unfolding lstrip_newlines
length-lstrip_newlines [] = omega arith
length-lstrip_newlines (c ∷ s) = ground (arith, length-lstrip_newlines s)

length-take {ℓ} : {A : Type ℓ} (n : ℕ) (xs : List A) → length (take n xs) ≤ n
length-take zero xs = omega arith
length-take (suc n) [] = omega arith
length-take (suc n) (x ∷ xs) = omega (arith, length-take n xs)

pub length-drop {ℓ} : {A : Type ℓ} (n : ℕ) (xs : List A) → length (drop n xs) ≡ length xs - n
length-drop zero xs = omega arith
length-drop (suc n) [] = omega arith
length-drop (suc n) (x ∷ xs) = omega (arith, length-drop n xs)

-- The split is behind the first character and not behind the limit.
last_newline_lt : (n i : ℕ) (s : Codes) → last_newline n s ≡ some i → i < n
unfolding last_newline
last_newline_lt zero i s h = absurd (cc h)
last_newline_lt (suc n) i [] h = absurd (cc h)
last_newline_lt (suc n) i (c ∷ s) h = elim (Option-cases (last_newline n s)) [
  | inl absent ↦ ground (arith, absent)
  | inr (j, found) ↦ ground (arith, found, last_newline_lt n j s found)
]

split_bounds :
    (limit : ℕ) (s : Codes)
    → 1 ≤ limit
    → (1 ≤ or_limit limit (last_newline limit s)) × (or_limit limit (last_newline limit s) ≤ limit)
split_bounds limit s h = elim (Option-cases (last_newline limit s)) [
  | inl absent ↦ rw absent (h, omega arith)
  | inr (zero, e) ↦ rw e (h, omega arith)
  | inr (suc i, e) ↦ rw e (omega arith, omega (arith, last_newline_lt limit (suc i) s e))
]

-- A result of the loop: chunks that fit and hold the visible characters.
abbrev Splits : ℕ → Codes → Option (List Codes) → Type 0
Splits limit s result =
    (chunks : List Codes) × (result ≡ some chunks)
    × (All (λ chunk. length chunk ≤ limit) chunks)
    × (visible (joined chunks) ≡ visible s)

-- One round: the chunk that is split off, in front of the result for the rest.
Splits-round :
    (limit : ℕ) (s : Codes) (split : ℕ) (rest : Option (List Codes))
    → split ≤ limit
    → Splits limit (lstrip_newlines (drop split s)) rest
    → Splits limit s (with_chunk (rstrip (take split s)) rest)
Splits-round limit s split rest h (chunks, e, fit, v) = (
  rstrip (take split s) ∷ chunks,
  rw e refl,
  (omega (arith, length-rstrip (take split s), length-take split s), fit),
  visible-append (rstrip (take split s)) (joined chunks)
      ∙ ap (λ t. t ++ visible (joined chunks)) (visible-rstrip (take split s))
      ∙ ap (λ t. visible (take split s) ++ t) (v ∙ visible-lstrip_newlines (drop split s))
      ∙ visible-take-drop split s,
)

Splits-last : (limit : ℕ) (s : Codes) → length s ≤ limit → Splits limit s (some (last_chunk s))
Splits-last limit [] h = ([], refl, tt, refl)
Splits-last limit (c ∷ s) h =
    ((c ∷ s) ∷ [], refl, (h, tt), visible-append (c ∷ s) [] ∙ append-nil _)

Splits-chunks_from :
    (limit fuel : ℕ) (s : Codes)
    → 1 ≤ limit
    → length s < fuel
    → Splits limit s (chunks_from limit fuel s)
unfolding chunks_from
Splits-chunks_from limit zero s h f = absurd (omega (arith, f))
Splits-chunks_from limit (suc fuel) s h f =
    let split = or_limit limit (last_newline limit s) in
    let bounds = split_bounds limit s h in
    elim (Bool-cases (ltb limit (length s))) [
      | inl long ↦ rw long (
          Splits-round limit s split _ bounds.1 (
            Splits-chunks_from limit fuel (lstrip_newlines (drop split s)) h (
              omega (
                arith,
                length-lstrip_newlines (drop split s),
                length-drop split s,
                bounds.0,
                f,
                ltb→lt _ _ long,
              ))))
      | inr short ↦ rw short (Splits-last limit s (ground (arith, short)))
    ]

Splits-or_blank :
    (limit : ℕ) (s : Codes) (result : Option (List Codes))
    → Splits limit s result
    → Splits limit s (or_blank result)
Splits-or_blank limit s result ([], e, fit, v) = rw e ([] ∷ [], refl, (omega arith, tt), v)
Splits-or_blank limit s result (chunk ∷ chunks, e, fit, v) = rw e (chunk ∷ chunks, refl, fit, v)

-- Where the limit is positive, every content is split, each chunk fits into the limit, and the chunks
-- hold the characters that are not white space, each once and in the order of the content.
pub chunk_message_splits :
    (content : Codes) (max_length : ℕ)
    → 1 ≤ max_length
    → (chunks : List Codes) × (chunk_message content max_length ≡ some chunks)
      × (All (λ chunk. length chunk ≤ max_length) chunks)
      × (visible (joined chunks) ≡ visible content)
unfolding chunk_message
chunk_message_splits content max_length h = elim (Bool-cases (leb (length content) max_length)) [
  | inl short ↦
      rw short (content ∷ [], refl, (ground (arith, short), tt), ap visible (append-nil content))
  | inr long ↦ rw long (
      Splits-or_blank max_length content _
        (Splits-chunks_from max_length (suc (length content)) content h (omega arith)))
]
