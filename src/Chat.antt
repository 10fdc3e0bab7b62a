-- ===== src/Chat.antt =====
-- app/chat_inputs.py: a message's text and attachments as one input, and long answers in chunks.
pub mod Chunks
pub mod Inputs
mod Tests
use dev_bot.Base.{
  ℕ, zero, suc, String, ◌+◌, ◌*◌, Bool, true, false, Option, none, some, List, [], ◌∷◌, ltb, leb,
  nat_beq, ◌&&◌, if◌then◌else◌,
}
use dev_bot.Base.Lists.{length}
use dev_bot.Base.Codes.{Codes}
use dev_bot.Base.Text.{is_empty, is_space, strip}
use dev_bot.Base.Join.{concat, join}
use dev_bot.Base.Result.{Result, ok, err, ◌>>=◌}

abbrev pub take {ℓ} : {A : Type ℓ} → ℕ → List A → List A
take zero xs = []
take (suc n) [] = []
take (suc n) (x ∷ xs) = x ∷ take n xs

abbrev pub drop {ℓ} : {A : Type ℓ} → ℕ → List A → List A
drop zero xs = xs
drop (suc n) [] = []
drop (suc n) (x ∷ xs) = drop n xs

abbrev pub later : Option ℕ → Bool → Option ℕ
later (some i) here = some (suc i)
later none true = some 0
later none false = none

-- `s.rfind("\n", 0, n)`; `none` stands for -1
unfoldable pub last_newline : ℕ → Codes → Option ℕ
last_newline zero s = none
last_newline (suc n) [] = none
last_newline (suc n) (c ∷ s) = later (last_newline n s) (nat_beq c 10)

-- `split_at`, which is the limit where there is no line feed behind the first character
abbrev pub or_limit : ℕ → Option ℕ → ℕ
or_limit limit none = limit
or_limit limit (some zero) = limit
or_limit limit (some (suc i)) = suc i

abbrev pub is_blank : Codes → Bool
is_blank [] = true
is_blank (c ∷ s) = false

-- s.rstrip()
unfoldable pub rstrip : Codes → Codes
rstrip [] = []
rstrip (c ∷ s) = let rest = rstrip s in if is_space c && is_blank rest then [] else c ∷ rest

-- s.lstrip("\n")
unfoldable pub lstrip_newlines : Codes → Codes
lstrip_newlines [] = []
lstrip_newlines (c ∷ s) = let rest = lstrip_newlines s in if nat_beq c 10 then rest else c ∷ s

abbrev pub with_chunk : Codes → Option (List Codes) → Option (List Codes)
with_chunk chunk none = none
with_chunk chunk (some chunks) = some (chunk ∷ chunks)

-- The chunk behind the loop, where something remains.
abbrev pub last_chunk : Codes → List Codes
last_chunk [] = []
last_chunk (c ∷ s) = (c ∷ s) ∷ []

-- The loop and the statement behind it; `none` where the fuel runs out.
unfoldable pub chunks_from : ℕ → ℕ → Codes → Option (List Codes)
chunks_from max_length zero remaining = none
chunks_from max_length (suc fuel) remaining =
    let split_at = or_limit max_length (last_newline max_length remaining) in
    let rest = chunks_from max_length fuel (lstrip_newlines (drop split_at remaining)) in
    if ltb max_length (length remaining)
    then with_chunk (rstrip (take split_at remaining)) rest
    else some (last_chunk remaining)

abbrev pub or_blank : Option (List Codes) → Option (List Codes)
or_blank none = none
or_blank (some []) = some ([] ∷ [])
or_blank (some (chunk ∷ chunks)) = some (chunk ∷ chunks)

-- The fuel is one more than the length: each round takes a character away.
unfoldable pub chunk_message : Codes → ℕ → Option (List Codes)
chunk_message content max_length =
    if leb (length content) max_length
    then some (content ∷ [])
    else or_blank (chunks_from max_length (suc (length content)) content)

-- An attachment: its name, its size in bytes, its text as decoded, and where it is.
pub record Attachment : Type 0 where
  pub filename : String
  pub size : ℕ
  pub content : String
  pub url : String

pub record ParsedAttachment : Type 0 where
  pub filename : String
  pub content : String
  pub url : String

pub record ParsedInputs : Type 0 where
  pub error : String
  pub body : String
  pub attachments : List ParsedAttachment
