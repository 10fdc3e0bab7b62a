-- ===== src/Chat/Inputs.antt =====
-- app/chat_inputs.py, `parse_message_inputs` and `ensure_new_thread_body`: what is accepted, and the
-- body that is made of it. `Path(filename).suffix.lower()` is the parameter `suffix`.
use text.Mathlib.TextLemmas.{cons-append}
use dev_bot.Base.{
  ℕ, ◌*◌, ◌≡◌, refl, ap, inl, inr, String, Bool, true, false, ◌&&◌, ◌||◌, List, [], ◌∷◌, map, ltb,
  leb, not, arith, if◌then◌else◌, Bool-cases,
}
use dev_bot.Base.Eq.{string_eq, ◌==◌}
use dev_bot.Base.Lists.{length, all}
use dev_bot.Base.Text.{is_empty, strip}
use dev_bot.Base.Items.{nonblank}
use dev_bot.Base.Join.{concat, join}
use dev_bot.Base.Result.{Result, ok, err, ◌>>=◌}
use dev_bot.Chat.{Attachment, ParsedAttachment, ParsedInputs}

abbrev pub max_attachments : ℕ
max_attachments = 3

abbrev pub max_attachment_bytes : ℕ
max_attachment_bytes = 2 * 1024 * 1024

-- `suffix in ALLOWED_ATTACHMENT_SUFFIXES`
abbrev pub is_allowed_suffix : String → Bool
is_allowed_suffix s = s == ".txt" || s == ".md" || s == ".json"

abbrev pub block : ParsedAttachment → String
block item = join "\n" (
    concat ("[attachment:" ∷ item.filename ∷ "]" ∷ [])
    ∷ item.content
    ∷ concat ("[/attachment:" ∷ item.filename ∷ "]" ∷ [])
    ∷ [])

unfoldable pub rejected : String → ParsedInputs
rejected message = record { error = message; body = ""; attachments = [] }

unfoldable pub body_parts : String → List ParsedAttachment → List String
body_parts content items = if is_empty content then map block items else content ∷ map block items

module _ (suffix : String → String) where
  -- The attachments in their order; the first one that is not accepted ends the loop with its message.
  unfoldable pub parse_attachments : List Attachment → Result String (List ParsedAttachment)
  parse_attachments [] = ok []
  parse_attachments (a ∷ rest) =
      let parsed = parse_attachments rest in
      if not (is_allowed_suffix (suffix a.filename))
      then err (concat ("`" ∷ a.filename ∷ "` は非対応形式です。 .json, .md, .txt のいずれかにして再送してください。" ∷ []))
      else if ltb max_attachment_bytes a.size
      then err (concat ("`" ∷ a.filename ∷ "` はサイズ上限を超えています。 2MB 以下にして再送してください。" ∷ []))
      else parsed >>= λ items.
          ok (record { filename = a.filename; content = a.content; url = a.url } ∷ items)

abbrev finished : String → Result String (List ParsedAttachment) → ParsedInputs
finished content (err message) = rejected message
finished content (ok items) = record {
  error = "";
  body = join "\n\n" (nonblank (body_parts (strip content) items));
  attachments = items;
}

module _ (suffix : String → String) where
  unfoldable pub parse_message_inputs : String → List Attachment → ParsedInputs
  parse_message_inputs content attachments =
      if ltb max_attachments (length attachments)
      then rejected "添付は最大3件までです。必要なファイルだけ再送してください。"
      else finished content (parse_attachments suffix attachments)

unfoldable pub ensure_new_thread_body : ParsedInputs → ParsedInputs
ensure_new_thread_body parsed =
    if is_empty (strip parsed.body)
    then record {
      error = "本文か対応添付ファイルが必要です。`txt` `md` `json` を最大3件、各2MB以内で再送してください。";
      body = parsed.body;
      attachments = parsed.attachments;
    }
    else parsed

-- What an attachment must be.
abbrev pub is_acceptable : (String → String) → Attachment → Bool
is_acceptable suffix a = is_allowed_suffix (suffix a.filename) && leb a.size max_attachment_bytes

abbrev pub copied : Attachment → ParsedAttachment
copied a = record { filename = a.filename; content = a.content; url = a.url }

abbrev Answer : (String → String) → List Attachment → Result String (List ParsedAttachment) → Type 0
Answer suffix attachments (ok items) =
    (all (is_acceptable suffix) attachments ≡ true) × (items ≡ map copied attachments)
Answer suffix attachments (err message) =
    (all (is_acceptable suffix) attachments ≡ false) × (is_empty message ≡ false)

-- A message that begins with a back quote is not empty.
quoted : (parts : List String) → is_empty (concat ("`" ∷ parts)) ≡ false
quoted parts = ap is_empty (cons-append "`" "" (concat parts))

Answer-cons :
    (suffix : String → String) (a : Attachment) (rest : List Attachment)
    (r : Result String (List ParsedAttachment))
    → is_acceptable suffix a ≡ true
    → Answer suffix rest r
    → Answer suffix (a ∷ rest) (r >>= λ items. ok (copied a ∷ items))
Answer-cons suffix a rest (ok items) h p = (ground (arith, h, p.0), ap (λ l. copied a ∷ l) p.1)
Answer-cons suffix a rest (err message) h p = (ground (arith, h, p.0), p.1)

module _ (suffix : String → String) where
  Answer-parse_attachments :
      (attachments : List Attachment)
      → Answer suffix attachments (parse_attachments suffix attachments)
  unfolding parse_attachments
  Answer-parse_attachments [] = (refl, refl)
  Answer-parse_attachments (a ∷ rest) = elim (Bool-cases (is_allowed_suffix (suffix a.filename))) [
    | inr other ↦ rw other (
      ground (arith, other),
      quoted (a.filename ∷ "` は非対応形式です。 .json, .md, .txt のいずれかにして再送してください。" ∷ []),
    )
    | inl allowed ↦ elim (Bool-cases (ltb max_attachment_bytes a.size)) [
      | inl large ↦
          rw (allowed, large)
            (
              ground (arith, large),
              quoted (a.filename ∷ "` はサイズ上限を超えています。 2MB 以下にして再送してください。" ∷ []),
            )
      | inr fits ↦
          rw (allowed, fits)
            (Answer-cons suffix a rest (parse_attachments suffix rest)
              (ground (arith, allowed, fits)) (Answer-parse_attachments rest))
    ]
  ]

-- What the three fields say of one another, given whether the message is accepted.
abbrev pub Parsed : (String → String) → List Attachment → Bool → ParsedInputs → Type 0
Parsed suffix attachments true parsed =
    (is_empty parsed.error ≡ true) × (parsed.attachments ≡ map copied attachments)
Parsed suffix attachments false parsed =
    (is_empty parsed.error ≡ false) × (parsed.body ≡ "") × (parsed.attachments ≡ [])

Parsed-finished :
    (suffix : String → String) (content : String) (attachments : List Attachment)
    (r : Result String (List ParsedAttachment))
    → Answer suffix attachments r
    → Parsed suffix attachments (all (is_acceptable suffix) attachments) (finished content r)
unfolding rejected
Parsed-finished suffix content attachments (ok items) h = rw (h.0) (refl, h.1)
Parsed-finished suffix content attachments (err message) h = rw (h.0) (h.1, refl, refl)

module _ (suffix : String → String) where
  -- Where a message has at most three attachments and each is of an allowed suffix and at most 2 MB,
  -- there is no error and all attachments are kept in their order; otherwise there is an error, no body
  -- and no attachment.
  pub Parsed-parse_message_inputs :
      (content : String) (attachments : List Attachment)
      → Parsed suffix attachments
          (leb (length attachments) 3 && all (is_acceptable suffix) attachments)
          (parse_message_inputs suffix content attachments)
  unfolding parse_message_inputs
  Parsed-parse_message_inputs content attachments =
      elim (Bool-cases (ltb max_attachments (length attachments))) [
        | inl many ↦ rw (many, leb_of_lt many) (unfold rejected in (refl, refl, refl))
        | inr few ↦
            rw (few, leb_of_not_lt few)
              (Parsed-finished suffix content attachments (parse_attachments suffix attachments)
                (Answer-parse_attachments suffix attachments))
      ]
    where
      leb_of_lt :
          ltb max_attachments (length attachments) ≡ true → leb (length attachments) 3 ≡ false
      leb_of_lt h = ground (arith, h)

      leb_of_not_lt :
          ltb max_attachments (length attachments) ≡ false → leb (length attachments) 3 ≡ true
      leb_of_not_lt h = ground (arith, h)
