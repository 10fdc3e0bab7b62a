-- ===== src/Chat/Tests.antt =====
-- Runs on small messages: a limit of four characters, and attachments whose names are their suffixes.
use dev_bot.Base.{◌≤◌, ◌≡◌, refl, some, List, [], ◌∷◌, leb, ◌&&◌, arith}
use dev_bot.Base.Codes.{Codes, codes}
use dev_bot.Base.Lists.{length, all, All}
use dev_bot.Base.Text.{is_space}
use dev_bot.Chat.{Attachment, chunk_message, chunks_from, last_newline, rstrip, lstrip_newlines}
use dev_bot.Chat.Chunks.{visible, joined, chunk_message_splits}
use dev_bot.Chat.Inputs.{
  is_acceptable, Parsed, parse_message_inputs, Parsed-parse_message_inputs, rejected,
  parse_attachments,
}

abbrev text : Codes
text = codes "ab\ncdefg h"

splits_at_newline : chunk_message text 4 ≡ some (codes "ab" ∷ codes "cdef" ∷ codes "g h" ∷ [])
unfolding chunk_message chunks_from last_newline rstrip lstrip_newlines is_space
splits_at_newline = refl

chunk_message_splits_example :
    (chunks : List Codes) × (chunk_message text 4 ≡ some chunks)
    × (All (λ chunk. length chunk ≤ 4) chunks)
    × (visible (joined chunks) ≡ visible text)
chunk_message_splits_example = chunk_message_splits text 4 (omega arith)

abbrev note : Attachment
note = record { filename = ".md"; size = 10; content = "hello"; url = "u" }

abbrev program : Attachment
program = record { filename = ".exe"; size = 10; content = "x"; url = "u" }

Parsed-parse_message_inputs_example :
    Parsed
      (λ s. s)
      (note ∷ [])
      (leb (length (note ∷ [])) 3 && all (is_acceptable (λ s. s)) (note ∷ []))
      (parse_message_inputs (λ s. s) "hi" (note ∷ []))
Parsed-parse_message_inputs_example = Parsed-parse_message_inputs (λ s. s) "hi" (note ∷ [])

program_refused : (parse_message_inputs (λ s. s) "hi" (program ∷ [])).body ≡ ""
unfolding parse_message_inputs parse_attachments rejected
program_refused = refl
