-- ===== src/Gateway/Input.antt =====
-- apps/openclaw-adapter/src/gateway-input.ts: the files of a task become images and blocks of text in
-- the message, within a budget of characters. What the downloads, the file system and the parser's
-- service answer are arguments; `none` stands for an error that nobody catches. A block keeps its
-- parts until the message is put together.
pub mod Budget
mod Examples
use claw_work.Prelude.{
  Bool, List, Option, Text, [], decimal, false, if◌then◌else◌, js, leb, length, ltb, map, max, min,
  none, not, or_else, some, starts_with, take, text_eq, trim, trim_end, true, truthy, ℕ, ◌&&◌, ◌++◌,
  ◌+◌, ◌-◌, ◌*◌, ◌==◌, ◌||◌, ◌∷◌, includes,
}
use mathlib.Core.Option
use claw_work.Sse.{lf}
use claw_work.Gateway.{join_lines}

abbrev pub max_document_chars_per_file : ℕ
max_document_chars_per_file = 6000

abbrev pub max_document_chars_total : ℕ
max_document_chars_total = 16000

abbrev pub max_file_bytes : ℕ
max_file_bytes = 25 * 1024 * 1024

-- `GatewayTaskFile`
pub record InputFile : Type 0 where
  pub filename : Text
  pub mime_type : Text
  pub size_bytes : ℕ
  pub content_url : Option Text
  pub content_path : Option Text

pub record GatewayAttachment : Type 0 where
  pub mime_type : Text
  pub file_name : Text
  pub content : Text

pub data ParseFileErrorCode : Type 0 where
  file_not_found file_too_large parse_failed unsupported_file_type : ParseFileErrorCode

abbrev pub is_unsupported : ParseFileErrorCode → Bool
is_unsupported unsupported_file_type = true
is_unsupported _ = false

abbrev pub is_not_found : ParseFileErrorCode → Bool
is_not_found file_not_found = true
is_not_found _ = false

-- `isParserErrorCode`
unfoldable pub parser_error_code : Text → Option ParseFileErrorCode
parser_error_code s =
    if text_eq s (js "FILE_NOT_FOUND")
    then some file_not_found
    else if text_eq s (js "FILE_TOO_LARGE")
    then some file_too_large
    else if text_eq s (js "PARSE_FAILED")
    then some parse_failed
    else if text_eq s (js "UNSUPPORTED_FILE_TYPE")
    then some unsupported_file_type
    else none

abbrev pub is_image_mime : Text → Bool
is_image_mime mime = starts_with mime (js "image/")

unfoldable pub truncate_text : Text → ℕ → Text
truncate_text text max_chars =
    if leb (length text) max_chars
    then text
    else trim_end (take (max_chars - 18) text) ++ (lf ∷ js "...[truncated]...")

-- `join(" ")`
unfoldable pub join_spaces : List Text → Text
join_spaces [] = []
join_spaces (s ∷ []) = s
join_spaces (s ∷ t ∷ ss) = let rest = join_spaces (t ∷ ss) in s ++ (js " " ++ rest)

abbrev attached : InputFile → Text
attached f = js "The user attached " ++ (f.filename ++ (js " (" ++ (f.mime_type ++ js ")")))

unfoldable pub format_fallback_document_note :
    InputFile → ParseFileErrorCode → (message : Text) → Text
unfolding join_spaces
format_fallback_document_note f code message = join_spaces (
    if is_unsupported code
    then (attached f ++ js ".")
      ∷ js "Readable text extraction is not supported for this format yet."
      ∷ js
          "Use the file metadata in your response or ask the user to re-upload as PDF, DOCX, XLSX, CSV, TXT, or Markdown if exact contents are needed."
      ∷ []
    else (attached f ++ js ".")
      ∷ (js "Readable text extraction failed locally: " ++ (message ++ js "."))
      ∷ js
          "Use the file metadata in your response and ask for a different format if exact contents are needed."
      ∷ [])

-- A block: `counted` tells the blocks that the budget counts from the note that stands for a file
-- when the budget is used up.
pub record Block : Type 0 where
  pub index : ℕ
  pub file : InputFile
  pub content : Text
  pub counted : Bool

unfoldable pub build_document_block : Block → Text
unfolding join_lines
build_document_block b = join_lines (
    (js "<attached_document index=\"" ++ (decimal b.index ++ js "\">"))
    ∷ (js "fileName: " ++ b.file.filename)
    ∷ (js "mimeType: " ++ b.file.mime_type)
    ∷ (js "sizeBytes: " ++ decimal b.file.size_bytes)
    ∷ js "content:"
    ∷ b.content
    ∷ js "</attached_document>"
    ∷ [])

-- The answer of the parser's service, with `ok` for `response.ok && payload?.ok !== false`.
pub record ParserAnswer : Type 0 where
  pub ok : Bool
  pub status : ℕ
  pub text : Option Text
  pub code : Option Text
  pub message : Option Text

-- What the reading of a file meets: a download, with its declared length if that is a number, or
-- the local file.
pub record Outside : Type 0 where
  pub download : Option (Option ℕ × List ℕ)
  pub local : Option (List ℕ)
  pub base64 : List ℕ → Text
  pub answer : Option ParserAnswer

abbrev fits_size : InputFile → List ℕ → Option (List ℕ)
fits_size f content =
    if ltb max_file_bytes (length content) || not (length content == f.size_bytes)
    then none
    else some content

abbrev fits_download : InputFile → Option ℕ → List ℕ → Option (List ℕ)
fits_download f declared content =
    if ltb max_file_bytes (or_else declared 0) then none else fits_size f content

unfoldable pub load_file : InputFile → Outside → Option (List ℕ)
load_file f o =
    if ltb max_file_bytes f.size_bytes
    then none
    else if truthy (or_else f.content_url [])
    then elim o.download [
      | none ↦ none
      | some (declared, content) ↦ fits_download f declared content
    ]
    else if truthy (or_else f.content_path [])
    then elim o.local [ none ↦ none | some content ↦ fits_size f content ]
    else none

pub data Parsed : Type 0 where
  parsed : Text → Parsed
  refused : ParseFileErrorCode → (message : Text) → Parsed
  failed : Parsed

abbrev answer_of : Option ParserAnswer → Parsed
answer_of none = failed
answer_of (some a) =
    if a.ok
    then elim a.text [ none ↦ failed | some t ↦ parsed t ]
    else refused (or_else (parser_error_code (or_else a.code [])) parse_failed)
        (or_else a.message (js "parser service failed with status " ++ decimal a.status))

-- The body of the request is loaded first.
unfoldable pub parse_with_isolated_service : InputFile → Outside → Parsed
unfolding load_file parser_error_code
parse_with_isolated_service f o = elim (load_file f o) [
  | none ↦ failed
  | some content ↦ answer_of o.answer
]

unfoldable pub to_image_attachment : InputFile → Outside → Option GatewayAttachment
unfolding load_file
to_image_attachment f o = elim (load_file f o) [
  | none ↦ none
  | some content ↦
      some (record { mime_type = f.mime_type; file_name = f.filename; content = o.base64 content })
]

abbrev pub budget_of : (remaining : ℕ) → ℕ
budget_of remaining = max 256 (min max_document_chars_per_file remaining)

-- The block of a text, and the characters that it takes from the budget.
unfoldable pub text_block : InputFile → ℕ → ℕ → Text → Block × ℕ
unfolding truncate_text
text_block f index budget text = (
  record { index = index; file = f; content = truncate_text text budget; counted = true },
  min (length text) budget,
)

abbrev pub noted : Bool → Block × ℕ → Option (Block × ℕ)
noted true b = none
noted false b = some b

unfoldable pub block_of : InputFile → (index remaining : ℕ) → Parsed → Option (Block × ℕ)
unfolding text_block format_fallback_document_note
block_of f index remaining (parsed text) = some (text_block f index (budget_of remaining) text)
block_of f index remaining (refused code message) =
    noted (is_not_found code)
      (text_block f index (budget_of remaining) (format_fallback_document_note f code message))
block_of f index remaining failed = none

unfoldable pub to_document_block : InputFile → Outside → (index remaining : ℕ) → Option (Block × ℕ)
unfolding block_of parse_with_isolated_service
to_document_block f o index remaining = block_of f index remaining (parse_with_isolated_service f o)

-- `join("\n\n")`
unfoldable pub join_sections : List Text → Text
join_sections [] = []
join_sections (s ∷ []) = s
join_sections (s ∷ t ∷ ss) = let rest = join_sections (t ∷ ss) in s ++ (lf ∷ lf ∷ rest)

unfoldable pub merge_message_with_document_blocks : Text → List Text → Text
unfolding join_sections
merge_message_with_document_blocks message [] = message
merge_message_with_document_blocks message (b ∷ bs) =
    let section : Text = join_sections (
      js "Attached document context follows. These files are part of the user's request."
      ∷ b
      ∷ bs) in
    if truthy (trim message) then trim message ++ (lf ∷ lf ∷ section) else section

abbrev used_up_note : InputFile → Text
used_up_note f =
    attached f
    ++ js
        ", but local document context was truncated because the request already includes too much extracted content."

abbrev pub used_up_block : InputFile → ℕ → Block
used_up_block f index = record {
  index = index;
  file = f;
  content = used_up_note f;
  counted = false;
}

pub record Collected : Type 0 where
  pub attachments : List GatewayAttachment
  pub blocks : List Block

abbrev pub add_attachment : Option GatewayAttachment → Option Collected → Option Collected
add_attachment none c = none
add_attachment (some a) none = none
add_attachment (some a) (some c) = some (record c { attachments = a ∷ c.attachments })

abbrev pub add_block : Block → Option Collected → Option Collected
add_block b none = none
add_block b (some c) = some (record c { blocks = b ∷ c.blocks })

abbrev pub add_counted : Option (Block × ℕ) → (rest : ℕ → Option Collected) → Option Collected
add_counted none rest = none
add_counted (some (b, used)) rest = add_block b (rest used)

-- The loop of `prepareGatewayInput`, which counts from 1.
unfoldable pub collect : (index remaining : ℕ) → List (InputFile × Outside) → Option Collected
unfolding to_image_attachment to_document_block
collect index remaining [] = some (record { attachments = []; blocks = [] })
collect index remaining ((f, o) ∷ more) =
    let rest = collect (index + 1) remaining more in
    if is_image_mime f.mime_type
    then add_attachment (to_image_attachment f o) rest
    else if remaining == 0
    then add_block (used_up_block f index) rest
    else add_counted (to_document_block f o index remaining)
        (λ used. collect (index + 1) (remaining - used) more)

pub record PreparedGatewayInput : Type 0 where
  pub message : Text
  pub attachments : List GatewayAttachment

unfoldable pub prepare_gateway_input :
    Text → List (InputFile × Outside) → Option PreparedGatewayInput
unfolding collect merge_message_with_document_blocks build_document_block
prepare_gateway_input message files = elim (collect 1 max_document_chars_total files) [
  | none ↦ none
  | some c ↦ some (record {
    message = merge_message_with_document_blocks message (map build_document_block c.blocks);
    attachments = c.attachments;
  })
]
