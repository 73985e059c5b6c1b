-- ===== src/TaskStore/Extract.antt =====
-- `extractArtifactFromResult`: an artifact in a result that an event or a stored version holds.
use mathlib.Core.Option
use claw_work.Event.{Json, Fields, Artifact, ArtifactKind, ResultValue, artifact, record_value}
use claw_work.Prelude.{Text, Option, if◌then◌else◌, js, none, some, text_eq, ℕ}

-- `record[key]`
unfoldable pub field_of : Text → Json → Option Json
field_of key (Json.obj Fields.end) = none
field_of key (Json.obj (Fields.field k v more)) =
    if text_eq k key then some v else field_of key (Json.obj more)
field_of key _ = none

abbrev pub as_text : Option Json → Option Text
as_text (some (Json.str s)) = some s
as_text _ = none

abbrev pub as_number : Option Json → Option ℕ
as_number (some (Json.num n)) = some n
as_number _ = none

unfoldable pub as_kind : Option Text → Option ArtifactKind
as_kind none = none
as_kind (some s) =
    if text_eq s (js "excel")
    then some ArtifactKind.excel
    else if text_eq s (js "pdf")
    then some ArtifactKind.pdf
    else if text_eq s (js "docx")
    then some ArtifactKind.docx
    else none

infixl 20 ◌>>=◌
abbrev ◌>>=◌ {ℓ κ} : {A : Type ℓ} {B : Type κ} → Option A → (A → Option B) → Option B
none >>= f = none
some a >>= f = f a

-- The artifact in the field of that name, with its address.
unfoldable pub read_artifact : Json → Option (Artifact × Text)
unfolding field_of as_kind
read_artifact j = do
  kind ← as_kind (as_text (field_of (js "kind") j))
  name ← as_text (field_of (js "fileName") j)
  mime ← as_text (field_of (js "mimeType") j)
  url ← as_text (field_of (js "downloadUrl") j)
  preview ← as_text (field_of (js "previewText") j)
  some (
    record {
      kind = kind;
      file_name = name;
      mime_type = mime;
      artifact_id = as_text (field_of (js "artifactId") j);
      download_url = some url;
      preview_text = preview;
      size_bytes = as_number (field_of (js "sizeBytes") j);
    },
    url,
  )

-- `extractArtifactFromResult`, on a value that no schema has parsed and on one that it has.
unfoldable pub extract_json : Json → Option (Artifact × Text)
unfolding read_artifact
extract_json j = elim (as_text (field_of (js "type") j)) [
  | none ↦ none
  | some s ↦
      if text_eq s (js "artifact") then field_of (js "artifact") j >>= read_artifact else none
]

unfoldable pub extract_artifact : ResultValue → Option (Artifact × Text)
unfolding extract_json
extract_artifact (artifact a) = Option.map (λ (url : Text). (a, url)) a.download_url
extract_artifact (record_value j) = extract_json j
