-- ===== src/Tasks/Storage.antt =====
-- `createUploadUrl`, `completeUpload`, `deleteFile` and `archiveResultArtifact`. What
-- the object store and the network answer are arguments, and so are new identifiers and the time;
-- `none` stands for a call that throws. A transaction runs as one step, since the advisory lock
-- of the user makes its quota check and its write atomic.
pub mod Archive
pub mod Quota
mod Examples
use claw_work.Tasks.{
  Db, File, FileStatus, ResultArtifact, Env, Task, failed_upload, max_upload_bytes,
  user_storage_bytes,
}
use claw_work.Tasks.Filename.{sanitize_filename}
use claw_work.Prelude.{
  ℕ, Bool, List, Option, Text, [], any, erase, filter, if◌then◌else◌, insert, js, lookup, ltb, none,
  not, some, text_eq, total, ◌&&◌, ◌++◌, ◌+◌, ◌/◌, ◌==◌, ◌∷◌,
}

-- What a handler gives its caller: a value, or an exception with its HTTP status.
pub data Reply (A : Type 0) : Type 0 where
  reply : A → Reply A
  refuse : ℕ → Reply A

unfoldable pub supported_mime_types : List Text
supported_mime_types =
    js "image/jpeg"
    ∷ js "image/png"
    ∷ js "image/webp"
    ∷ js "application/pdf"
    ∷ js "application/msword"
    ∷ js "application/vnd.openxmlformats-officedocument.wordprocessingml.document"
    ∷ js "application/vnd.ms-excel"
    ∷ js "application/vnd.openxmlformats-officedocument.spreadsheetml.sheet"
    ∷ js "text/markdown"
    ∷ js "text/plain"
    ∷ js "text/csv"
    ∷ []

-- A file that the `fileUsage` aggregate counts.
abbrev pub counted_size : Text → File → ℕ
counted_size user f = elim f.status [
  | FileStatus.failed_upload ↦ 0
  | _ ↦ if text_eq f.user_id user then f.size_bytes else 0
]

unfoldable pub artifact_usage : Text → List ResultArtifact → ℕ
artifact_usage user [] = 0
artifact_usage user (a ∷ more) =
    (if text_eq a.user_id user then a.size_bytes else 0) + artifact_usage user more

-- `usedBytes`
unfoldable pub used_bytes : Text → Db → ℕ
unfolding artifact_usage
used_bytes user db = total (counted_size user) db.files + artifact_usage user db.artifacts

pub record CreateUpload : Type 0 where
  pub filename : Text
  pub mime_type : Text
  pub size_bytes : ℕ

pub record UploadUrl : Type 0 where
  pub file_id : Text
  pub storage_key : Text
  pub upload_url : Text

-- `users/${userId}/${fileId}/${filename}`
unfoldable pub upload_key : Text → Text → Text → Text
upload_key user id name = js "users/" ++ (user ++ (js "/" ++ (id ++ (js "/" ++ name))))

unfoldable pub new_file : Text → Text → CreateUpload → File
unfolding upload_key
new_file user id input = record {
  user_id = user;
  filename = sanitize_filename input.filename;
  mime_type = input.mime_type;
  size_bytes = input.size_bytes;
  status = FileStatus.uploading;
  storage_key = upload_key user id (sanitize_filename input.filename);
  etag = none;
  uploaded_at = none;
}

-- The end of `createUploadUrl`: `signed` is the URL that the object store gives.
unfoldable pub sign_upload : Text → File → Option Text → Db → Db × Reply UploadUrl
sign_upload id file none db = (
  record db { files = insert id (record file { status = FileStatus.failed_upload }) db.files },
  refuse 503,
)
sign_upload id file (some url) db =
    (db, reply (record { file_id = id; storage_key = file.storage_key; upload_url = url }))

unfoldable pub create_upload_url :
    Env → Text → CreateUpload → (new_id : Text) → (signed : Option Text) → Db → Db × Reply UploadUrl
unfolding sign_upload new_file
create_upload_url env user input new_id signed db =
    if not (any (text_eq input.mime_type) supported_mime_types)
    then (db, refuse 415)
    else if ltb (max_upload_bytes env) input.size_bytes
    then (db, refuse 413)
    else if ltb (user_storage_bytes env) (used_bytes user db + input.size_bytes)
    then (db, refuse 429)
    else sign_upload new_id (new_file user new_id input) signed
        (record db { files = insert new_id (new_file user new_id input) db.files })

pub record CompleteUpload : Type 0 where
  pub file_id : Text
  pub filename : Text
  pub mime_type : Text
  pub size_bytes : ℕ
  pub storage_key : Text

-- `inspectObject`: the metadata of a stored object.
pub record Inspected : Type 0 where
  pub size_bytes : ℕ
  pub mime_type : Text
  pub etag : Option Text

abbrev pub owned_file : Text → Option File → Option File
owned_file user none = none
owned_file user (some f) = if text_eq f.user_id user then some f else none

abbrev pub same_metadata : CompleteUpload → File → Bool
same_metadata input f =
    text_eq f.filename (sanitize_filename input.filename)
    && text_eq f.mime_type input.mime_type
    && f.size_bytes == input.size_bytes
    && text_eq f.storage_key input.storage_key

abbrev pub uploaded_file : File → Inspected → ℕ → File
uploaded_file f object now = record f {
  status = FileStatus.uploaded;
  uploaded_at = some now;
  etag = object.etag;
}

-- The part of `completeUpload` behind the look at the stored object.
unfoldable pub settle_upload : Text → File → Inspected → ℕ → Db → Db × Reply File
settle_upload id f object now db =
    if object.size_bytes == f.size_bytes && text_eq object.mime_type f.mime_type
    then (
      record db { files = insert id (uploaded_file f object now) db.files },
      reply (uploaded_file f object now),
    )
    else (
      record db { files = insert id (record f { status = FileStatus.failed_upload }) db.files },
      refuse 400,
    )

unfoldable pub complete_upload :
    Text → CompleteUpload → (object : Option Inspected) → (now : ℕ) → Db → Db × Reply File
unfolding settle_upload
complete_upload user input object now db = elim (owned_file user (lookup input.file_id db.files)) [
  | none ↦ (db, refuse 404)
  | some f ↦
      if same_metadata input f
      then elim object [ none ↦ (db, refuse 503) | some o ↦ settle_upload input.file_id f o now db ]
      else (db, refuse 400)
]

-- `_count.tasks`
abbrev pub task_uses : Text → Task → ℕ
task_uses id t = if any (text_eq id) t.file_ids then 1 else 0

unfoldable pub delete_file : Text → Text → (deleted : Bool) → Db → Db × Reply Text
delete_file user id deleted db = elim (owned_file user (lookup id db.files)) [
  | none ↦ (db, refuse 404)
  | some f ↦
      if ltb 0 (total (task_uses id) db.tasks)
      then (db, refuse 409)
      else if deleted
      then (
        record db {
          files = erase id db.files;
          objects = filter (λ k. not (text_eq k f.storage_key)) db.objects;
        },
        reply id,
      )
      else (db, refuse 503)
]
