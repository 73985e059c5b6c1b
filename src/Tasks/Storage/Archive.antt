-- ===== src/Tasks/Storage/Archive.antt =====
-- `archiveResultArtifact`: the download of a result that the gateway announces, and its copy in
-- the object store.
use claw_work.Event.{Artifact}
use claw_work.Tasks.{Db, Env, max_result_file_bytes, user_storage_bytes}
use claw_work.Tasks.Filename.{sanitize_filename}
use claw_work.Tasks.Storage.{used_bytes}
use claw_work.Prelude.{
  ℕ, Bool, List, Option, Text, [], any, false, filter, if◌then◌else◌, js, lookup, ltb, none, not,
  some, text_eq, truthy, ◌&&◌, ◌++◌, ◌+◌, ◌==◌, ◌||◌, ◌∷◌,
}

-- The parts of `new URL(downloadUrl)` that are tested or kept.
pub record Source : Type 0 where
  pub protocol : Text
  pub username : Text
  pub password : Text
  pub origin : Text

-- The response: `mime` is the media type of its header, "" if it has none, and `chunks` are the
-- sizes of the parts of its body.
pub record Download : Type 0 where
  pub answered : Bool
  pub declared_length : Option ℕ
  pub mime : Text
  pub chunks : List ℕ

-- What the world gives: the parsed URL, the response (`none` where `fetch` throws), a new
-- identifier for the key, whether the object store takes the object and whether it deletes it,
-- and the identifier of the new row.
pub record Outside : Type 0 where
  pub source : Option Source
  pub download : Option Download
  pub key_id : Text
  pub stored : Bool
  pub deleted : Bool
  pub row_id : Text

pub record Archived : Type 0 where
  pub storage_key : Text
  pub artifact : Artifact

unfoldable pub is_allowed_source : List Text → Source → Bool
is_allowed_source origins s =
    (text_eq s.protocol (js "http:") || text_eq s.protocol (js "https:"))
    && not (truthy s.username)
    && not (truthy s.password)
    && any (text_eq s.origin) origins

-- The reading loop: the size of the body, or `none` where it is too large.
unfoldable pub read_body : ℕ → ℕ → List ℕ → Option ℕ
read_body most size [] = some size
read_body most size (n ∷ ns) =
    let rest = read_body most (size + n) ns in if ltb most (size + n) then none else rest

abbrev pub exceeds : Option ℕ → ℕ → Bool
exceeds none most = false
exceeds (some n) most = ltb most n

abbrev pub differs : Option ℕ → ℕ → Bool
differs none n = false
differs (some m) n = not (m == n)

-- The checks on the response: the size of a body that passes them.
unfoldable pub checked_size : ℕ → Artifact → Download → Option ℕ
unfolding read_body
checked_size most a d =
    if not d.answered
      || exceeds d.declared_length most
      || (truthy d.mime && not (text_eq d.mime a.mime_type))
    then none
    else elim (read_body most 0 d.chunks) [
      | none ↦ none
      | some size ↦ if ltb size 1 || differs a.size_bytes size then none else some size
    ]

unfoldable pub archive_key : Text → Text → Text → Text → Text
archive_key user task id name =
    js "users/" ++ (user ++ (js "/results/" ++ (task ++ (js "/" ++ (id ++ (js "/" ++ name))))))

-- The transaction, and the clean-up where it throws.
unfoldable pub record_artifact :
    Env → Text → Text → Artifact → ℕ → Outside → Text → Db → Db × Option Archived
record_artifact env user task a size out key db =
    if ltb (user_storage_bytes env) (used_bytes user db + size)
    then (
      record db {
        objects = if out.deleted then filter (λ k. not (text_eq k key)) db.objects else db.objects;
      },
      none,
    )
    else (
      record db {
        artifacts =
            db.artifacts
            ++ record {
              id = out.row_id;
              user_id = user;
              task_id = task;
              result_id = none;
              kind = a.kind;
              file_name = sanitize_filename a.file_name;
              mime_type = a.mime_type;
              preview_text = a.preview_text;
              size_bytes = size;
              storage_key = key;
            }
              ∷ [];
      },
      some (record {
        storage_key = key;
        artifact = record a {
          artifact_id = some out.row_id;
          file_name = sanitize_filename a.file_name;
          size_bytes = some size;
          download_url = none;
        };
      }),
    )

unfoldable pub store_artifact :
    Env → Text → Text → Artifact → ℕ → Outside → Db → Db × Option Archived
unfolding record_artifact archive_key
store_artifact env user task a size out db =
    let key = archive_key user task out.key_id (sanitize_filename a.file_name) in
    if out.stored
    then record_artifact env user task a size out key
        (record db { objects = db.objects ++ key ∷ [] })
    else (db, none)

unfoldable pub archive_result_artifact :
    Env → List Text → Text → Artifact → Outside → Db → Db × Option Archived
unfolding store_artifact is_allowed_source checked_size
archive_result_artifact env origins task a out db = elim (lookup task db.tasks) [
  | none ↦ (db, none)
  | some t ↦ elim out.source [
    | none ↦ (db, none)
    | some source ↦
        if is_allowed_source origins source
        then elim out.download [
          | none ↦ (db, none)
          | some d ↦ elim (checked_size (max_result_file_bytes env) a d) [
            | none ↦ (db, none)
            | some size ↦ store_artifact env t.user_id task a size out db
          ]
        ]
        else (db, none)
  ]
]
