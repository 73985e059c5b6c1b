-- ===== src/Tasks.antt =====
-- apps/mobile-api/src/tasks/tasks.service.ts over the tables of packages/database: the rows that
-- the service reads and writes, and the helpers on them. A table with a key that the code looks up
-- is a dictionary, any other a list in the order of creation. Times are milliseconds.
-- The tables' foreign keys give every task its session, so an update of it finds a row.
pub mod Filename
pub mod Storage
pub mod Persist
pub mod Enqueue
pub mod Dispatch
use mathlib.Core.Option
use claw_work.Event.{TaskStreamEvent, ResultValue, ArtifactKind}
use claw_work.TaskStream.{PersistedTaskEvent}
use claw_work.Prelude.{
  ℕ, Bool, Dict, List, Option, Text, false, if◌then◌else◌, insert, lookup, map, none, some, text_eq,
  true, ◌≡◌, Option-cases, arith, inl, inr, lookup-insert, text_eq_iff, ltb, min, ◌*◌,
}

pub data Status : Type 0 where
  queued running completed failed cancelled : Status

abbrev pub is_terminal_status : Status → Bool
is_terminal_status completed = true
is_terminal_status failed = true
is_terminal_status cancelled = true
is_terminal_status _ = false

abbrev pub is_queued : Status → Bool
is_queued queued = true
is_queued _ = false

pub record AppSession : Type 0 where
  pub user_id : Text
  pub title : Text
  pub status : Status
  pub current_task_id : Option Text

pub record Task : Type 0 where
  pub session_id : Text
  pub user_id : Text
  pub parent_task_id : Option Text
  pub task_type : Text
  pub status : Status
  pub input_text : Text
  pub preferred_tone : Text
  pub preferred_length : Text
  pub file_ids : List Text
  pub run_id : Option Text
  pub adapter_stream_url : Option Text
  pub error_code : Option Text
  pub error_message : Option Text
  pub queue_job_id : Option Text
  pub attempt_count : ℕ
  pub started_at : Option ℕ
  pub completed_at : Option ℕ

pub record TaskEvent : Type 0 where
  pub id : ℕ
  pub task_id : Text
  pub source_event_id : Option Text
  pub payload : TaskStreamEvent

-- `output_json` is the structured result, or `none` for `{ type: "text", text: outputText }`.
pub record TaskResult : Type 0 where
  pub id : Text
  pub task_id : Text
  pub session_id : Text
  pub version_no : ℕ
  pub output_text : Text
  pub output_json : Option ResultValue

pub record ResultArtifact : Type 0 where
  pub id : Text
  pub user_id : Text
  pub task_id : Text
  pub result_id : Option Text
  pub kind : ArtifactKind
  pub file_name : Text
  pub mime_type : Text
  pub preview_text : Text
  pub size_bytes : ℕ
  pub storage_key : Text

pub data FileStatus : Type 0 where
  uploading uploaded failed_upload : FileStatus

pub record File : Type 0 where
  pub user_id : Text
  pub filename : Text
  pub mime_type : Text
  pub size_bytes : ℕ
  pub status : FileStatus
  pub storage_key : Text
  pub etag : Option Text
  pub uploaded_at : Option ℕ

-- A push notification: `notifyTaskTerminal` is called without waiting for it.
pub record Push : Type 0 where
  pub user_id : Text
  pub task_id : Text
  pub status : Status
  pub title : Text
  pub message : Text

-- The tables, the keys of the stored objects, the events handed to the hub and the notifications handed to the push service.
pub record Db : Type 0 where
  pub sessions : Dict AppSession
  pub tasks : Dict Task
  pub events : List TaskEvent
  pub next_event_id : ℕ
  pub results : List TaskResult
  pub artifacts : List ResultArtifact
  pub files : Dict File
  pub objects : List Text
  pub hub : List (Text × PersistedTaskEvent)
  pub pushes : List Push

-- `update({ where: { id } })`
unfoldable pub adjust {ℓ} : {V : Type ℓ} → Text → (V → V) → Dict V → Dict V
adjust k f m = elim (lookup k m) [ none ↦ m | some v ↦ insert k (f v) m ]

pub lookup-adjust {ℓ} :
    {V : Type ℓ} (k j : Text) (f : V → V) (m : Dict V)
    → lookup j (adjust k f m) ≡ (if text_eq k j then Option.map f (lookup j m) else lookup j m)
unfolding adjust
lookup-adjust k j f m = elim (Option-cases (lookup k m)) [
  | inl e ↦ rw (e, adjust) (ground (arith, text_eq_iff k j))
  | inr (v, e) ↦ rw (e, adjust) (ground (arith, text_eq_iff k j, lookup-insert k j (f v) m))
]

-- `asPositiveInteger`: the value of `Number(input)` where it is a natural number in the safe range.
unfoldable pub as_positive_integer : Option ℕ → ℕ → ℕ
as_positive_integer none fallback = fallback
as_positive_integer (some n) fallback = if ltb 0 n then n else fallback

-- The environment variables that the service reads, as numbers.
pub record Env : Type 0 where
  pub max_upload_bytes_var : Option ℕ
  pub max_result_file_bytes_var : Option ℕ
  pub user_storage_bytes_var : Option ℕ
  pub user_concurrent_task_limit_var : Option ℕ

-- `ABSOLUTE_MAX_UPLOAD_BYTES` is the bound of files.dto.ts.
unfoldable pub max_upload_bytes : Env → ℕ
unfolding as_positive_integer
max_upload_bytes env =
    min (25 * 1024 * 1024) (as_positive_integer env.max_upload_bytes_var (10 * 1024 * 1024))

unfoldable pub max_result_file_bytes : Env → ℕ
unfolding as_positive_integer
max_result_file_bytes env = as_positive_integer env.max_result_file_bytes_var (25 * 1024 * 1024)

unfoldable pub user_storage_bytes : Env → ℕ
unfolding as_positive_integer
user_storage_bytes env = as_positive_integer env.user_storage_bytes_var (1024 * 1024 * 1024)

unfoldable pub concurrent_limit : Env → ℕ
unfolding as_positive_integer
concurrent_limit env = as_positive_integer env.user_concurrent_task_limit_var 3
