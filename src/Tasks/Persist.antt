-- ===== src/Tasks/Persist.antt =====
-- `persistTaskEvent` and `prepareTaskEvent`: an event of the adapter's stream, or one that the
-- service makes itself, becomes a row of the log, a change of the task and of its session, a
-- delivery to the hub and a notification. The transaction takes no lock: `read_task` and
-- `write_event` are its halves, and `store_for` is both with nothing between. Where it throws,
-- nothing of it remains.

pub mod Cases
pub mod Terminal
pub mod Rows
pub mod Samples
pub mod Results
pub mod Delivery
mod Examples
use claw_work.Prelude.{
  Bool, List, Option, Text, [], any, false, if◌then◌else◌, is_some, js, lookup, map, max, none, not,
  or_else, some, text_eq, truthy, ℕ, ◌&&◌, ◌++◌, ◌+◌, ◌||◌, ◌∷◌,
}
use mathlib.Core.Option
use claw_work.Event.{Artifact, Detail, ResultValue, TaskStreamEvent, artifact, record_value}
use claw_work.Tasks.{
  AppSession, Db, Env, Push, ResultArtifact, Status, Task, TaskEvent, TaskResult, adjust,
  is_terminal_status,
}
use claw_work.Tasks.Storage.Archive.{Archived, Outside, archive_result_artifact}

-- What becomes of an event: `skipped` and `stored` are the two ways to return.
pub data Outcome : Type 0 where
  skipped stored thrown : Outcome

pub record Prepared : Type 0 where
  pub stored : TaskStreamEvent
  pub published : TaskStreamEvent

unfoldable pub with_artifact : TaskStreamEvent → Artifact → TaskStreamEvent
with_artifact e a = record e { detail = Detail.result_created (artifact a) }

-- The two events of an archived result: `url` is the address that the object store signs.
unfoldable pub archived_events :
    TaskStreamEvent → Option Text → Db × Option Archived → Db × Option Prepared
unfolding with_artifact
archived_events e url (db, none) = (db, none)
archived_events e none (db, some a) = (db, none)
archived_events e (some url) (db, some a) = (
  db,
  some (record {
    stored = with_artifact e (record a.artifact { download_url = none });
    published = with_artifact e (record a.artifact { download_url = some url });
  }),
)

-- `prepareTaskEvent`, with `none` where it throws.
unfoldable pub prepare_result :
    Env
    → List Text
    → Outside
    → Option Text
    → TaskStreamEvent
    → ResultValue
    → Db
    → Db × Option Prepared
unfolding archived_events
prepare_result env origins out url e (record_value json) db = (db, none)
prepare_result env origins out url e (artifact a) db =
    if truthy (or_else a.download_url [])
    then archived_events e url (archive_result_artifact env origins e.task_id a out db)
    else (db, none)

unfoldable pub prepare_detail :
    Env → List Text → Outside → Option Text → TaskStreamEvent → Detail → Db → Db × Option Prepared
unfolding prepare_result
prepare_detail env origins out url e (Detail.result_created r) db =
    prepare_result env origins out url e r db
prepare_detail env origins out url e _ db = (db, some (record { stored = e; published = e }))

unfoldable pub prepare_task_event :
    Env → List Text → Outside → Option Text → TaskStreamEvent → Db → Db × Option Prepared
unfolding prepare_detail
prepare_task_event env origins out url e db = prepare_detail env origins out url e e.detail db

abbrev pub same_source : Text → Text → TaskEvent → Bool
same_source task s row =
    text_eq row.task_id task && elim row.source_event_id [ none ↦ false | some r ↦ text_eq r s ]

-- The unique index on the task and the source: is there a row of this key?
unfoldable pub is_taken : Text → Option Text → Db → Bool
is_taken task none db = false
is_taken task (some s) db = any (same_source task s) db.events

-- `if (sourceEventId)` and the lookup under it.
unfoldable pub is_seen : Text → Option Text → Db → Bool
unfolding is_taken
is_seen task source db = truthy (or_else source []) && is_taken task source db

abbrev pub delta_text : Detail → Text
delta_text (Detail.delta s) = s
delta_text _ = []

-- `outputText`
unfoldable pub output_text : Text → List TaskEvent → Text
output_text task [] = []
output_text task (row ∷ rows) =
    (if text_eq row.task_id task then delta_text row.payload.detail else [])
    ++ output_text task rows

abbrev pub result_of : TaskEvent → Option ResultValue
result_of row = elim row.payload.detail [ Detail.result_created r ↦ some r | _ ↦ none ]

-- `[...events].reverse().find(…)?.result`
unfoldable pub structured_result : Text → List TaskEvent → Option ResultValue
structured_result task [] = none
structured_result task (row ∷ rows) = elim (structured_result task rows) [
  | some r ↦ some r
  | none ↦ if text_eq row.task_id task then result_of row else none
]

-- `latestVersion?.versionNo ?? 0`
unfoldable pub latest_version : Text → List TaskResult → ℕ
latest_version session [] = 0
latest_version session (r ∷ rs) =
    max (if text_eq r.session_id session then r.version_no else 0) (latest_version session rs)

abbrev pub link_artifact : Text → Text → ResultArtifact → ResultArtifact
link_artifact task result a =
    if text_eq a.task_id task && not (is_some a.result_id)
    then record a { result_id = some result }
    else a

abbrev pub accepted_task : Text → ℕ → Task → Task
accepted_task run at t = record t {
  status = Status.running;
  run_id = some run;
  started_at = some at;
}

abbrev pub ended_task : Status → Option Text → Option Text → ℕ → Task → Task
ended_task status code message now t = record t {
  status = status;
  error_code = code;
  error_message = message;
  completed_at = some now;
}

abbrev pub ended_session : Status → AppSession → AppSession
ended_session status s = record s { status = status }

-- The branch of "task.completed": `result` is the identifier of the new row.
unfoldable pub complete_task : Text → Text → ℕ → Text → Db → Db
unfolding output_text structured_result latest_version
complete_task task session now result db = record db {
  results =
      db.results
      ++ record {
        id = result;
        task_id = task;
        session_id = session;
        version_no = latest_version session db.results + 1;
        output_text = output_text task db.events;
        output_json = structured_result task db.events;
      }
        ∷ [];
  artifacts = map (link_artifact task result) db.artifacts;
  tasks = adjust task (ended_task Status.completed none none now) db.tasks;
  sessions =
      adjust session (λ s. record s { status = Status.completed; current_task_id = some task })
        db.sessions;
}

-- The chain of branches on the stored event's type.
unfoldable pub apply_detail : Text → Text → ℕ → Text → Text → Detail → Db → Db
unfolding complete_task
apply_detail task session now result run Detail.accepted db = record db {
  tasks = adjust task (accepted_task run now) db.tasks;
}
apply_detail task session now result run (Detail.failed code message) db = record db {
  tasks = adjust task (ended_task Status.failed (some code) (some message) now) db.tasks;
  sessions = adjust session (ended_session Status.failed) db.sessions;
}
apply_detail task session now result run (Detail.cancelled message) db = record db {
  tasks =
      adjust task (ended_task Status.cancelled (some (js "TASK_CANCELLED")) (some message) now)
        db.tasks;
  sessions = adjust session (ended_session Status.cancelled) db.sessions;
}
apply_detail task session now result run Detail.completed db =
    complete_task task session now result db
apply_detail task session now result run _ db = db

unfoldable pub apply_event : Text → Text → ℕ → Text → TaskStreamEvent → Db → Db
unfolding apply_detail
apply_event task session now result e db = apply_detail task session now result e.run_id e.detail db

unfoldable pub append_event : Text → Option Text → TaskStreamEvent → Db → Db
append_event task source e db = record db {
  events =
      db.events
      ++ record { id = db.next_event_id; task_id = task; source_event_id = source; payload = e }
        ∷ [];
  next_event_id = db.next_event_id + 1;
}

abbrev completed_message : Text
completed_message = js "任务已完成，点击查看结果"

abbrev failed_message : Text
failed_message = js "任务失败："

abbrev cancelled_message : Text
cancelled_message = js "任务已取消"

-- The notification of a terminal event; the texts are those of the source, in code units.
abbrev pub notification : Text → Text → Text → Detail → List Push
notification user task title (Detail.completed) =
    record {
      user_id = user;
      task_id = task;
      status = Status.completed;
      title = title;
      message = completed_message;
    }
    ∷ []
notification user task title (Detail.failed code message) =
    record {
      user_id = user;
      task_id = task;
      status = Status.failed;
      title = title;
      message = failed_message ++ message;
    }
    ∷ []
notification user task title (Detail.cancelled message) =
    record {
      user_id = user;
      task_id = task;
      status = Status.cancelled;
      title = title;
      message = cancelled_message;
    }
    ∷ []
notification user task title _ = []

-- What follows the transaction.
unfoldable pub announce : ℕ → Text → Text → TaskStreamEvent → Db → Db
announce id user title e db = record db {
  hub = db.hub ++ (e.task_id, record { id = id; event = e }) ∷ [];
  pushes = db.pushes ++ notification user e.task_id title e.detail;
}

abbrev pub title_of : Text → Db → Text
title_of session db = elim (lookup session db.sessions) [ none ↦ [] | some s ↦ s.title ]

-- The time that a transaction writes: the start of the task, `task.startedAt ?? new Date()`, is that
-- of the row `t` that it has read.
abbrev pub written_at : Task → Detail → ℕ → ℕ
written_at t Detail.accepted now = or_else t.started_at now
written_at t _ now = now

-- The first half of the transaction: the row of the task, where the event is to be stored. It takes
-- no lock, so that other transactions may come between the halves.
unfoldable pub read_task : Text → Option Text → Db → Option Task
unfolding is_seen
read_task task source db = elim (lookup task db.tasks) [
  | none ↦ none
  | some t ↦ if is_terminal_status t.status || is_seen task source db then none else some t
]

-- The second half, with the row `t` that the first half read, and what follows the transaction.
unfoldable pub write_event : ℕ → Text → Option Text → Prepared → Text → Task → Db → Db × Outcome
unfolding announce apply_event append_event is_taken
write_event now result source p task t db =
    if is_taken task source db then (db, Outcome.thrown) else (
      announce db.next_event_id t.user_id (title_of t.session_id db) p.published (
          apply_event task t.session_id (written_at t p.stored.detail now) result p.stored
            (append_event task source p.stored db)),
      Outcome.stored,
    )

-- The whole transaction where no other comes between, for the task of the stored event.
unfoldable pub store_for : ℕ → Text → Option Text → Prepared → Text → Db → Db × Outcome
unfolding read_task write_event
store_for now result source p task db = elim (read_task task source db) [
  | none ↦ (db, Outcome.skipped)
  | some t ↦ write_event now result source p task t db
]

unfoldable pub store_event : ℕ → Text → Option Text → Prepared → Db → Db × Outcome
unfolding store_for
store_event now result source p db = store_for now result source p p.stored.task_id db

unfoldable pub store_prepared : ℕ → Text → Option Text → Db × Option Prepared → Db × Outcome
unfolding store_event
store_prepared now result source (db, none) = (db, Outcome.thrown)
store_prepared now result source (db, some p) = store_event now result source p db

-- What the world gives to one call.
pub record World : Type 0 where
  pub env : Env
  pub origins : List Text
  pub outside : Outside
  pub signed_url : Option Text
  pub now : ℕ
  pub result_id : Text

unfoldable pub persist_task_event : World → TaskStreamEvent → Option Text → Db → Db × Outcome
unfolding is_seen store_prepared prepare_task_event
persist_task_event w e source db =
    if is_seen e.task_id source db
    then (db, Outcome.skipped)
    else store_prepared w.now w.result_id source
        (prepare_task_event w.env w.origins w.outside w.signed_url e db)

abbrev pub failed_event : (task timestamp code message : Text) → Task → TaskStreamEvent
failed_event task timestamp code message t = record {
  task_id = task;
  session_id = t.session_id;
  run_id = or_else t.run_id task;
  timestamp = timestamp;
  detail = Detail.failed code message;
}

-- `failTask`
unfoldable pub fail_task : World → Text → (timestamp code message : Text) → Db → Db × Outcome
unfolding persist_task_event
fail_task w task timestamp code message db = elim (lookup task db.tasks) [
  | none ↦ (db, Outcome.skipped)
  | some t ↦
      if is_terminal_status t.status
      then (db, Outcome.skipped)
      else persist_task_event w (failed_event task timestamp code message t) none db
]
