-- ===== src/Tasks/Dispatch.antt =====
-- `processQueuedTask`, `dispatchTask` and `requestGatewayCancellation`: from a task in the queue to
-- a relay of the adapter's stream. What the adapter, the
-- object store and the queue answer are arguments. A call runs here without interruption; where the
-- order of the calls' steps matters, the steps are functions of their own.
pub mod Stop
pub mod Restart
pub mod Requests
pub mod Relay
pub mod Ends
pub mod Timer
pub mod Cancel
pub mod Recovery
pub mod Overlap
pub mod EndedRows
pub mod Queries
pub mod Resume
pub mod Safety
mod Examples
use claw_work.Sse.{lf}
use claw_work.Prelude.{
  Bool, Dict, List, Option, Text, [], false, if◌then◌else◌, insert, is_some, js, leb, lookup, none,
  not, or_else, some, starts_with, text_eq, trim, true, truthy, ℕ, ◌&&◌, ◌++◌, ◌+◌, ◌==◌, ◌∷◌, ◌-◌,
}
use claw_work.Event.{Detail, TaskStreamEvent}
use claw_work.TaskQueue.{Bull, QueueEnv, cancel, enqueue}
use claw_work.Tasks.{
  Db, File, Status, Task, adjust, is_queued, is_terminal_status, as_positive_integer,
}
use claw_work.Tasks.Storage.{Reply, reply, refuse}
use claw_work.Tasks.Persist.{Outcome, World, fail_task, persist_task_event, thrown}

-- `db` are the tables, `relays` is `activeRelays` with the `aborted` flag of each controller, and
-- `cancellations` are the tasks whose cancellation was asked of the adapter.
pub record Service (Q : Type 0) : Type 0 where
  pub db : Db
  pub relays : Dict Bool
  pub queue : Q
  pub cancellations : List Text

-- The adapter's answer to a request to cancel: there is no address, the request fails, or it comes
-- back with `response.ok`.
pub data CancelAnswer : Type 0 where
  unconfigured unreachable : CancelAnswer
  answered : (ok : Bool) → CancelAnswer

-- `requestGatewayCancellation`, with the status of what it throws.
unfoldable pub request_gateway_cancellation :
    {Q : Type 0} → CancelAnswer → Text → Service Q → Service Q × Option ℕ
request_gateway_cancellation unconfigured task s = (s, some 409)
request_gateway_cancellation unreachable task s =
    (record s { cancellations = s.cancellations ++ task ∷ [] }, some 500)
request_gateway_cancellation (answered ok) task s =
    (record s { cancellations = s.cancellations ++ task ∷ [] }, if ok then none else some 409)

unfoldable pub start_adapter_relay : {Q : Type 0} → Text → Service Q → Service Q
start_adapter_relay task s =
    if is_some (lookup task s.relays) then s else record s { relays = insert task false s.relays }

-- `buildExecutionMessage`
unfoldable pub build_execution_message : (text task_type tone len : Text) → Text
build_execution_message text task_type tone len =
    trim text
    ++ (lf ∷ lf ∷ js "ClawWork delivery requirements:"
        ++ (lf ∷ js "- task type: "
            ++ (task_type
                ++ (lf ∷ js "- preferred tone: "
                    ++ (tone
                        ++ (lf ∷ js "- preferred length: "
                            ++ (len
                                ++ (lf
                                    ∷ js
                                        "Return a useful deliverable first; the user may request revisions afterward."))))))))

pub record ObjectInfo : Type 0 where
  pub size_bytes : ℕ
  pub mime_type : Text
  pub etag : Text

pub record GatewayTaskFile : Type 0 where
  pub file_id : Text
  pub filename : Text
  pub mime_type : Text
  pub size_bytes : ℕ
  pub storage_key : Text
  pub content_url : Text

-- The ways to leave an attempt: a value, or an error with its code, if it has one.
pub data Attempt (A : Type 0) : Type 0 where
  ok : A → Attempt A
  threw : (code : Option Text) → Attempt A

abbrev pub is_intact : File → ObjectInfo → Bool
is_intact f o =
    o.size_bytes == f.size_bytes
    && (text_eq o.mime_type f.mime_type
        && (truthy (or_else f.etag []) && text_eq o.etag (or_else f.etag [])))

-- The object store: what it holds under a key, and the address that it signs.
pub record ObjectStore : Type 0 where
  pub inspect_object : Text → Option ObjectInfo
  pub create_download_url : Text → Text

unfoldable pub gateway_file : ObjectStore → Text → File → Attempt GatewayTaskFile
gateway_file store id f = elim (store.inspect_object f.storage_key) [
  | none ↦ threw none
  | some o ↦
      if is_intact f o
      then ok (record {
        file_id = id;
        filename = f.filename;
        mime_type = f.mime_type;
        size_bytes = f.size_bytes;
        storage_key = f.storage_key;
        content_url = store.create_download_url f.storage_key;
      })
      else threw (some (js "FILE_INTEGRITY_FAILED"))
]

abbrev cons_file :
    Attempt GatewayTaskFile → Attempt (List GatewayTaskFile) → Attempt (List GatewayTaskFile)
cons_file (threw code) fs = threw code
cons_file (ok f) (threw code) = threw code
cons_file (ok f) (ok fs) = ok (f ∷ fs)

-- The files of a task, for the rows that the table has; the first that fails is the error.
unfoldable pub gateway_files : ObjectStore → List Text → Dict File → Attempt (List GatewayTaskFile)
unfolding gateway_file
gateway_files store [] files = ok []
gateway_files store (id ∷ ids) files = elim (lookup id files) [
  | none ↦ gateway_files store ids files
  | some f ↦ cons_file (gateway_file store id f) (gateway_files store ids files)
]

abbrev pub count_attempt : Task → Task
count_attempt t = record t { attempt_count = t.attempt_count + 1 }

abbrev pub with_job : Text → Task → Task
with_job job t = record t { queue_job_id = some job }

-- The first part of `processQueuedTask`: a task that is not queued any more is left alone.
unfoldable pub begin_attempt : Text → Db → Db × Option Task
begin_attempt task db = elim (lookup task db.tasks) [
  | none ↦ (db, none)
  | some t ↦
      if is_queued t.status
      then (record db { tasks = adjust task count_attempt db.tasks }, some t)
      else (db, none)
]

-- What `requestGatewayExecution` gives: the identifiers of the run, or the code of an error.
pub data Execution : Type 0 where
  run_started : (run_id stream_url : Text) → Execution
  not_started : (code : Option Text) → Execution

abbrev pub absolute_url : (adapter_url url : Text) → Text
absolute_url adapter_url url = if starts_with url (js "http") then url else adapter_url ++ url

abbrev pub claimed_task : (run url : Text) → ℕ → Task → Task
claimed_task run url now t = record t {
  status = Status.running;
  run_id = some run;
  adapter_stream_url = some url;
  started_at = some now;
  error_code = none;
  error_message = none;
}

-- `updateMany({ where: { id, status: "queued" } })`, and whether it found the row.
unfoldable pub claim : Text → (run url : Text) → ℕ → Db → Db × Bool
claim task run url now db = elim (lookup task db.tasks) [
  | none ↦ (db, false)
  | some t ↦
      if is_queued t.status
      then (record db { tasks = adjust task (claimed_task run url now) db.tasks }, true)
      else (db, false)
]

-- `appSession.update({ data: { status: "running" } })`
unfoldable pub mark_running : Text → Db → Db
mark_running session db = record db {
  sessions = adjust session (λ s. record s { status = Status.running }) db.sessions;
}

-- What follows the claim.
unfoldable pub after_claim :
    {Q : Type 0} → CancelAnswer → (task session : Text) → Service Q → Bool → Service Q
unfolding mark_running start_adapter_relay request_gateway_cancellation
after_claim answer task session s true =
    start_adapter_relay task (record s { db = mark_running session s.db })
after_claim answer task session s false = (request_gateway_cancellation answer task s).0

-- What the world gives to one attempt. `store` answers for the files, `execution` for the request
-- to execute the task.
pub record Attempting : Type 0 where
  pub adapter_url : Text
  pub store : ObjectStore
  pub execution : Execution
  pub answer : CancelAnswer
  pub now : ℕ

unfoldable pub dispatch_task :
    {Q : Type 0} → Attempting → (task session : Text) → Service Q → Service Q × Attempt Bool
unfolding claim after_claim
dispatch_task a task session s =
    if not (truthy (trim a.adapter_url))
    then (s, threw (some (js "GATEWAY_UNAVAILABLE")))
    else elim a.execution [
      | not_started code ↦ (s, threw code)
      | run_started run url ↦
          let c : Db × Bool = claim task run (absolute_url (trim a.adapter_url) url) a.now s.db in
          (after_claim a.answer task session (record s { db = c.0 }) c.1, ok c.1)
    ]

-- `ok true`: the task runs. `ok false`: there was nothing to do any more.
unfoldable pub process_queued_task :
    {Q : Type 0} → Attempting → Text → Service Q → Service Q × Attempt Bool
unfolding begin_attempt gateway_files dispatch_task
process_queued_task a task s =
    let b : Db × Option Task = begin_attempt task s.db in
    elim b.1 [
      | none ↦ (s, ok false)
      | some t ↦ elim (gateway_files a.store t.file_ids b.0.files) [
        | threw code ↦ (record s { db = b.0 }, threw code)
        | ok files ↦ dispatch_task a task t.session_id (record s { db = b.0 })
      ]
    ]
