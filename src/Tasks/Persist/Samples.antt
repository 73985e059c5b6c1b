-- ===== src/Tasks/Persist/Samples.antt =====
-- The rows that the examples share: a task whose first piece of text is stored and delivered.
use claw_work.Prelude.{
  Bool-cases, ap, arith, inl, inr, lookup, text_eq, ◌≡◌, Text, [], js, none, some, false, ◌∷◌,
}
use claw_work.Event.{Detail, TaskStreamEvent}
use claw_work.Tasks.{AppSession, Db, Status, Task, is_terminal_status}
use claw_work.Tasks.Persist.{World}
use claw_work.Tasks.Persist.Terminal.{TerminalOnce, one_if, terminals}

abbrev pub task_id : Text
task_id = js "t"

abbrev pub chat : AppSession
chat = record {
  user_id = js "u";
  title = js "hello";
  status = Status.running;
  current_task_id = some task_id;
}

abbrev pub task_in : Status → Task
task_in status = record {
  session_id = js "s";
  user_id = js "u";
  parent_task_id = none;
  task_type = js "document_summary";
  status = status;
  input_text = js "hello";
  preferred_tone = js "balanced";
  preferred_length = js "standard";
  file_ids = [];
  run_id = some (js "r");
  adapter_stream_url = none;
  error_code = none;
  error_message = none;
  queue_job_id = none;
  attempt_count = 1;
  started_at = some 1;
  completed_at = none;
}

abbrev pub event_of : Detail → TaskStreamEvent
event_of d = record {
  task_id = task_id;
  session_id = js "s";
  run_id = js "r";
  timestamp = js "now";
  detail = d;
}

abbrev pub world : World
world = record {
  env = record {
    max_upload_bytes_var = none;
    max_result_file_bytes_var = none;
    user_storage_bytes_var = none;
    user_concurrent_task_limit_var = none;
  };
  origins = [];
  outside = record {
    source = none;
    download = none;
    key_id = js "k";
    stored = false;
    deleted = false;
    row_id = js "a";
  };
  signed_url = none;
  now = 9;
  result_id = js "result";
}

-- A task whose first piece of text is stored and delivered.
abbrev pub running_db : Db
running_db = record {
  sessions = (js "s", chat) ∷ [];
  tasks = (task_id, task_in Status.running) ∷ [];
  events =
      record {
        id = 1;
        task_id = task_id;
        source_event_id = some (js "1");
        payload = event_of (Detail.delta (js "hi"));
      }
      ∷ [];
  next_event_id = 2;
  results = [];
  artifacts = [];
  files = [];
  objects = [];
  hub = (task_id, record { id = 1; event = event_of (Detail.delta (js "hi")) }) ∷ [];
  pushes = [];
}

pub running_db-TerminalOnce : TerminalOnce running_db
unfolding lookup terminals
running_db-TerminalOnce j u h = elim (Bool-cases (text_eq task_id j)) [
  | inl y ↦
      let same : task_in Status.running ≡ u = ground arith in
      rw y (ap (λ (v : Task). one_if (is_terminal_status v.status)) same)
  | inr n ↦ absurd (ground arith)
]
