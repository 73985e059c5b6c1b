-- ===== src/Tasks/Enqueue/Examples.antt =====
-- The theorems on new tasks at concrete inputs.
use claw_work.Prelude.{[], arith, false, filter, js, lookup, none, refl, some, total, ◌≡◌, ◌≤◌}
use claw_work.AbuseProtection.{
  get, quota_key, daily_limit, incr_expire, incremented, positive_env, release_daily_task,
  reserve_daily_task,
}
use claw_work.AbuseProtection.Day.{count_of}
use claw_work.Tasks.{Db, Env, concurrent_limit, as_positive_integer}
use claw_work.Tasks.Enqueue.{
  CreateTask, EnqueueOptions, Around, create_task, active_tasks, enqueue_task, distinct,
  found_files, is_usable, submit_task,
}
use claw_work.Tasks.Enqueue.Active.{create_task-active_tasks, enqueue_task-refused}

abbrev one_task_env : Env
one_task_env = record {
  max_upload_bytes_var = none;
  max_result_file_bytes_var = none;
  user_storage_bytes_var = none;
  user_concurrent_task_limit_var = some 1;
}

abbrev empty_db : Db
empty_db = record {
  sessions = [];
  tasks = [];
  events = [];
  next_event_id = 1;
  results = [];
  artifacts = [];
  files = [];
  objects = [];
  hub = [];
  pushes = [];
}

abbrev around : Around
around = record {
  limits = record {
    authenticated_per_minute = none;
    anonymous_per_minute = none;
    daily_tasks = none;
  };
  settings_tone = js "balanced";
  settings_length = js "standard";
  lower = λ s. s;
  new_session_id = js "s";
  new_task_id = js "t";
  job = some (js "t");
  job_error = [];
  timestamp = js "now";
  world = record {
    env = one_task_env;
    origins = [];
    outside = record {
      source = none;
      download = none;
      key_id = js "k";
      stored = false;
      deleted = false;
      row_id = js "a";
    };
    signed_url = none;
    now = 5;
    result_id = js "r";
  };
}

abbrev request : CreateTask
request = record {
  text = js "hello";
  file_ids = [];
  preferred_tone = none;
  preferred_length = none;
}

abbrev fresh_conversation : EnqueueOptions
fresh_conversation = record { session_id = none; parent_task_id = none }

create_task-active_tasks_example :
    active_tasks
      (js "u")
      (create_task one_task_env (js "u") request fresh_conversation around [] empty_db).0
    ≤ concurrent_limit one_task_env
create_task-active_tasks_example =
    create_task-active_tasks one_task_env (js "u") request fresh_conversation around [] (js "u")
      empty_db (unfold lookup in refl)
      (unfold active_tasks concurrent_limit as_positive_integer total in omega arith)

abbrev unknown_session : EnqueueOptions
unknown_session = record { session_id = some (js "x"); parent_task_id = none }

enqueue_task-refused_example :
    count_of (
      get 5
        (quota_key (js "u") 5)
        (enqueue_task one_task_env (js "u") request unknown_session around empty_db []).1)
    ≡ count_of (get 5 (quota_key (js "u") 5) [])
unfolding enqueue_task found_files distinct is_usable reserve_daily_task get lookup incremented
    incr_expire daily_limit positive_env as_positive_integer create_task submit_task
    release_daily_task active_tasks concurrent_limit total filter
enqueue_task-refused_example =
    enqueue_task-refused one_task_env (js "u") request unknown_session around empty_db [] refl
