-- ===== src/Tasks/Enqueue.antt =====
-- `enqueueTask`: the checks on the files, the daily quota, the transaction with the limit on active
-- tasks, and the hand-over to the queue. `createTask`, `createFollowUp` and `regenerate` call it.
-- The lock on the user makes the transaction one step. A request reads the clock once.
pub mod Active
mod Examples
use claw_work.Prelude.{
  Bool, List, Option, Text, [], false, filter, if◌then◌else◌, insert, js, leb, length, lookup, none,
  not, or_else, some, take, text_eq, total, trim, true, truthy, ℕ, ◌&&◌, ◌==◌, ◌∷◌,
}
use mathlib.Core.Option
use claw_work.AbuseProtection.{Limits, Redis, reserve_daily_task, release_daily_task}
use claw_work.TaskRouter.{route_by_rules, type_name}
use claw_work.Tasks.{AppSession, Db, Env, File, FileStatus, Status, Task, adjust, concurrent_limit}
use claw_work.Tasks.Storage.{Reply, reply, refuse}
use claw_work.Tasks.Persist.{World, fail_task}

-- `CreateTaskDto`
pub record CreateTask : Type 0 where
  pub text : Text
  pub file_ids : List Text
  pub preferred_tone : Option Text
  pub preferred_length : Option Text

pub record EnqueueOptions : Type 0 where
  pub session_id : Option Text
  pub parent_task_id : Option Text

pub record CreateTaskResult : Type 0 where
  pub task_id : Text
  pub session_id : Text
  pub initial_status : Status
  pub error_message : Option Text

-- What the world gives: the user's settings, `toLowerCase`, new identifiers, the answer of the
-- queue (a job, or the message of its error), and what an event needs.
pub record Around : Type 0 where
  pub limits : Limits
  pub settings_tone : Text
  pub settings_length : Text
  pub lower : Text → Text
  pub new_session_id : Text
  pub new_task_id : Text
  pub job : Option Text
  pub job_error : Text
  pub timestamp : Text
  pub world : World

-- `new Set(fileIds)`
unfoldable pub distinct : List Text → List Text
distinct [] = []
distinct (id ∷ ids) = id ∷ filter (λ j. not (text_eq id j)) (distinct ids)

abbrev is_usable_file : Text → File → Bool
is_usable_file user f = elim f.status [ FileStatus.uploaded ↦ text_eq f.user_id user | _ ↦ false ]

unfoldable pub is_usable : Text → Db → Text → Bool
is_usable user db id = elim (lookup id db.files) [ none ↦ false | some f ↦ is_usable_file user f ]

-- The identifiers of the files that `findMany` gives.
unfoldable pub found_files : Text → List Text → Db → List Text
unfolding distinct is_usable
found_files user ids db = filter (is_usable user db) (distinct ids)

abbrev pub is_active : Status → Bool
is_active Status.queued = true
is_active Status.running = true
is_active _ = false

abbrev pub active_weight : Text → Task → ℕ
active_weight user t = if text_eq t.user_id user && is_active t.status then 1 else 0

-- `activeTasks`
unfoldable pub active_tasks : Text → Db → ℕ
active_tasks user db = total (active_weight user) db.tasks

unfoldable pub new_task : Text → CreateTask → EnqueueOptions → Around → List Text → Text → Task
new_task user input options a files session = record {
  session_id = session;
  user_id = user;
  parent_task_id = options.parent_task_id;
  task_type = type_name (route_by_rules a.lower input.text input.file_ids).task_type;
  status = Status.queued;
  input_text = trim input.text;
  preferred_tone = or_else input.preferred_tone a.settings_tone;
  preferred_length = or_else input.preferred_length a.settings_length;
  file_ids = files;
  run_id = none;
  adapter_stream_url = none;
  error_code = none;
  error_message = none;
  queue_job_id = none;
  attempt_count = 0;
  started_at = none;
  completed_at = none;
}

unfoldable pub new_session : Text → CreateTask → AppSession
new_session user input = record {
  user_id = user;
  title = take 40 (trim input.text);
  status = Status.queued;
  current_task_id = none;
}

abbrev pub owned_session : Text → Option AppSession → Bool
owned_session user none = false
owned_session user (some s) = text_eq s.user_id user

-- The end of the transaction, in the session that it found or made.
unfoldable pub insert_task :
    Text → CreateTask → EnqueueOptions → Around → List Text → Text → Db → Db
unfolding new_task
insert_task user input options a files session db = record db {
  tasks = insert a.new_task_id (new_task user input options a files session) db.tasks;
  sessions =
      adjust session
        (λ s. record s { current_task_id = some a.new_task_id; status = Status.queued })
        db.sessions;
}

-- The transaction: the session of the new task, or a refusal.
unfoldable pub create_task :
    Env → Text → CreateTask → EnqueueOptions → Around → List Text → Db → Db × Reply Text
unfolding insert_task new_session
create_task env user input options a files db =
    if leb (concurrent_limit env) (active_tasks user db)
    then (db, refuse 429)
    else if truthy (or_else options.session_id [])
    then (if owned_session user (lookup (or_else options.session_id []) db.sessions)
        then (
          insert_task user input options a files (or_else options.session_id []) db,
          reply (or_else options.session_id []),
        )
        else (db, refuse 404))
    else (
      insert_task user input options a files a.new_session_id
          (record db { sessions = insert a.new_session_id (new_session user input) db.sessions }),
      reply a.new_session_id,
    )

-- What follows the transaction; a refusal gives the reservation back.
unfoldable pub submit_task :
    Text → Around → Redis → Db × Reply Text → Db × Redis × Reply CreateTaskResult
submit_task user a redis (db, refuse code) =
    (db, release_daily_task user a.world.now redis, refuse code)
submit_task user a redis (db, reply session) = elim a.job [
  | some job ↦ (
    record db { tasks = adjust a.new_task_id (λ t. record t { queue_job_id = some job }) db.tasks },
    redis,
    reply (record {
      task_id = a.new_task_id;
      session_id = session;
      initial_status = Status.queued;
      error_message = none;
    }),
  )
  | none ↦ (
    (fail_task a.world a.new_task_id a.timestamp (js "TASK_QUEUE_UNAVAILABLE") a.job_error db).0,
    redis,
    reply (record {
      task_id = a.new_task_id;
      session_id = session;
      initial_status = Status.failed;
      error_message = some a.job_error;
    }),
  )
]

unfoldable pub enqueue_task :
    Env
    → Text
    → CreateTask
    → EnqueueOptions
    → Around
    → Db
    → Redis
    → Db × Redis × Reply CreateTaskResult
unfolding submit_task create_task found_files
enqueue_task env user input options a db redis =
    if not (length (found_files user input.file_ids db) == length (distinct input.file_ids))
    then (db, redis, refuse 400)
    else (let reserved : Redis × Bool = reserve_daily_task a.limits user a.world.now redis in
        if reserved.1
        then submit_task user a reserved.0
            (create_task env user input options a (found_files user input.file_ids db) db)
        else (db, reserved.0, refuse 429))

-- `createFollowUp`
unfoldable pub create_follow_up :
    Env → Text → Text → CreateTask → Around → Db → Redis → Db × Redis × Reply CreateTaskResult
unfolding enqueue_task
create_follow_up env user task input a db redis = elim (lookup task db.tasks) [
  | none ↦ (db, redis, refuse 404)
  | some t ↦
      if text_eq t.user_id user
      then enqueue_task env user input
          (record { session_id = some t.session_id; parent_task_id = some task }) a db redis
      else (db, redis, refuse 404)
]

-- `regenerate`
unfoldable pub regenerate :
    Env → Text → Text → Around → Db → Redis → Db × Redis × Reply CreateTaskResult
unfolding enqueue_task
regenerate env user task a db redis = elim (lookup task db.tasks) [
  | none ↦ (db, redis, refuse 404)
  | some t ↦
      if text_eq t.user_id user
      then enqueue_task env user
          (record {
            text = t.input_text;
            file_ids = t.file_ids;
            preferred_tone = some t.preferred_tone;
            preferred_length = some t.preferred_length;
          })
          (record { session_id = some t.session_id; parent_task_id = some task }) a db redis
      else (db, redis, refuse 404)
]
