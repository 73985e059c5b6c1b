-- ===== src/Tasks/Dispatch/Restart.antt =====
-- `onModuleInit`: what the service does with the tasks that it finds, and with a job that failed for
-- good.
use claw_work.Prelude.{
  Bool, Dict, take, is_some, false, ◌&&◌, List, Option, Text, [], if◌then◌else◌, js, leb, none,
  or_else, some, true, truthy, ℕ, ◌∷◌, ◌-◌,
}
use claw_work.TaskQueue.{Bull, QueueEnv, enqueue}
use claw_work.Tasks.{Db, Status, is_queued, Task, adjust, as_positive_integer}
use claw_work.Tasks.Persist.{World, fail_task}
use claw_work.Tasks.Dispatch.{
  CancelAnswer, Service, request_gateway_cancellation, start_adapter_relay, with_job,
}

-- The handler that `onModuleInit` gives to the queue for a job's final failure.
unfoldable pub on_final_failure :
    {Q : Type 0} → World → (timestamp task : Text) → Option Text → Text → Service Q → Service Q
unfolding fail_task
on_final_failure w timestamp task code message s = record s {
  db =
      (fail_task w task timestamp (or_else code (js "TASK_QUEUE_EXHAUSTED"))
        (if truthy message then message else js "task dispatch retries exhausted") s.db).0;
}

-- The step of `onModuleInit` for a queued task.
unfoldable pub requeue : {Q : Type 0} → Bull Q → QueueEnv → Text → Service Q → Service Q
requeue b env task s = record s {
  queue = enqueue b env task true s.queue;
  db = record s.db { tasks = adjust task (with_job task) s.db.tasks };
}

-- What recovery gets from the world for one running task.
pub record Recovering : Type 0 where
  pub world : World
  pub timestamp : Text
  pub answer : CancelAnswer

unfoldable pub task_timeout_ms : Option ℕ → ℕ
unfolding as_positive_integer
task_timeout_ms var = as_positive_integer var 120000

abbrev pub elapsed : (now : ℕ) → Option ℕ → ℕ
elapsed now none = 0
elapsed now (some at) = now - at

-- The step of `onModuleInit` for a running task with an address. The clock does not go backwards.
unfoldable pub resume :
    {Q : Type 0} → Recovering → (timeout : Option ℕ) → Text → Task → Service Q → Service Q
unfolding start_adapter_relay request_gateway_cancellation fail_task task_timeout_ms
resume {Q} r timeout task t s =
    if leb (task_timeout_ms timeout) (elapsed r.world.now t.started_at)
    then (let s' : Service Q = (request_gateway_cancellation r.answer task s).0 in
        record s' {
          db =
              (fail_task r.world task r.timestamp (js "TASK_TIMEOUT")
                (js "task execution timed out") s'.db).0;
        })
    else start_adapter_relay task s

-- The loop over the queued tasks.
unfoldable pub requeue_all : {Q : Type 0} → Bull Q → QueueEnv → List Text → Service Q → Service Q
unfolding requeue
requeue_all b env [] s = s
requeue_all b env (task ∷ tasks) s = requeue_all b env tasks (requeue b env task s)

-- The step of `onModuleInit` for a row of the second query, `if (task.adapterStreamUrl)`. The world
-- is a function of the task.
unfoldable pub resume_row :
    {Q : Type 0} → (Text → Recovering) → (timeout : Option ℕ) → Text → Task → Service Q → Service Q
unfolding resume
resume_row world timeout task t s =
    if truthy (or_else t.adapter_stream_url []) then resume (world task) timeout task t s else s

-- The loop over the running tasks that have an address, as the query found them.
unfoldable pub resume_all :
    {Q : Type 0}
    → (Text → Recovering)
    → (timeout : Option ℕ) → List (Text × Task)
    → Service Q
    → Service Q
unfolding resume_row
resume_all world timeout [] s = s
resume_all world timeout ((task, t) ∷ more) s =
    resume_all world timeout more (resume_row world timeout task t s)

-- The rows of `findMany({ where: { status: "queued" } })`.
unfoldable pub queued_ids : Dict Task → List Text
queued_ids [] = []
queued_ids ((task, t) ∷ rows) =
    if is_queued t.status then task ∷ queued_ids rows else queued_ids rows

-- The query with its bound; its order is that of the table.
unfoldable pub queued_tasks : Db → List Text
unfolding queued_ids
queued_tasks db = take 10000 (queued_ids db.tasks)

abbrev pub is_running : Status → Bool
is_running Status.running = true
is_running _ = false

-- `findMany({ where: { status: "running", adapterStreamUrl: { not: null } } })`
unfoldable pub running_rows : Dict Task → List (Text × Task)
running_rows [] = []
running_rows ((task, t) ∷ rows) =
    if is_running t.status && is_some t.adapter_stream_url
    then (task, t) ∷ running_rows rows
    else running_rows rows

-- `onModuleInit`: each query sees what the steps before it have left.
unfoldable pub on_module_init :
    {Q : Type 0} → Bull Q → QueueEnv → (Text → Recovering) → Option ℕ → Service Q → Service Q
unfolding requeue_all resume_all queued_tasks running_rows
on_module_init {Q} b env world timeout s =
    let s' : Service Q = requeue_all b env (queued_tasks s.db) s in
    resume_all world timeout (running_rows s'.db.tasks) s'
