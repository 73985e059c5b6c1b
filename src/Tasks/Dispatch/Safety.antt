-- ===== src/Tasks/Dispatch/Safety.antt =====
-- Every write of the service to the table of tasks, in any order, with transactions that overlap:
-- what is final stays final.
use claw_work.Prelude.{
  List, Option, Text, lookup, none, some, text_eq, ◌≡◌, ℕ, All, false, ◌++◌, ◌∷◌,
}
use claw_work.Event.{TaskStreamEvent}
use claw_work.Tasks.{Db, Env, Task, adjust}
use claw_work.Tasks.Persist.{Prepared, World, prepare_task_event, read_task, write_event}
use claw_work.Tasks.Enqueue.{Around, CreateTask, EnqueueOptions, create_task}
use claw_work.Tasks.Dispatch.{claim, count_attempt, mark_running, with_job}
use claw_work.Tasks.Dispatch.EndedRows.{Has}

-- A transaction of `persistTaskEvent` that has read the row of its task and has not written yet.
pub record Open : Type 0 where
  pub source : Option Text
  pub prepared : Prepared
  pub row : Task

abbrev pub task_of : Open → Text
task_of o = o.prepared.stored.task_id

-- The tables and the transactions that are open.
pub record Shared : Type 0 where
  pub db : Db
  pub open_ones : List Open

-- The steps. A call of `persistTaskEvent`, from wherever it comes, is `prepared`, then `began`, then
-- `written` or `rolled_back`, with any other steps between them. `counted` and `queued_as` are
-- updates without a condition, whose call may have read the row long before.
pub data Move (s : Shared) : Shared → Type 0 where
  prepared :
      (w : World) (e : TaskStreamEvent)
      → Move s
          (record s { db = (prepare_task_event w.env w.origins w.outside w.signed_url e s.db).0 })
  began :
      (o : Open)
      → read_task (task_of o) o.source s.db ≡ some o.row
      → Move s (record s { open_ones = o ∷ s.open_ones })
  written :
      (before after : List Open) (o : Open) (now : ℕ) (result : Text)
      → s.open_ones ≡ before ++ o ∷ after
      → Move s (record {
        db = (write_event now result o.source o.prepared (task_of o) o.row s.db).0;
        open_ones = before ++ after;
      })
  rolled_back :
      (before after : List Open) (o : Open)
      → s.open_ones ≡ before ++ o ∷ after
      → Move s (record s { open_ones = before ++ after })
  counted :
      (task : Text)
      → Move s (record s { db = record s.db { tasks = adjust task count_attempt s.db.tasks } })
  queued_as :
      (task job : Text)
      → Move s (record s { db = record s.db { tasks = adjust task (with_job job) s.db.tasks } })
  claimed :
      (task run url : Text) (now : ℕ) → Move s (record s { db = (claim task run url now s.db).0 })
  running : (session : Text) → Move s (record s { db = mark_running session s.db })
  created :
      (env : Env) (user : Text) (input : CreateTask) (options : EnqueueOptions) (a : Around)
      (files : List Text)
      → lookup a.new_task_id s.db.tasks ≡ none
      → Move s (record s { db = (create_task env user input options a files s.db).0 })

pub data Moves : Shared → Shared → Type 0 where
  start : {s : Shared} → Moves s s
  next : {s s' s'' : Shared} → Moves s s' → Move s' s'' → Moves s s''

-- No open transaction has read the row of the task.
abbrev pub NoneOpen : Text → Shared → Type 0
NoneOpen k s = All (λ (o : Open). text_eq (task_of o) k ≡ false) s.open_ones

-- What every step keeps.
abbrev Settled : Text → Task → Shared → Type 0
Settled k u s = Has k u s.db × NoneOpen k s
