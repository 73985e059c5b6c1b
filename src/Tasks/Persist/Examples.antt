-- ===== src/Tasks/Persist/Examples.antt =====
-- The theorems on the log at concrete inputs.
use claw_work.Prelude.{[], any, js, lookup, refl, some, text_eq, ◌∷◌, ◌≡◌, ◌≢◌, List, Option, Text}
use claw_work.Event.{Detail, TaskStreamEvent}
use claw_work.Tasks.{Db, Status}
use claw_work.Tasks.Persist.{
  persist_task_event, Outcome, is_seen, is_taken, prepare_detail, prepare_task_event, store_event,
  store_for, store_prepared, World, read_task, write_event,
}
use claw_work.Tasks.Persist.Terminal.{
  persist-TerminalOnce, SameLog, TerminalOnce, persist-repeat, persist-terminal_task, persist_calls,
}
use claw_work.Tasks.Persist.Results.{persist-Numbered, Numbered, up_to, versions}
use claw_work.Tasks.Persist.Delivery.{
  Delivered, hub_of, last_text, log_of, persist-completed_text, text_of,
}
use claw_work.Tasks.Persist.Samples.{
  running_db-TerminalOnce, event_of, running_db, task_id, task_in, world,
}

persist-TerminalOnce_example :
    TerminalOnce (persist_task_event world (event_of Detail.completed) (some (js "2")) running_db).0
persist-TerminalOnce_example =
    persist-TerminalOnce world (event_of Detail.completed) (some (js "2")) running_db
      running_db-TerminalOnce

abbrev ended_db : Db
ended_db = record running_db { tasks = (task_id, task_in Status.cancelled) ∷ [] }

persist-terminal_task_example :
    SameLog ended_db
      (persist_task_event world (event_of Detail.completed) (some (js "2")) ended_db).0
    × ((persist_task_event world (event_of Detail.completed) (some (js "2")) ended_db).1
        ≢ Outcome.stored)
unfolding lookup text_eq
persist-terminal_task_example =
    persist-terminal_task world (event_of Detail.completed) (some (js "2")) ended_db
      (task_in Status.cancelled) refl refl

abbrev between : List (World × TaskStreamEvent × Option Text)
between = (world, event_of (Detail.delta (js "a")), some (js "3")) ∷ []

abbrev accepted_db : Db
accepted_db = (persist_task_event world (event_of Detail.accepted) (some (js "2")) running_db).0

persist-repeat_example :
    persist_task_event world
      (event_of Detail.completed)
      (some (js "2"))
      (persist_calls between accepted_db)
    ≡ (persist_calls between accepted_db, Outcome.skipped)
unfolding persist_task_event is_seen is_taken prepare_task_event prepare_detail store_prepared
    store_event store_for read_task write_event lookup text_eq any
persist-repeat_example =
    persist-repeat world world (event_of Detail.accepted) (event_of Detail.completed) (js "2")
      between running_db refl refl refl

persist-Numbered_example :
    Numbered
      (persist_task_event world (event_of Detail.completed) (some (js "2")) running_db).0.results
unfolding versions up_to
persist-Numbered_example =
    persist-Numbered world (event_of Detail.completed) (some (js "2")) running_db
      (λ session. (0, refl))

running_db-Delivered : Delivered running_db
unfolding hub_of log_of
running_db-Delivered task = refl

persist-completed_text_example :
    last_text (persist_task_event world (event_of Detail.completed) (some (js "2")) running_db).0
    ≡ some (
        text_of (
          hub_of task_id
            (persist_task_event world
              (event_of Detail.completed)
              (some (js "2"))
              running_db).0.hub))
unfolding persist_task_event is_seen is_taken prepare_task_event prepare_detail store_prepared
    store_event store_for read_task write_event lookup text_eq any
persist-completed_text_example =
    persist-completed_text world (event_of Detail.completed) (some (js "2")) running_db
      running_db-Delivered refl refl
