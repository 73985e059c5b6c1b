-- ===== src/Tasks/Dispatch/Examples.antt =====
-- The theorems on the life cycle at concrete inputs.
use claw_work.Prelude.{
  arith, [], Dict, any, false, js, lookup, none, refl, some, text_eq, true, ◌∷◌, ◌≡◌,
}
use claw_work.Event.{Detail}
use claw_work.TaskQueue.{JobState, is_pending}
use claw_work.TaskQueue.Dictionary.{dict_bull, dict_bull-BullLaws}
use claw_work.Tasks.{Db, Status, Task}
use claw_work.Tasks.Persist.{
  Outcome, Prepared, is_seen, is_taken, persist_task_event, prepare_detail, prepare_task_event,
  store_event, store_for, store_prepared, read_task, write_event,
}
use claw_work.Tasks.Persist.Samples.{
  running_db-TerminalOnce, event_of, running_db, task_id, task_in, world,
}
use claw_work.Tasks.Persist.Rows.{Ended}
use claw_work.Tasks.Dispatch.{CancelAnswer, Service}
use claw_work.Tasks.Dispatch.Restart.{queued_ids, on_module_init, Recovering}
use claw_work.Tasks.Dispatch.Relay.{
  Arrival, ChunkEnd, Ending, Reads, Signal, persist_all, relay_adapter_events,
}
use claw_work.Tasks.Dispatch.Ends.{relay_adapter_events-Ended}
use claw_work.Tasks.Dispatch.Timer.{Live, timed_out_while_storing}
use claw_work.Tasks.Dispatch.Overlap.{Revived, cancel_before_write, cancel_before_write-Revived}
use claw_work.Tasks.Dispatch.Recovery.{on_module_init-is_pending, TakenUp, on_module_init-TakenUp}
use claw_work.Tasks.Dispatch.Safety.{Shared}

abbrev running_service : Service (Dict JobState)
running_service = record {
  db = running_db;
  relays = (task_id, false) ∷ [];
  queue = (task_id, JobState.active) ∷ [];
  cancellations = [];
}

abbrev ending : Ending
ending = record { world = world; timestamp = js "later"; answer = CancelAnswer.answered true }

abbrev piece : Arrival
piece = record {
  world = world;
  event = event_of (Detail.delta (js "there"));
  source = some (js "2");
  failure = [];
}

abbrev pieces_then_silence : Reads
pieces_then_silence =
    Reads.chunk (piece ∷ []) Signal.live (Reads.rejected Signal.timed_out (js "aborted"))

relay_adapter_events-Ended_example :
    Ended task_id (relay_adapter_events ending task_id pieces_then_silence running_service).db
    × (lookup task_id
          (relay_adapter_events ending task_id pieces_then_silence running_service).relays
        ≡ none)
unfolding lookup text_eq is_taken any
relay_adapter_events-Ended_example =
    relay_adapter_events-Ended ending task_id pieces_then_silence running_service
      (task_in Status.running, refl) (((refl, refl), tt), (tt, tt)) (refl, (λ e. cc))

piece-went_on : (persist_all (piece ∷ []) running_db).1 ≡ ChunkEnd.went_on
unfolding persist_all persist_task_event is_seen is_taken prepare_task_event prepare_detail
    store_prepared store_event store_for read_task write_event lookup text_eq any
piece-went_on = refl

timed_out_while_storing_example :
    Live task_id
      (relay_adapter_events ending task_id
        (Reads.chunk (piece ∷ []) Signal.timed_out (Reads.done Signal.live))
        running_service).db
    × (lookup task_id
          (relay_adapter_events ending task_id
            (Reads.chunk (piece ∷ []) Signal.timed_out (Reads.done Signal.live))
            running_service).relays
        ≡ none)
    × ((relay_adapter_events ending task_id
          (Reads.chunk (piece ∷ []) Signal.timed_out (Reads.done Signal.live))
          running_service).cancellations
        ≡ [])
unfolding lookup text_eq
timed_out_while_storing_example =
    timed_out_while_storing ending task_id (piece ∷ []) (Reads.done Signal.live) running_service
      (task_in Status.running, refl, refl) (refl, tt) piece-went_on

abbrev queued_service : Service (Dict JobState)
queued_service = record {
  db = record running_db { tasks = (task_id, task_in Status.queued) ∷ [] };
  relays = [];
  queue = (task_id, JobState.failed) ∷ [];
  cancellations = [];
}

abbrev recovering : Recovering
recovering = record { world = world; timestamp = js "later"; answer = CancelAnswer.unreachable }

-- A queued task and a running one, as a restart finds them.
abbrev resumed_task : Task
resumed_task = record (task_in Status.running) { adapter_stream_url = some (js "http://a/stream") }

abbrev found_service : Service (Dict JobState)
found_service = record running_service {
  db = record running_db { tasks = (js "q", task_in Status.queued) ∷ (task_id, resumed_task) ∷ [] };
  relays = [];
}

abbrev restarted : Service (Dict JobState)
restarted =
    on_module_init dict_bull (record { task_queue_attempts = none; is_test = false })
      (λ task. recovering) none found_service

on_module_init-is_pending_example : is_pending (dict_bull.state_of (js "q") restarted.queue) ≡ true
unfolding lookup text_eq queued_ids
on_module_init-is_pending_example =
    on_module_init-is_pending dict_bull dict_bull-BullLaws
      (record { task_queue_attempts = none; is_test = false }) (λ task. recovering) none
      found_service (js "q") (task_in Status.queued) (omega arith) refl refl

on_module_init-TakenUp_example : TakenUp recovering none task_id resumed_task restarted
unfolding lookup text_eq
on_module_init-TakenUp_example =
    on_module_init-TakenUp dict_bull (record { task_queue_attempts = none; is_test = false })
      (λ task. recovering) none found_service task_id resumed_task refl refl refl

abbrev cancelled_db : Db
cancelled_db = record running_db { tasks = (task_id, task_in Status.cancelled) ∷ [] }

abbrev settled : Shared
settled = record { db = cancelled_db; open_ones = [] }

-- The adapter's "task.accepted", as it is stored.
abbrev acceptance : Prepared
acceptance = record { stored = event_of Detail.accepted; published = event_of Detail.accepted }

cancel_before_write-Revived_example :
    Revived task_id
      (cancel_before_write world 5
        (js "result")
        (some (js "7"))
        acceptance
        task_id
        (js "later")
        (task_in Status.running)
        running_db).0
    × ((cancel_before_write world 5
          (js "result")
          (some (js "7"))
          acceptance
          task_id
          (js "later")
          (task_in Status.running)
          running_db).1
        ≡ Outcome.stored)
unfolding lookup text_eq read_task is_seen is_taken any
cancel_before_write-Revived_example =
    cancel_before_write-Revived world 5 (js "result") (some (js "7")) acceptance task_id
      (js "later") (task_in Status.running) running_db running_db-TerminalOnce refl refl refl
