-- ===== src/Tasks/Dispatch/Stop.antt =====
-- `cancelTask`, in the two halves between which other calls may come.
use claw_work.Prelude.{
  Option, Text, if◌then◌else◌, js, lookup, none, not, or_else, some, text_eq, true, ℕ, Bool,
}
use claw_work.Event.{Detail, TaskStreamEvent}
use claw_work.TaskQueue.{Bull, cancel}
use claw_work.Tasks.{Db, Status, Task, adjust, is_terminal_status}
use claw_work.Tasks.Storage.{Reply, reply, refuse}
use claw_work.Tasks.Persist.{Outcome, World, persist_task_event}
use claw_work.Tasks.Dispatch.{CancelAnswer, Service, request_gateway_cancellation}

-- The first half of the rest of `cancelTask`, by the status that it read: the job leaves the queue,
-- or the adapter is asked.
unfoldable pub stop_execution :
    {Q : Type 0} → Bull Q → CancelAnswer → Text → Status → Service Q → Service Q × Option ℕ
unfolding request_gateway_cancellation cancel
stop_execution b answer task Status.queued s =
    (record s { queue = (cancel b task s.queue).0 }, none)
stop_execution b answer task Status.running s = request_gateway_cancellation answer task s
stop_execution b answer task _ s = (s, none)

abbrev pub cancelled_event : (task timestamp : Text) → Task → TaskStreamEvent
cancelled_event task timestamp t = record {
  task_id = task;
  session_id = t.session_id;
  run_id = or_else t.run_id task;
  timestamp = timestamp;
  detail = Detail.cancelled (js "task cancelled by user");
}

abbrev reply_of : Outcome → Reply Status
reply_of Outcome.thrown = refuse 500
reply_of _ = reply Status.cancelled

-- `this.activeRelays.get(task.id)?.abort()`
abbrev pub abort_relay : {Q : Type 0} → Text → Service Q → Service Q
abort_relay task s = record s { relays = adjust task (λ x. true) s.relays }

-- The call of `persistTaskEvent` under `cancelTask`, and its answer.
unfoldable pub store_cancellation :
    {Q : Type 0} → World → (task timestamp : Text) → Task → Service Q → Service Q × Reply Status
store_cancellation w task timestamp t s =
    let r : Db × Outcome = persist_task_event w (cancelled_event task timestamp t) none s.db in
    (record s { db = r.0 }, reply_of r.1)

-- The second half: the relay is stopped and the event stored. `works` says that the database does
-- not fail; if it fails, the call throws and the transaction leaves nothing.
unfoldable pub finish_cancel :
    {Q : Type 0}
    → World
    → (works : Bool) → (task timestamp : Text) → Task
    → Service Q
    → Service Q × Reply Status
unfolding store_cancellation
finish_cancel w works task timestamp t s =
    if works
    then store_cancellation w task timestamp t (abort_relay task s)
    else (abort_relay task s, refuse 500)

unfoldable pub after_stop :
    {Q : Type 0}
    → World
    → (works : Bool) → (task timestamp : Text) → Task
    → Service Q × Option ℕ
    → Service Q × Reply Status
unfolding finish_cancel
after_stop w works task timestamp t (s, some code) = (s, refuse code)
after_stop w works task timestamp t (s, none) = finish_cancel w works task timestamp t s

unfoldable pub cancel_task :
    {Q : Type 0}
    → Bull Q
    → World
    → (works : Bool) → CancelAnswer
    → (timestamp user task : Text) → Service Q
    → Service Q × Reply Status
unfolding stop_execution after_stop
cancel_task b w works answer timestamp user task s = elim (lookup task s.db.tasks) [
  | none ↦ (s, refuse 404)
  | some t ↦
      if not (text_eq t.user_id user)
      then (s, refuse 404)
      else if is_terminal_status t.status
      then (s, reply t.status)
      else after_stop w works task timestamp t (stop_execution b answer task t.status s)
]
