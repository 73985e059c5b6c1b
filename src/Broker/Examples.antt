-- ===== src/Broker/Examples.antt =====
-- Tests of the broker, and its theorems at concrete calls.
use claw_work.Prelude.{
  List, Text, [], any, arith, drop, filter, insert, js, lookup, ltb, refl, slice_last, text_eq, ◌∷◌,
  ◌≡◌,
}
use claw_work.Event.{Detail, TaskStreamEvent}
use Prim.Native.String.{String}
use claw_work.Broker.{
  add_listener, close, new_broker, publish, record_event, replay, settle, subscribe,
}
use claw_work.Broker.Replay.{Op, run, log_from, number, replay-run, replay-resume, apply, log_step}
use claw_work.Broker.Timers.{
  Call, TimersMatch, steps, called, fired, steps-TimersMatch, close-steps_pending,
}

abbrev t1 : Text
t1 = js "t1"

abbrev t2 : Text
t2 = js "t2"

abbrev event_of : Text → Detail → TaskStreamEvent
event_of t d = record {
  task_id = t;
  session_id = js "s";
  run_id = js "r";
  timestamp = js "";
  detail = d;
}

abbrev chunk : String → TaskStreamEvent
chunk s = event_of t1 (Detail.delta (js s))

abbrev done : TaskStreamEvent
done = event_of t1 Detail.completed

abbrev calls : List Op
calls =
    Op.published t1 (chunk "a")
    ∷ Op.subscribed t1 7
    ∷ Op.published t2 (event_of t2 Detail.accepted)
    ∷ Op.published t1 (chunk "b")
    ∷ Op.published t1 (chunk "c")
    ∷ []

keeps_last_two :
    replay t1 0 (run calls (new_broker 300 2))
    ≡ record { id = 2; event = chunk "b" } ∷ record { id = 3; event = chunk "c" } ∷ []
unfolding replay run new_broker apply publish record_event settle subscribe filter slice_last lookup
    insert text_eq any add_listener
keeps_last_two = refl

replay-run_example :
    replay t1 1 (run calls (new_broker 300 2))
    ≡ filter (λ item. ltb 1 item.id) (slice_last 2 (number 1 (log_from t1 calls [])))
replay-run_example = replay-run 300 2 calls t1 1

replay-resume_example :
    replay t1 1 (run calls (new_broker 300 2)) ≡ number 2 (drop 1 (log_from t1 calls []))
unfolding log_from log_step text_eq
replay-resume_example = replay-resume 300 2 calls t1 1 (omega arith)

abbrev life : List Call
life = called (Op.published t1 done) ∷ fired 0 ∷ called (Op.published t1 done) ∷ []

steps-TimersMatch_example : TimersMatch (steps life (new_broker 300 2))
steps-TimersMatch_example = steps-TimersMatch 300 2 life

close-steps_pending_example : (close (steps life (new_broker 300 2))).pending ≡ []
close-steps_pending_example = close-steps_pending 300 2 life
