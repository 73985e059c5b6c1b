-- ===== src/TaskStore/Examples.antt =====
-- The theorems on the store at concrete inputs.
use claw_work.Prelude.{List, Text, [], js, ◌++◌, ◌∷◌, ◌≡◌}
use claw_work.Event.{Detail, TaskStreamEvent}
use claw_work.TaskStore.{initial_state}
use claw_work.TaskStore.History.{start, stream_event, select_version}
use claw_work.TaskStore.Transcript.{apply_events-transcript, apply_events, pieces, transcript}
use claw_work.TaskStore.Versions.{perform_all-IsConsistent, IsConsistent, new_store, perform_all}

abbrev event_of : Text → Detail → TaskStreamEvent
event_of run d = record {
  task_id = js "t";
  session_id = js "s";
  run_id = run;
  timestamp = js "now";
  detail = d;
}

abbrev stream : List (Text × TaskStreamEvent)
stream =
    (js "1", event_of (js "r1") (Detail.delta (js "he")))
    ∷ (js "2", event_of (js "r1") (Detail.delta (js "y")))
    ∷ (js "3", event_of (js "r2") (Detail.delta (js "you")))
    ∷ (js "4", event_of (js "r2") Detail.completed)
    ∷ []

apply_events-transcript_example :
    transcript (apply_events stream initial_state).messages
    ≡ transcript initial_state.messages ++ pieces stream
apply_events-transcript_example = apply_events-transcript stream initial_state

perform_all-IsConsistent_example : IsConsistent (
    perform_all
      (start (js "1") (js "hello")
        ∷ stream_event (js "2") (event_of (js "r") Detail.completed)
        ∷ select_version 1
        ∷ [])
      new_store)
perform_all-IsConsistent_example = perform_all-IsConsistent (
    start (js "1") (js "hello")
    ∷ stream_event (js "2") (event_of (js "r") Detail.completed)
    ∷ select_version 1
    ∷ [])
