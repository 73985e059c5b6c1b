-- ===== src/EventHub/Examples.antt =====
-- The theorems on the hub at concrete inputs.
use claw_work.Prelude.{[], js, true, ◌∷◌}
use claw_work.Event.{Detail}
use claw_work.TaskStream.{PersistedTaskEvent}
use claw_work.EventHub.{Hub}

abbrev hub : Hub
hub = record {
  listeners = (js "t", 1 ∷ 2 ∷ []) ∷ [];
  origin = js "here";
  enabled = true;
  published = [];
}

abbrev cancellation : PersistedTaskEvent
cancellation = record {
  id = 4;
  event = record {
    task_id = js "t";
    session_id = js "s";
    run_id = js "r";
    timestamp = js "now";
    detail = Detail.cancelled (js "stop");
  };
}
