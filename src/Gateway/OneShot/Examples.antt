-- ===== src/Gateway/OneShot/Examples.antt =====
-- The theorems on a single run at concrete inputs.
use claw_work.Prelude.{true, ◌≤◌, js, none, some, ◌≡◌, []}
use claw_work.Gateway.{GatewayFrame, Payload}
use claw_work.Gateway.OneShot.{Run, Task, new_run, on_close, on_message}
use claw_work.Gateway.OneShot.Ends.{Step, Steps, Steps-Once, terminals}

abbrev task : Task
task = record { task_id = js "t"; session_id = js "s"; agent_id = js "main"; lower = λ s. s }

abbrev final_frame : Payload
final_frame = record {
  run_id = none;
  session_key = none;
  state = some (js "final");
  error_message = none;
  stream = none;
  text = [];
  artifact = none;
}

final_steps : Steps task (new_run task) (
    on_close task
      (js "now")
      1006
      (js "gone")
      (on_message task (js "now") (GatewayFrame.event (js "chat") final_frame) (new_run task)))
final_steps = Steps.next (Steps.next Steps.start (Step.received _ _)) (Step.closed _ _ _)

abbrev final_run : Run
final_run =
    on_close task (js "now") 1006 (js "gone")
      (on_message task (js "now") (GatewayFrame.event (js "chat") final_frame) (new_run task))

Steps-Once_example :
    (terminals final_run.events ≤ 1)
    × (final_run.listening ≡ true → terminals final_run.events ≡ 0)
    × (final_run.http_pending ≡ true → terminals final_run.events ≡ 0)
Steps-Once_example = Steps-Once final_steps
