-- ===== src/Gateway/Persistent/Examples.antt =====
-- The theorems on the gateway client at concrete inputs.
use claw_work.Prelude.{
  [], any, false, is_some, js, lookup, none, not, refl, some, starts_with, text_eq, true, ◌&&◌,
  ◌++◌, ◌∷◌, ◌≡◌,
}
use claw_work.Event.{}
use claw_work.Gateway.{GatewayError, GatewayFrame}
use claw_work.Gateway.Snapshots.{deltas, deltas-joined, joined}
use claw_work.Gateway.Persistent.{Client, execute_persistent}
use claw_work.Gateway.Persistent.Connection.{on_close, handle_message}
use claw_work.Gateway.Persistent.Kept.{Kept, told}
use claw_work.Gateway.Persistent.Runs.{Step, Steps, Steps-Kept}

abbrev new_client : Client
new_client = record {
  socket_open = true;
  connecting = false;
  connected = true;
  closed = false;
  connect_timer = false;
  reconnect_timer = false;
  heartbeat = true;
  last_pong = true;
  objects = [];
  active = [];
  task_by_run = [];
  calls = [];
}

new_client-Kept : Kept new_client
unfolding told lookup
new_client-Kept = record { fate = λ t. refl }

abbrev lost : GatewayError
lost = record { code = js "GATEWAY_UNAVAILABLE"; message = js "gateway closed (1006)" }

-- A run is sent and accepted, and the connection breaks.
lost_steps : Steps new_client (
    on_close (js "now") lost (
      handle_message
        (js "now")
        (some (GatewayFrame.success (js "t") (some (js "r")) none))
        (execute_persistent (js "t") (js "s") (js "agent:main:session:s") new_client).0))
unfolding lookup
lost_steps =
    Steps.next
      (Steps.next
        (Steps.next Steps.start (Step.executed (js "t") (js "s") (js "agent:main:session:s") refl))
        (Step.received (js "now") (GatewayFrame.success (js "t") (some (js "r")) none) tt))
      (Step.disconnected (js "now") lost)

abbrev lost_client : Client
lost_client = on_close (js "now") lost (
    handle_message (js "now") (some (GatewayFrame.success (js "t") (some (js "r")) none))
      (execute_persistent (js "t") (js "s") (js "agent:main:session:s") new_client).0)

Steps-Kept_example : told (js "t") lost_client.calls ≡ (
    is_some (lookup (js "t") lost_client.objects)
    && not (any (λ k. text_eq k (js "t")) lost_client.active))
Steps-Kept_example = Steps-Kept lost_steps new_client-Kept (js "t")

deltas-joined_example :
    [] ++ joined (deltas [] (js "he" ∷ js "hello" ∷ js "hello, you" ∷ [])) ≡ js "hello, you"
unfolding starts_with
deltas-joined_example =
    deltas-joined [] (js "he" ∷ js "hello" ∷ js "hello, you" ∷ []) (refl, (refl, (refl, tt)))
