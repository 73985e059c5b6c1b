-- ===== src/Gateway/OneShot.antt =====
-- `executeGatewayTask` of apps/openclaw-adapter/src/gateway-client.ts: one run on a connection of its
-- own, with the fallback over HTTP. The local variables are a record and each callback a function on
-- it; `listening` says that the socket's listeners are there, `http_pending` that the fallback's
-- request is under way. `events` are the calls of `onEvent`, and `promise` is how the promise is
-- settled. The frames are JSON.
pub mod Ends
pub mod Lost
mod Examples
use claw_work.Prelude.{
  Bool, List, Option, Text, [], false, if◌then◌else◌, is_some, js, none, not, or_else, some,
  text_eq, trim, true, truthy, ℕ, ◌&&◌, ◌++◌, ◌==◌, ◌||◌, ◌∷◌,
}
use claw_work.Event.{Detail, TaskStreamEvent, artifact}
use claw_work.Gateway.{
  Delta, GatewayError, GatewayFrame, Payload, combine_gateway_errors, map_gateway_error,
  normalize_assistant_delta, resolve_gateway_session_key, error, event, success,
}

-- What stays the same: the input, the agent and `toLowerCase`.
pub record Task : Type 0 where
  pub task_id : Text
  pub session_id : Text
  pub agent_id : Text
  pub lower : Text → Text

pub data Outcome : Type 0 where
  resolved : (run session_key : Text) → Outcome
  rejected : GatewayError → Outcome

pub data Sent : Type 0 where
  connect chat : Sent
  abort : (run : Text) → Sent

pub record Run : Type 0 where
  pub listening : Bool
  pub connect_timer : Bool
  pub session_key : Text
  pub resolved_run_id : Text
  pub last_assistant_snapshot : Text
  pub promise : Option Outcome
  pub fallback_in_flight : Bool
  pub http_pending : Bool
  pub ws_error : GatewayError
  pub events : List TaskStreamEvent
  pub sent : List Sent

-- `toGatewayExecutionError`
unfoldable pub to_gateway_execution_error : (code message : Text) → GatewayError
unfolding map_gateway_error
to_gateway_execution_error code message = record {
  code = (map_gateway_error code).code;
  message = message;
}

unfoldable pub new_run : Task → Run
unfolding resolve_gateway_session_key
new_run t = record {
  listening = true;
  connect_timer = true;
  session_key = resolve_gateway_session_key t.lower t.session_id t.agent_id (js "main");
  resolved_run_id = [];
  last_assistant_snapshot = [];
  promise = none;
  fallback_in_flight = false;
  http_pending = false;
  ws_error = record { code = []; message = [] };
  events = [];
  sent = [];
}

abbrev pub event_of : Task → (now run : Text) → Detail → TaskStreamEvent
event_of t now run d = record {
  task_id = t.task_id;
  session_id = t.session_id;
  run_id = run;
  timestamp = now;
  detail = d;
}

unfoldable pub emit : Task → (now run : Text) → Detail → Run → Run
emit t now run d s = record s { events = s.events ++ event_of t now run d ∷ [] }

abbrev pub run_or_task : Task → Run → Text
run_or_task t s = if truthy s.resolved_run_id then s.resolved_run_id else t.task_id

unfoldable pub cleanup : Run → Run
cleanup s = record s { listening = false; connect_timer = false }

unfoldable pub send : Sent → Run → Run
send m s = record s { sent = s.sent ++ m ∷ [] }

unfoldable pub resolve_accepted : (run : Text) → Run → Run
resolve_accepted run s =
    if is_some s.promise
    then s
    else record s { promise = some (resolved run s.session_key); connect_timer = false }

unfoldable pub reject_execution : GatewayError → Run → Run
unfolding cleanup
reject_execution e s =
    if is_some s.promise then s else cleanup (record s { promise = some (rejected e) })

unfoldable pub fail_after_accepted : Task → (now : Text) → GatewayError → Run → Run
unfolding cleanup emit
fail_after_accepted t now e s =
    cleanup (emit t now (run_or_task t s) (Detail.failed e.code e.message) s)

unfoldable pub fail_before_accepted : Task → (now : Text) → GatewayError → Run → Run
unfolding fail_after_accepted cleanup
fail_before_accepted t now e s =
    if is_some s.promise
    then fail_after_accepted t now e s
    else if s.fallback_in_flight
    then s
    else cleanup (record s { fallback_in_flight = true; http_pending = true; ws_error = e })

-- The answer of the fallback: an identifier and the text of the reply, or an error.
unfoldable pub on_http_reply : Task → (now run reply : Text) → Run → Run
unfolding emit
on_http_reply t now run reply s =
    let s' : Run =
      emit t now run Detail.completed
        (emit t now run (Detail.delta reply) (emit t now run Detail.accepted s)) in
    if is_some s.promise
    then record s' { http_pending = false }
    else record s' { http_pending = false; promise = some (resolved run s.session_key) }

unfoldable pub on_http_error : GatewayError → Run → Run
unfolding reject_execution combine_gateway_errors
on_http_error e s =
    reject_execution (combine_gateway_errors s.ws_error e) (record s { http_pending = false })

-- The responses.
unfoldable pub on_success : Task → (now id : Text) → (run key : Option Text) → Run → Run
unfolding send emit resolve_accepted resolve_gateway_session_key
on_success t now id run key s =
    if text_eq id (js "connect-1")
    then send chat (record s {
      session_key =
          resolve_gateway_session_key t.lower t.session_id t.agent_id (or_else key (js "main"));
    })
    else if text_eq id t.task_id
    then (let run_id : Text =
          if truthy (trim (or_else run [])) then trim (or_else run []) else t.task_id in
        resolve_accepted run_id
          (emit t now run_id Detail.accepted (record s { resolved_run_id = run_id })))
    else s

unfoldable pub on_refusal : Task → (now id : Text) → (code message : Option Text) → Run → Run
unfolding fail_before_accepted reject_execution fail_after_accepted to_gateway_execution_error
on_refusal t now id code message s =
    if text_eq id (js "connect-1")
    then fail_before_accepted t now
        (to_gateway_execution_error (or_else code (js "UNKNOWN"))
          (or_else message (js "gateway connect rejected")))
        s
    else if text_eq id t.task_id
    then (let e : GatewayError =
          to_gateway_execution_error (or_else code (js "UNKNOWN"))
            (or_else message (js "gateway task rejected")) in
        if is_some s.promise then fail_after_accepted t now e s else reject_execution e s)
    else s

unfoldable pub on_snapshot : Task → (now run text : Text) → Run → Run
unfolding emit normalize_assistant_delta
on_snapshot t now run text s =
    let d : Delta = normalize_assistant_delta text s.last_assistant_snapshot in
    let s' : Run = record s { last_assistant_snapshot = d.next_snapshot } in
    if truthy d.next_delta then emit t now run (Detail.delta d.next_delta) s' else s'

unfoldable pub on_agent : Task → (now : Text) → Payload → Run → Run
unfolding emit on_snapshot
on_agent t now p s =
    let run : Text = or_else p.run_id s.resolved_run_id in
    elim p.artifact [
      | some a ↦ emit t now run (Detail.result_created (artifact a)) s
      | none ↦
          if text_eq (or_else p.stream []) (js "assistant")
          then on_snapshot t now run p.text s
          else emit t now run (Detail.stage_changed (or_else p.stream (js "agent"))) s
    ]

unfoldable pub announce : Task → (now run : Text) → Payload → Run → Run
unfolding emit
announce t now run p s = elim p.artifact [
  | some a ↦ emit t now run (Detail.result_created (artifact a)) s
  | none ↦ s
]

-- The branches on the state of a chat frame.
unfoldable pub on_chat_state : Task → (now run : Text) → Payload → Run → Run
unfolding fail_after_accepted emit cleanup to_gateway_execution_error
on_chat_state t now run p s =
    let state : Text = or_else p.state (js "unknown") in
    if text_eq state (js "error")
    then fail_after_accepted t now
        (to_gateway_execution_error (js "GATEWAY_ERROR")
          (or_else p.error_message (js "gateway task failed")))
        s
    else if text_eq state (js "aborted")
    then fail_after_accepted t now
        (to_gateway_execution_error (js "ABORTED") (js "gateway task was aborted")) s
    else if text_eq state (js "final")
    then cleanup (emit t now run Detail.completed s)
    else s

unfoldable pub on_chat : Task → (now : Text) → Payload → Run → Run
unfolding announce on_chat_state
on_chat t now p s =
    on_chat_state t now (or_else p.run_id s.resolved_run_id) p
      (announce t now (or_else p.run_id s.resolved_run_id) p s)

unfoldable pub on_frame : Task → (now : Text) → GatewayFrame → Run → Run
unfolding send on_success on_refusal on_agent on_chat
on_frame t now (GatewayFrame.success id run key) s = on_success t now id run key s
on_frame t now (GatewayFrame.error id code message) s = on_refusal t now id code message s
on_frame t now (GatewayFrame.event name p) s =
    if text_eq name (js "connect.challenge")
    then send connect s
    else if text_eq name (js "agent")
    then on_agent t now p s
    else if text_eq name (js "chat")
    then on_chat t now p s
    else s

-- The listeners of the socket, as long as they are there.
unfoldable pub on_message : Task → (now : Text) → GatewayFrame → Run → Run
unfolding on_frame
on_message t now frame s = if s.listening then on_frame t now frame s else s

unfoldable pub on_error : Task → (now : Text) → Option Text → Run → Run
unfolding fail_before_accepted fail_after_accepted to_gateway_execution_error
on_error t now message s =
    if s.listening
    then fail_before_accepted t now
        (to_gateway_execution_error (js "UNAVAILABLE")
          (or_else message (js "gateway websocket request failed")))
        s
    else s

unfoldable pub on_close : Task → (now : Text) → (code : ℕ) → (message : Text) → Run → Run
unfolding fail_before_accepted fail_after_accepted to_gateway_execution_error
on_close t now code message s =
    if s.listening
    then (if is_some s.promise
        then (if code == 1000
            then s
            else fail_after_accepted t now (to_gateway_execution_error (js "UNAVAILABLE") message)
                s)
        else fail_before_accepted t now (to_gateway_execution_error (js "UNAVAILABLE") message) s)
    else s

unfoldable pub on_connect_timeout : Task → (now : Text) → Run → Run
unfolding fail_before_accepted to_gateway_execution_error
on_connect_timeout t now s =
    if s.connect_timer
    then fail_before_accepted t now
        (to_gateway_execution_error (js "AGENT_TIMEOUT") (js "gateway connect timed out"))
        (record s { connect_timer = false })
    else s

-- The control that `onControl` hands out; `is_open` is the state of the socket.
unfoldable pub cancel : Task → (now : Text) → (is_open : Bool) → Run → Run
unfolding cleanup emit send
cancel t now is_open s = cleanup (
    emit t now (run_or_task t s) (Detail.cancelled (js "task cancelled by user"))
      (if is_open then send (abort s.resolved_run_id) s else s))
