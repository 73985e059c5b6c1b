-- ===== src/Gateway/Persistent/Connection.antt =====
-- The connection of the persistent client: `ensureConnected`, `handleMessage`, `handleDisconnect`,
-- `failAll`, `close` and the heartbeat. A frame that is not JSON is `none`.
use claw_work.Prelude.{
  List, Option, Text, [], false, if◌then◌else◌, js, lookup, none, not, or_else, some, text_eq, true,
  ◌&&◌, ◌||◌, ◌∷◌,
}
use claw_work.Gateway.{GatewayError, GatewayFrame}
use claw_work.Gateway.Persistent.{
  Call, Client, call, fail_one, on_error, on_gateway_event, on_success,
}

-- A new socket is not open yet.
unfoldable pub ensure_connected : Client → Client
ensure_connected s =
    if (s.connected && s.socket_open) || s.connecting
    then s
    else record s { connecting = true; socket_open = false; connect_timer = true }

unfoldable pub reject_current_connection : GatewayError → Client → Client
unfolding call
reject_current_connection e s =
    if s.connecting
    then call (Call.connection_rejected e) (record s { connect_timer = false; connecting = false })
    else record s { connect_timer = false; connecting = false }

-- The loop of `failAll`.
unfoldable pub fail_each : (now : Text) → GatewayError → List Text → Client → Client
unfolding fail_one
fail_each now e [] s = s
fail_each now e (task ∷ tasks) s = elim (lookup task s.objects) [
  | none ↦ fail_each now e tasks s
  | some a ↦ fail_each now e tasks (fail_one now task a e s)
]

unfoldable pub fail_all : (now : Text) → GatewayError → Client → Client
unfolding fail_each
fail_all now e s = record (fail_each now e s.active s) { active = []; task_by_run = [] }

unfoldable pub handle_disconnect : (now : Text) → GatewayError → Client → Client
unfolding reject_current_connection fail_all
handle_disconnect now e s =
    let s' : Client =
      reject_current_connection e (record s { connected = false; heartbeat = false }) in
    let s'' : Client = if s.connected then fail_all now e s' else s' in
    if s''.closed || s''.reconnect_timer then s'' else record s'' { reconnect_timer = true }

unfoldable pub terminate : Client → Client
unfolding call
terminate s = call Call.terminated s

abbrev connect_request_id : Text
connect_request_id = js "persistent-connect"

-- `startHeartbeat`, and the tick of its interval.
unfoldable pub start_heartbeat : Client → Client
start_heartbeat s = record s { heartbeat = true; last_pong = true }

unfoldable pub on_heartbeat : Client → Client
unfolding call terminate
on_heartbeat s =
    if not s.socket_open
    then s
    else if not s.last_pong
    then terminate s
    else call Call.pinged (record s { last_pong = false })

unfoldable pub handle_frame : (now : Text) → GatewayFrame → Client → Client
unfolding call reject_current_connection start_heartbeat on_success on_error on_gateway_event
handle_frame now (GatewayFrame.success id run key) s =
    if text_eq id connect_request_id
    then start_heartbeat (record s { connected = true; connect_timer = false; connecting = false })
    else on_success now id run s
handle_frame now (GatewayFrame.error id code message) s =
    if text_eq id connect_request_id
    then reject_current_connection
        (record {
          code = or_else code (js "GATEWAY_AUTH_ERROR");
          message = or_else message (js "gateway rejected connect");
        })
        s
    else on_error id code message s
handle_frame now (GatewayFrame.event name p) s =
    if text_eq name (js "connect.challenge")
    then call Call.sent_connect s
    else on_gateway_event now name p s

abbrev pub protocol_error : GatewayError
protocol_error = record { code = js "GATEWAY_PROTOCOL_ERROR"; message = js "invalid gateway frame" }

abbrev pub connect_timeout_error : GatewayError
connect_timeout_error = record {
  code = js "GATEWAY_TIMEOUT";
  message = js "gateway connect timed out";
}

unfoldable pub handle_message : (now : Text) → Option GatewayFrame → Client → Client
unfolding handle_frame handle_disconnect terminate
handle_message now none s = terminate (handle_disconnect now protocol_error s)
handle_message now (some frame) s = handle_frame now frame s

-- The timer of the connection, and that of the reconnection.
unfoldable pub on_connect_timeout : Client → Client
unfolding reject_current_connection terminate
on_connect_timeout s = terminate (reject_current_connection connect_timeout_error s)

unfoldable pub on_reconnect : Client → Client
unfolding ensure_connected
on_reconnect s = ensure_connected (record s { reconnect_timer = false })

-- The socket's "open", "pong" and "close".
unfoldable pub on_open : Client → Client
on_open s = record s { socket_open = true }

unfoldable pub on_pong : Client → Client
on_pong s = record s { last_pong = true }

unfoldable pub on_close : (now : Text) → GatewayError → Client → Client
unfolding handle_disconnect
on_close now e s = handle_disconnect now e (record s { socket_open = false })

-- The reference to the socket is dropped last.
unfoldable pub close : (now : Text) → Client → Client
unfolding fail_all
close now s =
    let s' : Client =
      fail_all now
        (record { code = js "GATEWAY_SHUTDOWN"; message = js "gateway client is shutting down" })
        (record s {
          closed = true;
          connected = false;
          connect_timer = false;
          heartbeat = false;
          reconnect_timer = false;
        }) in
    record s' { socket_open = false }
