-- ===== src/Gateway/Persistent.antt =====
-- apps/openclaw-adapter/src/persistent-gateway-client.ts: one connection for all runs. An `ActiveTask`
-- object is named by the identifier of its task, which `execute` gets once: `objects` is the heap,
-- `active` the keys of `activeByTask` in order, `task_by_run` the map of that name. A handler returns
-- the new state; `calls` is what it has called, in order: the handler of events, the two ends of the
-- promise, and the socket.

pub mod Connection
pub mod Kept
pub mod Handlers
pub mod Runs
mod Examples
use claw_work.Prelude.{
  Bool, Dict, List, Option, Text, [], any, find, erase, false, filter, if◌then◌else◌, insert,
  is_some, js, lookup, none, not, or_else, some, text_eq, trim, true, truthy, ◌&&◌, ◌++◌, ◌||◌, ◌∷◌,
}
use claw_work.Event.{Detail, TaskStreamEvent, artifact}
use claw_work.Gateway.{Delta, GatewayError, Payload, normalize_assistant_delta, error}

-- The fields of an object that change, with those of its `input` that are read.
pub record ActiveTask : Type 0 where
  pub session_id : Text
  pub session_key : Text
  pub run_id : Text
  pub last_assistant_snapshot : Text
  pub settled : Bool

pub data Call : Type 0 where
  on_event : TaskStreamEvent → Call
  resolved : (task run : Text) → Call
  rejected : (task : Text) → GatewayError → Call
  sent_chat : (task : Text) → Call
  sent_abort : (task : Text) → Call
  sent_connect : Call
  connection_rejected : GatewayError → Call
  terminated : Call
  pinged : Call

-- `connecting` stands for `connectionPromise`, and a timer for whether it is set.
pub record Client : Type 0 where
  pub socket_open : Bool
  pub connecting : Bool
  pub connected : Bool
  pub closed : Bool
  pub connect_timer : Bool
  pub reconnect_timer : Bool
  pub heartbeat : Bool
  pub last_pong : Bool
  pub objects : Dict ActiveTask
  pub active : List Text
  pub task_by_run : Dict Text
  pub calls : List Call

unfoldable pub call : Call → Client → Client
call c s = record s { calls = s.calls ++ c ∷ [] }

unfoldable pub put : Text → ActiveTask → Client → Client
put task a s = record s { objects = insert task a s.objects }

-- `event`, at the time `now`.
unfoldable pub event : (now task : Text) → ActiveTask → Detail → TaskStreamEvent
event now task a d = record {
  task_id = task;
  session_id = a.session_id;
  run_id = if truthy a.run_id then a.run_id else task;
  timestamp = now;
  detail = d;
}

unfoldable pub emit : (now task : Text) → ActiveTask → Detail → Client → Client
unfolding call event
emit now task a d s = call (Call.on_event (event now task a d)) s

unfoldable pub emit_failure : (now task : Text) → ActiveTask → GatewayError → Client → Client
unfolding emit
emit_failure now task a e s = emit now task a (Detail.failed e.code e.message) s

unfoldable pub remove_task : Text → ActiveTask → Client → Client
remove_task task a s = record s {
  active = filter (λ t. not (text_eq t task)) s.active;
  task_by_run = if truthy a.run_id then erase a.run_id s.task_by_run else s.task_by_run;
}

-- `settled = true` and `reject`. A promise that is settled ignores the call.
unfoldable pub settle_rejected : Text → ActiveTask → GatewayError → Client → Client
unfolding call put
settle_rejected task a e s =
    if a.settled then s else call (Call.rejected task e) (put task (record a { settled = true }) s)

-- An object fails: its promise, or its stream if it is settled.
unfoldable pub fail_one : (now task : Text) → ActiveTask → GatewayError → Client → Client
unfolding settle_rejected emit_failure
fail_one now task a e s =
    if a.settled then emit_failure now task a e s else settle_rejected task a e s

-- The object of an active task.
abbrev pub is_active : Text → Client → Bool
is_active task s = any (λ t. text_eq t task) s.active

abbrev pub active_object : Text → Client → Option ActiveTask
active_object task s = if is_active task s then lookup task s.objects else none

-- The end of `executePersistent`, on an open socket.
unfoldable pub execute_persistent :
    (task session_id session_key : Text) → Client → Client × Option GatewayError
unfolding call put
execute_persistent task session_id session_key s =
    if s.socket_open
    then (
      call (Call.sent_chat task) (
          put task
            (record {
              session_id = session_id;
              session_key = session_key;
              run_id = [];
              last_assistant_snapshot = [];
              settled = false;
            })
            (record s { active = if is_active task s then s.active else s.active ++ task ∷ [] })),
      none,
    )
    else (
      s,
      some (record {
        code = js "GATEWAY_UNAVAILABLE";
        message = js "gateway connection is unavailable";
      }),
    )

-- The timer of a task.
unfoldable pub on_timeout : (now task : Text) → Client → Client
unfolding fail_one remove_task
on_timeout now task s = elim (active_object task s) [
  | none ↦ s
  | some a ↦ remove_task task a (
      fail_one now task a
        (record { code = js "TASK_TIMEOUT"; message = js "gateway task timed out" }) s)
]

-- What `cancel` gives.
pub record Cancellation : Type 0 where
  pub task_id : Text
  pub session_id : Text
  pub run_id : Text

abbrev pub cancelled_error : GatewayError
cancelled_error = record { code = js "TASK_CANCELLED"; message = js "task cancelled by user" }

-- `cancel` of an active task on an open socket.
unfoldable pub cancel_open : (now task : Text) → ActiveTask → Client → Client
unfolding emit call settle_rejected remove_task
cancel_open now task a s = remove_task task a (
    settle_rejected task a cancelled_error (
      emit now task a (Detail.cancelled (js "task cancelled by user"))
        (call (Call.sent_abort task) s)))

-- `cancel`, with `none` for the error when the socket is not open, and `some none` for a task that is
-- not active, which is the fallback's.
unfoldable pub cancel : (now task : Text) → Client → Client × Option (Option Cancellation)
unfolding cancel_open
cancel now task s = elim (active_object task s) [
  | none ↦ (s, some none)
  | some a ↦
      if s.socket_open
      then (
        cancel_open now task a s,
        some (
            some (record {
              task_id = task;
              session_id = a.session_id;
              run_id = if truthy a.run_id then a.run_id else task;
            })),
      )
      else (s, none)
]

-- A response to a request of an active task.
unfoldable pub on_success : (now id : Text) → Option Text → Client → Client
unfolding put call emit
on_success now id run s = elim (active_object id s) [
  | none ↦ s
  | some a ↦
      let run_id : Text = if truthy (trim (or_else run [])) then trim (or_else run []) else id in
      let a' : ActiveTask = record a { run_id = run_id; settled = true } in
      let s' : Client =
        emit now id a' Detail.accepted
          (record s { task_by_run = insert run_id id s.task_by_run }) in
      call (Call.resolved id run_id) (put id a' s')
]

unfoldable pub on_error : (id : Text) (code message : Option Text) → Client → Client
unfolding settle_rejected remove_task
on_error id code message s = elim (active_object id s) [
  | none ↦ s
  | some a ↦ remove_task id a (
      settle_rejected id a
        (record {
          code = or_else code (js "GATEWAY_ERROR");
          message = or_else message (js "gateway task rejected");
        })
        s)
]

abbrev pub has_key : Text → Client → Text → Bool
has_key key s task = elim (lookup task s.objects) [
  | none ↦ false
  | some a ↦ text_eq a.session_key key
]

abbrev only_one : List Text → Option Text
only_one (t ∷ []) = some t
only_one _ = none

-- `findActive`
unfoldable pub find_active : (run key : Option Text) → Client → Option Text
find_active run key s =
    if truthy (or_else run []) && is_some (lookup (or_else run []) s.task_by_run)
    then lookup (or_else run []) s.task_by_run
    else if truthy (or_else key [])
    then find (has_key (or_else key []) s) s.active
    else only_one s.active

-- The text of an assistant's frame.
unfoldable pub on_snapshot : (now task : Text) → ActiveTask → Text → Client → Client
unfolding put emit normalize_assistant_delta
on_snapshot now task a text s =
    let d : Delta = normalize_assistant_delta text a.last_assistant_snapshot in
    let a' : ActiveTask = record a { last_assistant_snapshot = d.next_snapshot } in
    if truthy d.next_delta
    then emit now task a' (Detail.delta d.next_delta) (put task a' s)
    else put task a' s

-- The artifact of a frame is announced before anything else.
unfoldable pub announce_artifact : (now task : Text) → ActiveTask → Payload → Client → Client
unfolding emit
announce_artifact now task a p s = elim p.artifact [
  | none ↦ s
  | some x ↦ emit now task a (Detail.result_created (artifact x)) s
]

unfoldable pub on_agent : (now task : Text) → ActiveTask → Payload → Client → Client
unfolding on_snapshot emit
on_agent now task a p s =
    if text_eq (or_else p.stream []) (js "assistant")
    then on_snapshot now task a p.text s
    else if is_some p.artifact
    then s
    else emit now task a (Detail.stage_changed (or_else p.stream (js "agent"))) s

unfoldable pub on_chat : (now task : Text) → ActiveTask → Payload → Client → Client
unfolding emit_failure remove_task emit
on_chat now task a p s =
    let state : Text = or_else p.state [] in
    if text_eq state (js "error")
    then remove_task task a (
        emit_failure now task a
          (record {
            code = js "GATEWAY_ERROR";
            message = or_else p.error_message (js "gateway task failed");
          })
          s)
    else if text_eq state (js "aborted")
    then remove_task task a (
        emit_failure now task a
          (record { code = js "GATEWAY_ABORTED"; message = js "gateway task was aborted" }) s)
    else if text_eq state (js "final")
    then remove_task task a (emit now task a Detail.completed s)
    else s

-- An event of the gateway, for the object that `findActive` gives.
unfoldable pub on_object : (now name task : Text) → Payload → ActiveTask → Client → Client
unfolding announce_artifact on_agent on_chat
on_object now name task p a s =
    if text_eq name (js "agent")
    then on_agent now task a p (announce_artifact now task a p s)
    else on_chat now task a p (announce_artifact now task a p s)

unfoldable pub on_gateway_event : (now name : Text) → Payload → Client → Client
unfolding on_object find_active
on_gateway_event now name p s =
    if text_eq name (js "agent") || text_eq name (js "chat")
    then elim (find_active p.run_id p.session_key s) [
      | none ↦ s
      | some task ↦ elim (lookup task s.objects) [
        | none ↦ s
        | some a ↦ on_object now name task p a s
      ]
    ]
    else s
