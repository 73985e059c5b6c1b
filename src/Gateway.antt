-- ===== src/Gateway.antt =====
-- What the two gateway clients of apps/openclaw-adapter/src share: the frames of
-- packages/openclaw-protocol, the errors (error-map.ts), the keys of sessions, and the text of
-- replies and of their growing snapshots (gateway-client.ts).
pub mod Snapshots
pub mod Persistent
pub mod Input
pub mod OneShot
use claw_work.Prelude.{
  Bool, List, Option, Text, [], drop, filter, if◌then◌else◌, js, length, none, some, starts_with,
  text_eq, trim, truthy, true, false, not, or_else, is_some, ◌&&◌, ◌||◌, ◌++◌, ◌∷◌,
}
use claw_work.Event.{Artifact, Items, Json}
use claw_work.Sse.{lf}
use claw_work.TaskStore.Extract.{as_text, field_of}

-- The payload of an event. `text` is `String(payload.data?.text ?? "")`, and `artifact` is what
-- `extractArtifactResult` finds in the data and the message.
pub record Payload : Type 0 where
  pub run_id : Option Text
  pub session_key : Option Text
  pub state : Option Text
  pub error_message : Option Text
  pub stream : Option Text
  pub text : Text
  pub artifact : Option Artifact

pub data GatewayFrame : Type 0 where
  success : (id : Text) (run_id main_session_key : Option Text) → GatewayFrame
  error : (id : Text) (code message : Option Text) → GatewayFrame
  event : (name : Text) → Payload → GatewayFrame

pub record GatewayError : Type 0 where
  pub code : Text
  pub message : Text

pub record Mapped : Type 0 where
  pub code : Text
  pub retryable : Bool

unfoldable pub map_gateway_error : Text → Mapped
map_gateway_error code =
    if text_eq code (js "AGENT_TIMEOUT")
    then record { code = js "GATEWAY_TIMEOUT"; retryable = true }
    else if text_eq code (js "UNAVAILABLE")
    then record { code = js "GATEWAY_UNAVAILABLE"; retryable = true }
    else if text_eq code (js "NOT_PAIRED") || text_eq code (js "DEVICE_IDENTITY_REQUIRED")
    then record { code = js "GATEWAY_PAIRING_REQUIRED"; retryable = false }
    else if text_eq code (js "INVALID_REQUEST")
    then record { code = js "GATEWAY_INVALID_REQUEST"; retryable = false }
    else if text_eq code (js "AUTH_REQUIRED") || text_eq code (js "UNAUTHORIZED")
    then record { code = js "GATEWAY_AUTH_REQUIRED"; retryable = false }
    else if text_eq code (js "HTTP_CHAT_COMPLETIONS_DISABLED")
    then record { code = js "GATEWAY_HTTP_ENDPOINT_DISABLED"; retryable = false }
    else if text_eq code (js "EMPTY_RESPONSE")
    then record { code = js "GATEWAY_EMPTY_RESPONSE"; retryable = false }
    else if text_eq code (js "ABORTED")
    then record { code = js "GATEWAY_ABORTED"; retryable = true }
    else record { code = js "GATEWAY_ERROR"; retryable = false }

-- `sessionKeyFor`, and `resolveGatewaySessionKey`; `lower` is `toLowerCase`.
unfoldable pub session_key_for : (lower : Text → Text) → (session agent : Text) → Text
session_key_for lower session agent =
    js "agent:" ++ (agent ++ (js ":session:" ++ lower (trim session)))

unfoldable pub resolve_gateway_session_key :
    (lower : Text → Text) → (session agent fallback : Text) → Text
resolve_gateway_session_key lower session agent fallback =
    if truthy (lower (trim session))
    then js "agent:" ++ (agent ++ (js ":session:" ++ lower (trim session)))
    else fallback

pub record Delta : Type 0 where
  pub next_delta : Text
  pub next_snapshot : Text

unfoldable pub normalize_assistant_delta : (next previous : Text) → Delta
normalize_assistant_delta next previous =
    if not (truthy next)
    then record { next_delta = []; next_snapshot = next }
    else if truthy previous && starts_with next previous
    then record { next_delta = drop (length previous) next; next_snapshot = next }
    else record { next_delta = next; next_snapshot = next }

-- The text of one part of a reply.
unfoldable pub part_text : Json → Text
unfolding field_of
part_text part = elim (as_text (field_of (js "type") part)) [
  | none ↦ or_else (as_text (field_of (js "input_text") part)) []
  | some kind ↦
      if text_eq kind (js "text") && is_some (as_text (field_of (js "text") part))
      then or_else (as_text (field_of (js "text") part)) []
      else or_else (as_text (field_of (js "input_text") part)) []
]

unfoldable pub part_texts : Items → List Text
unfolding part_text
part_texts Items.nil = []
part_texts (Items.item j more) = part_text j ∷ part_texts more

-- `join("\n")`
unfoldable pub join_lines : List Text → Text
join_lines [] = []
join_lines (s ∷ []) = s
join_lines (s ∷ t ∷ ss) = let rest = join_lines (t ∷ ss) in s ++ (lf ∷ rest)

unfoldable pub extract_content : Json → Text
unfolding part_texts join_lines
extract_content (Json.str s) = trim s
extract_content (Json.arr parts) = trim (join_lines (filter truthy (part_texts parts)))
extract_content _ = []

-- What a request reports of a gateway's and its fallback's failures: `combineGatewayErrors`.
unfoldable pub combine_gateway_errors : (ws http : GatewayError) → GatewayError
combine_gateway_errors ws http = record {
  code = http.code;
  message =
      if text_eq http.message ws.message
      then http.message
      else ws.message ++ (js " (HTTP fallback: " ++ (http.message ++ js ")"));
}
