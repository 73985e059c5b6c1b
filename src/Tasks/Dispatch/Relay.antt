-- ===== src/Tasks/Dispatch/Relay.antt =====
-- `relayAdapterEvents`: the loop that reads the adapter's stream and stores its events. The frames of
-- a chunk are read as in Sse.antt; here they are the events that `parseAdapterEvent` gives.
use claw_work.Prelude.{Bool, List, Option, Text, [], false, if◌then◌else◌, js, true, ◌∷◌, erase}
use claw_work.Event.{TaskStreamEvent, is_terminal_detail}
use claw_work.Tasks.{Db}
use claw_work.Tasks.Persist.{Outcome, World, fail_task, persist_task_event}
use claw_work.Tasks.Dispatch.{CancelAnswer, Service, request_gateway_cancellation}

-- An event of a chunk: what `parseAdapterEvent` gives, the world at the time of its storing,
-- and the message of the error if the storing throws.
pub record Arrival : Type 0 where
  pub world : World
  pub event : TaskStreamEvent
  pub source : Option Text
  pub failure : Text

-- The controller: not aborted, aborted by the timer, which sets `timedOut`, or by `cancelTask`.
pub data Signal : Type 0 where
  live timed_out cancelled : Signal

-- What `fetch` and `reader.read()` give, one after the other, and the controller's state when the
-- loop is done with each. `rejected` is what throws: also a response that is not ok.
pub data Reads : Type 0 where
  done : Signal → Reads
  rejected : Signal → (message : Text) → Reads
  chunk : List Arrival → Signal → Reads → Reads

pub data LoopEnd : Type 0 where
  terminal_seen : LoopEnd
  ended : Signal → LoopEnd
  threw : Signal → (message : Text) → LoopEnd

pub data ChunkEnd : Type 0 where
  went_on returned : ChunkEnd
  failed : (message : Text) → ChunkEnd

abbrev pub chunk_step : Arrival → Db × Outcome → Db × ChunkEnd → Db × ChunkEnd
chunk_step a (db, Outcome.thrown) more = (db, failed a.failure)
chunk_step a (db, _) more = if is_terminal_detail a.event.detail then (db, returned) else more

-- The inner loop, over the events of a chunk.
unfoldable pub persist_all : List Arrival → Db → Db × ChunkEnd
persist_all [] db = (db, went_on)
persist_all (a ∷ more) db =
    chunk_step a (persist_task_event a.world a.event a.source db)
      (persist_all more (persist_task_event a.world a.event a.source db).0)

abbrev pub is_live : Signal → Bool
is_live live = true
is_live _ = false

abbrev pub after_chunk : Signal → Db × ChunkEnd → Db × LoopEnd → Db × LoopEnd
after_chunk s (db, failed message) next = (db, threw s message)
after_chunk s (db, returned) next = (db, terminal_seen)
after_chunk s (db, went_on) next = if is_live s then next else (db, ended s)

-- `while (!controller.signal.aborted)`
unfoldable pub relay_loop : Reads → Db → Db × LoopEnd
unfolding persist_all
relay_loop (done s) db = (db, ended s)
relay_loop (rejected s message) db = (db, threw s message)
relay_loop (chunk arrivals s next) db =
    after_chunk s (persist_all arrivals db) (relay_loop next (persist_all arrivals db).0)

-- The world when the loop has ended.
pub record Ending : Type 0 where
  pub world : World
  pub timestamp : Text
  pub answer : CancelAnswer

unfoldable pub fail_relay :
    {Q : Type 0} → Ending → Text → (code message : Text) → Service Q → Service Q
unfolding fail_task
fail_relay e task code message s = record s {
  db = (fail_task e.world task e.timestamp code message s.db).0;
}

-- What follows the loop, and the `catch`.
unfoldable pub end_relay : {Q : Type 0} → Ending → Text → LoopEnd → Service Q → Service Q
unfolding fail_relay request_gateway_cancellation
end_relay e task terminal_seen s = s
end_relay e task (ended Signal.live) s =
    fail_relay e task (js "GATEWAY_STREAM_CLOSED") (js "gateway stream closed early") s
end_relay e task (ended _) s = s
end_relay e task (threw Signal.live message) s =
    fail_relay e task (js "GATEWAY_STREAM_ERROR") message s
end_relay e task (threw Signal.timed_out message) s =
    fail_relay e task (js "TASK_TIMEOUT") (js "task execution timed out")
      (request_gateway_cancellation e.answer task s).0
end_relay e task (threw Signal.cancelled message) s = s

-- The `finally`: one controller at most stands for a task, so the entry is this relay's.
unfoldable pub remove_relay : {Q : Type 0} → Text → Service Q → Service Q
remove_relay task s = record s { relays = erase task s.relays }

unfoldable pub relay_adapter_events : {Q : Type 0} → Ending → Text → Reads → Service Q → Service Q
unfolding relay_loop end_relay remove_relay
relay_adapter_events e task reads s =
    let r : Db × LoopEnd = relay_loop reads s.db in
    remove_relay task (end_relay e task r.1 (record s { db = r.0 }))
