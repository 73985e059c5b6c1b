-- ===== src/TaskStream.antt =====
-- apps/mobile-api/src/stream/task-stream.controller.ts: the stream of one client, which joins the
-- replay of the stored events and the live events of the hub. A handler returns the new state;
-- `sent` are the messages that the observable has emitted. When the observable completes or fails,
-- rxjs runs the teardown that the controller returned.
pub mod Order
pub mod Emit
pub mod Delivery
mod Examples
use claw_work.Event.{TaskStreamEvent, is_terminal_event}
use claw_work.Prelude.{ℕ, Bool, List, [], false, if◌then◌else◌, leb, not, true, ◌++◌, ◌||◌, ◌∷◌}

pub record PersistedTaskEvent : Type 0 where
  pub id : ℕ
  pub event : TaskStreamEvent

pub record Stream : Type 0 where
  pub closed : Bool
  pub replaying : Bool
  pub last_sent_id : ℕ
  pub live_queue : List PersistedTaskEvent
  pub sent : List PersistedTaskEvent
  pub completed : Bool
  pub errored : Bool
  pub subscribed : Bool

-- `stream`: the local variables, with the subscription to the hub made.
unfoldable pub open_stream : ℕ → Stream
open_stream after = record {
  closed = false;
  replaying = true;
  last_sent_id = after;
  live_queue = [];
  sent = [];
  completed = false;
  errored = false;
  subscribed = true;
}

-- The teardown: also what a client's disconnection runs.
unfoldable pub teardown : Stream → Stream
teardown s = record s { closed = true; subscribed = false }

-- `subscriber.next`, with `lastSentId`.
unfoldable pub next : PersistedTaskEvent → Stream → Stream
next p s = record s { last_sent_id = p.id; sent = s.sent ++ p ∷ [] }

unfoldable pub complete : Stream → Stream
unfolding teardown
complete s = teardown (record s { completed = true })

unfoldable pub emit : PersistedTaskEvent → Stream → Stream
unfolding next complete
emit p s =
    if s.closed || leb p.id s.last_sent_id
    then s
    else if is_terminal_event p.event
    then complete (next p s)
    else next p s

-- The callback of `subscribeTaskEvents`; the hub calls it only while it is subscribed.
unfoldable pub on_live : PersistedTaskEvent → Stream → Stream
on_live p s =
    if s.subscribed
    then if s.replaying then record s { live_queue = s.live_queue ++ p ∷ [] } else emit p s
    else s

-- `sort((left, right) => left.id - right.id)`, which is stable.
unfoldable pub insert_sorted :
    PersistedTaskEvent → List PersistedTaskEvent → List PersistedTaskEvent
insert_sorted p [] = p ∷ []
insert_sorted p (q ∷ qs) = if leb p.id q.id then p ∷ q ∷ qs else q ∷ insert_sorted p qs

unfoldable pub sort : List PersistedTaskEvent → List PersistedTaskEvent
unfolding insert_sorted
sort [] = []
sort (p ∷ ps) = insert_sorted p (sort ps)

-- The `for` loop, which breaks once the stream is closed.
unfoldable pub emit_all : List PersistedTaskEvent → Stream → Stream
unfolding emit
emit_all [] s = s
emit_all (p ∷ ps) s =
    let more = emit_all ps (emit p s) in if (emit p s).closed then emit p s else more

-- `listTaskEvents(…).then(…)`
unfoldable pub on_replay : List PersistedTaskEvent → Stream → Stream
unfolding emit_all sort
on_replay replay s =
    let s' = record (emit_all (sort (replay ++ s.live_queue)) s) { replaying = false } in
    if s'.closed then record s' { subscribed = false } else s'

-- `.catch(…)`
unfoldable pub on_failure : Stream → Stream
on_failure s = record s { closed = true; errored = s.errored || not s.closed; subscribed = false }

-- A sequence of live events.
unfoldable pub on_live_all : List PersistedTaskEvent → Stream → Stream
unfolding on_live
on_live_all [] s = s
on_live_all (p ∷ ps) s = on_live_all ps (on_live p s)
