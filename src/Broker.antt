-- ===== src/Broker.antt =====
-- apps/openclaw-adapter/src/event-broker.ts: the adapter's in-memory history of each task's events.
-- A method returns the new broker. A listener is a number, a `Set` of them a list without
-- repetition, and a call of a listener is an entry of the list of deliveries.
-- Timers: `pending` holds the handles that the runtime will fire, `cleanup_timers` is the map of
-- the source. `setTimeout` gives the handle `next_handle`.
pub mod Timers
pub mod Replay
mod Examples
use claw_work.Prelude.{
  ℕ, ◌+◌, Text, List, [], ◌∷◌, ◌++◌, Option, none, some, Dict, lookup, insert, erase, filter, any,
  not, slice_last, if◌then◌else◌, ◌==◌, ltb, or_else,
}
use claw_work.Event.{TaskStreamEvent, is_terminal_event}

pub record BrokerEvent : Type 0 where
  pub id : ℕ
  pub event : TaskStreamEvent

pub record Broker : Type 0 where
  pub retention_ms : ℕ
  pub max_events_per_task : ℕ
  pub history : Dict (List BrokerEvent)
  pub listeners : Dict (List ℕ)
  pub cleanup_timers : Dict ℕ
  pub next_ids : Dict ℕ
  pub pending : List (ℕ × Text)
  pub next_handle : ℕ

-- The constructor.
unfoldable pub new_broker : ℕ → ℕ → Broker
new_broker retention most = record {
  retention_ms = retention;
  max_events_per_task = most;
  history = [];
  listeners = [];
  cleanup_timers = [];
  next_ids = [];
  pending = [];
  next_handle = 0;
}

-- `clearTimeout`, where there is a timer.
unfoldable pub clear_timeout : Option ℕ → List (ℕ × Text) → List (ℕ × Text)
clear_timeout none pending = pending
clear_timeout (some h) pending = filter (λ p. not (p.0 == h)) pending

unfoldable pub schedule_cleanup : Text → Broker → Broker
schedule_cleanup task b = record b {
  pending = (b.next_handle, task) ∷ clear_timeout (lookup task b.cleanup_timers) b.pending;
  cleanup_timers = insert task b.next_handle b.cleanup_timers;
  next_handle = b.next_handle + 1;
}

unfoldable pub cleanup : Text → Broker → Broker
cleanup task b = record b {
  pending = clear_timeout (lookup task b.cleanup_timers) b.pending;
  cleanup_timers = erase task b.cleanup_timers;
  history = erase task b.history;
  listeners = erase task b.listeners;
  next_ids = erase task b.next_ids;
}

-- `close`: every registered timer is cleared.
unfoldable pub clear_all : List ℕ → List (ℕ × Text) → List (ℕ × Text)
unfolding clear_timeout
clear_all [] pending = pending
clear_all (h ∷ hs) pending = clear_all hs (clear_timeout (some h) pending)

abbrev pub timer_handles : Dict ℕ → List ℕ
timer_handles [] = []
timer_handles ((task, h) ∷ m) = h ∷ timer_handles m

unfoldable pub close : Broker → Broker
unfolding clear_all
close b = record b {
  pending = clear_all (timer_handles b.cleanup_timers) b.pending;
  cleanup_timers = [];
  history = [];
  listeners = [];
  next_ids = [];
}

-- The part of `publish` before the listeners are called.
unfoldable pub record_event : Text → BrokerEvent → Broker → Broker
record_event task item b = record b {
  next_ids = insert task (item.id + 1) b.next_ids;
  history =
      insert task
        (slice_last b.max_events_per_task (or_else (lookup task b.history) [] ++ item ∷ []))
        b.history;
}

-- The part of `publish` after them.
unfoldable pub settle : Text → TaskStreamEvent → Broker → Broker
unfolding schedule_cleanup
settle task event b =
    if is_terminal_event event
    then schedule_cleanup task (record b { listeners = erase task b.listeners })
    else b

abbrev pub next_id : Text → Broker → ℕ
next_id task b = or_else (lookup task b.next_ids) 1

-- `publish`: the new broker, the listeners that are called with the event, and the event.
unfoldable pub publish : Text → TaskStreamEvent → Broker → Broker × List ℕ × BrokerEvent
unfolding record_event settle
publish task event b =
    let item : BrokerEvent = record { id = next_id task b; event = event } in
    (settle task event (record_event task item b), or_else (lookup task b.listeners) [], item)

unfoldable pub replay : Text → ℕ → Broker → List BrokerEvent
replay task after b = filter (λ item. ltb after item.id) (or_else (lookup task b.history) [])

-- `Set.add`
unfoldable pub add_listener : ℕ → List ℕ → List ℕ
add_listener l ls = if any (λ x. x == l) ls then ls else ls ++ l ∷ []

unfoldable pub subscribe : Text → ℕ → Broker → Broker
unfolding add_listener
subscribe task l b = record b {
  listeners = insert task (add_listener l (or_else (lookup task b.listeners) [])) b.listeners;
}

abbrev pub keep_listeners : Text → List ℕ → Dict (List ℕ) → Dict (List ℕ)
keep_listeners task [] m = erase task m
keep_listeners task (l ∷ ls) m = insert task (l ∷ ls) m

-- The function that `subscribe` returns.
unfoldable pub unsubscribe : Text → ℕ → Broker → Broker
unsubscribe task l b = elim (lookup task b.listeners) [
  | none ↦ b
  | some ls ↦ record b {
    listeners = keep_listeners task (filter (λ x. not (x == l)) ls) b.listeners;
  }
]

-- The runtime fires the timer `h`: it is no longer pending, and its callback runs.
unfoldable pub fire_list : ℕ → List (ℕ × Text) → Broker → Broker
unfolding cleanup
fire_list h [] b = b
fire_list h ((j, task) ∷ ps) b = if j == h then cleanup task b else fire_list h ps b

unfoldable pub fire : ℕ → Broker → Broker
unfolding fire_list
fire h b = fire_list h b.pending (record b { pending = clear_timeout (some h) b.pending })
