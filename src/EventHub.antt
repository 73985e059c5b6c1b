-- ===== src/EventHub.antt =====
-- apps/mobile-api/src/stream/task-event-hub.ts: the listeners of one process, and the deliveries.
-- A listener is the number of a callback; what goes out to the other processes is a list, and a
-- message that comes from one is an argument. `enabled` says that the processes are joined.
mod Listeners
mod Examples
use claw_work.Prelude.{
  Bool, Dict, List, Text, [], any, erase, false, filter, if◌then◌else◌, insert, lookup, map, none,
  not, or_else, some, text_eq, true, ℕ, ◌++◌, ◌==◌, ◌∷◌,
}
use claw_work.Event.{Detail}
use claw_work.TaskStream.{PersistedTaskEvent}

pub record Hub : Type 0 where
  pub listeners : Dict (List ℕ)
  pub origin : Text
  pub enabled : Bool
  pub published : List (Text × PersistedTaskEvent)

-- The calls of the listeners that one event leads to.
abbrev pub Calls : Type 0
Calls = List (ℕ × PersistedTaskEvent)

abbrev pub ends_delivery : Detail → Bool
ends_delivery Detail.completed = true
ends_delivery (Detail.failed code message) = true
ends_delivery _ = false

abbrev pub calls_of : PersistedTaskEvent → List ℕ → Calls
calls_of e ls = map (λ l. (l, e)) ls

unfoldable pub deliver : Text → PersistedTaskEvent → Hub → Hub × Calls
deliver task e hub = elim (lookup task hub.listeners) [
  | none ↦ (hub, [])
  | some ls ↦ (
    if ends_delivery e.event.detail
        then record hub { listeners = erase task hub.listeners }
        else hub,
    calls_of e ls,
  )
]

unfoldable pub publish : Text → PersistedTaskEvent → Hub → Hub × Calls
unfolding deliver
publish task e hub =
    let (hub', calls) = deliver task e hub in
    (
      if hub.enabled then record hub' { published = hub'.published ++ (task, e) ∷ [] } else hub',
      calls,
    )

-- The handler of a message that another process, or this one, has sent.
unfoldable pub on_message : (origin task : Text) → PersistedTaskEvent → Hub → Hub × Calls
unfolding deliver
on_message origin task e hub = if text_eq origin hub.origin then (hub, []) else deliver task e hub

unfoldable pub add : ℕ → List ℕ → List ℕ
add l ls = if any (λ x. x == l) ls then ls else ls ++ l ∷ []

unfoldable pub subscribe : Text → ℕ → Hub → Hub
unfolding add
subscribe task l hub = record hub {
  listeners = insert task (add l (or_else (lookup task hub.listeners) [])) hub.listeners;
}

abbrev pub keep : Text → List ℕ → Dict (List ℕ) → Dict (List ℕ)
keep task [] m = erase task m
keep task (l ∷ ls) m = insert task (l ∷ ls) m

-- The function that `subscribe` returns.
unfoldable pub unsubscribe : Text → ℕ → Hub → Hub
unsubscribe task l hub = elim (lookup task hub.listeners) [
  | none ↦ hub
  | some ls ↦ record hub { listeners = keep task (filter (λ x. not (x == l)) ls) hub.listeners }
]
