-- ===== src/Tasks/Dispatch/Timer.antt =====
-- The timer of a relay that fires while the relay stores events.
use claw_work.Prelude.{
  All, Bool-cases, List, Text, [], false, inl, inr, lookup, none, refl, some, ◌≡◌, ◌∙◌, subst,
  erase, lookup-erase_self, ◌∷◌,
}
use claw_work.Event.{is_terminal_detail}
use claw_work.TaskQueue.{}
use claw_work.Tasks.{Db, Task, is_terminal_status}
use claw_work.Tasks.Persist.{Outcome, persist_task_event}
use claw_work.Tasks.Persist.Rows.{Outcome-cases, persist-row, persist-tasks}
use claw_work.Tasks.Dispatch.{Service}
use claw_work.Tasks.Dispatch.Relay.{
  Arrival, ChunkEnd, Ending, LoopEnd, Reads, Signal, chunk, chunk_step, persist_all,
  relay_adapter_events, relay_loop, end_relay, remove_relay, after_chunk,
}

-- The task runs, or waits to.
abbrev pub Live : Text → Db → Type 0
Live task db = (t : Task) × (lookup task db.tasks ≡ some t) × (is_terminal_status t.status ≡ false)

persist-Live :
    (task : Text) (a : Arrival) (db : Db)
    → Live task db
    → a.event.task_id ≡ task
    → is_terminal_detail a.event.detail ≡ false
    → Live task (persist_task_event a.world a.event a.source db).0
persist-Live task a db (t, found, live) same quiet =
    elim (Outcome-cases (persist_task_event a.world a.event a.source db).1) [
      | inl y ↦
          let (u, there, status) = persist-row a.world a.event a.source db y in
          (
            u,
            subst (λ k. lookup k (persist_task_event a.world a.event a.source db).0.tasks ≡ some u)
                same there,
            status ∙ quiet,
          )
      | inr n ↦ (t, rw (persist-tasks a.world a.event a.source db n) found, live)
    ]

chunk_step-Live :
    (task : Text) (a : Arrival) (r : Db × Outcome) (more : Db × ChunkEnd)
    → (is_terminal_detail a.event.detail ≡ false → more.1 ≡ ChunkEnd.went_on → Live task more.0)
    → (chunk_step a r more).1 ≡ ChunkEnd.went_on
    → Live task (chunk_step a r more).0
chunk_step-Live task a (db, Outcome.thrown) more k = λ h. absurd (cc)
chunk_step-Live task a (db, Outcome.stored) more k =
    elim (Bool-cases (is_terminal_detail a.event.detail)) [
      | inl y ↦ rw y (λ h. absurd (cc))
      | inr n ↦ rw n (k n)
    ]
chunk_step-Live task a (db, Outcome.skipped) more k =
    elim (Bool-cases (is_terminal_detail a.event.detail)) [
      | inl y ↦ rw y (λ h. absurd (cc))
      | inr n ↦ rw n (k n)
    ]

-- A chunk that the loop gets through leaves a task live that is.
persist_all-Live :
    (task : Text) (arrivals : List Arrival) (db : Db)
    → Live task db
    → All (λ (a : Arrival). a.event.task_id ≡ task) arrivals
    → (persist_all arrivals db).1 ≡ ChunkEnd.went_on
    → Live task (persist_all arrivals db).0
unfolding persist_all
persist_all-Live task [] db live own h = live
persist_all-Live task (a ∷ more) db live (same, own) h =
    chunk_step-Live task a (persist_task_event a.world a.event a.source db)
      (persist_all more (persist_task_event a.world a.event a.source db).0)
      (λ quiet k.
        persist_all-Live task more (persist_task_event a.world a.event a.source db).0
          (persist-Live task a db live same quiet) own k)
      h

-- If the timer fires while the relay stores the events of a chunk, and none of them ends the
-- task, then the task is not ended: the relay is gone, the adapter is not asked to stop, and the
-- task keeps a state that is not terminal, whatever the stream would bring next.
pub timed_out_while_storing :
    {Q : Type 0} (e : Ending) (task : Text) (arrivals : List Arrival) (next : Reads) (s : Service Q)
    → Live task s.db
    → All (λ (a : Arrival). a.event.task_id ≡ task) arrivals
    → (persist_all arrivals s.db).1 ≡ ChunkEnd.went_on
    → Live task (relay_adapter_events e task (chunk arrivals Signal.timed_out next) s).db
      × (lookup task (relay_adapter_events e task (chunk arrivals Signal.timed_out next) s).relays
          ≡ none)
      × ((relay_adapter_events e task (chunk arrivals Signal.timed_out next) s).cancellations
          ≡ s.cancellations)
unfolding relay_adapter_events relay_loop remove_relay
timed_out_while_storing {Q} e task arrivals next s live own h =
    by_chunk (persist_all arrivals s.db) (relay_loop next (persist_all arrivals s.db).0) h
      (persist_all-Live task arrivals s.db live own h)
  where
    by_chunk :
        (r : Db × ChunkEnd) (more : Db × LoopEnd)
        → r.1 ≡ ChunkEnd.went_on
        → Live task r.0
        → Live task
            (end_relay e task
              (after_chunk Signal.timed_out r more).1
              (record s { db = (after_chunk Signal.timed_out r more).0 })).db
          × (lookup task (
                erase task
                  (end_relay e task
                    (after_chunk Signal.timed_out r more).1
                    (record s { db = (after_chunk Signal.timed_out r more).0 })).relays)
              ≡ none)
          × ((end_relay e task
                (after_chunk Signal.timed_out r more).1
                (record s { db = (after_chunk Signal.timed_out r more).0 })).cancellations
              ≡ s.cancellations)
    by_chunk (db, ChunkEnd.went_on) more k l =
        unfold end_relay in (l, lookup-erase_self task _, refl)
    by_chunk (db, ChunkEnd.returned) more k l = absurd (cc)
    by_chunk (db, ChunkEnd.failed m) more k l = absurd (cc)
