-- ===== src/Tasks/Dispatch/Ends.antt =====
-- A relay that nobody stops leaves its task ended.
use claw_work.Prelude.{
  All, Bool-cases, List, Text, [], false, inl, inr, lookup, none, refl, some, true, ◌++◌, ◌∷◌, ◌≡◌,
  ◌≢◌, ◌∙◌, sym, subst, lookup-erase_self,
}
use claw_work.Event.{is_terminal_detail}
use claw_work.Tasks.{Db, is_terminal_status}
use claw_work.Tasks.Persist.{Outcome, is_taken, persist_task_event}
use claw_work.Tasks.Persist.Terminal.{SameLog, persist-terminal_task}
use claw_work.Tasks.Persist.Rows.{
  Ended, Present, fail_task-Ended, persist-Present, persist-is_taken, persist-row,
  persist-terminal_event, clash,
}
use claw_work.Tasks.Dispatch.{Service}
use claw_work.Tasks.Dispatch.Requests.{cancellation-db}
use claw_work.Tasks.Dispatch.Relay.{
  Arrival, ChunkEnd, Ending, LoopEnd, Reads, Signal, after_chunk, chunk, chunk_step, done,
  end_relay, fail_relay, persist_all, rejected, relay_adapter_events, relay_loop, remove_relay,
}

-- No two events of a stream have the same source number.
abbrev pub DistinctSources : List Arrival → Type 0
DistinctSources [] = Unit
DistinctSources (a ∷ more) =
    All (λ (b : Arrival). clash a.source b.source ≡ false) more × DistinctSources more

-- The events are the task's, and none is in its log.
abbrev pub NewEvent : Text → Db → Arrival → Type 0
NewEvent task db a = (a.event.task_id ≡ task) × (is_taken task a.source db ≡ false)

abbrev pub NewEvents : Text → Db → List Arrival → Type 0
NewEvents task db arrivals = All (NewEvent task db) arrivals × DistinctSources arrivals

-- What a relay finds before it stores the events of a list.
abbrev Ready : Text → List Arrival → Db → Type 0
Ready task arrivals db = Present task db × NewEvents task db arrivals

persist-Ready :
    (task : Text) (a : Arrival) (more : List Arrival) (db : Db)
    → Ready task (a ∷ more) db
    → Ready task more (persist_task_event a.world a.event a.source db).0
persist-Ready task a more db (there, (((same, free), news), (other, distinct))) = (
  subst (λ k. Present k (persist_task_event a.world a.event a.source db).0) same
      (persist-Present a.world a.event a.source db (subst (λ k. Present k db) (sym same) there)),
  (still more news other, distinct),
)
  where
    still :
        (bs : List Arrival)
        → All (NewEvent task db) bs
        → All (λ (b : Arrival). clash a.source b.source ≡ false) bs
        → All (NewEvent task (persist_task_event a.world a.event a.source db).0) bs
    still [] h k = tt
    still (b ∷ bs) ((e, f), h) (c, k) = (
      (
        e,
        subst (λ j. is_taken j b.source (persist_task_event a.world a.event a.source db).0 ≡ false)
            same
            (persist-is_taken a.world a.event a.source b.source db
              (subst (λ j. is_taken j b.source db ≡ false) (sym same) f) c),
      ),
      still bs h k,
    )

persist-Ended :
    (task : Text) (a : Arrival) (db : Db)
    → Present task db
    → NewEvent task db a
    → is_terminal_detail a.event.detail ≡ true
    → Ended task (persist_task_event a.world a.event a.source db).0
persist-Ended task a db (t, found) (same, free) final =
    subst (λ k. Ended k (persist_task_event a.world a.event a.source db).0) same
      (elim (Bool-cases (is_terminal_status t.status)) [
        | inl y ↦
            let after : SameLog db (persist_task_event a.world a.event a.source db).0
                × ((persist_task_event a.world a.event a.source db).1 ≢ Outcome.stored) =
              persist-terminal_task a.world a.event a.source db t there y in
            (t, rw after.0.0 there, y)
        | inr live ↦
            let (u, row, status) = persist-row a.world a.event a.source db (
              persist-terminal_event a.world a.event a.source db t final there live
                (subst (λ k. is_taken k a.source db ≡ false) (sym same) free)) in
            (u, row, status ∙ final)
      ])
  where
    there : lookup a.event.task_id db.tasks ≡ some t
    there = subst (λ k. lookup k db.tasks ≡ some t) (sym same) found

-- What a chunk leaves: the events `rest` are those of the chunks after it.
data Chunked (task : Text) (rest : List Arrival) : Db × ChunkEnd → Type 0 where
  over : {db : Db} → Ready task rest db → Chunked task rest (db, ChunkEnd.went_on)
  final : {db : Db} → Ended task db → Chunked task rest (db, ChunkEnd.returned)
  broken :
      {db : Db} (message : Text) → Present task db → Chunked task rest (db, ChunkEnd.failed message)

persist_all-Chunked :
    (task : Text) (arrivals rest : List Arrival) (db : Db)
    → Ready task (arrivals ++ rest) db
    → Chunked task rest (persist_all arrivals db)
unfolding persist_all
persist_all-Chunked task [] rest db ready = over ready
persist_all-Chunked task (a ∷ more) rest db ready =
    by_outcome (persist_task_event a.world a.event a.source db)
      (persist-Ready task a (more ++ rest) db ready) (persist-Ended task a db ready.0 ready.1.0.0)
      (persist_all-Chunked task more rest (persist_task_event a.world a.event a.source db).0
        (persist-Ready task a (more ++ rest) db ready))
  where
    by_outcome :
        (r : Db × Outcome)
        → Ready task (more ++ rest) r.0
        → (is_terminal_detail a.event.detail ≡ true → Ended task r.0)
        → Chunked task rest (persist_all more r.0)
        → Chunked task rest (chunk_step a r (persist_all more r.0))
    by_outcome (db', Outcome.thrown) h k c = broken a.failure h.0
    by_outcome (db', Outcome.stored) h k c = elim (Bool-cases (is_terminal_detail a.event.detail)) [
      | inl y ↦ rw y (final (k y))
      | inr n ↦ rw n c
    ]
    by_outcome (db', Outcome.skipped) h k c =
        elim (Bool-cases (is_terminal_detail a.event.detail)) [
          | inl y ↦ rw y (final (k y))
          | inr n ↦ rw n c
        ]

-- What a relay's loop leaves, where it was not stopped.
data Looped (task : Text) : Db × LoopEnd → Type 0 where
  finished : {db : Db} → Ended task db → Looped task (db, LoopEnd.terminal_seen)
  closed : {db : Db} → Present task db → Looped task (db, LoopEnd.ended Signal.live)
  failing :
      {db : Db} (message : Text)
      → Present task db
      → Looped task (db, LoopEnd.threw Signal.live message)
  late :
      {db : Db} (message : Text)
      → Present task db
      → Looped task (db, LoopEnd.threw Signal.timed_out message)

-- The events of a stream.
abbrev pub arrivals_of : Reads → List Arrival
arrivals_of (done s) = []
arrivals_of (rejected s message) = []
arrivals_of (chunk arrivals s next) = arrivals ++ arrivals_of next

-- Nobody cancels the task, and the timer fires, if it does, while the relay waits for a read.
abbrev pub Unstopped : Reads → Type 0
Unstopped (done s) = s ≡ Signal.live
Unstopped (rejected s message) = s ≢ Signal.cancelled
Unstopped (chunk arrivals s next) = (s ≡ Signal.live) × Unstopped next

relay_loop-Looped :
    (task : Text) (reads : Reads) (db : Db)
    → Unstopped reads
    → Ready task (arrivals_of reads) db
    → Looped task (relay_loop reads db)
unfolding relay_loop
relay_loop-Looped task (done s) db u ready = rw u (closed ready.0)
relay_loop-Looped task (rejected Signal.live message) db u ready = failing message ready.0
relay_loop-Looped task (rejected Signal.timed_out message) db u ready = late message ready.0
relay_loop-Looped task (rejected Signal.cancelled message) db u ready = absurd (u refl)
relay_loop-Looped task (chunk arrivals s next) db (live, u) ready = rw live (
    by_chunk (persist_all-Chunked task arrivals (arrivals_of next) db ready)
      (relay_loop-Looped task next (persist_all arrivals db).0 u))
  where
    by_chunk :
        {r : Db × ChunkEnd}
        → Chunked task (arrivals_of next) r
        → (Ready task (arrivals_of next) r.0 → Looped task (relay_loop next r.0))
        → Looped task (after_chunk Signal.live r (relay_loop next r.0))
    by_chunk (over ready') ih = ih ready'
    by_chunk (final e) ih = finished e
    by_chunk (broken message p) ih = failing message p

-- A relay that nobody stops ends its task, whether the stream brings a terminal event, closes
-- early, breaks, or does not answer in time while a read waits, if the task has a row and the
-- stream's events are the task's and new to its log, with distinct numbers. The relay is gone then.
pub relay_adapter_events-Ended :
    {Q : Type 0} (e : Ending) (task : Text) (reads : Reads) (s : Service Q)
    → Present task s.db
    → NewEvents task s.db (arrivals_of reads)
    → Unstopped reads
    → Ended task (relay_adapter_events e task reads s).db
      × (lookup task (relay_adapter_events e task reads s).relays ≡ none)
unfolding relay_adapter_events remove_relay
relay_adapter_events-Ended {Q} e task reads s there news u =
    (by_loop (relay_loop-Looped task reads s.db u (there, news)), lookup-erase_self task _)
  where
    by_loop :
        {r : Db × LoopEnd}
        → Looped task r
        → Ended task (end_relay e task r.1 (record s { db = r.0 })).db
    by_loop (finished h) = unfold end_relay in h
    by_loop (closed {db} p) =
        unfold end_relay fail_relay in fail_task-Ended e.world task e.timestamp _ _ db p
    by_loop (failing {db} message p) =
        unfold end_relay fail_relay in fail_task-Ended e.world task e.timestamp _ _ db p
    by_loop (late {db} message p) =
        unfold end_relay fail_relay in
        fail_task-Ended e.world task e.timestamp _ _ _
          (rw (cancellation-db e.answer task (record s { db = db })) p)
