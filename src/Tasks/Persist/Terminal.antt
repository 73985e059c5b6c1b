-- ===== src/Tasks/Persist/Terminal.antt =====
-- The end of a task in the log: terminal events and terminal states go together, nothing follows,
-- and a source event is stored once.
use claw_work.Prelude.{
  Bool, List, Option, Text, [], arith, false, if◌then◌else◌, js, lookup, none, refl, some, text_eq,
  ℕ, ◌&&◌, ◌++◌, ◌+◌, ◌∷◌, ◌≡◌, ap, ◌∙◌, Bool-cases, inl, inr, subst, sym, text_eq_iff, any,
  text_eq_refl, true, truthy, ◌≢◌,
}
use mathlib.Core.Option
use claw_work.Event.{Detail, TaskStreamEvent, is_terminal_detail}
use claw_work.Tasks.{Db, Status, Task, TaskEvent, is_terminal_status, lookup-adjust}
use claw_work.Tasks.Persist.{
  World, apply_detail, complete_task, Outcome, accepted_task, announce, append_event, apply_event,
  ended_task, persist_task_event, is_seen, is_taken, same_source, written_at,
}
use claw_work.Tasks.Persist.Cases.{
  with_archive, Persisted, kept, wrote, persist_task_event-Persisted,
}

-- What an event does to the row of its task.
abbrev pub update_task : Text → ℕ → Detail → Task → Task
update_task run now Detail.accepted t = accepted_task run now t
update_task run now (Detail.failed code message) t =
    ended_task Status.failed (some code) (some message) now t
update_task run now (Detail.cancelled message) t =
    ended_task Status.cancelled (some (js "TASK_CANCELLED")) (some message) now t
update_task run now Detail.completed t = ended_task Status.completed none none now t
update_task run now _ t = t

abbrev pub on_task : (task j : Text) → (Task → Task) → Option Task → Option Task
on_task task j f o = if text_eq task j then Option.map f o else o

on_task-id : (task j : Text) (o : Option Task) → o ≡ on_task task j (λ t. t) o
on_task-id task j none = ground arith
on_task-id task j (some t) = ground arith

pub lookup-apply_detail :
    (task session : Text) (now : ℕ) (result run : Text) (d : Detail) (db : Db) (j : Text)
    → lookup j (apply_detail task session now result run d db).tasks
      ≡ on_task task j (update_task run now d) (lookup j db.tasks)
unfolding apply_detail complete_task
lookup-apply_detail task session now result run Detail.accepted db j =
    lookup-adjust task j _ db.tasks
lookup-apply_detail task session now result run (Detail.failed c m) db j =
    lookup-adjust task j _ db.tasks
lookup-apply_detail task session now result run (Detail.cancelled m) db j =
    lookup-adjust task j _ db.tasks
lookup-apply_detail task session now result run Detail.completed db j =
    lookup-adjust task j _ db.tasks
lookup-apply_detail task session now result run _ db j = on_task-id task j (lookup j db.tasks)

pub update_task-status :
    (run : Text) (now : ℕ) (d : Detail) (t : Task)
    → is_terminal_status t.status ≡ false
    → is_terminal_status (update_task run now d t).status ≡ is_terminal_detail d
update_task-status run now Detail.accepted t h = refl
update_task-status run now (Detail.failed c m) t h = refl
update_task-status run now (Detail.cancelled m) t h = refl
update_task-status run now Detail.completed t h = refl
update_task-status run now _ t h = h

pub apply_detail-events :
    (task session : Text) (now : ℕ) (result run : Text) (d : Detail) (db : Db)
    → (apply_detail task session now result run d db).events ≡ db.events
unfolding apply_detail complete_task
apply_detail-events task session now result run Detail.accepted db = refl
apply_detail-events task session now result run (Detail.failed c m) db = refl
apply_detail-events task session now result run (Detail.cancelled m) db = refl
apply_detail-events task session now result run Detail.completed db = refl
apply_detail-events task session now result run _ db = refl

abbrev pub one_if : Bool → ℕ
one_if b = if b then 1 else 0

-- The number of terminal events in the log of a task.
unfoldable pub terminals : Text → List TaskEvent → ℕ
terminals task [] = 0
terminals task (row ∷ rows) =
    one_if (text_eq row.task_id task && is_terminal_detail row.payload.detail) + terminals task rows

pub terminals-append :
    (task : Text) (xs ys : List TaskEvent)
    → terminals task (xs ++ ys) ≡ terminals task xs + terminals task ys
unfolding terminals
terminals-append task [] ys = omega arith
terminals-append task (x ∷ xs) ys = omega (arith, terminals-append task xs ys)

-- A task that has ended has one terminal event in the log, and any other task none.
abbrev pub TerminalOnce : Db → Type 0
TerminalOnce db =
    (task : Text) (t : Task)
    → lookup task db.tasks ≡ some t
    → terminals task db.events ≡ one_if (is_terminal_status t.status)

abbrev id_row : ℕ → Text → Option Text → TaskStreamEvent → TaskEvent
id_row id task source e = record { id = id; task_id = task; source_event_id = source; payload = e }

terminals-row :
    (task j : Text) (run : Text) (now id : ℕ) (source : Option Text) (e : TaskStreamEvent) (db : Db)
    (t u : Task)
    → TerminalOnce db
    → lookup task db.tasks ≡ some t
    → is_terminal_status t.status ≡ false
    → on_task task j (update_task run now e.detail) (lookup j db.tasks) ≡ some u
    → terminals j (db.events ++ id_row id task source e ∷ []) ≡ one_if (is_terminal_status u.status)
unfolding terminals
terminals-row task j run now id source e db t u inv found live h =
    elim (Bool-cases (text_eq task j)) [
      | inl y ↦
          let same : task ≡ j = ground (arith, text_eq_iff task j) in
          let there : lookup j db.tasks ≡ some t =
            subst (λ k. lookup k db.tasks ≡ some t) same found in
          let after : update_task run now e.detail t ≡ u = ground arith in
          let old : terminals j db.events ≡ 0 = inv j t there ∙ ap one_if live in
          let new : is_terminal_status u.status ≡ is_terminal_detail e.detail =
            ap (λ (v : Task). is_terminal_status v.status) (sym after)
            ∙ update_task-status run now e.detail t live in
          terminals-append j db.events _ ∙ rw (y, new, old) (omega arith)
      | inr n ↦
          let there : lookup j db.tasks ≡ some u = ground arith in
          terminals-append j db.events _ ∙ rw n (omega (arith, inv j u there))
    ]

-- A call keeps the invariant that a task has one terminal event in the log if its status is
-- terminal, and none otherwise.
pub persist-TerminalOnce :
    (w : World) (e : TaskStreamEvent) (source : Option Text) (db : Db)
    → TerminalOnce db
    → TerminalOnce (persist_task_event w e source db).0
unfolding announce apply_event append_event
persist-TerminalOnce w e source db inv = by_case (persist_task_event-Persisted w e source db)
  where
    by_case : {r : Db × Outcome} → Persisted w e source db r → TerminalOnce r.0
    by_case (kept a o _ _) = inv
    by_case (wrote a o p t s q found live free) = λ j u h.
        let stored_db : Db = append_event e.task_id source p.stored (with_archive a o db) in
        ap (terminals j) (
          apply_detail-events e.task_id t.session_id (written_at t p.stored.detail w.now)
            w.result_id p.stored.run_id p.stored.detail stored_db)
        ∙ terminals-row e.task_id j p.stored.run_id (written_at t p.stored.detail w.now)
            db.next_event_id source p.stored db t u inv found live
            (sym (
                lookup-apply_detail e.task_id t.session_id (written_at t p.stored.detail w.now)
                  w.result_id p.stored.run_id p.stored.detail stored_db j)
              ∙ h)

-- Two states of the tables that differ in the archive alone.
abbrev pub SameLog : Db → Db → Type 0
SameLog db db' =
    (db'.tasks ≡ db.tasks)
    × (db'.sessions ≡ db.sessions)
    × (db'.events ≡ db.events)
    × (db'.results ≡ db.results)
    × (db'.hub ≡ db.hub)
    × (db'.pushes ≡ db.pushes)

-- An event for a task that has ended is not stored: the tasks, the sessions, the log, the results,
-- the deliveries and the notifications stay what they were.
pub persist-terminal_task :
    (w : World) (e : TaskStreamEvent) (source : Option Text) (db : Db) (t : Task)
    → lookup e.task_id db.tasks ≡ some t
    → is_terminal_status t.status ≡ true
    → SameLog db (persist_task_event w e source db).0
      × ((persist_task_event w e source db).1 ≢ Outcome.stored)
persist-terminal_task w e source db t there ended =
    by_case (persist_task_event-Persisted w e source db)
  where
    by_case :
        {r : Db × Outcome} → Persisted w e source db r → SameLog db r.0 × (r.1 ≢ Outcome.stored)
    by_case (kept a o _ n) = ((refl, refl, refl, refl, refl, refl), n)
    by_case (wrote a o p t' s q found live free) =
        let same : t' ≡ t = ground arith in
        let both : is_terminal_status t'.status ≡ true =
          ap (λ (v : Task). is_terminal_status v.status) same ∙ ended in
        absurd (ground arith)

any-concat {ℓ} :
    {A : Type ℓ} (p : A → Bool) (xs : List A) (x : A) → p x ≡ true → any p (xs ++ x ∷ []) ≡ true
unfolding any
any-concat p [] x h = rw h refl
any-concat p (y ∷ ys) x h = rw (any-concat p ys x h) (ground arith)

any-left {ℓ} :
    {A : Type ℓ} (p : A → Bool) (xs ys : List A) → any p xs ≡ true → any p (xs ++ ys) ≡ true
unfolding any
any-left p [] ys h = absurd (cc)
any-left p (x ∷ xs) ys h = elim (Bool-cases (p x)) [
  | inl y ↦ rw y refl
  | inr n ↦ rw (n, any-left p xs ys (ground arith)) refl
]

-- A source that the log has seen stays seen, whatever event comes, for whatever task.
persist-is_seen :
    (w : World) (e : TaskStreamEvent) (source : Option Text) (db : Db) (k s : Text)
    → is_taken k (some s) db ≡ true
    → is_taken k (some s) (persist_task_event w e source db).0 ≡ true
unfolding is_taken announce apply_event append_event
persist-is_seen w e source db k s h = by_case (persist_task_event-Persisted w e source db)
  where
    by_case : {r : Db × Outcome} → Persisted w e source db r → is_taken k (some s) r.0 ≡ true
    by_case (kept a o _ n) = h
    by_case (wrote a o p t q q' found live free) =
        rw
          (apply_detail-events e.task_id t.session_id (written_at t p.stored.detail w.now)
            w.result_id p.stored.run_id p.stored.detail
            (append_event e.task_id source p.stored (with_archive a o db)))
          (any-left (same_source k s) db.events _ h)

-- The tables after further calls, in their order.
unfoldable pub persist_calls : List (World × TaskStreamEvent × Option Text) → Db → Db
persist_calls [] db = db
persist_calls ((w, e, source) ∷ calls) db = persist_calls calls (persist_task_event w e source db).0

persist_calls-is_seen :
    (calls : List (World × TaskStreamEvent × Option Text)) (db : Db) (k s : Text)
    → is_taken k (some s) db ≡ true
    → is_taken k (some s) (persist_calls calls db) ≡ true
unfolding persist_calls
persist_calls-is_seen [] db k s h = h
persist_calls-is_seen ((w, e, source) ∷ calls) db k s h =
    persist_calls-is_seen calls (persist_task_event w e source db).0 k s
      (persist-is_seen w e source db k s h)

-- A source event is stored at most once: once it is stored, any event that comes with the same
-- source number for the same task, however many other calls come between, changes nothing at all.
pub persist-repeat :
    (w w' : World) (e e' : TaskStreamEvent) (s : Text)
    (between : List (World × TaskStreamEvent × Option Text)) (db : Db)
    → truthy s ≡ true
    → e'.task_id ≡ e.task_id
    → (persist_task_event w e (some s) db).1 ≡ Outcome.stored
    → persist_task_event w' e'
        (some s)
        (persist_calls between (persist_task_event w e (some s) db).0)
      ≡ (persist_calls between (persist_task_event w e (some s) db).0, Outcome.skipped)
persist-repeat w w' e e' s between db full same h =
    let after : Db = persist_calls between (persist_task_event w e (some s) db).0 in
    let taken : is_taken e.task_id (some s) after ≡ true =
      persist_calls-is_seen between (persist_task_event w e (some s) db).0 e.task_id s
        (by_case (persist_task_event-Persisted w e (some s) db) h) in
    skip after (ap (λ k. is_seen k (some s) after) same ∙ (unfold is_seen in rw (full, taken) refl))
  where
    skip :
        (db' : Db)
        → is_seen e'.task_id (some s) db' ≡ true
        → persist_task_event w' e' (some s) db' ≡ (db', Outcome.skipped)
    skip db' k = unfold persist_task_event in rw k refl

    by_case :
        {r : Db × Outcome}
        → Persisted w e (some s) db r
        → r.1 ≡ Outcome.stored
        → is_taken e.task_id (some s) r.0 ≡ true
    by_case (kept a o _ n) k = absurd (n k)
    by_case (wrote a o p t q q' found live free) k =
        let stored_db : Db = append_event e.task_id (some s) p.stored (with_archive a o db) in
        unfold is_taken announce apply_event append_event in
        rw
          (apply_detail-events e.task_id t.session_id (written_at t p.stored.detail w.now)
            w.result_id p.stored.run_id p.stored.detail stored_db)
          (any-concat (same_source e.task_id s) db.events
            (id_row db.next_event_id e.task_id (some s) p.stored)
            (rw (text_eq_refl e.task_id, text_eq_refl s) refl))
