-- ===== src/Tasks/Dispatch/Overlap.antt =====
-- Two transactions of `persistTaskEvent` for one task that overlap.
use claw_work.Prelude.{Option, Text, false, lookup, none, refl, some, text_eq_refl, ◌≡◌, ◌∙◌, ℕ, ap}
use claw_work.Event.{Detail, TaskStreamEvent}
use claw_work.Tasks.{Db, Status, Task, lookup-adjust}
use claw_work.Tasks.Persist.{
  Outcome, Prepared, World, announce, append_event, apply_detail, apply_event, is_taken,
  persist_task_event, read_task, write_event, accepted_task, written_at,
}
use claw_work.Tasks.Persist.Rows.{persist-is_taken, persist-row, persist-terminal_event}
use claw_work.Tasks.Persist.Terminal.{
  TerminalOnce, one_if, persist-TerminalOnce, terminals, terminals-append,
}
use claw_work.Tasks.Dispatch.Stop.{cancelled_event}
use claw_work.Tasks.Dispatch.EndedRows.{read_task-live}

-- The transaction of "task.accepted" reads the row `t`; before it writes, `task.cancelled` is stored
-- for the task by a whole call.
unfoldable pub cancel_before_write :
    World
    → (now : ℕ) (result : Text) (source : Option Text) → Prepared
    → (task timestamp : Text) → Task
    → Db
    → Db × Outcome
unfolding write_event
cancel_before_write w now result source p task timestamp t db =
    write_event now result source p task t
      (persist_task_event w (cancelled_event task timestamp t) none db).0

-- The row says that the task runs, and the log that it has ended.
abbrev pub Revived : Text → Db → Type 0
Revived task db =
    ((u : Task) × (lookup task db.tasks ≡ some u) × (u.status ≡ Status.running))
    × (terminals task db.events ≡ 1)

write_accepted-Revived :
    (now : ℕ) (result : Text) (source : Option Text) (p : Prepared) (task : Text) (t v : Task)
    (db : Db)
    → p.stored.detail ≡ Detail.accepted
    → lookup task db.tasks ≡ some v
    → is_taken task source db ≡ false
    → terminals task db.events ≡ 1
    → Revived task (write_event now result source p task t db).0
      × ((write_event now result source p task t db).1 ≡ Outcome.stored)
unfolding write_event announce apply_event append_event apply_detail
write_accepted-Revived now result source p task t v db accepted there free once =
    rw (free, accepted)
      (
        (
          (
            accepted_task p.stored.run_id (written_at t Detail.accepted now) v,
            lookup-adjust task task _ db.tasks ∙ rw (text_eq_refl task, there) refl,
            refl,
          ),
          terminals-append task db.events _
              ∙ rw once (unfold terminals in rw (text_eq_refl task) refl),
        ),
        refl,
      )

-- If `task.cancelled` is stored after the transaction of a new "task.accepted" has read the row of
-- its task and before it writes, then the acceptance is stored too: the log holds the one terminal
-- event of the task, but its row says "running".
pub cancel_before_write-Revived :
    (w : World) (now : ℕ) (result : Text) (source : Option Text) (p : Prepared)
    (task timestamp : Text) (t : Task) (db : Db)
    → TerminalOnce db
    → read_task task source db ≡ some t
    → is_taken task source db ≡ false
    → p.stored.detail ≡ Detail.accepted
    → Revived task (cancel_before_write w now result source p task timestamp t db).0
      × ((cancel_before_write w now result source p task timestamp t db).1 ≡ Outcome.stored)
unfolding cancel_before_write
cancel_before_write-Revived w now result source p task timestamp t db once read free accepted =
    let e : TaskStreamEvent = cancelled_event task timestamp t in
    let (found, live) = read_task-live task source db t read in
    let stored : (persist_task_event w e none db).1 ≡ Outcome.stored =
      persist-terminal_event w e none db t refl found live (unfold is_taken in refl) in
    let (v, there, ended) = persist-row w e none db stored in
    write_accepted-Revived now result source p task t v (persist_task_event w e none db).0 accepted
      there (persist-is_taken w e none source db free refl)
      (persist-TerminalOnce w e none db once task v there ∙ ap one_if ended)
