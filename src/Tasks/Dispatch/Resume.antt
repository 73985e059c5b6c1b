-- ===== src/Tasks/Dispatch/Resume.antt =====
-- What one step of the recovery of running tasks keeps: the ended tasks, the relays, the rows and
-- the queue.
use claw_work.Prelude.{
  or_else, truthy, Bool-cases, List, Option, Text, [], arith, false, inl, inr, is_some, leb, lookup,
  refl, true, ℕ, ◌∷◌, ◌≡◌, ◌∙◌, lookup-insert,
}
use claw_work.TaskQueue.{}
use claw_work.TaskQueue.Jobs.{}
use claw_work.Tasks.{Task}
use claw_work.Tasks.Persist.Rows.{Ended, Present, fail_task-Present_other, fail_task-terminal_row}
use claw_work.Tasks.Dispatch.{Service, start_adapter_relay}
use claw_work.Tasks.Dispatch.Restart.{
  Recovering, elapsed, resume, resume_all, resume_row, task_timeout_ms,
}
use claw_work.Tasks.Dispatch.Requests.{cancellation-db, cancellation-queue, cancellation-relays}

pub resume-Ended :
    {Q : Type 0} (r : Recovering) (timeout : Option ℕ) (task : Text) (t : Task) (k : Text)
    (s : Service Q)
    → Ended k s.db
    → Ended k (resume r timeout task t s).db
unfolding resume start_adapter_relay
resume-Ended r timeout task t k s (u, there, ended) =
    elim (Bool-cases (leb (task_timeout_ms timeout) (elapsed r.world.now t.started_at))) [
      | inl y ↦ rw y (
        u,
        fail_task-terminal_row r.world task r.timestamp _ _ _ k u
            (rw (cancellation-db r.answer task s) there) ended,
        ended,
      )
      | inr n ↦ rw n (elim (Bool-cases (is_some (lookup task s.relays))) [
        | inl y ↦ rw y (u, there, ended)
        | inr m ↦ rw m (u, there, ended)
      ])
    ]

pub resume-relay :
    {Q : Type 0} (r : Recovering) (timeout : Option ℕ) (task : Text) (t : Task) (k : Text)
    (s : Service Q)
    → is_some (lookup k s.relays) ≡ true
    → is_some (lookup k (resume r timeout task t s).relays) ≡ true
unfolding resume start_adapter_relay
resume-relay r timeout task t k s h =
    elim (Bool-cases (leb (task_timeout_ms timeout) (elapsed r.world.now t.started_at))) [
      | inl y ↦ rw (y, cancellation-relays r.answer task s) h
      | inr n ↦ rw n (elim (Bool-cases (is_some (lookup task s.relays))) [
        | inl y ↦ rw y h
        | inr m ↦ rw (m, lookup-insert task k false s.relays) (ground arith)
      ])
    ]

pub resume-Present :
    {Q : Type 0} (r : Recovering) (timeout : Option ℕ) (task : Text) (t : Task) (k : Text)
    (s : Service Q)
    → Present k s.db
    → Present k (resume r timeout task t s).db
unfolding resume start_adapter_relay
resume-Present r timeout task t k s h =
    elim (Bool-cases (leb (task_timeout_ms timeout) (elapsed r.world.now t.started_at))) [
      | inl y ↦ rw y (
          fail_task-Present_other r.world task r.timestamp _ _ _ k
            (rw (cancellation-db r.answer task s) h))
      | inr n ↦
          rw n
            (elim (Bool-cases (is_some (lookup task s.relays))) [ inl y ↦ rw y h | inr m ↦ rw m h ])
    ]

pub resume-queue :
    {Q : Type 0} (r : Recovering) (timeout : Option ℕ) (task : Text) (t : Task) (s : Service Q)
    → (resume r timeout task t s).queue ≡ s.queue
unfolding resume start_adapter_relay
resume-queue r timeout task t s =
    elim (Bool-cases (leb (task_timeout_ms timeout) (elapsed r.world.now t.started_at))) [
      | inl y ↦ rw y (cancellation-queue r.answer task s)
      | inr n ↦ rw n (elim (Bool-cases (is_some (lookup task s.relays))) [
        | inl y ↦ rw y refl
        | inr m ↦ rw m refl
      ])
    ]

pub resume_row-queue :
    {Q : Type 0} (world : Text → Recovering) (timeout : Option ℕ) (task : Text) (t : Task)
    (s : Service Q)
    → (resume_row world timeout task t s).queue ≡ s.queue
unfolding resume_row
resume_row-queue world timeout task t s =
    elim (Bool-cases (truthy (or_else t.adapter_stream_url []))) [
      | inl y ↦ rw y (resume-queue (world task) timeout task t s)
      | inr n ↦ rw n refl
    ]

pub resume_all-queue :
    {Q : Type 0} (world : Text → Recovering) (timeout : Option ℕ) (rows : List (Text × Task))
    (s : Service Q)
    → (resume_all world timeout rows s).queue ≡ s.queue
unfolding resume_all
resume_all-queue world timeout [] s = refl
resume_all-queue world timeout ((task, t) ∷ more) s =
    resume_all-queue world timeout more (resume_row world timeout task t s)
    ∙ resume_row-queue world timeout task t s
