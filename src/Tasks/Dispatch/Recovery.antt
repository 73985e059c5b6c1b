-- ===== src/Tasks/Dispatch/Recovery.antt =====
-- `onModuleInit`: the tasks that a restart found queued or running are taken up again.
use claw_work.Prelude.{
  length, take, ap, or_else, truthy, ◌≤◌, ◌<◌, All-map, Bool-cases, All, List, Option, Text, [],
  subst, arith, false, inl, inr, is_some, leb, lookup, refl, some, text_eq, text_eq_iff, true, ℕ,
  ◌∷◌, ◌≡◌, ◌≢◌, ◌∙◌, lookup-insert_self,
}
use claw_work.TaskQueue.{Bull, BullLaws, QueueEnv, enqueue, is_pending}
use claw_work.TaskQueue.Jobs.{enqueue-is_pending, enqueue-other}
use claw_work.Tasks.{Status, Task}
use claw_work.Tasks.Persist.Rows.{Ended, Present, fail_task-Ended}
use claw_work.Tasks.Dispatch.{Service, start_adapter_relay}
use claw_work.Tasks.Dispatch.Restart.{
  Recovering, elapsed, on_module_init, requeue, requeue_all, resume, resume_all, resume_row,
  queued_ids, queued_tasks, running_rows, task_timeout_ms,
}
use claw_work.Tasks.Dispatch.Requests.{cancellation-db}
use claw_work.Tasks.Dispatch.Resume.{resume-Ended, resume-relay, resume-Present, resume_all-queue}
use claw_work.Tasks.Dispatch.Queries.{
  queued_ids-All, running_rows-All, Queued, requeue_all-row, take-length,
}

module _ {Q : Type 0} (b : Bull Q) (laws : BullLaws b) (env : QueueEnv) where
  abbrev Pending : Service Q → Text → Type 0
  Pending s task = is_pending (b.state_of task s.queue) ≡ true

  requeue-Pending :
      (task other : Text) (s : Service Q) → Pending s other → Pending (requeue b env task s) other
  unfolding requeue
  requeue-Pending task other s h = elim (Bool-cases (text_eq task other)) [
    | inl y ↦
        let same : task ≡ other = ground (arith, text_eq_iff task other) in
        subst (λ k. is_pending (b.state_of k (enqueue b env task true s.queue)) ≡ true) same
          (enqueue-is_pending b laws env task s.queue)
    | inr n ↦
        let differ : task ≢ other = (λ e. ground (arith, text_eq_iff task other)) in
        rw (enqueue-other b laws env task other s.queue differ) h
  ]

  requeue_all-Pending :
      (tasks : List Text) (other : Text) (s : Service Q)
      → Pending s other
      → Pending (requeue_all b env tasks s) other
  unfolding requeue_all
  requeue_all-Pending [] other s h = h
  requeue_all-Pending (task ∷ tasks) other s h =
      requeue_all-Pending tasks other (requeue b env task s) (requeue-Pending task other s h)

  pub requeue_all-is_pending :
      (tasks : List Text) (s : Service Q)
      → All
          (λ (task : Text). is_pending (b.state_of task (requeue_all b env tasks s).queue) ≡ true)
          tasks
  unfolding requeue_all
  requeue_all-is_pending [] s = tt
  requeue_all-is_pending (task ∷ tasks) s = (
    requeue_all-Pending tasks task (requeue b env task s)
        (unfold requeue in enqueue-is_pending b laws env task s.queue),
    requeue_all-is_pending tasks (requeue b env task s),
  )

-- What becomes of the task of a running row `t`: once its time is over it is ended, and as long as
-- it has time left a relay stands for it.
pub data TakenUp {Q : Type 0} (r : Recovering) (timeout : Option ℕ) (task : Text) (t : Task)
    (s : Service Q) : Type 0 where
  overdue :
      task_timeout_ms timeout ≤ elapsed r.world.now t.started_at
      → Ended task s.db
      → TakenUp r timeout task t s
  resumed :
      elapsed r.world.now t.started_at < task_timeout_ms timeout
      → is_some (lookup task s.relays) ≡ true
      → TakenUp r timeout task t s

resume-TakenUp_self :
    {Q : Type 0} (r : Recovering) (timeout : Option ℕ) (task : Text) (t : Task) (s : Service Q)
    → Present task s.db
    → TakenUp r timeout task t (resume r timeout task t s)
unfolding resume start_adapter_relay
resume-TakenUp_self r timeout task t s there =
    elim (Bool-cases (leb (task_timeout_ms timeout) (elapsed r.world.now t.started_at))) [
      | inl y ↦ overdue (ground arith) (
          rw y (
            fail_task-Ended r.world task r.timestamp _ _ _
              (rw (cancellation-db r.answer task s) there)))
      | inr n ↦ resumed (ground arith) (
          rw n (elim (Bool-cases (is_some (lookup task s.relays))) [
            | inl y ↦ rw y y
            | inr m ↦ rw (m, lookup-insert_self task false s.relays) refl
          ]))
    ]

resume_row-TakenUp :
    {Q : Type 0} (world : Text → Recovering) (timeout : Option ℕ) (task : Text) (t : Task)
    (k : Text) (u : Task) (s : Service Q)
    → TakenUp (world k) timeout k u s
    → TakenUp (world k) timeout k u (resume_row world timeout task t s)
unfolding resume_row
resume_row-TakenUp world timeout task t k u s h =
    elim (Bool-cases (truthy (or_else t.adapter_stream_url []))) [
      | inr n ↦ rw n h
      | inl y ↦ rw y (elim h [
        | overdue o e ↦ overdue o (resume-Ended (world task) timeout task t k s e)
        | resumed o e ↦ resumed o (resume-relay (world task) timeout task t k s e)
      ])
    ]

resume_row-Present :
    {Q : Type 0} (world : Text → Recovering) (timeout : Option ℕ) (task : Text) (t : Task)
    (k : Text) (s : Service Q)
    → Present k s.db
    → Present k (resume_row world timeout task t s).db
unfolding resume_row
resume_row-Present world timeout task t k s h =
    elim (Bool-cases (truthy (or_else t.adapter_stream_url []))) [
      | inl y ↦ rw y (resume-Present (world task) timeout task t k s h)
      | inr n ↦ rw n h
    ]

resume_all-TakenUp :
    {Q : Type 0} (world : Text → Recovering) (timeout : Option ℕ) (rows : List (Text × Task))
    (k : Text) (u : Task) (s : Service Q)
    → TakenUp (world k) timeout k u s
    → TakenUp (world k) timeout k u (resume_all world timeout rows s)
unfolding resume_all
resume_all-TakenUp world timeout [] k u s h = h
resume_all-TakenUp world timeout ((task, t) ∷ more) k u s h =
    resume_all-TakenUp world timeout more k u (resume_row world timeout task t s)
      (resume_row-TakenUp world timeout task t k u s h)

-- The task of a row that has an address is taken up by the loop over the rows.
abbrev Reaches :
    {Q : Type 0} → (Text → Recovering) → Option ℕ → Text × Task → Service Q → Service Q → Type 0
Reaches world timeout row s s' =
    Present row.0 s.db
    → truthy (or_else row.1.adapter_stream_url []) ≡ true
    → TakenUp (world row.0) timeout row.0 row.1 s'

resume_row-TakenUp_self :
    {Q : Type 0} (world : Text → Recovering) (timeout : Option ℕ) (task : Text) (t : Task)
    (s : Service Q)
    → Reaches world timeout (task, t) s (resume_row world timeout task t s)
unfolding resume_row
resume_row-TakenUp_self world timeout task t s there full =
    rw full (resume-TakenUp_self (world task) timeout task t s there)

resume_all-Reaches :
    {Q : Type 0} (world : Text → Recovering) (timeout : Option ℕ) (rows : List (Text × Task))
    (s : Service Q)
    → All
        (λ (row : Text × Task). Reaches world timeout row s (resume_all world timeout rows s))
        rows
unfolding resume_all
resume_all-Reaches world timeout [] s = tt
resume_all-Reaches world timeout ((task, t) ∷ more) s = (
  (λ there full.
      resume_all-TakenUp world timeout more task t (resume_row world timeout task t s)
        (resume_row-TakenUp_self world timeout task t s there full)),
  All-map more (λ row h there full. h (resume_row-Present world timeout task t row.0 s there) full)
      (resume_all-Reaches world timeout more (resume_row world timeout task t s)),
)

-- After a restart with at most ten thousand queued tasks, every task that is found queued has a job
-- that waits or runs, whatever had become of its old job.
pub on_module_init-is_pending :
    {Q : Type 0} (b : Bull Q) (laws : BullLaws b) (env : QueueEnv) (world : Text → Recovering)
    (timeout : Option ℕ) (s : Service Q) (k : Text) (t : Task)
    → length (queued_ids s.db.tasks) ≤ 10000
    → lookup k s.db.tasks ≡ some t
    → t.status ≡ Status.queued
    → is_pending (b.state_of k (on_module_init b env world timeout s).queue) ≡ true
unfolding on_module_init queued_tasks
on_module_init-is_pending b laws env world timeout s k t few found queued =
    rw (resume_all-queue world timeout _ (requeue_all b env (take 10000 (queued_ids s.db.tasks)) s))
      (queued_ids-All
        (λ task.
          is_pending
            (b.state_of task (requeue_all b env (take 10000 (queued_ids s.db.tasks)) s).queue)
          ≡ true)
        s.db.tasks k t
        (subst
          (All (λ task.
            is_pending
              (b.state_of task (requeue_all b env (take 10000 (queued_ids s.db.tasks)) s).queue)
            ≡ true))
          (take-length 10000 (queued_ids s.db.tasks) few)
          (requeue_all-is_pending b laws env (take 10000 (queued_ids s.db.tasks)) s))
        found queued)

-- After a restart every task that is found running, with an address of its stream, is taken up:
-- where its time is over, it is ended, and where it has time left, a relay stands for it.
pub on_module_init-TakenUp :
    {Q : Type 0} (b : Bull Q) (env : QueueEnv) (world : Text → Recovering) (timeout : Option ℕ)
    (s : Service Q) (k : Text) (t : Task)
    → lookup k s.db.tasks ≡ some t
    → t.status ≡ Status.running
    → truthy (or_else t.adapter_stream_url []) ≡ true
    → TakenUp (world k) timeout k t (on_module_init b env world timeout s)
unfolding on_module_init
on_module_init-TakenUp {Q} b env world timeout s k t found running full =
    let s' : Service Q = requeue_all b env (queued_tasks s.db) s in
    let (u, there, q) =
      requeue_all-row b env (queued_tasks s.db) k t t s found
        (record { status = refl; address = refl; started = refl }) in
    by_start u q (
      running_rows-All
        (λ row.
          Reaches world timeout row s' (resume_all world timeout (running_rows s'.db.tasks) s'))
        s'.db.tasks k u (resume_all-Reaches world timeout (running_rows s'.db.tasks) s') there
        (q.status ∙ running) (ap (λ o. truthy (or_else o [])) q.address ∙ full) (u, there)
        (ap (λ o. truthy (or_else o [])) q.address ∙ full))
  where
    by_start :
        {s'' : Service Q} (u : Task)
        → Queued t u
        → TakenUp (world k) timeout k u s''
        → TakenUp (world k) timeout k t s''
    by_start u q (overdue o e) =
        overdue (subst (λ at. task_timeout_ms timeout ≤ elapsed (world k).world.now at) q.started o)
          e
    by_start u q (resumed o e) =
        resumed (subst (λ at. elapsed (world k).world.now at < task_timeout_ms timeout) q.started o)
          e
