-- ===== src/Tasks/Dispatch/Queries.antt =====
-- What the queries of `onModuleInit` find, and what a row keeps while the queued tasks are put back.
use claw_work.Prelude.{
  Dict, length, take, ap, ap₂, or_else, truthy, none, sym, suc, zero, ◌≤◌, ◌&&◌, Bool-cases, All,
  List, Option, Text, [], subst, arith, inl, inr, is_some, lookup, refl, some, text_eq, text_eq_iff,
  true, ℕ, ◌∷◌, ◌≡◌, ◌∙◌,
}
use claw_work.TaskQueue.{Bull, QueueEnv}
use claw_work.TaskQueue.Jobs.{}
use claw_work.Tasks.{Status, Task, is_queued, lookup-adjust}
use claw_work.Tasks.Persist.Rows.{}
use claw_work.Tasks.Dispatch.{Service}
use claw_work.Tasks.Dispatch.Restart.{requeue, requeue_all, queued_ids, running_rows, is_running}
use claw_work.Tasks.Dispatch.Requests.{}

-- What holds of every row of a query holds of the row that is found.
pub queued_ids-All :
    (P : Text → Type 0) (rows : Dict Task) (k : Text) (t : Task)
    → All P (queued_ids rows)
    → lookup k rows ≡ some t
    → t.status ≡ Status.queued
    → P k
unfolding queued_ids lookup
queued_ids-All P [] k t h e q = absurd (cc)
queued_ids-All P ((j, u) ∷ rows) k t h e q = elim (Bool-cases (text_eq j k)) [
  | inl y ↦
      let same : j ≡ k = ground (arith, text_eq_iff j k) in
      let one : u ≡ t = ground arith in
      let queued : is_queued u.status ≡ true =
        ap (λ (x : Task). is_queued x.status) one ∙ ap is_queued q in
      subst P same (let (p, _) = (rw queued at h) in p)
  | inr n ↦
      queued_ids-All P rows k t
        (elim (Bool-cases (is_queued u.status)) [
          | inl z ↦ (let (_, r) = (rw z at h) in r)
          | inr z ↦ (rw z at h)
        ])
        (ground arith) q
]

pub running_rows-All :
    (P : Text × Task → Type 0) (rows : Dict Task) (k : Text) (t : Task)
    → All P (running_rows rows)
    → lookup k rows ≡ some t
    → t.status ≡ Status.running
    → truthy (or_else t.adapter_stream_url []) ≡ true
    → P (k, t)
unfolding running_rows lookup
running_rows-All P [] k t h e q full = absurd (cc)
running_rows-All P ((j, u) ∷ rows) k t h e q full = elim (Bool-cases (text_eq j k)) [
  | inl y ↦
      let same : j ≡ k = ground (arith, text_eq_iff j k) in
      let one : u ≡ t = ground arith in
      let found : (is_running u.status && is_some u.adapter_stream_url) ≡ true =
        subst (λ (x : Task). (is_running x.status && is_some x.adapter_stream_url) ≡ true) (sym one)
          (rw q (has_address t.adapter_stream_url full)) in
      subst P (ap₂ (λ (a : Text) (b : Task). (a, b)) same one) (let (p, _) = (rw found at h) in p)
  | inr n ↦
      running_rows-All P rows k t
        (elim (Bool-cases (is_running u.status && is_some u.adapter_stream_url)) [
          | inl z ↦ (let (_, r) = (rw z at h) in r)
          | inr z ↦ (rw z at h)
        ])
        (ground arith) q full
]
  where
    has_address : (o : Option Text) → truthy (or_else o []) ≡ true → is_some o ≡ true
    has_address none e = absurd (cc)
    has_address (some a) e = refl

-- What a row keeps when its task gets a new job.
pub record Queued (t u : Task) : Type 0 where
  pub status : u.status ≡ t.status
  pub address : u.adapter_stream_url ≡ t.adapter_stream_url
  pub started : u.started_at ≡ t.started_at

pub requeue_all-row :
    {Q : Type 0} (b : Bull Q) (env : QueueEnv) (tasks : List Text) (k : Text) (t v : Task)
    (s : Service Q)
    → lookup k s.db.tasks ≡ some v
    → Queued t v
    → (u : Task) × (lookup k (requeue_all b env tasks s).db.tasks ≡ some u) × Queued t u
unfolding requeue_all requeue
requeue_all-row b env [] k t v s h q = (v, h, q)
requeue_all-row b env (task ∷ tasks) k t v s h q = elim (Bool-cases (text_eq task k)) [
  | inl y ↦
      requeue_all-row b env tasks k t (record v { queue_job_id = some task }) (requeue b env task s)
        (lookup-adjust task k _ s.db.tasks ∙ rw (y, h) refl)
        (record { status = q.status; address = q.address; started = q.started })
  | inr n ↦
      requeue_all-row b env tasks k t v (requeue b env task s)
        (lookup-adjust task k _ s.db.tasks ∙ rw n h) q
]

pub take-length : {A : Type 0} (n : ℕ) (xs : List A) → length xs ≤ n → take n xs ≡ xs
take-length zero [] h = refl
take-length zero (x ∷ xs) h = absurd (omega arith)
take-length (suc n) [] h = refl
take-length (suc n) (x ∷ xs) h = ap (λ ys. x ∷ ys) (take-length n xs (omega arith))
