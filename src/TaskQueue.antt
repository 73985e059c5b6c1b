-- ===== src/TaskQueue.antt =====
-- apps/mobile-api/src/queue/task-queue.service.ts over the job queue that it imports. The queue is
-- a parameter: `Q` is what Redis holds, `Bull` the calls that the service makes, and `BullLaws`
-- what the queue's documentation says of them.
pub mod Jobs
pub mod Dictionary
use claw_work.Prelude.{
  Bool, Option, Text, false, if◌then◌else◌, is_some, leb, none, not, some, true, ℕ, ◌&&◌, ◌≡◌, ◌≢◌,
}
use claw_work.Tasks.{as_positive_integer}

pub data JobState : Type 0 where
  waiting delayed paused prioritized active completed failed : JobState

pub record Bull (Q : Type 0) : Type 0 where
  pub state_of : Text → Q → Option JobState
  pub add : (job : Text) (attempts : ℕ) → Q → Q
  pub remove : Text → Q → Q

abbrev pub is_finished : JobState → Bool
is_finished JobState.completed = true
is_finished JobState.failed = true
is_finished _ = false

-- `["waiting", "delayed", "paused", "prioritized"].includes(state)`
abbrev pub is_removable : JobState → Bool
is_removable JobState.waiting = true
is_removable JobState.delayed = true
is_removable JobState.paused = true
is_removable JobState.prioritized = true
is_removable _ = false

-- A job that waits or runs.
abbrev pub is_pending : Option JobState → Bool
is_pending none = false
is_pending (some s) = not (is_finished s)

-- The queue adds a job under a new identifier and leaves one that it has alone.
pub record BullLaws {Q : Type 0} (b : Bull Q) : Type 0 where
  pub added :
      (job : Text) (n : ℕ) (q : Q)
      → b.state_of job q ≡ none
      → is_pending (b.state_of job (b.add job n q)) ≡ true
  pub present : (job : Text) (n : ℕ) (q : Q) → is_some (b.state_of job q) ≡ true → b.add job n q ≡ q
  pub removed : (job : Text) (q : Q) → b.state_of job (b.remove job q) ≡ none
  pub add_other :
      (job other : Text) (n : ℕ) (q : Q)
      → job ≢ other
      → b.state_of other (b.add job n q) ≡ b.state_of other q
  pub remove_other :
      (job other : Text) (q : Q)
      → job ≢ other
      → b.state_of other (b.remove job q) ≡ b.state_of other q

-- The variables that the service reads.
pub record QueueEnv : Type 0 where
  pub task_queue_attempts : Option ℕ
  pub is_test : Bool

unfoldable pub attempts : QueueEnv → ℕ
unfolding as_positive_integer
attempts env = as_positive_integer env.task_queue_attempts (if env.is_test then 1 else 5)

abbrev pub stale : Option JobState → Bool
stale none = false
stale (some s) = is_finished s

abbrev removable : Option JobState → Bool
removable none = false
removable (some s) = is_removable s

module _ {Q : Type 0} (b : Bull Q) where
  unfoldable pub enqueue : QueueEnv → (task : Text) (reconcile : Bool) → Q → Q
  unfolding attempts
  enqueue env task reconcile q =
      if reconcile && stale (b.state_of task q)
      then b.add task (attempts env) (b.remove task q)
      else b.add task (attempts env) q

  -- The queue after the call, and whether the job was removed.
  unfoldable pub cancel : Text → Q → Q × Bool
  cancel task q = if removable (b.state_of task q) then (b.remove task q, true) else (q, false)

-- The guard of the handler of "failed": was it the last attempt? `limit` is `job.opts.attempts`.
unfoldable pub is_final_failure : (attempts_made : ℕ) (limit : Option ℕ) → Bool
is_final_failure made none = leb 1 made
is_final_failure made (some n) = leb n made
