-- ===== src/TaskQueue/Jobs.antt =====
-- What the service makes of the queue's laws.
use claw_work.Prelude.{Bool-cases, Option-cases, Text, inl, inr, refl, true, ◌≡◌, ◌≢◌, ◌∙◌}
use claw_work.TaskQueue.{
  Bull, BullLaws, QueueEnv, attempts, enqueue, is_finished, is_pending, stale,
}

module _ {Q : Type 0} (b : Bull Q) (laws : BullLaws b) where
  -- After a reconciling `enqueue` the task has a job that waits or runs, whatever the queue held
  -- of it, also a job that had failed or completed.
  pub enqueue-is_pending :
      (env : QueueEnv) (task : Text) (q : Q)
      → is_pending (b.state_of task (enqueue b env task true q)) ≡ true
  unfolding enqueue
  enqueue-is_pending env task q = elim (Option-cases (b.state_of task q)) [
    | inl n ↦ rw n (laws.added task (attempts env) q n)
    | inr (s, y) ↦ rw y (elim (Bool-cases (is_finished s)) [
      | inl f ↦ rw f (laws.added task (attempts env) (b.remove task q) (laws.removed task q))
      | inr f ↦ rw (f, laws.present task (attempts env) q (rw y refl)) (rw (y, f) refl)
    ])
  ]

  -- The other jobs stay what they were.
  pub enqueue-other :
      (env : QueueEnv) (task other : Text) (q : Q)
      → task ≢ other
      → b.state_of other (enqueue b env task true q) ≡ b.state_of other q
  unfolding enqueue
  enqueue-other env task other q h = elim (Bool-cases (stale (b.state_of task q))) [
    | inl f ↦ rw f (laws.add_other task other (attempts env) _ h ∙ laws.remove_other task other q h)
    | inr f ↦ rw f (laws.add_other task other (attempts env) q h)
  ]
