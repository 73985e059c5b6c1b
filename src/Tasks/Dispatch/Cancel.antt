-- ===== src/Tasks/Dispatch/Cancel.antt =====
-- `cancelTask`: what it leaves, and the order of steps in which the worker goes on.
use claw_work.Prelude.{ℕ, Bool, Text, false, lookup, some, true, ◌≡◌}
use claw_work.TaskQueue.{Bull}
use claw_work.Tasks.{AppSession, Db, Status, Task, is_terminal_status, adjust}
use claw_work.Tasks.Storage.{Reply, reply, refuse}
use claw_work.Tasks.Persist.{World}
use claw_work.Tasks.Persist.Rows.{Ended}
use claw_work.Tasks.Dispatch.{CancelAnswer, Service, after_claim, claim}
use claw_work.Tasks.Dispatch.Stop.{finish_cancel, stop_execution}
use claw_work.Tasks.Dispatch.Relay.{}

-- A call of `cancelTask` that returns a status has left the task ended with that status. One that
-- throws for want of the task or of the adapter changes neither the tables nor the relays, and one
-- whose write the database fails has aborted the relay of the task and changed nothing else of them.
pub data CancelEnd {Q : Type 0} (works : Bool) (task : Text) (s : Service Q)
    : Service Q × Reply Status → Type 0 where
  ended_with :
      {s' : Service Q} {status : Status} (t : Task)
      → lookup task s'.db.tasks ≡ some t
      → t.status ≡ status
      → is_terminal_status status ≡ true
      → CancelEnd works task s (s', reply status)
  not_stopped :
      {s' : Service Q} {code : ℕ}
      → s'.db ≡ s.db
      → s'.relays ≡ s.relays
      → CancelEnd works task s (s', refuse code)
  not_stored :
      {s' : Service Q}
      → works ≡ false
      → s'.db ≡ s.db
      → s'.relays ≡ adjust task (λ (x : Bool). true) s.relays
      → CancelEnd works task s (s', refuse 500)

-- `cancelTask` reads the queued task `t`; before its event is stored, the worker claims the task; the
-- worker goes on when the event is stored.
unfoldable pub claim_before_cancel :
    {Q : Type 0}
    → Bull Q
    → World
    → CancelAnswer
    → (task timestamp run url : Text) → ℕ
    → Task
    → Service Q
    → Service Q
unfolding stop_execution claim finish_cancel after_claim
claim_before_cancel {Q} b w answer task timestamp run url now t s =
    let stopped : Service Q = (stop_execution b answer task t.status s).0 in
    let claimed : Db × Bool = claim task run url now stopped.db in
    let ended : Service Q =
      (finish_cancel w true task timestamp t (record stopped { db = claimed.0 })).0 in
    after_claim answer task t.session_id ended claimed.1

abbrev pub HasSession : Text → Db → Type 0
HasSession k db = (c : AppSession) × (lookup k db.sessions ≡ some c)

-- What the race leaves of a service `s`.
abbrev pub Relayed : {Q : Type 0} → Text → Task → Service Q → Service Q → Type 0
Relayed task t s s' =
    Ended task s'.db
    × ((u : AppSession) × (lookup t.session_id s'.db.sessions ≡ some u)
        × (u.status ≡ Status.running))
    × (lookup task s'.relays ≡ some false)
    × (s'.cancellations ≡ s.cancellations)
