-- ===== src/Tasks/Dispatch/Requests.antt =====
-- A request to cancel leaves the tables, the relays and the queue alone.
use claw_work.Prelude.{Text, refl, ◌≡◌}
use claw_work.Tasks.Dispatch.{CancelAnswer, Service, request_gateway_cancellation}

pub cancellation-db :
    {Q : Type 0} (answer : CancelAnswer) (task : Text) (s : Service Q)
    → (request_gateway_cancellation answer task s).0.db ≡ s.db
unfolding request_gateway_cancellation
cancellation-db CancelAnswer.unconfigured task s = refl
cancellation-db CancelAnswer.unreachable task s = refl
cancellation-db (CancelAnswer.answered ok) task s = refl

pub cancellation-relays :
    {Q : Type 0} (answer : CancelAnswer) (task : Text) (s : Service Q)
    → (request_gateway_cancellation answer task s).0.relays ≡ s.relays
unfolding request_gateway_cancellation
cancellation-relays CancelAnswer.unconfigured task s = refl
cancellation-relays CancelAnswer.unreachable task s = refl
cancellation-relays (CancelAnswer.answered ok) task s = refl

pub cancellation-queue :
    {Q : Type 0} (answer : CancelAnswer) (task : Text) (s : Service Q)
    → (request_gateway_cancellation answer task s).0.queue ≡ s.queue
unfolding request_gateway_cancellation
cancellation-queue CancelAnswer.unconfigured task s = refl
cancellation-queue CancelAnswer.unreachable task s = refl
cancellation-queue (CancelAnswer.answered ok) task s = refl
