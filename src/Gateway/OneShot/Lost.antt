-- ===== src/Gateway/OneShot/Lost.antt =====
-- A run that ends before the gateway has accepted it.
use claw_work.Prelude.{List, false, none, ◌≡◌}
use claw_work.Event.{TaskStreamEvent}
use claw_work.Gateway.OneShot.{Run}

-- Nothing is left that could settle the promise or send an event.
record Dead (events : List TaskStreamEvent) (s : Run) : Type 0 where
  deaf : s.listening ≡ false
  no_timer : s.connect_timer ≡ false
  no_http : s.http_pending ≡ false
  unsettled : s.promise ≡ none
  frozen : s.events ≡ events
