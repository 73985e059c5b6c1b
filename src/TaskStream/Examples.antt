-- ===== src/TaskStream/Examples.antt =====
-- A stream at concrete events.
use claw_work.Prelude.{[], arith, js, refl, ℕ, ◌∷◌, ◌≡◌}
use claw_work.Event.{Detail}
use claw_work.TaskStream.{
  PersistedTaskEvent, open_stream, on_replay, on_live_all, complete, emit, emit_all, insert_sorted,
  next, on_live, sort, teardown,
}
use claw_work.TaskStream.Emit.{until_terminal}
use claw_work.TaskStream.Delivery.{stream-delivers}

abbrev row : ℕ → Detail → PersistedTaskEvent
row n d = record {
  id = n;
  event = record {
    task_id = js "t";
    session_id = js "s";
    run_id = js "r";
    timestamp = js "";
    detail = d;
  };
}

abbrev part : ℕ → PersistedTaskEvent
part n = row n (Detail.delta (js "a"))

abbrev last_row : PersistedTaskEvent
last_row = row 9 Detail.completed

joins_replay_and_live :
    (on_live_all
      (last_row ∷ part 10 ∷ [])
      (on_replay (part 5 ∷ part 6 ∷ []) (on_live_all (part 6 ∷ part 8 ∷ []) (open_stream 4)))).sent
    ≡ part 5 ∷ part 6 ∷ part 8 ∷ last_row ∷ []
unfolding open_stream on_live on_live_all on_replay emit next complete emit_all sort insert_sorted
    teardown
joins_replay_and_live = refl

stream-delivers_example :
    (on_live_all
      (last_row ∷ [])
      (on_replay (part 5 ∷ part 6 ∷ []) (on_live_all (part 6 ∷ part 8 ∷ []) (open_stream 4)))).sent
    ≡ until_terminal (part 5 ∷ part 6 ∷ part 8 ∷ last_row ∷ [])
stream-delivers_example =
    stream-delivers 4 (part 5 ∷ []) (part 6 ∷ []) (part 8 ∷ []) (last_row ∷ []) (omega arith)
