-- ===== src/Tasks/Persist/Delivery.antt =====
-- What the hub gets of the log, and the text of a result.
use claw_work.Prelude.{
  Bool-cases, List, Option, Text, [], ap, ap₂, arith, get_last?, get_last?-concat, if◌then◌else◌,
  inl, inr, refl, some, subst, sym, text_eq, ℕ, ◌++◌, ◌∙◌, ◌∷◌, ◌≡◌,
}
use mathlib.Core.Option
use claw_work.Event.{Detail, TaskStreamEvent, is_terminal_detail}
use claw_work.TaskStream.{PersistedTaskEvent}
use claw_work.Tasks.{Db, TaskEvent, TaskResult}
use claw_work.Tasks.Persist.{
  World, persist_task_event, Outcome, announce, append_event, apply_detail, apply_event,
  complete_task, delta_text, output_text, written_at,
}
use claw_work.Tasks.Persist.Cases.{
  with_archive, Persisted, unsigned, unsigned_event, kept, wrote, persist_task_event-Persisted,
}
use claw_work.Tasks.Persist.Terminal.{apply_detail-events}

-- An event as a client counts it: its number and the whole event, but for the address that is
-- signed for the reader of a result.
abbrev pub View : Type 0
View = ℕ × TaskStreamEvent

abbrev pub view : ℕ → TaskStreamEvent → View
view id e = (id, unsigned_event e)

unfoldable pub log_of : Text → List TaskEvent → List View
log_of task [] = []
log_of task (row ∷ rows) =
    if text_eq row.task_id task
    then view row.id row.payload ∷ log_of task rows
    else log_of task rows

unfoldable pub hub_of : Text → List (Text × PersistedTaskEvent) → List View
hub_of task [] = []
hub_of task ((k, item) ∷ items) =
    if text_eq k task then view item.id item.event ∷ hub_of task items else hub_of task items

-- Each task's deliveries are the rows of its log, in their order.
abbrev pub Delivered : Db → Type 0
Delivered db = (task : Text) → hub_of task db.hub ≡ log_of task db.events

unfoldable pub text_of : List View → Text
text_of [] = []
text_of ((id, e) ∷ vs) = delta_text e.detail ++ text_of vs

log_of-concat :
    (task : Text) (rows : List TaskEvent) (row : TaskEvent)
    → log_of task (rows ++ row ∷ []) ≡ (
        if text_eq row.task_id task
        then log_of task rows ++ view row.id row.payload ∷ []
        else log_of task rows)
unfolding log_of
log_of-concat task [] row = refl
log_of-concat task (r ∷ rows) row = elim (Bool-cases (text_eq r.task_id task)) [
  | inl y ↦ rw (y, log_of-concat task rows row) (ground arith)
  | inr n ↦ rw n (log_of-concat task rows row)
]

hub_of-concat :
    (task : Text) (items : List (Text × PersistedTaskEvent)) (k : Text) (item : PersistedTaskEvent)
    → hub_of task (items ++ (k, item) ∷ []) ≡ (
        if text_eq k task
        then hub_of task items ++ view item.id item.event ∷ []
        else hub_of task items)
unfolding hub_of
hub_of-concat task [] k item = refl
hub_of-concat task ((j, i) ∷ items) k item = elim (Bool-cases (text_eq j task)) [
  | inl y ↦ rw (y, hub_of-concat task items k item) (ground arith)
  | inr n ↦ rw n (hub_of-concat task items k item)
]

apply_detail-hub :
    (task session : Text) (now : ℕ) (result run : Text) (d : Detail) (db : Db)
    → (apply_detail task session now result run d db).hub ≡ db.hub
unfolding apply_detail complete_task
apply_detail-hub task session now result run Detail.accepted db = refl
apply_detail-hub task session now result run (Detail.failed c m) db = refl
apply_detail-hub task session now result run (Detail.cancelled m) db = refl
apply_detail-hub task session now result run Detail.completed db = refl
apply_detail-hub task session now result run _ db = refl

pub persist-Delivered :
    (w : World) (e : TaskStreamEvent) (source : Option Text) (db : Db)
    → Delivered db
    → Delivered (persist_task_event w e source db).0
unfolding announce apply_event append_event
persist-Delivered w e source db inv = by_case (persist_task_event-Persisted w e source db)
  where
    by_case : {r : Db × Outcome} → Persisted w e source db r → Delivered r.0
    by_case (kept a o _ _) = inv
    by_case (wrote a o p t s q found live free) = λ j.
        let stored_db : Db = append_event e.task_id source p.stored (with_archive a o db) in
        let hub : (apply_detail e.task_id t.session_id (written_at t p.stored.detail w.now)
              w.result_id p.stored.run_id p.stored.detail stored_db).hub
            ≡ db.hub =
          apply_detail-hub _ _ _ _ _ p.stored.detail _ in
        let log : (apply_detail e.task_id t.session_id (written_at t p.stored.detail w.now)
              w.result_id p.stored.run_id p.stored.detail stored_db).events
            ≡ stored_db.events =
          apply_detail-events _ _ _ _ _ p.stored.detail _ in
        ap
          (λ h. hub_of j (
            h ++ (p.published.task_id, record { id = db.next_event_id; event = p.published }) ∷ []))
          hub
        ∙ hub_of-concat j db.hub p.published.task_id _
        ∙ ap₂ (λ k (v : View). if text_eq k j then hub_of j db.hub ++ v ∷ [] else hub_of j db.hub)
            q.task (ap (λ x. (db.next_event_id, x)) q.view)
        ∙ ap
            (λ (vs : List View).
              if text_eq e.task_id j then vs ++ view db.next_event_id p.stored ∷ [] else vs)
            (inv j)
        ∙ sym (ap (log_of j) log ∙ log_of-concat j db.events _)

delta_text-unsigned : (d : Detail) → delta_text (unsigned d) ≡ delta_text d
delta_text-unsigned (Detail.result_created r) = refl
delta_text-unsigned (Detail.delta s) = refl
delta_text-unsigned (Detail.stage_changed s) = refl
delta_text-unsigned Detail.accepted = refl
delta_text-unsigned Detail.completed = refl
delta_text-unsigned (Detail.failed c m) = refl
delta_text-unsigned (Detail.cancelled m) = refl

output_text-log_of :
    (task : Text) (rows : List TaskEvent) → output_text task rows ≡ text_of (log_of task rows)
unfolding output_text log_of text_of
output_text-log_of task [] = refl
output_text-log_of task (r ∷ rows) = elim (Bool-cases (text_eq r.task_id task)) [
  | inl y ↦
      rw (y, delta_text-unsigned r.payload.detail)
        (ap (λ s. delta_text r.payload.detail ++ s) (output_text-log_of task rows))
  | inr n ↦ rw n (output_text-log_of task rows)
]

abbrev pub last_text : Db → Option Text
last_text db = Option.map (λ (r : TaskResult). r.output_text) (get_last? db.results)

complete_task-text :
    (task session : Text) (now : ℕ) (result : Text) (db : Db)
    → last_text (complete_task task session now result db) ≡ some (output_text task db.events)
unfolding complete_task
complete_task-text task session now result db =
    ap (Option.map (λ (r : TaskResult). r.output_text)) (get_last?-concat db.results _)

-- When a task is completed, the text of its new result is the text that the hub has delivered for
-- it piece by piece.
pub persist-completed_text :
    (w : World) (e : TaskStreamEvent) (source : Option Text) (db : Db)
    → Delivered db
    → e.detail ≡ Detail.completed
    → (persist_task_event w e source db).1 ≡ Outcome.stored
    → last_text (persist_task_event w e source db).0
      ≡ some (text_of (hub_of e.task_id (persist_task_event w e source db).0.hub))
unfolding announce apply_event append_event
persist-completed_text w e source db inv d h =
    by_case (persist_task_event-Persisted w e source db) h
    ∙ ap some (
        output_text-log_of e.task_id (persist_task_event w e source db).0.events
        ∙ ap text_of (sym (persist-Delivered w e source db inv e.task_id)))
  where
    by_case :
        {r : Db × Outcome}
        → Persisted w e source db r
        → r.1 ≡ Outcome.stored
        → last_text r.0 ≡ some (output_text e.task_id r.0.events)
    by_case (kept a o _ n) k = absurd (n k)
    by_case (wrote a o p t s q found live free) k =
        let done : p.stored.detail ≡ Detail.completed = s.same (ap is_terminal_detail d) ∙ d in
        let stored_db : Db = append_event e.task_id source p.stored (with_archive a o db) in
        subst
          (λ v.
            last_text (
              apply_detail e.task_id t.session_id (written_at t p.stored.detail w.now) w.result_id
                p.stored.run_id v stored_db)
            ≡ some (
                output_text e.task_id
                  (apply_detail e.task_id t.session_id (written_at t p.stored.detail w.now)
                    w.result_id p.stored.run_id v stored_db).events))
          (sym done)
          (unfold apply_detail complete_task in
            complete_task-text e.task_id t.session_id (written_at t p.stored.detail w.now)
              w.result_id stored_db)
