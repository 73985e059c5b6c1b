-- ===== src/Tasks/Persist/Rows.antt =====
-- What a call of `persistTaskEvent` or `failTask` does to the row of its task, and to the numbers
-- that the log has.
use claw_work.Prelude.{
  if◌then◌else◌, Bool, Bool-cases, List, Option, Option-cases, Text, [], any, arith, false, inl,
  inr, lookup, none, refl, some, text_eq, text_eq_iff, text_eq_refl, true, ◌++◌, ◌∷◌, ◌≡◌, ◌≢◌,
  ◌&&◌, ◌⊎◌, ◌∙◌, sym, subst, truthy, ℕ, or_else, ap,
}
use claw_work.Event.{Detail, TaskStreamEvent, is_terminal_detail}
use claw_work.Tasks.{Db, Status, Task, is_terminal_status}
use claw_work.Tasks.Persist.{
  Outcome, World, announce, append_event, apply_event, is_seen, is_taken, persist_task_event,
  prepare_detail, prepare_task_event, same_source, store_event, store_for, read_task, write_event,
  store_prepared, fail_task, failed_event, written_at,
}
use claw_work.Tasks.Persist.Cases.{
  Persisted, kept, persist_task_event-Persisted, with_archive, wrote,
}
use claw_work.Tasks.Persist.Terminal.{
  apply_detail-events, lookup-apply_detail, on_task, update_task, update_task-status,
}

-- The task has a row.
abbrev pub Present : Text → Db → Type 0
Present task db = (t : Task) × (lookup task db.tasks ≡ some t)

-- The task has ended.
abbrev pub Ended : Text → Db → Type 0
Ended task db = (t : Task) × (lookup task db.tasks ≡ some t) × (is_terminal_status t.status ≡ true)

on_task-some :
    (task : Text) (f : Task → Task) (t : Task) (o : Option Task)
    → o ≡ some t
    → on_task task task f o ≡ some (f t)
on_task-some task f t o h = rw (h, text_eq_refl task) refl

-- An event that is stored gives its task a row that is terminal if the event is.
pub persist-row :
    (w : World) (e : TaskStreamEvent) (source : Option Text) (db : Db)
    → (persist_task_event w e source db).1 ≡ Outcome.stored
    → (u : Task) × (lookup e.task_id (persist_task_event w e source db).0.tasks ≡ some u)
      × (is_terminal_status u.status ≡ is_terminal_detail e.detail)
unfolding announce apply_event append_event
persist-row w e source db = by_case (persist_task_event-Persisted w e source db)
  where
    by_case :
        {r : Db × Outcome}
        → Persisted w e source db r
        → r.1 ≡ Outcome.stored
        → (u : Task) × (lookup e.task_id r.0.tasks ≡ some u)
          × (is_terminal_status u.status ≡ is_terminal_detail e.detail)
    by_case (kept a o _ n) h = absurd (n h)
    by_case (wrote a o p t s q found live free) h = (
      update_task p.stored.run_id (written_at t p.stored.detail w.now) p.stored.detail t,
      lookup-apply_detail e.task_id t.session_id (written_at t p.stored.detail w.now) w.result_id
            p.stored.run_id p.stored.detail
            (append_event e.task_id source p.stored (with_archive a o db)) e.task_id
          ∙ on_task-some e.task_id _ t _ found,
      update_task-status p.stored.run_id (written_at t p.stored.detail w.now) p.stored.detail t live
          ∙ s.terminal,
    )

-- A cancellation that is stored makes its task cancelled.
pub persist-cancelled :
    (w : World) (e : TaskStreamEvent) (source : Option Text) (db : Db) (message : Text)
    → e.detail ≡ Detail.cancelled message
    → (persist_task_event w e source db).1 ≡ Outcome.stored
    → (u : Task) × (lookup e.task_id (persist_task_event w e source db).0.tasks ≡ some u)
      × (u.status ≡ Status.cancelled)
unfolding announce apply_event append_event
persist-cancelled w e source db message cancelled =
    by_case (persist_task_event-Persisted w e source db)
  where
    by_case :
        {r : Db × Outcome}
        → Persisted w e source db r
        → r.1 ≡ Outcome.stored
        → (u : Task) × (lookup e.task_id r.0.tasks ≡ some u) × (u.status ≡ Status.cancelled)
    by_case (kept a o _ n) h = absurd (n h)
    by_case (wrote a o p t s q found running free) h =
        let now : ℕ = written_at t p.stored.detail w.now in
        let same : p.stored.detail ≡ Detail.cancelled message =
          s.same (ap is_terminal_detail cancelled) ∙ cancelled in
        (
          update_task p.stored.run_id now p.stored.detail t,
          lookup-apply_detail e.task_id t.session_id now w.result_id p.stored.run_id p.stored.detail
                (append_event e.task_id source p.stored (with_archive a o db)) e.task_id
              ∙ on_task-some e.task_id _ t _ found,
          ap (λ d. (update_task p.stored.run_id now d t).status) same,
        )

pub persist-tasks :
    (w : World) (e : TaskStreamEvent) (source : Option Text) (db : Db)
    → (persist_task_event w e source db).1 ≢ Outcome.stored
    → (persist_task_event w e source db).0.tasks ≡ db.tasks
persist-tasks w e source db = by_case (persist_task_event-Persisted w e source db)
  where
    by_case :
        {r : Db × Outcome} → Persisted w e source db r → r.1 ≢ Outcome.stored → r.0.tasks ≡ db.tasks
    by_case (kept a o _ n) h = refl
    by_case (wrote a o p t s q found live free) h = absurd (h refl)

pub Outcome-cases : (o : Outcome) → (o ≡ Outcome.stored) ⊎ (o ≢ Outcome.stored)
Outcome-cases Outcome.stored = inl refl
Outcome-cases Outcome.skipped = inr (λ e. cc)
Outcome-cases Outcome.thrown = inr (λ e. cc)

pub persist-Present :
    (w : World) (e : TaskStreamEvent) (source : Option Text) (db : Db)
    → Present e.task_id db
    → Present e.task_id (persist_task_event w e source db).0
persist-Present w e source db (t, h) = elim (Outcome-cases (persist_task_event w e source db).1) [
  | inl y ↦ let (u, there, _) = persist-row w e source db y in (u, there)
  | inr n ↦ (t, rw (persist-tasks w e source db n) h)
]

prepare_detail-terminal :
    (w : World) (e : TaskStreamEvent) (d : Detail) (db : Db)
    → is_terminal_detail d ≡ true
    → prepare_detail w.env w.origins w.outside w.signed_url e d db
      ≡ (db, some (record { stored = e; published = e }))
unfolding prepare_detail
prepare_detail-terminal w e Detail.completed db h = refl
prepare_detail-terminal w e (Detail.cancelled m) db h = refl
prepare_detail-terminal w e (Detail.failed c m) db h = refl
prepare_detail-terminal w e Detail.accepted db h = absurd (cc)
prepare_detail-terminal w e (Detail.stage_changed s) db h = absurd (cc)
prepare_detail-terminal w e (Detail.delta s) db h = absurd (cc)
prepare_detail-terminal w e (Detail.result_created r) db h = absurd (cc)

and_false : (b : Bool) → (b && false) ≡ false
and_false true = refl
and_false false = refl

-- A terminal event whose source is new, for a task that runs, is stored.
pub persist-terminal_event :
    (w : World) (e : TaskStreamEvent) (source : Option Text) (db : Db) (t : Task)
    → is_terminal_detail e.detail ≡ true
    → lookup e.task_id db.tasks ≡ some t
    → is_terminal_status t.status ≡ false
    → is_taken e.task_id source db ≡ false
    → (persist_task_event w e source db).1 ≡ Outcome.stored
unfolding persist_task_event prepare_task_event store_prepared store_event store_for read_task
    write_event
persist-terminal_event w e source db t final found live free =
    let seen : is_seen e.task_id source db ≡ false =
      unfold is_seen in rw free (and_false (truthy (or_else source []))) in
    rw (seen, prepare_detail-terminal w e e.detail db final)
      (rw (found, store_for, read_task) (rw (live, seen, free) refl))

-- `failTask` ends a task that has a row.
pub fail_task-Ended :
    (w : World) (task timestamp code message : Text) (db : Db)
    → Present task db
    → Ended task (fail_task w task timestamp code message db).0
unfolding fail_task
fail_task-Ended w task timestamp code message db (t, found) =
    rw (found, fail_task)
      (elim (Bool-cases (is_terminal_status t.status)) [
        | inl y ↦ rw y (t, found, y)
        | inr live ↦
            let e : TaskStreamEvent = failed_event task timestamp code message t in
            rw live (
              persist-row w e none db
                (persist-terminal_event w e none db t refl found live (unfold is_taken in refl)))
      ])

-- Two sources are the same number.
abbrev pub clash : Option Text → Option Text → Bool
clash none _ = false
clash (some s) none = false
clash (some s) (some r) = text_eq s r

any-append {ℓ} :
    {A : Type ℓ} (p : A → Bool) (xs ys : List A)
    → any p xs ≡ false
    → any p ys ≡ false
    → any p (xs ++ ys) ≡ false
unfolding any
any-append p [] ys h k = k
any-append p (x ∷ xs) ys h k =
    let a : p x ≡ false = ground arith in
    let b : any p xs ≡ false = ground arith in rw (a, any-append p xs ys b k) refl

row_clash :
    (task k : Text) (id : ℕ) (source : Option Text) (e : TaskStreamEvent)
    → clash source (some k) ≡ false
    → any
        (same_source task k)
        (record { id = id; task_id = task; source_event_id = source; payload = e } ∷ [])
      ≡ false
unfolding any
row_clash task k id none e h = rw (and_false (text_eq task task)) refl
row_clash task k id (some r) e h = rw (h, and_false (text_eq task task)) refl

-- What is new stays new when another event is stored.
pub persist-is_taken :
    (w : World) (e : TaskStreamEvent) (source s : Option Text) (db : Db)
    → is_taken e.task_id s db ≡ false
    → clash source s ≡ false
    → is_taken e.task_id s (persist_task_event w e source db).0 ≡ false
unfolding is_taken announce apply_event append_event
persist-is_taken w e source none db free other = refl
persist-is_taken w e source (some k) db free other =
    by_case (persist_task_event-Persisted w e source db)
  where
    by_case :
        {r : Db × Outcome} → Persisted w e source db r → is_taken e.task_id (some k) r.0 ≡ false
    by_case (kept a o _ n) = free
    by_case (wrote a o p t q q' found live free') =
        rw
          (apply_detail-events e.task_id t.session_id (written_at t p.stored.detail w.now)
            w.result_id p.stored.run_id p.stored.detail
            (append_event e.task_id source p.stored (with_archive a o db)))
          (any-append (same_source e.task_id k) db.events _ free
            (row_clash e.task_id k db.next_event_id source p.stored other))

on_task-Present :
    (task k : Text) (f : Task → Task) (o : Option Task)
    → (t : Task) × (o ≡ some t)
    → (t : Task) × (on_task task k f o ≡ some t)
on_task-Present task k f o (t, h) = (if text_eq task k then f t else t, rw h (ground arith))

-- A task keeps its row, whatever event comes, for whatever task.
pub persist-Present_other :
    (w : World) (e : TaskStreamEvent) (source : Option Text) (db : Db) (k : Text)
    → Present k db
    → Present k (persist_task_event w e source db).0
unfolding announce apply_event append_event
persist-Present_other w e source db k h = by_case (persist_task_event-Persisted w e source db)
  where
    by_case : {r : Db × Outcome} → Persisted w e source db r → Present k r.0
    by_case (kept a o _ n) = h
    by_case (wrote a o p t s q found live free) =
        let (u, there) =
          on_task-Present e.task_id k
            (update_task p.stored.run_id (written_at t p.stored.detail w.now) p.stored.detail) _
            h in
        (
          u,
          lookup-apply_detail e.task_id t.session_id (written_at t p.stored.detail w.now)
                w.result_id p.stored.run_id p.stored.detail
                (append_event e.task_id source p.stored (with_archive a o db)) k
              ∙ there,
        )

-- The row of a task that has ended stays what it is, whatever event comes, for whatever task.
pub persist-terminal_row :
    (w : World) (e : TaskStreamEvent) (source : Option Text) (db : Db) (k : Text) (u : Task)
    → lookup k db.tasks ≡ some u
    → is_terminal_status u.status ≡ true
    → lookup k (persist_task_event w e source db).0.tasks ≡ some u
unfolding announce apply_event append_event
persist-terminal_row w e source db k u there ended =
    by_case (persist_task_event-Persisted w e source db)
  where
    by_case : {r : Db × Outcome} → Persisted w e source db r → lookup k r.0.tasks ≡ some u
    by_case (kept a o _ n) = there
    by_case (wrote a o p t s q found live free) =
        lookup-apply_detail e.task_id t.session_id (written_at t p.stored.detail w.now) w.result_id
          p.stored.run_id p.stored.detail
          (append_event e.task_id source p.stored (with_archive a o db)) k
        ∙ elim (Bool-cases (text_eq e.task_id k)) [
          | inr n ↦ rw n there
          | inl y ↦
              let same : e.task_id ≡ k = ground (arith, text_eq_iff e.task_id k) in
              let one : t ≡ u =
                (let h : lookup e.task_id db.tasks ≡ some u =
                    subst (λ j. lookup j db.tasks ≡ some u) (sym same) there in
                  ground arith) in
              let clash : is_terminal_status t.status ≡ true =
                subst (λ (v : Task). is_terminal_status v.status ≡ true) (sym one) ended in
              absurd (ground arith)
        ]

pub fail_task-terminal_row :
    (w : World) (task timestamp code message : Text) (db : Db) (k : Text) (u : Task)
    → lookup k db.tasks ≡ some u
    → is_terminal_status u.status ≡ true
    → lookup k (fail_task w task timestamp code message db).0.tasks ≡ some u
unfolding fail_task
fail_task-terminal_row w task timestamp code message db k u there ended =
    elim (Option-cases (lookup task db.tasks)) [
      | inl e ↦ rw (e, fail_task) there
      | inr (t, e) ↦
          rw (e, fail_task)
            (elim (Bool-cases (is_terminal_status t.status)) [
              | inl y ↦ rw y there
              | inr n ↦ rw n (
                  persist-terminal_row w (failed_event task timestamp code message t) none db k u
                    there ended)
            ])
    ]

-- A call for one task keeps the rows of the others.
pub fail_task-Present_other :
    (w : World) (task timestamp code message : Text) (db : Db) (k : Text)
    → Present k db
    → Present k (fail_task w task timestamp code message db).0
unfolding fail_task
fail_task-Present_other w task timestamp code message db k h =
    elim (Option-cases (lookup task db.tasks)) [
      | inl e ↦ rw (e, fail_task) h
      | inr (t, e) ↦
          rw (e, fail_task)
            (elim (Bool-cases (is_terminal_status t.status)) [
              | inl y ↦ rw y h
              | inr n ↦
                  rw n (
                    persist-Present_other w (failed_event task timestamp code message t) none db k
                      h)
            ])
    ]
