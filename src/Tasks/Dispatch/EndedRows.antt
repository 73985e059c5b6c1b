-- ===== src/Tasks/Dispatch/EndedRows.antt =====
-- The row of a task that has ended, under each write of the service but that of an event.
use claw_work.Prelude.{
  Bool-cases, [], List, Option, Option-cases, Text, arith, inl, inr, insert, leb, lookup,
  lookup-insert, none, or_else, refl, some, subst, sym, text_eq, text_eq_iff, true, truthy, ◌≡◌,
  ◌∙◌, ℕ, false, ◌||◌,
}
use claw_work.Event.{}
use claw_work.Tasks.{
  Db, Env, Task, adjust, is_queued, is_terminal_status, lookup-adjust, concurrent_limit,
}
use claw_work.Tasks.Persist.{is_seen, read_task}
use claw_work.Tasks.Persist.Cases.{}
use claw_work.Tasks.Persist.Terminal.{}
use claw_work.Tasks.Enqueue.{
  Around, CreateTask, EnqueueOptions, create_task, insert_task, owned_session, active_tasks,
}
use claw_work.Tasks.Dispatch.{claim, count_attempt, with_job}

-- What stays of the row of a task that has ended.
pub record Final (u v : Task) : Type 0 where
  pub status : v.status ≡ u.status
  pub error_code : v.error_code ≡ u.error_code
  pub error_message : v.error_message ≡ u.error_message
  pub run_id : v.run_id ≡ u.run_id
  pub completed_at : v.completed_at ≡ u.completed_at
  pub session_id : v.session_id ≡ u.session_id

pub Final-refl : (u : Task) → Final u u
Final-refl u = record {
  status = refl;
  error_code = refl;
  error_message = refl;
  run_id = refl;
  completed_at = refl;
  session_id = refl;
}

pub Final-count_attempt : (u v : Task) → Final u v → Final u (count_attempt v)
Final-count_attempt u v f = record {
  status = f.status;
  error_code = f.error_code;
  error_message = f.error_message;
  run_id = f.run_id;
  completed_at = f.completed_at;
  session_id = f.session_id;
}

pub Final-with_job : (u v : Task) (job : Text) → Final u v → Final u (with_job job v)
Final-with_job u v job f = record {
  status = f.status;
  error_code = f.error_code;
  error_message = f.error_message;
  run_id = f.run_id;
  completed_at = f.completed_at;
  session_id = f.session_id;
}

-- The row of a task, as far as it is final.
abbrev pub Has : Text → Task → Db → Type 0
Has k u db = (v : Task) × (lookup k db.tasks ≡ some v) × Final u v

pub adjust-Has :
    (task k : Text) (f : Task → Task) (db : Db) (u : Task)
    → ((v : Task) → Final u v → Final u (f v))
    → Has k u db
    → Has k u (record db { tasks = adjust task f db.tasks })
adjust-Has task k f db u keep (v, there, final) = elim (Bool-cases (text_eq task k)) [
  | inl y ↦ (f v, lookup-adjust task k f db.tasks ∙ rw (y, there) refl, keep v final)
  | inr n ↦ (v, lookup-adjust task k f db.tasks ∙ rw n there, final)
]

pub claim-Has :
    (task run url : Text) (now : ℕ) (k : Text) (u : Task) (db : Db)
    → is_terminal_status u.status ≡ true
    → Has k u db
    → Has k u (claim task run url now db).0
unfolding claim
claim-Has task run url now k u db ended (v, there, final) =
    elim (Option-cases (lookup task db.tasks)) [
      | inl e ↦ rw (e, claim) (v, there, final)
      | inr (t, e) ↦
          rw (e, claim)
            (elim (Bool-cases (is_queued t.status)) [
              | inr n ↦ rw n (v, there, final)
              | inl y ↦ rw y (
                v,
                lookup-adjust task k _ db.tasks ∙ elim (Bool-cases (text_eq task k)) [
                  | inr n ↦ rw n there
                  | inl z ↦ absurd (both t e y z)
                ],
                final,
              )
            ])
    ]
  where
    both :
        (t : Task)
        → lookup task db.tasks ≡ some t
        → is_queued t.status ≡ true
        → text_eq task k ≡ true
        → ⊥
    both t e y z =
        let same : task ≡ k = ground (arith, text_eq_iff task k) in
        let h : lookup task db.tasks ≡ some v =
          subst (λ j. lookup j db.tasks ≡ some v) (sym same) there in
        let one : t ≡ v = ground arith in
        let q : is_queued v.status ≡ true = subst (λ (x : Task). is_queued x.status ≡ true) one y in
        let r : is_queued u.status ≡ true = subst (λ x. is_queued x ≡ true) final.status q in
        ground arith

pub insert-Has :
    (id k : Text) (t u : Task) (tasks : _) (v : Task)
    → lookup id tasks ≡ none
    → lookup k tasks ≡ some v
    → lookup k (insert id t tasks) ≡ some v
insert-Has id k t u tasks v fresh there =
    lookup-insert id k t tasks ∙ elim (Bool-cases (text_eq id k)) [
      | inr n ↦ rw n there
      | inl y ↦
          let same : id ≡ k = ground (arith, text_eq_iff id k) in
          let h : lookup k tasks ≡ none = subst (λ j. lookup j tasks ≡ none) same fresh in
          absurd (ground arith)
    ]

pub create_task-Has :
    (env : Env) (user : Text) (input : CreateTask) (options : EnqueueOptions) (a : Around)
    (files : List Text) (k : Text) (u : Task) (db : Db)
    → lookup a.new_task_id db.tasks ≡ none
    → Has k u db
    → Has k u (create_task env user input options a files db).0
unfolding create_task insert_task
create_task-Has env user input options a files k u db fresh (v, there, final) =
    elim (Bool-cases (leb (concurrent_limit env) (active_tasks user db))) [
      | inl y ↦ rw (y, create_task) (v, there, final)
      | inr n ↦
          rw (n, create_task)
            (elim (Bool-cases (truthy (or_else options.session_id []))) [
              | inr m ↦ rw m (v, insert-Has a.new_task_id k _ u db.tasks v fresh there, final)
              | inl y ↦
                  rw y
                    (elim (Bool-cases
                      (owned_session user (lookup (or_else options.session_id []) db.sessions))) [
                        | inl z ↦
                            rw z (v, insert-Has a.new_task_id k _ u db.tasks v fresh there, final)
                        | inr z ↦ rw z (v, there, final)
                      ])
            ])
    ]

-- A transaction for a task that has ended does not come to its second half.
pub read_task-live :
    (task : Text) (source : Option Text) (db : Db) (t : Task)
    → read_task task source db ≡ some t
    → (lookup task db.tasks ≡ some t) × (is_terminal_status t.status ≡ false)
unfolding read_task
read_task-live task source db t h = elim (Option-cases (lookup task db.tasks)) [
  | inl e ↦ absurd (let g : none ≡ some t = (rw (e, read_task) at h) in ground arith)
  | inr (u, e) ↦ elim (Bool-cases (is_terminal_status u.status || is_seen task source db)) [
    | inl y ↦ absurd (ground arith)
    | inr n ↦ (ground arith, ground arith)
  ]
]
