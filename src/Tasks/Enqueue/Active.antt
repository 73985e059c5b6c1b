-- ===== src/Tasks/Enqueue/Active.antt =====
-- The limit on active tasks.
use claw_work.Prelude.{
  Bool-cases, List, Text, [], ap, arith, false, if◌then◌else◌, inl, inr, insert, leb, lookup, none,
  or_else, refl, text_eq, text_eq_iff, total, total-insert, truthy, weight, ℕ, ◌+◌, ◌≡◌, ◌≤◌, Bool,
  true, Option-cases, length, not, sym, ◌==◌, ◌∙◌,
}
use claw_work.Tasks.{Db, Env, concurrent_limit}
use claw_work.Tasks.Storage.{Reply, reply, refuse}
use claw_work.AbuseProtection.{Limits, Redis, get, quota_key, reserve_daily_task}
use claw_work.AbuseProtection.Day.{count_of}
use claw_work.AbuseProtection.Release.{release-reserve, get-reserve_refused}
use claw_work.Tasks.Enqueue.{
  CreateTask, EnqueueOptions, Around, create_task, active_tasks, active_weight, insert_task,
  new_session, new_task, owned_session, enqueue_task, submit_task, CreateTaskResult, distinct,
  found_files,
}

insert_task-active_tasks :
    (user : Text) (input : CreateTask) (options : EnqueueOptions) (a : Around) (files : List Text)
    (session other : Text) (db : Db)
    → lookup a.new_task_id db.tasks ≡ none
    → active_tasks other (insert_task user input options a files session db)
      ≡ active_tasks other db + (if text_eq user other then 1 else 0)
unfolding insert_task active_tasks new_task
insert_task-active_tasks user input options a files session other db new =
    let none-weight : weight (active_weight other) (lookup a.new_task_id db.tasks) ≡ 0 =
      rw new refl in
    let one : active_weight other (new_task user input options a files session)
        ≡ (if text_eq user other then 1 else 0) =
      ground arith in
    omega (
      arith,
      total-insert (active_weight other) a.new_task_id (new_task user input options a files session)
          db.tasks,
      none-weight,
      one,
    )

within :
    (user other : Text) (n m limit : ℕ)
    → (user ≡ other → n ≡ m)
    → leb limit n ≡ false
    → m ≤ limit
    → m + (if text_eq user other then 1 else 0) ≤ limit
within user other n m limit same free h = elim (Bool-cases (text_eq user other)) [
  | inl y ↦ let e : n ≡ m = same (ground (arith, text_eq_iff user other)) in rw y (ground arith)
  | inr z ↦ rw z (omega arith)
]

-- A new task takes no user over the limit on active tasks, neither its owner nor anybody else,
-- whether it follows up on a conversation or starts one, if its identifier is not in use.
pub create_task-active_tasks :
    (env : Env) (user : Text) (input : CreateTask) (options : EnqueueOptions) (a : Around)
    (files : List Text) (other : Text) (db : Db)
    → lookup a.new_task_id db.tasks ≡ none
    → active_tasks other db ≤ concurrent_limit env
    → active_tasks other (create_task env user input options a files db).0 ≤ concurrent_limit env
unfolding create_task
create_task-active_tasks env user input options a files other db new h =
    elim (Bool-cases (leb (concurrent_limit env) (active_tasks user db))) [
      | inl y ↦ rw (y, create_task) h
      | inr free ↦
          rw (free, create_task)
            (elim (Bool-cases (truthy (or_else options.session_id []))) [
              | inl y ↦
                  rw y
                    (elim (Bool-cases
                      (owned_session user (lookup (or_else options.session_id []) db.sessions))) [
                        | inl z ↦ rw z (added (or_else options.session_id []) db free new h refl)
                        | inr z ↦ rw z h
                      ])
              | inr y ↦ rw y (
                  added a.new_session_id
                    (record db {
                      sessions = insert a.new_session_id (new_session user input) db.sessions;
                    })
                    free new h refl)
            ])
    ]
  where
    added :
        (session : Text) (db' : Db)
        → leb (concurrent_limit env) (active_tasks user db) ≡ false
        → lookup a.new_task_id db'.tasks ≡ none
        → active_tasks other db ≤ concurrent_limit env
        → db'.tasks ≡ db.tasks
        → active_tasks other (insert_task user input options a files session db')
          ≤ concurrent_limit env
    added session db' free new' h' e =
        let same : active_tasks other db' ≡ active_tasks other db =
          unfold active_tasks in ap (total (active_weight other)) e in
        let all : active_tasks other db + (if text_eq user other then 1 else 0)
            ≤ concurrent_limit env =
          within user other (active_tasks user db) (active_tasks other db) (concurrent_limit env)
            (λ k. ap (λ u. active_tasks u db) k) free h' in
        omega (
          arith,
          insert_task-active_tasks user input options a files session other db' new',
          same,
          all,
        )

abbrev pub is_refused : {A : Type 0} → Reply A → Bool
is_refused (reply a) = false
is_refused (refuse code) = true

abbrev day_count : Text → ℕ → Redis → ℕ
day_count user now redis = count_of (get now (quota_key user now) redis)

submit_task-replies :
    (user : Text) (a : Around) (redis : Redis) (db : Db) (session : Text)
    → is_refused (submit_task user a redis (db, reply session)).2 ≡ false
unfolding submit_task
submit_task-replies user a redis db session = elim (Option-cases a.job) [
  | inl e ↦ rw (e, submit_task) refl
  | inr (job, e) ↦ rw (e, submit_task) refl
]

submit_task-refused :
    (l : Limits) (user : Text) (a : Around) (redis : Redis) (r : Db × Reply Text)
    → (reserve_daily_task l user a.world.now redis).1 ≡ true
    → is_refused (submit_task user a (reserve_daily_task l user a.world.now redis).0 r).2 ≡ true
    → day_count user a.world.now
        (submit_task user a (reserve_daily_task l user a.world.now redis).0 r).1
      ≡ day_count user a.world.now redis
submit_task-refused l user a redis (db, refuse code) h k =
    unfold submit_task in release-reserve l user a.world.now redis h
submit_task-refused l user a redis (db, reply session) h k =
    let no : is_refused
          (submit_task user a (reserve_daily_task l user a.world.now redis).0 (db, reply session)).2
        ≡ false =
      submit_task-replies user a _ db session in
    absurd (ground arith)

-- A request that creates no task, all of it on the same day and at one time, leaves the count of
-- the user's daily tasks what it was: where the files are refused, where the quota or the limit on
-- active tasks is used up, and where the session is not the user's.
pub enqueue_task-refused :
    (env : Env) (user : Text) (input : CreateTask) (options : EnqueueOptions) (a : Around) (db : Db)
    (redis : Redis)
    → is_refused (enqueue_task env user input options a db redis).2 ≡ true
    → count_of (
        get a.world.now
          (quota_key user a.world.now)
          (enqueue_task env user input options a db redis).1)
      ≡ count_of (get a.world.now (quota_key user a.world.now) redis)
unfolding enqueue_task
enqueue_task-refused env user input options a db redis h =
    elim (Bool-cases
      (not (length (found_files user input.file_ids db) == length (distinct input.file_ids)))) [
        | inl y ↦ rw (enqueue_task, y) refl
        | inr n ↦ elim (Bool-cases (reserve_daily_task a.limits user a.world.now redis).1) [
          | inl g ↦
              let same : enqueue_task env user input options a db redis ≡ created =
                rw (enqueue_task, n, g) refl in
              ap (λ (r : Db × Redis × Reply CreateTaskResult). day_count user a.world.now r.1) same
              ∙ submit_task-refused a.limits user a redis _ g
                  (sym (ap (λ (r : Db × Redis × Reply CreateTaskResult). is_refused r.2) same) ∙ h)
          | inr g ↦ rw (enqueue_task, n, g) (get-reserve_refused a.limits user a.world.now redis g)
        ]
      ]
  where
    created : Db × Redis × Reply CreateTaskResult
    created =
        submit_task user a (reserve_daily_task a.limits user a.world.now redis).0
          (create_task env user input options a (found_files user input.file_ids db) db)
