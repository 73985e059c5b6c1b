-- ===== src/Tasks/Persist/Cases.antt =====
-- The two ways in which a call of `persistTaskEvent` ends: the log and what hangs on it stay, or
-- one row is written and announced. The proofs about it go by this relation.
use claw_work.Prelude.{
  Bool-cases, List, Option, Option-cases, Text, [], false, inl, inr, lookup, ltb, none, refl, some,
  ℕ, ◌+◌, ◌≡◌, ◌≢◌, arith, or_else, truthy, ◌||◌, subst, sym, ◌∙◌, true,
}
use claw_work.Event.{
  Artifact, Detail, ResultValue, TaskStreamEvent, is_terminal_detail, artifact, record_value,
}
use claw_work.Tasks.{
  Db, Env, ResultArtifact, Task, is_terminal_status, max_result_file_bytes, user_storage_bytes,
}
use claw_work.Tasks.Storage.Archive.{
  Archived, Outside, archive_result_artifact, checked_size, is_allowed_source, record_artifact,
  store_artifact,
}
use claw_work.Tasks.Storage.{used_bytes}
use claw_work.Tasks.Persist.{
  persist_task_event, Outcome, Prepared, World, announce, append_event, apply_event, is_taken,
  title_of, archived_events, is_seen, prepare_result, prepare_task_event, store_event,
  store_prepared, with_artifact, prepare_detail, read_task, write_event, store_for, delta_text,
  written_at,
}

-- The tables as they are after an archive, which writes only these two.
abbrev pub with_archive : List ResultArtifact → List Text → Db → Db
with_archive artifacts objects db = record db { artifacts = artifacts; objects = objects }

-- What an event keeps when its result is archived.
pub record Agrees (e e' : TaskStreamEvent) : Type 0 where
  pub task : e'.task_id ≡ e.task_id
  pub terminal : is_terminal_detail e'.detail ≡ is_terminal_detail e.detail
  pub same : is_terminal_detail e.detail ≡ true → e'.detail ≡ e.detail
  pub delta : delta_text e'.detail ≡ delta_text e.detail

-- An event without the address that the object store signs for a reader.
abbrev pub unsigned_result : ResultValue → ResultValue
unsigned_result (artifact a) = artifact (record a { download_url = none })
unsigned_result (record_value json) = record_value json

abbrev pub unsigned : Detail → Detail
unsigned (Detail.result_created r) = Detail.result_created (unsigned_result r)
unsigned d = d

abbrev pub unsigned_event : TaskStreamEvent → TaskStreamEvent
unsigned_event e = record e { detail = unsigned e.detail }

-- What is published is what is stored, but for that address.
pub record Publishes (e : TaskStreamEvent) (p : Prepared) : Type 0 where
  pub task : p.published.task_id ≡ e.task_id
  pub view : unsigned_event p.published ≡ unsigned_event p.stored

pub data Persisted (w : World) (e : TaskStreamEvent) (source : Option Text) (db : Db)
    : Db × Outcome → Type 0 where
  kept :
      (artifacts : List ResultArtifact) (objects : List Text) (o : Outcome)
      → o ≢ Outcome.stored
      → Persisted w e source db (with_archive artifacts objects db, o)
  wrote :
      (artifacts : List ResultArtifact) (objects : List Text) (p : Prepared) (t : Task)
      → Agrees e p.stored
      → Publishes e p
      → lookup e.task_id db.tasks ≡ some t
      → is_terminal_status t.status ≡ false
      → is_taken e.task_id source db ≡ false
      → Persisted w e source db (
        announce db.next_event_id t.user_id (title_of t.session_id db) p.published (
            apply_event e.task_id t.session_id
              (written_at t p.stored.detail w.now)
              w.result_id
              p.stored
              (append_event e.task_id source p.stored (with_archive artifacts objects db))),
        Outcome.stored,
      )

-- What an archive leaves.
data Archives {ℓ} (X : Type ℓ) (db : Db) : Db × Option X → Type ℓ where
  archives :
      (artifacts : List ResultArtifact) (objects : List Text) (x : Option X)
      → Archives X db (with_archive artifacts objects db, x)

record_artifact-Archives :
    (env : Env) (user task : Text) (a : Artifact) (size : ℕ) (out : Outside) (key : Text)
    (objects : List Text) (db : Db)
    → Archives Archived db
        (record_artifact env user task a size out key (record db { objects = objects }))
unfolding record_artifact used_bytes
record_artifact-Archives env user task a size out key objects db =
    elim (Bool-cases (ltb (user_storage_bytes env) (used_bytes user db + size))) [
      | inl o ↦ rw o (archives _ _ _)
      | inr o ↦ rw o (archives _ _ _)
    ]

archive-Archives :
    (env : Env) (origins : List Text) (task : Text) (a : Artifact) (out : Outside) (db : Db)
    → Archives Archived db (archive_result_artifact env origins task a out db)
unfolding archive_result_artifact store_artifact
archive-Archives env origins task a out db = elim (Option-cases (lookup task db.tasks)) [
  | inl e ↦ rw (e, archive_result_artifact) (archives _ _ _)
  | inr (t, e) ↦
      rw (e, archive_result_artifact)
        (elim (Option-cases out.source) [
          | inl e' ↦ rw (e', archive_result_artifact) (archives _ _ _)
          | inr (s, e') ↦
              rw (e', archive_result_artifact)
                (elim (Bool-cases (is_allowed_source origins s)) [
                  | inr c ↦ rw (c, archive_result_artifact) (archives _ _ _)
                  | inl c ↦
                      rw (c, archive_result_artifact)
                        (elim (Option-cases out.download) [
                          | inl n ↦ rw (n, archive_result_artifact) (archives _ _ _)
                          | inr (d, n) ↦
                              rw (n, archive_result_artifact)
                                (elim (Option-cases
                                  (checked_size (max_result_file_bytes env) a d)) [
                                    | inl z ↦ rw (z, archive_result_artifact) (archives _ _ _)
                                    | inr (size, z) ↦
                                        rw (z, archive_result_artifact)
                                          (elim (Bool-cases out.stored) [
                                            | inl y ↦
                                                rw (y, archive_result_artifact)
                                                  (record_artifact-Archives env t.user_id task a
                                                    size out _ _ db)
                                            | inr y ↦
                                                rw (y, archive_result_artifact) (archives _ _ _)
                                          ])
                                  ])
                        ])
                ])
        ])
]

-- What `prepareTaskEvent` leaves and gives.
pub data Prepares (e : TaskStreamEvent) (db : Db) : Db × Option Prepared → Type 0 where
  threw :
      (artifacts : List ResultArtifact) (objects : List Text)
      → Prepares e db (with_archive artifacts objects db, none)
  gave :
      (artifacts : List ResultArtifact) (objects : List Text) (p : Prepared)
      → Agrees e p.stored
      → Publishes e p
      → Prepares e db (with_archive artifacts objects db, some p)

Agrees-refl : (e : TaskStreamEvent) → Agrees e e
Agrees-refl e = record { task = refl; terminal = refl; same = λ h. refl; delta = refl }

archived_events-Prepares :
    (e : TaskStreamEvent) (url : Option Text) (db : Db) (r : Db × Option Archived) {v : ResultValue}
    → e.detail ≡ Detail.result_created v
    → Archives Archived db r
    → Prepares e db (archived_events e url r)
unfolding archived_events with_artifact
archived_events-Prepares e url db _ d (archives a o none) = threw a o
archived_events-Prepares e none db _ d (archives a o (some x)) = threw a o
archived_events-Prepares e (some url) db _ d (archives a o (some x)) =
    gave a o _
      (record {
        task = refl;
        terminal = rw d refl;
        same = rw d (λ h. absurd (cc));
        delta = rw d refl;
      })
      (record { task = refl; view = refl })

prepare_result-Prepares :
    (w : World) (e : TaskStreamEvent) (r : ResultValue) (db : Db)
    → e.detail ≡ Detail.result_created r
    → Prepares e db (prepare_result w.env w.origins w.outside w.signed_url e r db)
unfolding prepare_result
prepare_result-Prepares w e (record_value json) db d = threw _ _
prepare_result-Prepares w e (artifact a) db d =
    elim (Bool-cases (truthy (or_else a.download_url []))) [
      | inl y ↦ rw y (
          archived_events-Prepares e w.signed_url db _ d
            (archive-Archives w.env w.origins e.task_id a w.outside db))
      | inr n ↦ rw n (threw _ _)
    ]

pub prepare_detail-Prepares :
    (w : World) (e : TaskStreamEvent) (d : Detail) (db : Db)
    → e.detail ≡ d
    → Prepares e db (prepare_detail w.env w.origins w.outside w.signed_url e d db)
unfolding prepare_detail
prepare_detail-Prepares w e (Detail.result_created r) db h = prepare_result-Prepares w e r db h
prepare_detail-Prepares w e _ db h =
    gave _ _ _ (Agrees-refl e) (record { task = refl; view = refl })

not_stored : (Outcome.skipped ≢ Outcome.stored) × (Outcome.thrown ≢ Outcome.stored)
not_stored = ((λ e. cc), (λ e. cc))

with_archive-is_taken :
    (task : Text) (source : Option Text) (artifacts : List ResultArtifact) (objects : List Text)
    (db : Db)
    → is_taken task source (with_archive artifacts objects db) ≡ is_taken task source db
unfolding is_taken
with_archive-is_taken task none artifacts objects db = refl
with_archive-is_taken task (some s) artifacts objects db = refl

store_for-Persisted :
    (w : World) (e : TaskStreamEvent) (source : Option Text) (db : Db)
    (artifacts : List ResultArtifact) (objects : List Text) (p : Prepared)
    → Agrees e p.stored
    → Publishes e p
    → Persisted w e source db
        (store_for w.now w.result_id source p e.task_id (with_archive artifacts objects db))
unfolding store_for read_task write_event is_seen is_taken
store_for-Persisted w e source db artifacts objects p s q =
    elim (Option-cases (lookup e.task_id db.tasks)) [
      | inl n ↦ rw (n, store_for, read_task) (kept artifacts objects _ not_stored.0)
      | inr (t, y) ↦
          rw (y, store_for, read_task)
            (elim (Bool-cases (
              is_terminal_status t.status
              || is_seen e.task_id source (with_archive artifacts objects db))) [
                | inl z ↦ rw z (kept artifacts objects _ not_stored.0)
                | inr z ↦
                    rw z
                      (elim (Bool-cases
                        (is_taken e.task_id source (with_archive artifacts objects db))) [
                          | inl k ↦ rw k (kept artifacts objects _ not_stored.1)
                          | inr k ↦ rw k (
                              wrote artifacts objects p t s q y (ground arith) (
                                sym (with_archive-is_taken e.task_id source artifacts objects db)
                                ∙ k))
                        ])
              ])
    ]

pub persist_task_event-Persisted :
    (w : World) (e : TaskStreamEvent) (source : Option Text) (db : Db)
    → Persisted w e source db (persist_task_event w e source db)
unfolding persist_task_event store_prepared store_event prepare_task_event
persist_task_event-Persisted w e source db = elim (Bool-cases (is_seen e.task_id source db)) [
  | inl y ↦ rw y (kept _ _ _ not_stored.0)
  | inr n ↦ rw n (by_prepared _ (prepare_detail-Prepares w e e.detail db refl))
]
  where
    by_prepared :
        (r : Db × Option Prepared)
        → Prepares e db r
        → Persisted w e source db (store_prepared w.now w.result_id source r)
    by_prepared _ (threw a o) = kept a o _ not_stored.1
    by_prepared _ (gave a o p s q) =
        subst
          (λ k.
            Persisted w e source db (store_for w.now w.result_id source p k (with_archive a o db)))
          (sym s.task) (store_for-Persisted w e source db a o p s q)
