-- ===== src/Tasks/Persist/Results.antt =====
-- The results of completed tasks: their numbers in a session, and their text.
use claw_work.Prelude.{
  Bool-cases, List, Option, Text, [], ap, append-nil, arith, if◌then◌else◌, inl, inr, max, refl,
  suc, text_eq, text_eq_iff, zero, ℕ, ◌++◌, ◌+◌, ◌∙◌, ◌∷◌, ◌≡◌,
}
use claw_work.Event.{Detail, TaskStreamEvent}
use claw_work.Tasks.{Db, TaskResult}
use claw_work.Tasks.Persist.{
  World, persist_task_event, Outcome, announce, append_event, apply_detail, apply_event,
  complete_task, latest_version, written_at,
}
use claw_work.Tasks.Persist.Cases.{
  with_archive, Persisted, kept, wrote, persist_task_event-Persisted,
}

-- The version numbers of a session's results, in the order of creation.
unfoldable pub versions : Text → List TaskResult → List ℕ
versions session [] = []
versions session (r ∷ rs) =
    if text_eq r.session_id session then r.version_no ∷ versions session rs else versions session rs

-- The numbers from 1 to `n`.
unfoldable pub up_to : ℕ → List ℕ
up_to zero = []
up_to (suc n) = up_to n ++ (n + 1) ∷ []

unfoldable greatest : List ℕ → ℕ
greatest [] = 0
greatest (n ∷ ns) = max n (greatest ns)

greatest-concat : (ns : List ℕ) (n : ℕ) → greatest (ns ++ n ∷ []) ≡ max (greatest ns) n
unfolding greatest
greatest-concat [] n = omega arith
greatest-concat (m ∷ ns) n = omega (arith, greatest-concat ns n)

greatest-up_to : (n : ℕ) → greatest (up_to n) ≡ n
unfolding up_to greatest
greatest-up_to zero = refl
greatest-up_to (suc n) = omega (arith, greatest-concat (up_to n) (n + 1), greatest-up_to n)

latest_version-versions :
    (session : Text) (rs : List TaskResult)
    → latest_version session rs ≡ greatest (versions session rs)
unfolding latest_version versions greatest
latest_version-versions session [] = refl
latest_version-versions session (r ∷ rs) = elim (Bool-cases (text_eq r.session_id session)) [
  | inl y ↦ rw y (omega (arith, latest_version-versions session rs))
  | inr n ↦ rw n (omega (arith, latest_version-versions session rs))
]

versions-append :
    (session : Text) (xs ys : List TaskResult)
    → versions session (xs ++ ys) ≡ versions session xs ++ versions session ys
unfolding versions
versions-append session [] ys = refl
versions-append session (x ∷ xs) ys = elim (Bool-cases (text_eq x.session_id session)) [
  | inl y ↦ rw y (ap (λ vs. x.version_no ∷ vs) (versions-append session xs ys))
  | inr n ↦ rw n (versions-append session xs ys)
]

-- In each session the results are numbered 1, 2, 3 and so on.
abbrev pub Numbered : List TaskResult → Type 0
Numbered rs = (session : Text) → (n : ℕ) × (versions session rs ≡ up_to n)

Numbered-concat :
    (rs : List TaskResult) (r : TaskResult)
    → Numbered rs
    → r.version_no ≡ latest_version r.session_id rs + 1
    → Numbered (rs ++ r ∷ [])
unfolding versions up_to
Numbered-concat rs r h v session =
    let (n, e) = h session in
    elim (Bool-cases (text_eq r.session_id session)) [
      | inl y ↦
          let same : r.session_id ≡ session = ground (arith, text_eq_iff r.session_id session) in
          let number : r.version_no ≡ n + 1 =
            v
            ∙ ap (λ s. latest_version s rs + 1) same
            ∙ ap (λ k. k + 1)
                (latest_version-versions session rs ∙ ap greatest e ∙ greatest-up_to n) in
          (suc n, versions-append session rs (r ∷ []) ∙ rw (y, e, number) refl)
      | inr z ↦ (n, versions-append session rs (r ∷ []) ∙ rw (z, append-nil) e)
    ]

apply_detail-Numbered :
    (task session : Text) (now : ℕ) (result run : Text) (d : Detail) (db : Db)
    → Numbered db.results
    → Numbered (apply_detail task session now result run d db).results
unfolding apply_detail complete_task
apply_detail-Numbered task session now result run Detail.completed db h =
    Numbered-concat db.results _ h refl
apply_detail-Numbered task session now result run Detail.accepted db h = h
apply_detail-Numbered task session now result run (Detail.failed c m) db h = h
apply_detail-Numbered task session now result run (Detail.cancelled m) db h = h
apply_detail-Numbered task session now result run _ db h = h

-- A call keeps the results of each session numbered 1, 2, 3 and so on, without a gap.
pub persist-Numbered :
    (w : World) (e : TaskStreamEvent) (source : Option Text) (db : Db)
    → Numbered db.results
    → Numbered (persist_task_event w e source db).0.results
unfolding announce apply_event append_event
persist-Numbered w e source db inv = by_case (persist_task_event-Persisted w e source db)
  where
    by_case : {r : Db × Outcome} → Persisted w e source db r → Numbered r.0.results
    by_case (kept a o _ _) = inv
    by_case (wrote a o p t s q found live free) =
        apply_detail-Numbered e.task_id t.session_id (written_at t p.stored.detail w.now)
          w.result_id p.stored.run_id p.stored.detail
          (append_event e.task_id source p.stored (with_archive a o db)) inv
