-- ===== src/Tasks/Storage/Quota.antt =====
-- The storage quota of a user, over the operations that add bytes.
use claw_work.Event.{Artifact}
use claw_work.Tasks.{
  Db, File, FileStatus, Env, user_storage_bytes, max_result_file_bytes, ResultArtifact,
  max_upload_bytes,
}
use claw_work.Tasks.Storage.{
  used_bytes, counted_size, artifact_usage, create_upload_url, CreateUpload, new_file, sign_upload,
  settle_upload, complete_upload, CompleteUpload, Inspected, same_metadata, supported_mime_types,
  uploaded_file,
}
use claw_work.Tasks.Storage.Archive.{
  Outside, record_artifact, store_artifact, archive_result_artifact, checked_size,
  is_allowed_source,
}
use claw_work.Prelude.{
  ℕ, Bool-cases, List, Option, Text, [], any, arith, inl, inr, insert, lookup, ltb, none, not, refl,
  some, text_eq, text_eq_refl, total-insert, weight, ◌++◌, ◌+◌, ◌∷◌, ◌≡◌, ◌≤◌, Option-cases,
  text_eq_iff, true, ◌==◌, subst,
}

artifact_usage-append :
    (user : Text) (xs ys : List ResultArtifact)
    → artifact_usage user (xs ++ ys) ≡ artifact_usage user xs + artifact_usage user ys
unfolding artifact_usage
artifact_usage-append user [] ys = omega arith
artifact_usage-append user (a ∷ xs) ys = omega (arith, artifact_usage-append user xs ys)

-- A write of a file exchanges what the old and the new row count.
used-insert :
    (user id : Text) (f : File) (db : Db)
    → used_bytes user (record db { files = insert id f db.files })
        + weight (counted_size user) (lookup id db.files)
      ≡ used_bytes user db + counted_size user f
unfolding used_bytes
used-insert user id f db = omega (arith, total-insert (counted_size user) id f db.files)

counted-new :
    (user id : Text) (input : CreateUpload)
    → counted_size user (new_file user id input) ≡ input.size_bytes
unfolding new_file
counted-new user id input = rw (text_eq_refl user) refl

sign_upload-used :
    (user id : Text) (f : File) (signed : Option Text) (db : Db)
    → used_bytes user (sign_upload id f signed db).0 ≤ used_bytes user db
unfolding sign_upload
sign_upload-used user id f none db =
    omega (arith, used-insert user id (record f { status = FileStatus.failed_upload }) db)
sign_upload-used user id f (some url) db = omega arith

-- A request for an upload never takes a user over the storage limit, whichever branch it ends in,
-- if the new identifier is not in use.
pub create_upload_url-quota :
    (env : Env) (user : Text) (input : CreateUpload) (id : Text) (signed : Option Text) (db : Db)
    → lookup id db.files ≡ none
    → used_bytes user db ≤ user_storage_bytes env
    → used_bytes user (create_upload_url env user input id signed db).0 ≤ user_storage_bytes env
unfolding create_upload_url
create_upload_url-quota env user input id signed db new h =
    elim (Bool-cases (not (any (text_eq input.mime_type) supported_mime_types))) [
      | inl e ↦ rw e h
      | inr e ↦ elim (Bool-cases (ltb (max_upload_bytes env) input.size_bytes)) [
        | inl e' ↦ rw (e, e') h
        | inr e' ↦
            elim (Bool-cases
              (ltb (user_storage_bytes env) (used_bytes user db + input.size_bytes))) [
                | inl o ↦ rw (e, e', o) h
                | inr o ↦ rw (e, e', o) (within (ground arith))
              ]
      ]
    ]
  where
    file : File
    file = new_file user id input

    stored : Db
    stored = record db { files = insert id (new_file user id input) db.files }

    within :
        used_bytes user db + input.size_bytes ≤ user_storage_bytes env
        → used_bytes user (sign_upload id (new_file user id input) signed stored).0
          ≤ user_storage_bytes env
    within b =
        let none-weight : weight (counted_size user) (lookup id db.files) ≡ 0 = rw new refl in
        omega (
          arith,
          sign_upload-used user id (new_file user id input) signed stored,
          used-insert user id (new_file user id input) db,
          counted-new user id input,
          none-weight,
        )

record_artifact-quota :
    (env : Env) (owner task : Text) (a : Artifact) (size : ℕ) (out : Outside) (key user : Text)
    (db : Db)
    → used_bytes user db ≤ user_storage_bytes env
    → used_bytes user (record_artifact env owner task a size out key db).0 ≤ user_storage_bytes env
unfolding record_artifact used_bytes artifact_usage
record_artifact-quota env owner task a size out key user db h =
    elim (Bool-cases (ltb (user_storage_bytes env) (used_bytes owner db + size))) [
      | inl o ↦ rw o h
      | inr o ↦ rw o (elim (Bool-cases (text_eq owner user)) [
        | inl e ↦
            let same : owner ≡ user = ground (arith, text_eq_iff owner user) in
            let fits : used_bytes owner db + size ≤ user_storage_bytes env = ground arith in
            let fits' : used_bytes user db + size ≤ user_storage_bytes env =
              subst (λ u. used_bytes u db + size ≤ user_storage_bytes env) same fits in
            rw (artifact_usage-append, e) (omega arith)
        | inr e ↦ rw (artifact_usage-append, e) (ground arith)
      ])
    ]

store_artifact-quota :
    (env : Env) (owner task : Text) (a : Artifact) (size : ℕ) (out : Outside) (user : Text)
    (db : Db)
    → used_bytes user db ≤ user_storage_bytes env
    → used_bytes user (store_artifact env owner task a size out db).0 ≤ user_storage_bytes env
unfolding store_artifact used_bytes
store_artifact-quota env owner task a size out user db h = elim (Bool-cases out.stored) [
  | inl e ↦ rw e (record_artifact-quota env owner task a size out _ user _ h)
  | inr e ↦ rw e h
]

-- The archiving of a result never takes a user over the storage limit, neither the task's owner
-- nor anybody else, whichever check or outside call it ends in.
pub archive_result_artifact-quota :
    (env : Env) (origins : List Text) (task : Text) (a : Artifact) (out : Outside) (user : Text)
    (db : Db)
    → used_bytes user db ≤ user_storage_bytes env
    → used_bytes user (archive_result_artifact env origins task a out db).0 ≤ user_storage_bytes env
unfolding archive_result_artifact
archive_result_artifact-quota env origins task a out user db h =
    elim (Option-cases (lookup task db.tasks)) [
      | inl e ↦ rw (e, archive_result_artifact) h
      | inr (t, e) ↦
          rw (e, archive_result_artifact)
            (elim (Option-cases out.source) [
              | inl e' ↦ rw (e', archive_result_artifact) h
              | inr (s, e') ↦
                  rw (e', archive_result_artifact)
                    (elim (Bool-cases (is_allowed_source origins s)) [
                      | inr c ↦ rw (c, archive_result_artifact) h
                      | inl c ↦
                          rw (c, archive_result_artifact)
                            (elim (Option-cases out.download) [
                              | inl n ↦ rw (n, archive_result_artifact) h
                              | inr (d, n) ↦
                                  rw (n, archive_result_artifact)
                                    (elim (Option-cases
                                      (checked_size (max_result_file_bytes env) a d)) [
                                        | inl z ↦ rw (z, archive_result_artifact) h
                                        | inr (size, z) ↦
                                            rw (z, archive_result_artifact)
                                              (store_artifact-quota env t.user_id task a size out
                                                user db h)
                                      ])
                            ])
                    ])
            ])
    ]

-- A file whose upload was refused counts nothing, and a completion that finds its object makes it
-- count its whole size: the usage grows by the size whatever the limit is.
pub complete_upload-revives :
    (user : Text) (input : CompleteUpload) (f : File) (object : Inspected) (now : ℕ) (db : Db)
    → lookup input.file_id db.files ≡ some f
    → f.user_id ≡ user
    → f.status ≡ FileStatus.failed_upload
    → same_metadata input f ≡ true
    → object.size_bytes ≡ f.size_bytes
    → object.mime_type ≡ f.mime_type
    → used_bytes user (complete_upload user input (some object) now db).0
      ≡ used_bytes user db + f.size_bytes
unfolding complete_upload settle_upload
complete_upload-revives user input f object now db found own was same size mime =
    let mine : text_eq f.user_id user ≡ true = ground (arith, text_eq_iff f.user_id user) in
    let same_size : (f.size_bytes == f.size_bytes) ≡ true = ground arith in
    let old : weight (counted_size user) (lookup input.file_id db.files) ≡ 0 =
      rw (found, was) refl in
    let new : counted_size user (uploaded_file f object now) ≡ f.size_bytes = rw mine refl in
    rw (found, complete_upload, mine, same, size, mime, same_size, text_eq_refl f.mime_type)
      (omega (arith, used-insert user input.file_id (uploaded_file f object now) db, old, new))
