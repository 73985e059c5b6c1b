-- ===== src/Tasks/Storage/Examples.antt =====
-- The theorems on the storage quota at concrete inputs.
use claw_work.Prelude.{
  [], any, arith, js, lookup, none, refl, some, total, true, ◌+◌, ◌∷◌, ◌≡◌, ◌≤◌, All, is_some,
  text_eq, truthy,
}
use claw_work.Tasks.{
  Db, Env, File, FileStatus, Status, Task, as_positive_integer, max_result_file_bytes,
  user_storage_bytes,
}
use claw_work.Tasks.Storage.{
  CreateUpload, CompleteUpload, artifact_usage, complete_upload, create_upload_url, used_bytes,
}
use claw_work.Tasks.Storage.Archive.{
  Outside, archive_result_artifact, checked_size, is_allowed_source, read_body, record_artifact,
  store_artifact,
}
use claw_work.Tasks.Storage.Quota.{
  create_upload_url-quota, archive_result_artifact-quota, complete_upload-revives,
}
use claw_work.Tasks.Filename.{sanitize_filename, IsAllowed, sanitize_filename-IsAllowed}
use claw_work.Event.{Artifact, ArtifactKind}

abbrev small_env : Env
small_env = record {
  max_upload_bytes_var = some 50;
  max_result_file_bytes_var = some 60;
  user_storage_bytes_var = some 100;
  user_concurrent_task_limit_var = none;
}

abbrev refused_file : File
refused_file = record {
  user_id = js "u";
  filename = js "a.txt";
  mime_type = js "text/plain";
  size_bytes = 30;
  status = FileStatus.failed_upload;
  storage_key = js "users/u/f1/a.txt";
  etag = none;
  uploaded_at = none;
}

abbrev one_task : Task
one_task = record {
  session_id = js "s";
  user_id = js "u";
  parent_task_id = none;
  task_type = js "document_summary";
  status = Status.running;
  input_text = js "x";
  preferred_tone = js "default";
  preferred_length = js "default";
  file_ids = [];
  run_id = none;
  adapter_stream_url = none;
  error_code = none;
  error_message = none;
  queue_job_id = none;
  attempt_count = 1;
  started_at = none;
  completed_at = none;
}

abbrev one_db : Db
one_db = record {
  sessions = [];
  tasks = (js "t", one_task) ∷ [];
  events = [];
  next_event_id = 1;
  results = [];
  artifacts = [];
  files = (js "f1", refused_file) ∷ [];
  objects = [];
  hub = [];
  pushes = [];
}

abbrev small_upload : CreateUpload
small_upload = record { filename = js "b.txt"; mime_type = js "text/plain"; size_bytes = 40 }

create_upload_url-quota_example :
    used_bytes
      (js "u")
      (create_upload_url small_env (js "u") small_upload (js "f2") (some (js "url")) one_db).0
    ≤ user_storage_bytes small_env
unfolding text_eq
create_upload_url-quota_example =
    create_upload_url-quota small_env (js "u") small_upload (js "f2") (some (js "url")) one_db
      (unfold lookup in refl)
      (unfold used_bytes user_storage_bytes as_positive_integer total artifact_usage in omega arith)

abbrev sheet : Artifact
sheet = record {
  kind = ArtifactKind.pdf;
  file_name = js "r.pdf";
  mime_type = js "application/pdf";
  artifact_id = none;
  download_url = some (js "http://g/r.pdf");
  preview_text = [];
  size_bytes = none;
}

abbrev outside : Outside
outside = record {
  source =
      some (record { protocol = js "http:"; username = []; password = []; origin = js "http://g" });
  download = some (record {
    answered = true;
    declared_length = none;
    mime = js "application/pdf";
    chunks = 10 ∷ 20 ∷ [];
  });
  key_id = js "k";
  stored = true;
  deleted = true;
  row_id = js "a1";
}

archive_result_artifact-quota_example :
    used_bytes
      (js "u")
      (archive_result_artifact small_env (js "http://g" ∷ []) (js "t") sheet outside one_db).0
    ≤ user_storage_bytes small_env
archive_result_artifact-quota_example =
    archive_result_artifact-quota small_env (js "http://g" ∷ []) (js "t") sheet outside (js "u")
      one_db
      (unfold used_bytes user_storage_bytes as_positive_integer total artifact_usage in omega arith)

-- The archive does store the file here.
archives :
    is_some (archive_result_artifact small_env (js "http://g" ∷ []) (js "t") sheet outside one_db).1
    ≡ true
unfolding archive_result_artifact store_artifact record_artifact checked_size read_body
    is_allowed_source user_storage_bytes max_result_file_bytes as_positive_integer used_bytes total
    artifact_usage lookup any text_eq
archives = refl

abbrev completion : CompleteUpload
completion = record {
  file_id = js "f1";
  filename = js "a.txt";
  mime_type = js "text/plain";
  size_bytes = 30;
  storage_key = js "users/u/f1/a.txt";
}

complete_upload-revives_example :
    used_bytes
      (js "u")
      (complete_upload
        (js "u")
        completion
        (some (record { size_bytes = 30; mime_type = js "text/plain"; etag = none }))
        5
        one_db).0
    ≡ used_bytes (js "u") one_db + 30
unfolding text_eq
complete_upload-revives_example =
    complete_upload-revives (js "u") completion refused_file
      (record { size_bytes = 30; mime_type = js "text/plain"; etag = none }) 5 one_db
      (unfold lookup in refl) refl refl (unfold sanitize_filename in refl) refl refl

sanitize_filename-IsAllowed_example :
    (truthy (sanitize_filename (js "../a b?.pdf")) ≡ true)
    × All IsAllowed (sanitize_filename (js "../a b?.pdf"))
sanitize_filename-IsAllowed_example = sanitize_filename-IsAllowed (js "../a b?.pdf")
