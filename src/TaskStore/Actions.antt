-- ===== src/TaskStore/Actions.antt =====
-- The methods of `taskStore` that change the state.
use claw_work.Prelude.{
  List, Option, Text, [], if◌then◌else◌, js, none, not, some, text_eq, trim, truthy, ℕ, ◌+◌, ◌∷◌,
  Bool, any, filter, find, ◌++◌,
}
use claw_work.Event.{Artifact, Detail, TaskStreamEvent}
use claw_work.Tasks.{FileStatus}
use claw_work.TaskStore.Extract.{extract_artifact}
use claw_work.TaskStore.{
  TaskState, RecentConversation, append_artifact_message, append_assistant_delta, assistant_message,
  build_assistant_preview, build_title, next_id, push_user_message, upsert_recent, user_message,
  PendingAttachment, replace_pending_attachment,
}

-- The first conversation with a new status, if there is one.
unfoldable pub mark_first : Text → List RecentConversation → List RecentConversation
mark_first status [] = []
mark_first status (c ∷ cs) = record c { status = status } ∷ cs

unfoldable pub append_extracted :
    (fresh run : Text) → Option (Artifact × Text) → TaskState → TaskState
append_extracted fresh run none s = s
append_extracted fresh run (some (a, url)) s = append_artifact_message fresh run a url s

-- The branches of `applyStreamEvent`.
unfoldable pub apply_detail : (fresh run : Text) → Detail → TaskState → TaskState
unfolding mark_first append_extracted extract_artifact
apply_detail fresh run Detail.accepted s = record s {
  current_status = some (js "running");
  recent_conversations = mark_first (js "处理中") s.recent_conversations;
}
apply_detail fresh run (Detail.stage_changed stage) s = record s {
  current_status = some (js "running");
}
apply_detail fresh run (Detail.result_created r) s =
    append_extracted fresh run (extract_artifact r)
      (record s { current_status = some (js "running") })
apply_detail fresh run (Detail.delta delta) s =
    append_assistant_delta fresh run delta (record s { current_status = some (js "running") })
apply_detail fresh run Detail.completed s = record s {
  current_status = some (js "completed");
  recent_conversations = mark_first (js "已完成") s.recent_conversations;
}
apply_detail fresh run (Detail.cancelled message) s = record s {
  current_status = some (js "cancelled");
  current_error = none;
  recent_conversations = mark_first (js "已取消") s.recent_conversations;
}
apply_detail fresh run (Detail.failed code message) s = record s {
  current_status = some (js "failed");
  current_error = some message;
  recent_conversations = mark_first (js "失败") s.recent_conversations;
}

unfoldable pub apply_stream_event : (fresh : Text) → TaskStreamEvent → TaskState → TaskState
unfolding apply_detail
apply_stream_event fresh e s = apply_detail fresh e.run_id e.detail (record s {
  current_task_id = some e.task_id;
  current_session_id = some e.session_id;
  current_run_id = some e.run_id;
})

unfoldable pub start_conversation : (fresh text : Text) → TaskState → TaskState
unfolding upsert_recent
start_conversation fresh text s =
    if not (truthy (trim text))
    then s
    else upsert_recent fresh (trim text) (js "处理中") (record s {
      last_submitted_task_text = some (trim text);
      submit_count = s.submit_count + 1;
      draft = [];
      current_task_id = none;
      current_session_id = none;
      current_status = some (js "queued");
      current_error = none;
      current_title = build_title (trim text);
      current_run_id = none;
      pending_attachments = [];
      result_versions = [];
      selected_version_no = none;
      messages = user_message (next_id (js "user") fresh) (trim text) none ∷ [];
    })

unfoldable pub append_follow_up : (fresh text : Text) → TaskState → TaskState
unfolding upsert_recent push_user_message
append_follow_up fresh text s =
    if not (truthy (trim text))
    then s
    else upsert_recent fresh (trim text) (js "处理中") (
        push_user_message fresh (trim text) (record s {
          last_submitted_task_text = some (trim text);
          submit_count = s.submit_count + 1;
          draft = [];
          current_task_id = none;
          current_status = some (js "queued");
          current_error = none;
          current_run_id = none;
          pending_attachments = [];
        }))

unfoldable pub resume_conversation :
    (fresh fresh' : Text) → RecentConversation → TaskState → TaskState
unfolding build_assistant_preview next_id
resume_conversation fresh fresh' item s = record s {
  current_task_id = none;
  current_session_id = none;
  current_status = some item.status;
  current_error = none;
  current_title = item.title;
  current_run_id = none;
  last_submitted_task_text = some item.prompt;
  pending_attachments = [];
  messages =
      user_message (next_id (js "user") fresh) item.prompt none
      ∷ assistant_message (next_id (js "assistant") fresh') (build_assistant_preview item.prompt)
          none
      ∷ [];
}

-- `setExecutionMeta`, on the first conversation.
unfoldable pub meta_first :
    (task session status : Text) → List RecentConversation → List RecentConversation
meta_first task session status [] = []
meta_first task session status (c ∷ cs) =
    record c { id = task; session_id = some session; status = status } ∷ cs

unfoldable pub set_execution_meta :
    (task session status : Text) → Option Text → TaskState → TaskState
unfolding meta_first
set_execution_meta task session status error s = record s {
  current_task_id = some task;
  current_session_id = some session;
  current_status = some status;
  current_error = error;
  recent_conversations = meta_first task session status s.recent_conversations;
}

unfoldable pub set_task_error : Text → TaskState → TaskState
unfolding mark_first
set_task_error message s = record s {
  current_status = some (js "failed");
  current_error = some message;
  recent_conversations = mark_first (js "失败") s.recent_conversations;
}

unfoldable pub begin_retry : TaskState → TaskState
begin_retry s = record s { current_status = some (js "queued"); current_error = none }

unfoldable pub mark_cancelled : TaskState → TaskState
unfolding mark_first
mark_cancelled s = record s {
  current_status = some (js "cancelled");
  current_error = none;
  recent_conversations = mark_first (js "已取消") s.recent_conversations;
}

-- `recoverActiveTask`, which does nothing (and emits nothing) for the current task.
unfoldable pub recover_active_task : (task session text status : Text) → TaskState → TaskState
recover_active_task task session text status s = record s {
  current_task_id = some task;
  current_session_id = some session;
  current_status = some status;
  current_error = none;
  current_title = build_title text;
  current_run_id = none;
  last_submitted_task_text = some text;
  pending_attachments = [];
  messages = user_message (js "user-" ++ task) text none ∷ [];
}

unfoldable pub hydrate_recent_conversations : List RecentConversation → TaskState → TaskState
hydrate_recent_conversations items s = record s { recent_conversations = items }

abbrev pub has_id : Text → List RecentConversation → Bool
has_id id cs = any (λ (c : RecentConversation). text_eq c.id id) cs

unfoldable pub append_recent_conversations : List RecentConversation → TaskState → TaskState
append_recent_conversations items s = record s {
  recent_conversations =
      s.recent_conversations
      ++ filter (λ (c : RecentConversation). not (has_id c.id s.recent_conversations)) items;
}

unfoldable pub remove_recent_conversation : Text → TaskState → TaskState
remove_recent_conversation task s = record s {
  recent_conversations =
      filter (λ (c : RecentConversation). not (text_eq c.id task)) s.recent_conversations;
}

unfoldable pub begin_pending_attachment :
    (fresh filename mime_type : Text) → ℕ → TaskState → TaskState
begin_pending_attachment fresh filename mime_type size_bytes s = record s {
  pending_attachments =
      s.pending_attachments
      ++ record {
        client_id = next_id (js "attachment") fresh;
        file_id = none;
        filename = filename;
        mime_type = mime_type;
        size_bytes = size_bytes;
        status = FileStatus.uploading;
        storage_key = none;
        error_message = none;
      }
        ∷ [];
}

-- packages/shared-types/src/files.ts, without the fields that the store does not read.
pub record FileRecord : Type 0 where
  pub file_id : Text
  pub filename : Text
  pub mime_type : Text
  pub size_bytes : ℕ
  pub status : FileStatus
  pub storage_key : Text

abbrev completed_attachment : Text → FileRecord → PendingAttachment
completed_attachment client file = record {
  client_id = client;
  file_id = some file.file_id;
  filename = file.filename;
  mime_type = file.mime_type;
  size_bytes = file.size_bytes;
  status = file.status;
  storage_key = some file.storage_key;
  error_message = none;
}

unfoldable pub complete_pending_attachment : Text → FileRecord → TaskState → TaskState
unfolding replace_pending_attachment
complete_pending_attachment client file s =
    replace_pending_attachment client (completed_attachment client file) s

abbrev pub find_attachment : Text → TaskState → Option PendingAttachment
find_attachment client s =
    find (λ (a : PendingAttachment). text_eq a.client_id client) s.pending_attachments

unfoldable pub remove_pending_attachment : Text → TaskState → TaskState
remove_pending_attachment client s = record s {
  pending_attachments =
      filter (λ (a : PendingAttachment). not (text_eq a.client_id client)) s.pending_attachments;
}

unfoldable pub uploaded_file_ids : List PendingAttachment → List Text
uploaded_file_ids [] = []
uploaded_file_ids (a ∷ more) = elim a.status [
  | FileStatus.uploaded ↦ elim a.file_id [
    | none ↦ uploaded_file_ids more
    | some id ↦ id ∷ uploaded_file_ids more
  ]
  | _ ↦ uploaded_file_ids more
]

-- `getUploadedPendingFileIds`
unfoldable pub get_uploaded_pending_file_ids : TaskState → List Text
unfolding uploaded_file_ids
get_uploaded_pending_file_ids s = uploaded_file_ids s.pending_attachments
