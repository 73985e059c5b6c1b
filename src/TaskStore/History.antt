-- ===== src/TaskStore/History.antt =====
-- The methods of `taskStore` on a conversation of the server, and all methods as steps of the
-- store: each sets the state and emits, except where the source returns before.
use claw_work.Prelude.{
  Bool, List, Option, Text, [], any, get_last?, if◌then◌else◌, is_some, js, none, or_else, some,
  text_eq, trim, truthy, ℕ, ◌&&◌, ◌++◌, ◌==◌, ◌∷◌,
}
use mathlib.Core.Option
use claw_work.Event.{Artifact, TaskStreamEvent}
use claw_work.Tasks.{FileStatus}
use claw_work.TaskStore.{
  TaskState, Store, Message, emit, PendingAttachment, RecentConversation, TaskResultVersion,
  artifact_message, assistant_message, initial_state, replace_pending_attachment, user_message,
}
use claw_work.TaskStore.Extract.{extract_json}
use claw_work.TaskStore.Actions.{
  apply_stream_event, append_follow_up, append_recent_conversations, begin_pending_attachment,
  begin_retry, complete_pending_attachment, find_attachment, hydrate_recent_conversations,
  mark_cancelled, recover_active_task, remove_pending_attachment, remove_recent_conversation,
  resume_conversation, set_execution_meta, set_task_error, start_conversation, FileRecord,
}

pub record HistoryTask : Type 0 where
  pub task_id : Text
  pub input_text : Text
  pub status : Text
  pub error_message : Option Text
  pub result : Option TaskResultVersion

pub record HistoryTaskDetail : Type 0 where
  pub session_id : Text
  pub title : Text
  pub status : Text
  pub current_task_id : Option Text
  pub tasks : List HistoryTask
  pub versions : List TaskResultVersion

abbrev answer_of : HistoryTask → Text → List Message
answer_of t text =
    if truthy text
    then assistant_message (js "assistant-" ++ t.task_id) text (some t.task_id) ∷ []
    else []

abbrev artifact_of : HistoryTask → Option (Artifact × Text) → List Message
artifact_of t none = []
artifact_of t (some (a, url)) =
    artifact_message (js "artifact-" ++ t.task_id) a url (some t.task_id) ∷ []

abbrev result_messages : HistoryTask → Option TaskResultVersion → List Message
result_messages t none = []
result_messages t (some r) = answer_of t r.output_text ++ artifact_of t (extract_json r.output_json)

-- The loop over `detail.tasks`.
unfoldable pub history_messages : List HistoryTask → List Message
history_messages [] = []
history_messages (t ∷ ts) =
    user_message (js "user-" ++ t.task_id) t.input_text none
    ∷ (result_messages t t.result ++ history_messages ts)

-- `versions.at(-1)?.versionNo ?? null`
abbrev pub last_version_no : List TaskResultVersion → Option ℕ
last_version_no vs = Option.map (λ (v : TaskResultVersion). v.version_no) (get_last? vs)

abbrev with_default : Option Text → Option Text → Option Text
with_default none d = d
with_default (some a) d = some a

unfoldable pub hydrate_server_conversation : HistoryTaskDetail → TaskState → TaskState
unfolding history_messages
hydrate_server_conversation d s =
    let latest : Option HistoryTask = get_last? d.tasks in
    record s {
      current_task_id =
          with_default d.current_task_id (Option.map (λ (t : HistoryTask). t.task_id) latest);
      current_session_id = some d.session_id;
      current_status =
          with_default (Option.map (λ (t : HistoryTask). t.status) latest) (some d.status);
      current_error = elim latest [ none ↦ none | some t ↦ t.error_message ];
      current_title = d.title;
      current_run_id = none;
      last_submitted_task_text = Option.map (λ (t : HistoryTask). t.input_text) latest;
      pending_attachments = [];
      messages = history_messages d.tasks;
      result_versions = d.versions;
      selected_version_no = last_version_no d.versions;
    }

unfoldable pub set_result_versions : List TaskResultVersion → TaskState → TaskState
set_result_versions vs s = record s {
  result_versions = vs;
  selected_version_no = last_version_no vs;
}

abbrev pub has_version : ℕ → List TaskResultVersion → Bool
has_version n vs = any (λ (v : TaskResultVersion). v.version_no == n) vs

abbrev pub set_draft : Text → TaskState → TaskState
set_draft text s = record s { draft = text }

abbrev pub fail_attachment : Text → PendingAttachment → PendingAttachment
fail_attachment message a = record a {
  status = FileStatus.failed_upload;
  error_message = some message;
}

-- A call of a method, with what `nextId` draws in it.
pub data Action : Type 0 where
  set_draft_to : Text → Action
  begin_attachment : (fresh filename mime_type : Text) → ℕ → Action
  complete_attachment : Text → FileRecord → Action
  fail_attachment_with : (client message : Text) → Action
  remove_attachment : Text → Action
  start : (fresh text : Text) → Action
  follow_up : (fresh text : Text) → Action
  resume : (fresh fresh' : Text) → RecentConversation → Action
  set_meta : (task session status : Text) → Option Text → Action
  stream_event : (fresh : Text) → TaskStreamEvent → Action
  set_error : Text → Action
  retry : Action
  mark_as_cancelled : Action
  recover : (task session text status : Text) → Action
  hydrate_recent : List RecentConversation → Action
  append_recent : List RecentConversation → Action
  remove_recent : Text → Action
  hydrate_server : HistoryTaskDetail → Action
  set_versions : List TaskResultVersion → Action
  select_version : ℕ → Action
  reset : Action

-- The new state of a method, or `none` where it returns without a change.
unfoldable pub act : Action → TaskState → Option TaskState
act (set_draft_to text) s = some (set_draft text s)
act (begin_attachment fresh name mime size) s =
    some (begin_pending_attachment fresh name mime size s)
act (complete_attachment client file) s = some (complete_pending_attachment client file s)
act (fail_attachment_with client message) s =
    Option.map
      (λ (a : PendingAttachment). replace_pending_attachment client (fail_attachment message a) s)
      (find_attachment client s)
act (remove_attachment client) s = some (remove_pending_attachment client s)
act (start fresh text) s =
    if truthy (trim text) then some (start_conversation fresh text s) else none
act (follow_up fresh text) s =
    if truthy (trim text) then some (append_follow_up fresh text s) else none
act (resume fresh fresh' item) s = some (resume_conversation fresh fresh' item s)
act (set_meta task session status error) s = some (set_execution_meta task session status error s)
act (stream_event fresh e) s = some (apply_stream_event fresh e s)
act (set_error message) s = some (set_task_error message s)
act retry s = some (begin_retry s)
act mark_as_cancelled s = some (mark_cancelled s)
act (recover task session text status) s =
    if text_eq (or_else s.current_task_id []) task && is_some s.current_task_id
    then none
    else some (recover_active_task task session text status s)
act (hydrate_recent items) s = some (hydrate_recent_conversations items s)
act (append_recent items) s = some (append_recent_conversations items s)
act (remove_recent task) s = some (remove_recent_conversation task s)
act (hydrate_server d) s = some (hydrate_server_conversation d s)
act (set_versions vs) s = some (set_result_versions vs s)
act (select_version n) s =
    if has_version n s.result_versions
    then some (record s { selected_version_no = some n })
    else none
act reset s = some initial_state

abbrev pub finish : Option TaskState → Store → Store
finish none store = store
finish (some s) store = emit s store

unfoldable pub perform : Action → Store → Store
unfolding act emit
perform a store = finish (act a store.state) store
