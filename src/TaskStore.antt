-- ===== src/TaskStore.antt =====
-- apps/mobile/src/store/taskStore.ts: the state of the phone's conversation view. The module's
-- variables are a record; `emit` copies the state into the snapshot and counts the round of calls
-- of the listeners. What `nextId` draws is an argument. A message that grows is replaced here,
-- while the source changes the object in place, so that a snapshot taken before shows it too.
use claw_work.Prelude.{
  Bool, List, Option, Text, [], false, find, get_last?, if◌then◌else◌, includes, js, length, ltb,
  map, none, not, some, take, text_eq, trim, truthy, ℕ, ◌&&◌, ◌++◌, ◌+◌, ◌-◌, ◌||◌, ◌∷◌,
}
pub mod Extract
pub mod Actions
pub mod History
pub mod Transcript
pub mod Versions
mod Examples
use mathlib.Core.Option
use claw_work.Event.{Json, Artifact}
use claw_work.Tasks.{FileStatus}

pub data Message : Type 0 where
  user_message : (id text : Text) (run_id : Option Text) → Message
  assistant_message : (id text : Text) (run_id : Option Text) → Message
  artifact_message :
      (id : Text) (artifact : Artifact) (download_url : Text) (run_id : Option Text) → Message

pub record RecentConversation : Type 0 where
  pub id : Text
  pub session_id : Option Text
  pub title : Text
  pub subtitle : Text
  pub status : Text
  pub prompt : Text

pub record PendingAttachment : Type 0 where
  pub client_id : Text
  pub file_id : Option Text
  pub filename : Text
  pub mime_type : Text
  pub size_bytes : ℕ
  pub status : FileStatus
  pub storage_key : Option Text
  pub error_message : Option Text

pub record TaskResultVersion : Type 0 where
  pub id : Text
  pub task_id : Text
  pub session_id : Text
  pub version_no : ℕ
  pub output_text : Text
  pub output_json : Json
  pub created_at : Text

pub record TaskState : Type 0 where
  pub draft : Text
  pub last_submitted_task_text : Option Text
  pub submit_count : ℕ
  pub current_task_id : Option Text
  pub current_session_id : Option Text
  pub current_status : Option Text
  pub current_error : Option Text
  pub current_title : Text
  pub current_run_id : Option Text
  pub messages : List Message
  pub pending_attachments : List PendingAttachment
  pub recent_conversations : List RecentConversation
  pub result_versions : List TaskResultVersion
  pub selected_version_no : Option ℕ

pub record Store : Type 0 where
  pub state : TaskState
  pub snapshot : TaskState
  pub rounds : ℕ

abbrev welcome : Text
welcome = js "你好呀！很高兴认识你😊"

unfoldable pub initial_state : TaskState
initial_state = record {
  draft = [];
  last_submitted_task_text = none;
  submit_count = 0;
  current_task_id = none;
  current_session_id = none;
  current_status = none;
  current_error = none;
  current_title = js "新对话";
  current_run_id = none;
  messages = assistant_message (js "welcome-assistant") welcome none ∷ [];
  pending_attachments = [];
  recent_conversations = [];
  result_versions = [];
  selected_version_no = none;
}

-- `emit`, on a changed state.
unfoldable pub emit : TaskState → Store → Store
emit state store = record { state = state; snapshot = state; rounds = store.rounds + 1 }

-- `nextId`: `fresh` is the time and the random digits.
unfoldable pub next_id : Text → Text → Text
next_id prefix fresh = prefix ++ (js "-" ++ fresh)

unfoldable pub build_title : Text → Text
build_title text =
    if not (truthy (trim text))
    then js "新对话"
    else if ltb 10 (length (trim text))
    then take 10 (trim text) ++ js "…"
    else trim text

unfoldable pub build_assistant_preview : Text → Text
build_assistant_preview text =
    if includes text (js "你好")
    then welcome
    else if includes text (js "会议") || includes text (js "纪要")
    then js "收到，我先帮你整理会议纪要结构，再继续细化重点和待办。"
    else if includes text (js "邮件")
    then js "可以，我会先给你起一版清晰礼貌的邮件草稿，再一起调整语气。"
    else if includes text (js "总结") || includes text (js "文档")
    then js "好的，我先快速提炼核心内容，再按更易读的方式帮你整理。"
    else js "收到，我先帮你起一版结果，你可以继续追问或改稿。"

-- The list without the first conversation of a prompt.
unfoldable pub remove_prompt : Text → List RecentConversation → List RecentConversation
remove_prompt prompt [] = []
remove_prompt prompt (c ∷ cs) = if text_eq c.prompt prompt then cs else c ∷ remove_prompt prompt cs

unfoldable pub upsert_recent : (fresh prompt status : Text) → TaskState → TaskState
unfolding remove_prompt build_title next_id
upsert_recent fresh prompt status s =
    let id : Text =
      elim (find (λ (c : RecentConversation). text_eq c.prompt prompt) s.recent_conversations) [
        | some c ↦ c.id
        | none ↦ next_id (js "recent") fresh
      ] in
    record s {
      recent_conversations =
          record {
            id = id;
            session_id = none;
            title = build_title prompt;
            subtitle = js "刚刚";
            status = status;
            prompt = prompt;
          }
          ∷ remove_prompt prompt s.recent_conversations;
    }

unfoldable pub push_user_message : (fresh prompt : Text) → TaskState → TaskState
unfolding next_id
push_user_message fresh prompt s = record s {
  messages = s.messages ++ user_message (next_id (js "user") fresh) prompt none ∷ [];
}

abbrev pub same_run : Text → Option Text → Bool
same_run run none = false
same_run run (some r) = text_eq r run

-- The messages with `delta` at the end of the last one, if that is the assistant's for this run.
unfoldable pub grow_last : (run delta : Text) → List Message → Option (List Message)
grow_last run delta [] = none
grow_last run delta (assistant_message id text r ∷ []) =
    if same_run run r then some (assistant_message id (text ++ delta) r ∷ []) else none
grow_last run delta (m ∷ ms) = Option.map (λ (ns : List Message). m ∷ ns) (grow_last run delta ms)

unfoldable pub append_assistant_delta : (fresh run delta : Text) → TaskState → TaskState
unfolding grow_last next_id
append_assistant_delta fresh run delta s =
    if not (truthy delta) then s else elim (grow_last run delta s.messages) [
      | some ms ↦ record s { messages = ms }
      | none ↦ record s {
        messages =
            s.messages ++ assistant_message (next_id (js "assistant") fresh) delta (some run) ∷ [];
      }
    ]

abbrev pub is_repeated_artifact : (run url : Text) → Option Message → Bool
is_repeated_artifact run url (some (artifact_message id a u r)) = same_run run r && text_eq u url
is_repeated_artifact run url _ = false

unfoldable pub append_artifact_message :
    (fresh run : Text) → Artifact → Text → TaskState → TaskState
unfolding next_id
append_artifact_message fresh run a url s =
    if is_repeated_artifact run url (get_last? s.messages) then s else record s {
      messages =
          s.messages ++ artifact_message (next_id (js "artifact") fresh) a url (some run) ∷ [];
    }

unfoldable pub replace_pending_attachment : Text → PendingAttachment → TaskState → TaskState
replace_pending_attachment client next s = record s {
  pending_attachments =
      map (λ (a : PendingAttachment). if text_eq a.client_id client then next else a)
        s.pending_attachments;
}
