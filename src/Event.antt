-- ===== src/Event.antt =====
-- packages/shared-types/src/events.ts and files.ts: the events of a task's stream, as the schemas
-- deliver them. JSON values are a data type of their own.
use claw_work.Prelude.{ℕ, Text, Option, Bool, true, false}

-- `num` is a number that is a natural one, `real` any other, by its literal.
mutual
  pub data Json : Type 0 where
    null : Json
    bool : Bool → Json
    num : ℕ → Json
    real : Text → Json
    str : Text → Json
    arr : Items → Json
    obj : Fields → Json

  pub data Items : Type 0 where
    nil : Items
    item : Json → Items → Items

  pub data Fields : Type 0 where
    end : Fields
    field : Text → Json → Fields → Fields

pub data ArtifactKind : Type 0 where
  excel pdf docx : ArtifactKind

pub record Artifact : Type 0 where
  pub kind : ArtifactKind
  pub file_name : Text
  pub mime_type : Text
  pub artifact_id : Option Text
  pub download_url : Option Text
  pub preview_text : Text
  pub size_bytes : Option ℕ

-- The union of `ArtifactResultSchema` and any record.
pub data ResultValue : Type 0 where
  artifact : Artifact → ResultValue
  record_value : Json → ResultValue

pub data Detail : Type 0 where
  accepted : Detail
  stage_changed : (stage : Text) → Detail
  delta : (delta : Text) → Detail
  result_created : (result : ResultValue) → Detail
  completed : Detail
  cancelled : (message : Text) → Detail
  failed : (code message : Text) → Detail

pub record TaskStreamEvent : Type 0 where
  pub task_id : Text
  pub session_id : Text
  pub run_id : Text
  pub timestamp : Text
  pub detail : Detail

abbrev pub is_terminal_detail : Detail → Bool
is_terminal_detail completed = true
is_terminal_detail (cancelled message) = true
is_terminal_detail (failed code message) = true
is_terminal_detail _ = false

-- `isTerminalEvent`, which the broker, the adapter's server and both stream clients each declare.
abbrev pub is_terminal_event : TaskStreamEvent → Bool
is_terminal_event e = is_terminal_detail e.detail
