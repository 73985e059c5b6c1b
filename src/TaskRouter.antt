-- ===== src/TaskRouter.antt =====
-- apps/task-router/src/rules.ts: the type of a task by the words of its text. `lower` stands for
-- `toLowerCase`, which the language gives.
use claw_work.Prelude.{
  Bool, List, Text, [], any, if◌then◌else◌, includes, js, length, ltb, trim, ◌∷◌,
}

pub data RoutedType : Type 0 where
  document_summary meeting_minutes email_draft weekly_report : RoutedType

pub data ToneStyle : Type 0 where
  plain formal : ToneStyle

pub record RouteResult : Type 0 where
  pub task_type : RoutedType
  pub tone_style : ToneStyle
  pub need_file_parse : Bool

abbrev meeting_minutes_keywords : List Text
meeting_minutes_keywords = js "纪要" ∷ js "会议纪要" ∷ []

abbrev email_keywords : List Text
email_keywords = js "邮件" ∷ js "邮箱" ∷ js "email" ∷ js "mail" ∷ []

abbrev report_keywords : List Text
report_keywords = js "周报" ∷ js "汇报" ∷ []

abbrev pub has_keyword : List Text → Text → Bool
has_keyword keywords text = any (includes text) keywords

unfoldable pub route_by_rules : (lower : Text → Text) → Text → List Text → RouteResult
route_by_rules lower text file_ids =
    let t : Text = lower (trim text) in
    let parse : Bool = ltb 0 (length file_ids) in
    if has_keyword meeting_minutes_keywords t
    then record { task_type = meeting_minutes; tone_style = plain; need_file_parse = parse }
    else if has_keyword email_keywords t
    then record { task_type = email_draft; tone_style = formal; need_file_parse = parse }
    else if has_keyword report_keywords t
    then record { task_type = weekly_report; tone_style = formal; need_file_parse = parse }
    else record { task_type = document_summary; tone_style = plain; need_file_parse = parse }

-- The names that the source uses as values.
abbrev pub type_name : RoutedType → Text
type_name document_summary = js "document_summary"
type_name meeting_minutes = js "meeting_minutes"
type_name email_draft = js "email_draft"
type_name weekly_report = js "weekly_report"
