-- ===== src/Tasks/Task.antt =====
-- src/tasks/task.rs, task_type.rs, http_task_type.rs, email_task_type.rs and the types below them.
use retrack.Prelude.{String, Option, List}
use retrack.Types.{Uuid, OffsetDateTime, Bytes, Url, HeaderMap}

-- `Result<String, String>` of the tracker's template
pub data Checked : Type 0 where
  changed : String → Checked
  failed : String → Checked

pub record EmailAttachment : Type 0 where
  pub inline_id : String
  pub content_type : String
  pub content : Bytes

pub record Email : Type 0 where
  pub subject : String
  pub text : String
  pub html : Option String
  pub attachments : Option (List EmailAttachment)

pub data EmailTemplate : Type 0 where
  -- tracker_name, content
  tracker_changes : String → Checked → EmailTemplate

pub data EmailContent : Type 0 where
  custom : Email → EmailContent
  template : EmailTemplate → EmailContent

pub record EmailTaskType : Type 0 where
  pub to : List String
  pub content : EmailContent

pub record HttpTaskType : Type 0 where
  pub url : Url
  pub method : String
  pub headers : Option HeaderMap
  pub body : Option Bytes

pub data TaskType : Type 0 where
  email : EmailTaskType → TaskType
  http : HttpTaskType → TaskType

pub record Task : Type 0 where
  pub id : Uuid
  pub task_type : TaskType
  pub scheduled_at : OffsetDateTime
