-- ===== src/Tasks/Run.antt =====
-- src/tasks/api_ext.rs and src/tasks/database_ext.rs: executing the tasks that are due. The mail
-- and the HTTP packages are parameters.
pub mod Counts
pub mod Ends
pub mod Delivers
pub mod Others
use retrack.Prelude.{
  ltb, leb, ◌==◌, if◌then◌else◌, length, take, last?, keep, find, all, is_empty, and_then, ℕ, zero,
  suc, ◌+◌, min, String, Bool, true, false, not, ◌&&◌, ◌||◌, Option, none, some, List, [], ◌∷◌,
}
use retrack.Error.{Error, Result, ok, err, unknown, no_smtp, send_failed}
use retrack.Exec.{◌>>=◌, ◌>>◌, Exec, pure, bail}
use retrack.Types.{Uuid, OffsetDateTime}
use retrack.Env.{Env, SmtpConfig, SmtpCatchAllConfig}
use retrack.Db.{World, observe}
use retrack.Db.Paging.{order_by, last_key}
use retrack.Tasks.Task.{
  Task, TaskType, email, http, EmailTaskType, HttpTaskType, Email, EmailAttachment,
}
use retrack.Tasks.Template.{Templates, into_email}
use retrack.Tasks.Api.{with_tasks}

abbrev pub max_tasks_page_size : ℕ
max_tasks_page_size = 100

-- What `Message::builder` is given.
pub record Message : Type 0 where
  pub from : String
  pub reply_to : String
  pub to : List String
  pub subject : String
  pub date : OffsetDateTime
  pub text : String
  pub html : Option String
  pub attachments : List EmailAttachment

-- An answer to a request: whether `error_for_status` refuses it, and its text.
pub record Answer : Type 0 where
  pub is_error : Bool
  pub text : Option String

pub record Delivery : Type 0 where
  pub templates : Templates
  -- `ContentType::parse(_).is_ok()`
  pub is_content_type : String → Bool
  -- building a message and sending it, at each moment: whether that succeeds
  pub send : ℕ → Message → Bool
  -- executing a request, at each moment; `none` is no answer
  pub request : ℕ → HttpTaskType → Option Answer

abbrev or_failed : {A : Type 0} → Option A → Exec World A
or_failed none = bail (unknown send_failed)
or_failed (some a) = pure a

abbrev ensure : Bool → Exec World Unit
ensure b = if b then pure tt else bail (unknown send_failed)

-- Database::get_task, Database::remove_task
unfoldable pub get_task : Uuid → World → Option Task
get_task id w = find (λ (t : Task). t.id == id) w.tasks

unfoldable pub remove_task : Uuid → World → World
remove_task id w = with_tasks (keep (λ (t : Task). not (t.id == id)) w.tasks) w

abbrev pub task_id : Task → ℕ
task_id t = t.id

-- WHERE scheduled_at <= $1 AND id > $2 ORDER BY scheduled_at, id LIMIT $3
unfoldable pub tasks_page : OffsetDateTime → ℕ → ℕ → List Task → List Task
tasks_page now last page_size tasks = take page_size (
    order_by (λ (t : Task). t.scheduled_at)
      (order_by task_id (keep (λ (t : Task). leb t.scheduled_at now && ltb last t.id) tasks)))

module _ (env : Env) (delivery : Delivery) where
  abbrev pub catch_all_recipient : SmtpConfig → Email → Option String
  catch_all_recipient smtp e =
      and_then smtp.catch_all
        (λ (c : SmtpCatchAllConfig). if c.text_matcher e.text then some c.recipient else none)

  abbrev pub recipients : Option String → List String → List String
  recipients none to = to
  recipients (some catch_all) to = catch_all ∷ []

  -- attachments are added to a message with an HTML part only
  abbrev pub attached : Email → List EmailAttachment
  attached e = elim e.html [
    | none ↦ []
    | some html ↦ elim e.attachments [ none ↦ [] | some attachments ↦ attachments ]
  ]

  abbrev pub message_of : SmtpConfig → Email → List String → OffsetDateTime → Message
  message_of smtp e to timestamp = record {
    from = smtp.username;
    reply_to = smtp.username;
    to = recipients (catch_all_recipient smtp e) to;
    subject = e.subject;
    date = timestamp;
    text = e.text;
    html = e.html;
    attachments = attached e;
  }

  unfoldable pub send_email_with : SmtpConfig → EmailTaskType → OffsetDateTime → Exec World Unit
  send_email_with smtp task timestamp = do
    e ← or_failed (into_email delivery.templates task.content)
    ensure (env.is_mailbox smtp.username)
    ensure (all env.is_mailbox (recipients (catch_all_recipient smtp e) task.to))
    ensure (all (λ (a : EmailAttachment). delivery.is_content_type a.content_type) (attached e))
    sent ← observe (λ m. delivery.send m (message_of smtp e task.to timestamp))
    ensure sent

  abbrev pub send_configured : Option SmtpConfig → EmailTaskType → OffsetDateTime → Exec World Unit
  send_configured none task timestamp = bail (unknown no_smtp)
  send_configured (some smtp) task timestamp = send_email_with smtp task timestamp

  -- TasksApi::send_email
  unfoldable pub send_email : EmailTaskType → OffsetDateTime → Exec World Unit
  send_email task timestamp = send_configured env.config.smtp task timestamp

  -- TasksApi::send_http_request
  unfoldable pub send_http_request : HttpTaskType → Exec World Unit
  send_http_request task = do
    reached ← observe (λ m. delivery.request m task)
    answer ← or_failed reached
    ensure (not answer.is_error)
    text ← or_failed answer.text
    pure tt

  unfoldable pub execute_type : TaskType → OffsetDateTime → Exec World Unit
  execute_type (email t) timestamp = send_email t timestamp
  execute_type (http t) timestamp = send_http_request t

  -- TasksApi::execute_task
  abbrev pub execute_task : Task → Exec World Unit
  execute_task t = execute_type t.task_type t.scheduled_at

  -- a failed task stays in the table
  abbrev pub settle : ℕ → Uuid → Result Unit → World → ℕ × World
  settle executed id (ok u) w = (executed + 1, remove_task id w)
  settle executed id (err e) w = (executed, w)

  -- the loop body: how many tasks are executed by now
  abbrev pub run_found : ℕ → Option Task → World → ℕ × World
  run_found executed none w = (executed, w)
  run_found executed (some t) w = let (r, w') = execute_task t w in settle executed t.id r w'

  unfoldable pub run_task : ℕ → Uuid → World → ℕ × World
  run_task executed id w = run_found executed (get_task id w) w

  -- the tasks of a page, until the limit is met: the count, and whether it was
  unfoldable pub run_page : ℕ → ℕ → List Task → World → (ℕ × Bool) × World
  run_page limit executed [] w = ((executed, false), w)
  run_page limit executed (t ∷ ts) w =
      let (n, w') = run_task executed t.id w in
      let rest = run_page limit n ts w' in if leb limit n then ((n, true), w') else rest

  -- The pages; `none` means that the fuel ran out.
  unfoldable pub run_pages : ℕ → OffsetDateTime → ℕ → ℕ → ℕ → World → Option (ℕ × World)
  run_pages zero now limit executed last w = none
  run_pages (suc fuel) now limit executed last w =
      let page_size = min max_tasks_page_size limit in
      let rows = tasks_page now last page_size w.tasks in
      let ((n, stop), w') = run_page limit executed rows w in
      let rest = run_pages fuel now limit n (last_key task_id last (last? rows)) w' in
      if stop || ltb (length rows) page_size then some (n, w') else rest

  -- TasksApi::execute_pending_tasks
  unfoldable pub execute_pending_tasks : ℕ → ℕ → World → Option (ℕ × World)
  execute_pending_tasks fuel limit w =
      run_pages fuel (env.now_utc w.moment) limit 0 0 (record w { moment = suc w.moment })
