-- ===== src/Tasks/Run/Delivers.antt =====
-- What the execution of an email task sends: TasksApi::send_email.
use retrack.Prelude.{
  Bool-cases, Option-cases, all, ℕ, String, ◌≡◌, refl, inl, inr, ◌⊎◌, true, Option, none, some,
  List, [], ◌∷◌, arith,
}
use retrack.Error.{Result, ok, err}
use retrack.Types.{Uuid, OffsetDateTime}
use retrack.Env.{Env, SmtpConfig, SmtpCatchAllConfig}
use retrack.Db.{World}
use retrack.Tasks.Task.{Task, TaskType, email, EmailTaskType, Email}
use retrack.Tasks.Template.{into_email}
use retrack.Tasks.Run.{
  Delivery, Message, get_task, send_email_with, send_email, send_configured, execute_type, settle,
  run_task, message_of, catch_all_recipient, recipients, execute_task,
}
use retrack.Tasks.Run.Counts.{find_id, execute_type-tasks}

-- whom a message is for: the task's recipients, or the one that catches its text
abbrev pub IsAddressed : SmtpConfig → Email → EmailTaskType → List String → Type 0
IsAddressed smtp e task to =
    (to ≡ task.to)
    ⊎ ((c : SmtpCatchAllConfig) × (smtp.catch_all ≡ some c)
        × (c.text_matcher e.text ≡ true)
        × (to ≡ c.recipient ∷ []))

module _ (env : Env) (delivery : Delivery) where
  -- The mail transport has taken a message of the task.
  pub record IsDelivered (task : EmailTaskType) (timestamp : OffsetDateTime) (w : World)
      : Type 0 where
    pub smtp : SmtpConfig
    pub configured : env.config.smtp ≡ some smtp
    pub e : Email
    pub compiled : into_email delivery.templates task.content ≡ some e
    pub message : Message
    pub sent : delivery.send w.moment message ≡ true
    pub from : message.from ≡ smtp.username
    pub to : IsAddressed smtp e task message.to
    pub mailboxes : all env.is_mailbox message.to ≡ true
    pub subject : message.subject ≡ e.subject
    pub text : message.text ≡ e.text
    pub html : message.html ≡ e.html
    pub dated : message.date ≡ timestamp

  caught :
      (smtp : SmtpConfig) (e : Email) (task : EmailTaskType)
      → IsAddressed smtp e task
          (recipients env delivery (catch_all_recipient env delivery smtp e) task.to)
  caught smtp e task = elim (Option-cases smtp.catch_all) [
    | inl none_set ↦ rw none_set (inl refl)
    | inr (c, is_set) ↦ elim (Bool-cases (c.text_matcher e.text)) [
      | inl matches ↦ rw (is_set, matches) (inr (c, refl, matches, refl))
      | inr not_matching ↦ rw (is_set, not_matching) (inl refl)
    ]
  ]

  send_email_with-delivers :
      (smtp : SmtpConfig) (task : EmailTaskType) (timestamp : OffsetDateTime) (w : World)
      → env.config.smtp ≡ some smtp
      → (send_email_with env delivery smtp task timestamp w).0 ≡ ok tt
      → IsDelivered task timestamp w
  unfolding send_email_with
  send_email_with-delivers smtp task timestamp w configured =
      elim (Option-cases (into_email delivery.templates task.content)) [
        | inl bad ↦ rw bad (λ h. cc)
        | inr (e, good) ↦
            let message : Message = message_of env delivery smtp e task.to timestamp in
            elim (Bool-cases (all env.is_mailbox message.to)) [
              | inl are_mailboxes ↦ elim (Bool-cases (delivery.send w.moment message)) [
                | inl sent ↦ λ h. record {
                  smtp = smtp;
                  configured = configured;
                  e = e;
                  compiled = good;
                  message = message;
                  sent = sent;
                  from = refl;
                  to = caught smtp e task;
                  mailboxes = are_mailboxes;
                  subject = refl;
                  text = refl;
                  html = refl;
                  dated = refl;
                }
                | inr failed ↦ λ h. absurd (ground arith)
              ]
              | inr bad ↦ λ h. absurd (ground arith)
            ]
      ]

  send_configured-delivers :
      (o : Option SmtpConfig) (task : EmailTaskType) (timestamp : OffsetDateTime) (w : World)
      → env.config.smtp ≡ o
      → (send_configured env delivery o task timestamp w).0 ≡ ok tt
      → IsDelivered task timestamp w
  send_configured-delivers none task timestamp w e h = cc
  send_configured-delivers (some smtp) task timestamp w e h =
      send_email_with-delivers smtp task timestamp w e h

  execute_type-delivers :
      (type : TaskType) (task : EmailTaskType) (timestamp : OffsetDateTime) (w : World)
      → type ≡ email task
      → (execute_type env delivery type timestamp w).0 ≡ ok tt
      → IsDelivered task timestamp w
  unfolding execute_type send_email
  execute_type-delivers type task timestamp w e =
      rw e (send_configured-delivers env.config.smtp task timestamp w refl)

  -- a task that is gone has not failed
  settle-ok :
      (executed : ℕ) (id : Uuid) (t : Task) (r : Result Unit) (w : World)
      → get_task id w ≡ some t
      → get_task id (settle env delivery executed id r w).1 ≡ none
      → r ≡ ok tt
  settle-ok executed id t (ok u) w there gone = refl
  settle-ok executed id t (err e) w there gone = cc

  -- When a due task is an email and is gone behind its execution, the mail transport has taken a message
  -- from the configured user with the subject, the text and the date of the task, to mailboxes: the
  -- task's own, or, where the pattern that catches all mail matches the text, the one that catches it.
  pub run_task-delivers :
      (executed : ℕ) (id : Uuid) (t : Task) (task : EmailTaskType) (w : World)
      → get_task id w ≡ some t
      → t.task_type ≡ email task
      → get_task id (run_task env delivery executed id w).1 ≡ none
      → IsDelivered task t.scheduled_at w
  unfolding run_task execute_type get_task
  run_task-delivers executed id t task w found is_email =
      let its_id : t.id ≡ id = find_id id w.tasks t found in
      let (r, w') = execute_task env delivery t w in
      let same : (execute_task env delivery t w).1.tasks ≡ w.tasks =
        execute_type-tasks env delivery t.task_type t.scheduled_at w in
      rw (found, its_id)
        (λ gone. execute_type-delivers t.task_type task t.scheduled_at w is_email (
          settle-ok executed id t (execute_task env delivery t w).0
            (execute_task env delivery t w).1 (rw (same, found) refl) gone))
