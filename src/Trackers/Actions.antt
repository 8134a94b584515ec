-- ===== src/Trackers/Actions.antt =====
-- src/trackers/api_ext.rs: what a tracker does when its data has changed.
pub mod Notify
use retrack.Prelude.{
  if◌then◌else◌, length, get_elem?, unwrap_or, ℕ, zero, suc, Bool, true, not, Option, none, some,
  List, str_eq,
}
use retrack.Error.{unknown, response_failed}
use retrack.Exec.{◌>>=◌, Exec, pure, bail}
use retrack.Types.{
  Tracker, TrackerAction, email, webhook, server_log, Json, Bytes, EmailAction, WebhookAction,
}
use retrack.Types.DataValue.{TrackerDataValue, value}
use retrack.Tasks.Task.{tracker_changes, changed, template, TaskType}
use retrack.Tasks.Task
use retrack.Tasks.Api.{schedule_task}
use retrack.Env.{Env}
use retrack.Db.{World, utc_now}

-- The modification of the previous value at the index `len - 1`. With no modification that index
-- wraps around and lies outside every list.
abbrev pub mod_before : Option (List Json) → ℕ → Option Json
mod_before none n = none
mod_before (some ms) zero = none
mod_before (some ms) (suc i) = get_elem? ms i

abbrev pub previous_mod : TrackerDataValue Json → Option (List Json) → Option Json
previous_mod previous none = some previous.original
previous_mod previous (some latest) = mod_before previous.mods (length latest)

abbrev pub previous_value : TrackerDataValue Json → Option (TrackerDataValue Json) → Option Json
previous_value latest none = none
previous_value latest (some previous) = previous_mod previous latest.mods

abbrev pub differs : Option Json → Json → Bool
differs none latest = true
differs (some previous) latest = not (str_eq previous latest)

-- `changed` of execute_tracker_action
unfoldable pub has_changed : TrackerDataValue Json → Option (TrackerDataValue Json) → Bool
unfolding value
has_changed latest previous = differs (previous_value latest previous) (value latest)

abbrev pub or_response_failed : {A : Type 0} → Option A → Exec World A
or_response_failed none = bail (unknown response_failed)
or_response_failed (some a) = pure a

module _ (env : Env) where
  abbrev pub email_task : Tracker → EmailAction → Json → TaskType
  email_task t a latest = Task.email (record {
    to = a.to;
    content = template (tracker_changes t.name (changed (env.json_to_string latest)));
  })

  abbrev pub http_task : WebhookAction → Bytes → TaskType
  http_task a body = Task.http (record {
    url = a.url;
    method = unwrap_or a.method "POST";
    headers = a.headers;
    body = some body;
  })

  unfoldable pub send_email : Tracker → EmailAction → Json → Exec World Unit
  send_email t a latest = do
    now ← utc_now env
    task ← schedule_task env (email_task t a latest) now
    pure tt

  unfoldable pub send_webhook : WebhookAction → Json → Exec World Unit
  send_webhook a latest = do
    body ← or_response_failed (env.json_to_vec latest)
    now ← utc_now env
    task ← schedule_task env (http_task a body) now
    pure tt

  unfoldable pub execute_tracker_action :
      Tracker
      → TrackerDataValue Json
      → Option (TrackerDataValue Json)
      → TrackerAction
      → Exec World Unit
  unfolding value
  execute_tracker_action t latest previous (email a) =
      if has_changed latest previous then send_email t a (value latest) else pure tt
  execute_tracker_action t latest previous (webhook a) =
      if has_changed latest previous then send_webhook a (value latest) else pure tt
  execute_tracker_action t latest previous server_log = pure tt
