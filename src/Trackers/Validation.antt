-- ===== src/Trackers/Validation.antt =====
-- src/trackers/api_ext.rs: `validate_tracker` and the checks below it, in their order.
pub mod Limits
pub mod Targets
pub mod Retries
pub mod Frame
use retrack.Prelude.{
  ltb, ◌==◌, if◌then◌else◌, length, is_empty, ℕ, String, len, Bool, true, false, not, ◌||◌, Option,
  none, some, List, [], ◌∷◌, str_eq,
}
use retrack.Error.{Error, Result, ok, err, client, Reason}
use retrack.Error
use retrack.Exec.{◌>>=◌, ◌>>◌, Exec, pure, bail, lift, for_each}
use retrack.Types.{
  Tracker, TrackerAction, email, webhook, server_log, page, api, PageTarget, ApiTarget,
  TargetRequest, TrackerTarget, SchedulerJobConfig,
}
use retrack.Env.{Env, Cron}
use retrack.Db.{World}
use retrack.Network.{is_public_web_url}
use retrack.Scheduler.Cron
use retrack.Scheduler.RetryStrategy.{
  Duration, secs, SchedulerJobRetryStrategy, constant, exponential, linear, max_attempts,
  min_interval,
}
use retrack.Trackers.Tags.{max_tracker_tags_count, validate_tracker_tags}

abbrev pub max_tracker_name_length : ℕ
max_tracker_name_length = 100

abbrev pub max_tracker_actions_count : ℕ
max_tracker_actions_count = 10

abbrev pub max_tracker_request_count : ℕ
max_tracker_request_count = 10

abbrev pub max_tracker_email_action_recipients_count : ℕ
max_tracker_email_action_recipients_count = 10

abbrev pub max_tracker_webhook_action_headers_count : ℕ
max_tracker_webhook_action_headers_count = 20

abbrev pub max_tracker_page_user_agent_length : ℕ
max_tracker_page_user_agent_length = 200

abbrev pub max_tracker_extractor_timeout : Duration
max_tracker_extractor_timeout = secs 300

abbrev pub max_tracker_retry_attempts : ℕ
max_tracker_retry_attempts = 10

abbrev pub min_tracker_retry_interval : Duration
min_tracker_retry_interval = secs 60

abbrev pub max_tracker_retry_interval : Duration
max_tracker_retry_interval = secs 43200

-- `if test { bail!(RetrackError::client(…)) }`
abbrev pub reject_if : Bool → Reason → Result Unit
reject_if true r = err (client r)
reject_if false r = ok tt

-- `if let Some(a) = o { check(a)? }`
abbrev pub if_some : {A : Type 0} → Option A → (A → Result Unit) → Result Unit
if_some none check = ok tt
if_some (some a) check = check a

abbrev pub if_some_run : {A : Type 0} → Option A → (A → Exec World Unit) → Exec World Unit
if_some_run none check = pure tt
if_some_run (some a) check = check a

pub check_all : {A : Type 0} → (A → Result Unit) → List A → Result Unit
check_all check [] = ok tt
check_all check (x ∷ xs) = Error.◌>>=◌ (check x) (λ _. check_all check xs)

abbrev pub method_allowed : String → Bool
method_allowed m = str_eq m "GET" || str_eq m "POST" || str_eq m "PUT"

-- `interval > a || interval > b`
abbrev pub above_either : Duration → Duration → Duration → Bool
above_either interval a b = ltb a interval || ltb b interval

-- the checks of a retry strategy's `max_interval`
abbrev pub validate_max_interval : Duration → Duration → Result Unit
validate_max_interval max_interval min_schedule_interval =
    Error.◌>>◌ (reject_if (ltb max_interval min_tracker_retry_interval) Error.retry_cap_too_low) (
      reject_if (above_either max_interval max_tracker_retry_interval min_schedule_interval)
        Error.retry_cap_too_high)

abbrev pub validate_cap : SchedulerJobRetryStrategy → Duration → Result Unit
validate_cap (constant _ _) every = ok tt
validate_cap (exponential _ _ max_interval _) every = validate_max_interval max_interval every
validate_cap (linear _ _ max_interval _) every = validate_max_interval max_interval every

module _ (env : Env) where
  unfoldable pub validate_action : TrackerAction → Result Unit
  unfolding check_all
  validate_action (email a) = Error.◌>>◌ (reject_if (is_empty a.to) Error.no_recipient) (
      Error.◌>>◌
        (reject_if (ltb max_tracker_email_action_recipients_count (length a.to))
          Error.too_many_recipients)
        (check_all (λ recipient. reject_if (not (env.is_mailbox recipient)) Error.bad_recipient)
          a.to))
  validate_action (webhook a) =
      Error.◌>>◌ (if_some a.method (λ m. reject_if (not (method_allowed m)) Error.bad_method)) (
        if_some a.headers (λ hs.
          reject_if (ltb max_tracker_webhook_action_headers_count (length hs))
            Error.too_many_headers))
  validate_action server_log = ok tt

  unfoldable pub validate_tracker_actions : List TrackerAction → Result Unit
  unfolding check_all
  validate_tracker_actions = check_all validate_action

  -- A text that is no URL is a script, and passes.
  unfoldable pub validate_script_url : String → Exec World Unit
  validate_script_url text w =
      if env.config.trackers.restrict_to_public_urls
      then if_some_run (env.parse_url text)
          (λ url. do
            public ← is_public_web_url env url
            lift (reject_if (not public) Error.script_url_not_public))
          w
      else (ok tt, w)

  unfoldable pub validate_page_target : PageTarget → Exec World Unit
  validate_page_target t = do
    lift (reject_if (str_eq t.extractor "") Error.extractor_empty)
    lift (
        reject_if (ltb env.config.trackers.max_script_size (len t.extractor))
          Error.extractor_too_large)
    validate_script_url t.extractor
    lift (if_some t.user_agent (λ ua. reject_if (str_eq ua "") Error.user_agent_empty))
    lift (
        if_some t.user_agent (λ ua.
          reject_if (ltb max_tracker_page_user_agent_length (len ua)) Error.user_agent_too_long))

  unfoldable pub validate_request_url : TargetRequest → Exec World Unit
  validate_request_url r = do
    public ← is_public_web_url env r.url
    lift (reject_if (not public) Error.url_not_public)

  -- the checks of a configurator or extractor script
  unfoldable pub validate_script : Reason → Reason → String → Exec World Unit
  validate_script empty too_large script = do
    lift (reject_if (str_eq script "") empty)
    lift (reject_if (ltb env.config.trackers.max_script_size (len script)) too_large)
    validate_script_url script

  unfoldable pub validate_api_target : ApiTarget → Exec World Unit
  unfolding for_each validate_request_url
  validate_api_target t = do
    lift (reject_if (is_empty t.requests) Error.no_request)
    lift (reject_if (ltb max_tracker_request_count (length t.requests)) Error.too_many_requests)
    (if env.config.trackers.restrict_to_public_urls
        then for_each validate_request_url t.requests
        else pure tt)
    if_some_run t.configurator
        (validate_script Error.configurator_empty Error.configurator_too_large)
    if_some_run t.extractor (validate_script Error.extractor_empty Error.extractor_too_large)

  unfoldable pub validate_target : TrackerTarget → Exec World Unit
  validate_target (page t) = validate_page_target t
  validate_target (api t) = validate_api_target t

  unfoldable pub validate_retry_strategy : Duration → SchedulerJobRetryStrategy → Result Unit
  unfolding max_attempts min_interval
  validate_retry_strategy every s =
      Error.◌>>◌
        (reject_if (max_attempts s == 0 || ltb max_tracker_retry_attempts (max_attempts s))
          Error.bad_attempts)
        (Error.◌>>◌
          (reject_if (ltb (min_interval s) min_tracker_retry_interval) Error.retry_too_soon)
          (validate_cap s every))

  abbrev pub or_bad_schedule : Option Cron → Exec World Cron
  or_bad_schedule none = bail (client Error.bad_schedule)
  or_bad_schedule (some c) = pure c

  unfoldable pub validate_job : SchedulerJobConfig → Exec World Unit
  validate_job job = do
    schedule ← or_bad_schedule (env.parse_cron job.schedule)
    every ← Cron.min_interval env schedule
    lift (reject_if (ltb every env.config.trackers.min_schedule_interval) Error.schedule_too_often)
    lift (if_some job.retry_strategy (validate_retry_strategy every))

  unfoldable pub validate_tracker : Tracker → Exec World Unit
  validate_tracker t = do
    lift (reject_if (str_eq t.name "") Error.name_empty)
    lift (reject_if (ltb max_tracker_name_length (len t.name)) Error.name_too_long)
    lift (reject_if (ltb max_tracker_tags_count (length t.tags)) Error.too_many_tags)
    lift (reject_if (ltb max_tracker_actions_count (length t.actions)) Error.too_many_actions)
    lift (validate_tracker_actions t.actions)
    lift (validate_tracker_tags t.tags)
    lift (
        reject_if (ltb env.config.trackers.max_revisions t.config.revisions)
          Error.too_many_revisions)
    validate_target t.target
    lift (
        if_some t.config.timeout
          (λ d. reject_if (ltb max_tracker_extractor_timeout d) Error.timeout_too_long))
    if_some_run t.config.job validate_job
