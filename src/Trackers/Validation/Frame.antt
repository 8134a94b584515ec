-- ===== src/Trackers/Validation/Frame.antt =====
-- Validation asks the clock and the network, and writes no table.
use retrack.Prelude.{
  Option-cases, String, ◌≡◌, refl, inl, inr, Option, none, some, List, [], ◌∷◌, arith,
}
use retrack.Exec.{Exec, for_each}
use retrack.Types.{
  Tracker, TrackerTarget, page, api, PageTarget, ApiTarget, TargetRequest, SchedulerJobConfig, Url,
}
use retrack.Error.{Reason}
use retrack.Error
use retrack.Env.{Env, Host, domain, ip}
use retrack.Db.{World}
use retrack.Network.{is_public_web_url, host_is_public}
use retrack.Scheduler.Cron
use retrack.Trackers.Validation.{
  if_some_run, validate_script_url, validate_page_target, validate_request_url, validate_script,
  validate_api_target, validate_target, validate_job, validate_tracker,
}

abbrev pub Frame : {A : Type 0} → Exec World A → Type 0
Frame m = (w : World) → (m w).1.tables ≡ w.tables

host_is_public-Frame : (env : Env) (h : Option Host) → Frame (host_is_public env h)
host_is_public-Frame env none w = refl
host_is_public-Frame env (some (ip a)) w = refl
host_is_public-Frame env (some (domain d)) w = refl

pub is_public_web_url-Frame : (env : Env) (url : Url) → Frame (is_public_web_url env url)
unfolding is_public_web_url
is_public_web_url-Frame env url w = ground (arith, host_is_public-Frame env (env.host url) w)

if_some_run-Frame :
    {A : Type 0} (o : Option A) (f : A → Exec World Unit)
    → ((a : A) → Frame (f a))
    → Frame (if_some_run o f)
if_some_run-Frame none f h w = refl
if_some_run-Frame (some a) f h w = h a w

for_each-Frame :
    {A : Type 0} (f : A → Exec World Unit) (xs : List A)
    → ((a : A) → Frame (f a))
    → Frame (for_each f xs)
unfolding for_each
for_each-Frame f [] h w = refl
for_each-Frame f (x ∷ xs) h w = ground (arith, h x w, for_each-Frame f xs h (f x w).1)

module _ (env : Env) where
  validate_script_url-Frame : (text : String) → Frame (validate_script_url env text)
  unfolding validate_script_url
  validate_script_url-Frame text w = elim (Option-cases (env.parse_url text)) [
    | inl e ↦ ground arith
    | inr (u, e) ↦ ground (arith, is_public_web_url-Frame env u w)
  ]

  validate_script-Frame : (a b : Reason) (s : String) → Frame (validate_script env a b s)
  unfolding validate_script
  validate_script-Frame a b s w = ground (arith, validate_script_url-Frame s w)

  validate_page_target-Frame : (t : PageTarget) → Frame (validate_page_target env t)
  unfolding validate_page_target
  validate_page_target-Frame t w = ground (arith, validate_script_url-Frame t.extractor w)

  validate_request_url-Frame : (r : TargetRequest) → Frame (validate_request_url env r)
  unfolding validate_request_url
  validate_request_url-Frame r w = ground (arith, is_public_web_url-Frame env r.url w)

  abbrev configurator : ApiTarget → Exec World Unit
  configurator t =
      if_some_run t.configurator
        (validate_script env Error.configurator_empty Error.configurator_too_large)

  abbrev extractor : ApiTarget → Exec World Unit
  extractor t =
      if_some_run t.extractor (validate_script env Error.extractor_empty Error.extractor_too_large)

  validate_api_target-Frame : (t : ApiTarget) → Frame (validate_api_target env t)
  unfolding validate_api_target
  validate_api_target-Frame t w =
      let requests = for_each (validate_request_url env) t.requests in
      ground (
        arith,
        for_each-Frame (validate_request_url env) t.requests validate_request_url-Frame w,
        if_some_run-Frame t.configurator
            (validate_script env Error.configurator_empty Error.configurator_too_large)
            (validate_script-Frame Error.configurator_empty Error.configurator_too_large) w,
        if_some_run-Frame t.configurator
            (validate_script env Error.configurator_empty Error.configurator_too_large)
            (validate_script-Frame Error.configurator_empty Error.configurator_too_large)
            (requests w).1,
        if_some_run-Frame t.extractor
            (validate_script env Error.extractor_empty Error.extractor_too_large)
            (validate_script-Frame Error.extractor_empty Error.extractor_too_large)
            (configurator t w).1,
        if_some_run-Frame t.extractor
            (validate_script env Error.extractor_empty Error.extractor_too_large)
            (validate_script-Frame Error.extractor_empty Error.extractor_too_large)
            (configurator t (requests w).1).1,
      )

  validate_target-Frame : (t : TrackerTarget) → Frame (validate_target env t)
  unfolding validate_target
  validate_target-Frame (page t) w = validate_page_target-Frame t w
  validate_target-Frame (api t) w = validate_api_target-Frame t w

  validate_job-Frame : (j : SchedulerJobConfig) → Frame (validate_job env j)
  unfolding validate_job Cron.min_interval
  validate_job-Frame j w = elim (Option-cases (env.parse_cron j.schedule)) [
    | inl e ↦ ground arith
    | inr (c, e) ↦ ground arith
  ]

  -- Validating a tracker, whatever the outcome, leaves every table as it was.
  pub validate_tracker-Frame : (t : Tracker) → Frame (validate_tracker env t)
  unfolding validate_tracker
  validate_tracker-Frame t w = ground (
    arith,
    validate_target-Frame t.target w,
    if_some_run-Frame t.config.job (validate_job env) validate_job-Frame
        (validate_target env t.target w).1,
  )
