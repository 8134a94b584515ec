-- ===== src/System/Methods.antt =====
-- The methods that write the table `trackers` keep its ids distinct.
use retrack.Prelude.{Option, none, some, arith, String}
use retrack.Exec.Keeps.{Keeps, Keeps-pure, Keeps-for_each, keeps_rules}
use retrack.Types.{Tracker, Uuid, TrackerCreateParams, TrackerUpdateParams, SchedulerJobConfig}
use retrack.Env.{Env, NewJob}
use retrack.Db.{Tables}
use retrack.Db.Trackers as Rows
use retrack.Db.Trackers.{update_where, set_job}
use retrack.Db.Paging.Complete.{Distinct}
use retrack.Scheduler.ScheduleJob.{
  schedule_with, schedule_tracker, schedule_trackers, create_trigger, add_job,
}
use retrack.Scheduler.ScheduleJob.Linked.{row_id}
use retrack.Trackers.Api.{create_tracker, update_tracker, write_update, or_not_found}
use retrack.Trackers.Validation.{validate_tracker}
use retrack.Trackers.Validation.Frame.{validate_tracker-Frame}
use retrack.Trackers.Fetch.Keeps.{observe-Keeps, utc_now-Keeps, Frame-Keeps}
use retrack.Trackers.Revise.Keeps.{same-Keeps}
use retrack.System.Ids.{DistinctIds, insert-DistinctIds, update-DistinctIds, set_job-DistinctIds}

module _ (env : Env) where
  validate-Keeps : (t : Tracker) → Keeps DistinctIds (validate_tracker env t)
  validate-Keeps t =
      Frame-Keeps (λ (x : Tables). Distinct row_id x.trackers) (validate_tracker env t)
        (validate_tracker-Frame env t)

  pub create_tracker-DistinctIds :
      (params : TrackerCreateParams) → Keeps DistinctIds (create_tracker env params)
  unfolding create_tracker
  create_tracker-DistinctIds params = search (
    keeps_rules,
    validate-Keeps,
    insert-DistinctIds env,
    observe-Keeps (λ (x : Tables). Distinct row_id x.trackers),
    utc_now-Keeps (λ (x : Tables). Distinct row_id x.trackers),
  )

  write_update-DistinctIds :
      (params : TrackerUpdateParams) (t : Tracker) → Keeps DistinctIds (write_update env params t)
  unfolding write_update
  write_update-DistinctIds params t = search (
    keeps_rules,
    validate-Keeps,
    update-DistinctIds env,
    utc_now-Keeps (λ (x : Tables). Distinct row_id x.trackers),
  )

  get_tracker-Keeps : (id : Uuid) → Keeps DistinctIds (Rows.get_tracker id)
  unfolding Rows.get_tracker
  get_tracker-Keeps id = record { at = λ w h. h }

  or_not_found-Keeps : (o : Option Tracker) → Keeps DistinctIds (or_not_found o)
  or_not_found-Keeps none = record { at = λ w h. h }
  or_not_found-Keeps (some t) = Keeps-pure t

  pub update_tracker-DistinctIds :
      (id : Uuid) (params : TrackerUpdateParams) → Keeps DistinctIds (update_tracker env id params)
  unfolding update_tracker
  update_tracker-DistinctIds id params =
      search (keeps_rules, get_tracker-Keeps, or_not_found-Keeps, write_update-DistinctIds)

  add_job-Keeps : (job : NewJob) → Keeps DistinctIds (add_job env job)
  add_job-Keeps job = same-Keeps (Distinct row_id) (add_job env job) (λ w. ground arith)

  create_trigger-Keeps : (text : String) → Keeps DistinctIds (create_trigger env text)
  unfolding create_trigger
  create_trigger-Keeps text =
      same-Keeps (Distinct row_id) (create_trigger env text) (λ w. ground arith)

  schedule_with-DistinctIds :
      (t : Tracker) (config : Option SchedulerJobConfig)
      → Keeps DistinctIds (schedule_with env t config)
  schedule_with-DistinctIds t none = Keeps-pure tt
  schedule_with-DistinctIds t (some config) =
      search (keeps_rules, create_trigger-Keeps, add_job-Keeps, set_job-DistinctIds)

  schedule_tracker-DistinctIds : (t : Tracker) → Keeps DistinctIds (schedule_tracker env t)
  unfolding schedule_tracker
  schedule_tracker-DistinctIds t = schedule_with-DistinctIds t t.config.job

  to_schedule-Keeps : Keeps DistinctIds Rows.get_trackers_to_schedule
  unfolding Rows.get_trackers_to_schedule
  to_schedule-Keeps = record { at = λ w h. h }

  pub schedule_trackers-DistinctIds : Keeps DistinctIds (schedule_trackers env)
  unfolding schedule_trackers
  schedule_trackers-DistinctIds =
      search (keeps_rules, to_schedule-Keeps, Keeps-for_each, schedule_tracker-DistinctIds)
