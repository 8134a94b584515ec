-- ===== src/Scheduler/ScheduleJob.antt =====
-- src/scheduler/scheduler_jobs/trackers_schedule_job.rs and the job that it creates, of
-- trackers_trigger_job.rs: giving a job to each tracker that needs one.
pub mod Linked
pub mod Served
pub mod Pending
use retrack.Prelude.{String, Option, none, some, List}
use retrack.Error.{ok, err, unknown, bad_pattern, scheduler_failed}
use retrack.Exec.{◌>>=◌, Exec, pure, bail, for_each}
use retrack.Types.{Tracker, Uuid, SchedulerJobConfig}
use retrack.Env.{Env, NewJob, Cron}
use retrack.Db.{World, observe}
use retrack.Db.Trackers as Rows
use retrack.Db.Jobs.{with_jobs}
use retrack.Scheduler.Job.{trackers_trigger, RawSchedulerJobStoredData}

abbrev pub or_bad_pattern : Option Cron → Exec World Cron
or_bad_pattern none = bail (unknown bad_pattern)
or_bad_pattern (some c) = pure c

abbrev added : Option (Uuid × List RawSchedulerJobStoredData) → Exec World Uuid
added none w = (err (unknown scheduler_failed), w)
added (some (id, rows)) w = (ok id, with_jobs rows w)

module _ (env : Env) where
  -- TrackersTriggerJob::create
  unfoldable pub create_trigger : String → Exec World NewJob
  create_trigger schedule = do
    cron ← or_bad_pattern (env.parse_cron schedule)
    pure (record { pattern = cron.pattern; job_type = trackers_trigger })

  -- scheduler.add(job)
  abbrev pub add_job : NewJob → Exec World Uuid
  add_job job w = (do answer ← observe (λ m. env.add_job m job w.scheduler_jobs); added answer) w

  abbrev pub schedule_with : Tracker → Option SchedulerJobConfig → Exec World Unit
  schedule_with t none = pure tt
  schedule_with t (some config) = do
    job ← create_trigger config.schedule
    job_id ← add_job job
    Rows.update_tracker_job t.id (some job_id)

  unfoldable pub schedule_tracker : Tracker → Exec World Unit
  unfolding create_trigger
  schedule_tracker t = schedule_with t t.config.job

  -- TrackersScheduleJob::execute
  unfoldable pub schedule_trackers : Exec World Unit
  unfolding for_each
  schedule_trackers = do
    unscheduled ← Rows.get_trackers_to_schedule
    for_each schedule_tracker unscheduled
