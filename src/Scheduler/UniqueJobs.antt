-- ===== src/Scheduler/UniqueJobs.antt =====
-- src/scheduler/job_ext.rs, and the making and resuming of the jobs of which there is one each:
-- tasks_run_job.rs, trackers_schedule_job.rs and trackers_run_job.rs of
-- src/scheduler/scheduler_jobs. The pattern that a job gives back is the one that it was made with.
use retrack.Prelude.{if◌then◌else◌, unwrap_or, str_eq, ℕ, String, Bool, false, Option, none, some}
use retrack.Exec.{◌>>=◌, Exec, pure}
use retrack.Env.{Env, NewJob}
use retrack.Db.{World}
use retrack.Scheduler.Job.{
  SchedulerJob, trackers_schedule, trackers_run, tasks_run, RawSchedulerJobStoredData, ResumedJob,
  undecodable,
}
use retrack.Scheduler.ScheduleJob.{or_bad_pattern}
use retrack.Tasks.Run.{Delivery, execute_pending_tasks}
use retrack.Prelude.{map_option}

-- JobExt::are_schedules_equal
unfoldable pub are_schedules_equal : NewJob → RawSchedulerJobStoredData → Bool
are_schedules_equal job raw = elim raw.schedule [ none ↦ false | some s ↦ str_eq s job.pattern ]

-- JobExt::set_raw_job_data; no bytes are no metadata
unfoldable pub set_raw_job_data : NewJob → RawSchedulerJobStoredData → ResumedJob
set_raw_job_data job raw = record {
  id = raw.id;
  stopped = unwrap_or raw.stopped false;
  pattern = job.pattern;
  extra = unwrap_or raw.extra undecodable;
}

-- The row is taken over if the schedule of the new job is still that of the row.
unfoldable pub resumed_as : RawSchedulerJobStoredData → NewJob → Option ResumedJob
unfolding are_schedules_equal set_raw_job_data
resumed_as raw job = if are_schedules_equal job raw then some (set_raw_job_data job raw) else none

module _ (env : Env) where
  -- Job::new_async of a parsed pattern, and set_job_type
  abbrev pub new_job : String → SchedulerJob → Exec World NewJob
  new_job text job_type = do
    cron ← or_bad_pattern (env.parse_cron text)
    pure (record { pattern = cron.pattern; job_type = job_type })

  -- TasksRunJob::create, TasksRunJob::try_resume
  unfoldable pub create_tasks_run : Exec World NewJob
  create_tasks_run = new_job env.config.scheduler.tasks_run tasks_run

  unfoldable pub try_resume_tasks_run : RawSchedulerJobStoredData → Exec World (Option ResumedJob)
  unfolding create_tasks_run resumed_as
  try_resume_tasks_run raw = do job ← create_tasks_run; pure (resumed_as raw job)

  -- TrackersScheduleJob::create, TrackersScheduleJob::try_resume
  unfoldable pub create_trackers_schedule : Exec World NewJob
  create_trackers_schedule = new_job env.config.scheduler.trackers_schedule trackers_schedule

  unfoldable pub try_resume_trackers_schedule :
      RawSchedulerJobStoredData → Exec World (Option ResumedJob)
  unfolding create_trackers_schedule resumed_as
  try_resume_trackers_schedule raw = do job ← create_trackers_schedule; pure (resumed_as raw job)

  -- TrackersRunJob::create, TrackersRunJob::try_resume
  unfoldable pub create_trackers_run : Exec World NewJob
  create_trackers_run = new_job env.config.scheduler.trackers_run trackers_run

  unfoldable pub try_resume_trackers_run :
      RawSchedulerJobStoredData → Exec World (Option ResumedJob)
  unfolding create_trackers_run resumed_as
  try_resume_trackers_run raw = do job ← create_trackers_run; pure (resumed_as raw job)

-- TasksRunJob::execute: whatever comes of the tasks, the job ends well.
abbrev pub max_tasks_to_send : ℕ
max_tasks_to_send = 100

unfoldable pub execute_tasks_run : Env → Delivery → ℕ → World → Option World
execute_tasks_run env delivery fuel w =
    map_option (λ (e : ℕ × World). e.1)
      (execute_pending_tasks env delivery fuel max_tasks_to_send w)
