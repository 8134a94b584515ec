-- ===== src/Scheduler/Resume.antt =====
-- src/scheduler.rs: starting the scheduler, with the jobs that are stored and the jobs that are
-- missing, and TrackersTriggerJob::try_resume of src/scheduler/scheduler_jobs/trackers_trigger_job.rs.
pub mod Laws
pub mod Turns
pub mod JobRows
pub mod Steps
pub mod Loop
pub mod Paged
pub mod Unique
pub mod Unreadable
use retrack.Prelude.{
  true, false, ltb, if◌then◌else◌, length, last?, any, ℕ, zero, suc, Bool, Option, none, some, List,
  [], ◌∷◌,
}
use retrack.Error.{Result, ok, err, unknown, scheduler_failed}
use retrack.Exec.{◌>>=◌, ◌>>◌, Exec, pure, bail}
use retrack.Types.{Tracker, Uuid, SchedulerJobConfig}
use retrack.Env.{Env, NewJob}
use retrack.Db.{World, observe}
use retrack.Db.Paging.{page, last_key}
use retrack.Db.Trackers as Rows
use retrack.Db.Jobs.{decode}
use retrack.Scheduler.Job.{
  SchedulerJob, trackers_trigger, trackers_schedule, trackers_run, tasks_run, SchedulerJobMetadata,
  RawSchedulerJobStoredData, ResumedJob, is_unique, same_job,
}
use retrack.Scheduler.ScheduleJob.{create_trigger, add_job}
use retrack.Scheduler.RunJob.{remove_job, or_scheduler_failed, max_jobs_page_size}
use retrack.Scheduler.UniqueJobs.{
  resumed_as, create_tasks_run, create_trackers_run, create_trackers_schedule, try_resume_tasks_run,
  try_resume_trackers_run, try_resume_trackers_schedule,
}

abbrev pub job_id : RawSchedulerJobStoredData → ℕ
job_id j = j.id

-- the metadata of a row, if it has any that can be read
unfoldable pub meta_of : RawSchedulerJobStoredData → Option SchedulerJobMetadata
meta_of raw = elim (decode raw.extra) [ ok m ↦ m | err e ↦ none ]

-- `unique_resumed_jobs`
abbrev pub contains : SchedulerJob → List SchedulerJob → Bool
contains t unique = any (same_job t) unique

abbrev pub remember : SchedulerJob → List SchedulerJob → List SchedulerJob
remember t unique = if is_unique t then t ∷ unique else unique

module _ (env : Env) where
  -- inner_scheduler.add(job), of a job that was stored
  abbrev pub restore_job : ResumedJob → Exec World Unit
  restore_job job w =
      (do answer ← observe (λ m. env.resume_job m job w.scheduler_jobs); or_scheduler_failed answer)
        w

  -- the tracker's job is given up, so that the schedule job makes a new one
  abbrev pub give_up : Uuid → Exec World (Option ResumedJob)
  give_up id = do Rows.update_tracker_job id none; pure none

  abbrev pub kept_or_given_up : Uuid → Option ResumedJob → Exec World (Option ResumedJob)
  kept_or_given_up id none = give_up id
  kept_or_given_up id (some job) = pure (some job)

  abbrev pub resume_configured :
      RawSchedulerJobStoredData → Uuid → Option SchedulerJobConfig → Exec World (Option ResumedJob)
  resume_configured raw id none = give_up id
  resume_configured raw id (some config) = do
    job ← create_trigger env config.schedule
    kept_or_given_up id (resumed_as raw job)

  abbrev pub resume_found :
      RawSchedulerJobStoredData → Option Tracker → Exec World (Option ResumedJob)
  resume_found raw none = pure none
  resume_found raw (some t) = resume_configured raw t.id t.config.job

  -- TrackersTriggerJob::try_resume
  unfoldable pub try_resume_trackers_trigger :
      RawSchedulerJobStoredData → Exec World (Option ResumedJob)
  try_resume_trackers_trigger raw = do
    found ← Rows.get_tracker_by_job_id raw.id
    resume_found raw found

  unfoldable pub try_resume :
      SchedulerJob → RawSchedulerJobStoredData → Exec World (Option ResumedJob)
  try_resume trackers_trigger raw = try_resume_trackers_trigger raw
  try_resume trackers_schedule raw = try_resume_trackers_schedule env raw
  try_resume trackers_run raw = try_resume_trackers_run env raw
  try_resume tasks_run raw = try_resume_tasks_run env raw

  abbrev pub settle_job :
      List SchedulerJob → SchedulerJob → Uuid → Option ResumedJob → Exec World (List SchedulerJob)
  settle_job unique t id (some job) = do restore_job job; pure (remember t unique)
  settle_job unique t id none = do remove_job env id; pure unique

  abbrev pub resume_known :
      List SchedulerJob
      → RawSchedulerJobStoredData
      → Option SchedulerJobMetadata
      → Exec World (List SchedulerJob)
  resume_known unique raw none = do remove_job env raw.id; pure unique
  resume_known unique raw (some m) =
      if contains m.job_type unique
      then (do remove_job env raw.id; pure unique)
      else (do job ← try_resume m.job_type raw; settle_job unique m.job_type raw.id job)

  -- one turn of the `while let` loop
  unfoldable pub resume_one :
      List SchedulerJob → RawSchedulerJobStoredData → Exec World (List SchedulerJob)
  resume_one unique raw = resume_known unique raw (meta_of raw)

  -- the rows of one page, or of all pages
  unfoldable pub resume_list :
      List SchedulerJob → List RawSchedulerJobStoredData → Exec World (List SchedulerJob)
  resume_list unique [] = pure unique
  resume_list unique (raw ∷ rest) = do next ← resume_one unique raw; resume_list next rest

  -- The pages, each read when the one before is done.
  unfoldable pub resume_pages : ℕ → ℕ → List SchedulerJob → Exec World (List SchedulerJob)
  resume_pages zero last unique w = (err (unknown scheduler_failed), w)
  resume_pages (suc fuel) last unique w =
      let rows = page job_id max_jobs_page_size w.scheduler_jobs last in
      let rest =
        λ (next : List SchedulerJob). resume_pages fuel (last_key job_id last (last? rows)) next in
      (do
        next ← resume_list unique rows
        (if ltb (length rows) max_jobs_page_size then pure next else rest next))
        w

  -- Scheduler::resume
  abbrev pub resume : ℕ → Exec World (List SchedulerJob)
  resume fuel = resume_pages fuel 0 []

  -- a job of which there has to be one
  abbrev pub add_missing : SchedulerJob → Exec World NewJob → List SchedulerJob → Exec World Unit
  add_missing t create unique =
      if contains t unique then pure tt else (do job ← create; id ← add_job env job; pure tt)

  abbrev or_failed : Bool → Exec World Unit
  or_failed b = if b then pure tt else bail (unknown scheduler_failed)

  -- inner_scheduler.start()
  abbrev pub launch : Exec World Unit
  launch = do started ← observe env.start_scheduler; or_failed started

  -- the jobs that no row was resumed as, and the start of the job library
  unfoldable pub finish : List SchedulerJob → Exec World Unit
  finish unique = do
    add_missing trackers_schedule (create_trackers_schedule env) unique
    add_missing trackers_run (create_trackers_run env) unique
    add_missing tasks_run (create_tasks_run env) unique
    launch

  -- Scheduler::start
  unfoldable pub start : ℕ → Exec World Unit
  unfolding resume_pages finish
  start fuel = do
    opened ← observe env.open_scheduler
    or_failed opened
    unique ← resume fuel
    finish unique

-- SchedulerStatus: src/server/server_state/scheduler_status.rs
pub record SchedulerStatus : Type 0 where
  pub operational : Bool
  pub time_till_next_job : Option ℕ

-- Scheduler::status, of the time till the next job; the outer `none` is an error of the job library
unfoldable pub status : Option (Option ℕ) → SchedulerStatus
status none = record { operational = false; time_till_next_job = none }
status (some next) = record { operational = true; time_till_next_job = next }
