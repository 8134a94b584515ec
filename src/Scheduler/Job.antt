-- ===== src/Scheduler/Job.antt =====
-- src/scheduler/scheduler_job.rs, scheduler_job_metadata.rs, scheduler_job_retry_state.rs and the
-- row of `scheduler_jobs`. The bytes of `extra` are the metadata that they decode to, or
-- `undecodable`; the counters and ticks that only the job library reads are left out.
use retrack.Prelude.{ℕ, String, Bool, true, false, Option, none}
use retrack.Types.{Uuid, OffsetDateTime}

pub data SchedulerJob : Type 0 where
  trackers_trigger trackers_schedule trackers_run tasks_run : SchedulerJob

unfoldable pub is_unique : SchedulerJob → Bool
is_unique trackers_schedule = true
is_unique trackers_trigger = false
is_unique trackers_run = true
is_unique tasks_run = true

-- the derived `PartialEq`
abbrev pub same_job : SchedulerJob → SchedulerJob → Bool
same_job trackers_trigger trackers_trigger = true
same_job trackers_schedule trackers_schedule = true
same_job trackers_run trackers_run = true
same_job tasks_run tasks_run = true
same_job _ _ = false

pub record SchedulerJobRetryState : Type 0 where
  pub attempts : ℕ
  pub next_at : OffsetDateTime

pub record SchedulerJobMetadata : Type 0 where
  pub job_type : SchedulerJob
  pub retry : Option SchedulerJobRetryState

unfoldable pub new : SchedulerJob → SchedulerJobMetadata
new t = record { job_type = t; retry = none }

pub data Extra : Type 0 where
  metadata : SchedulerJobMetadata → Extra
  undecodable : Extra

pub record RawSchedulerJobStoredData : Type 0 where
  pub id : Uuid
  pub stopped : Option Bool
  pub schedule : Option String
  pub extra : Option Extra

-- A job that is built anew for a stored row and keeps the row's id, flag and metadata.
pub record ResumedJob : Type 0 where
  pub id : Uuid
  pub stopped : Bool
  pub pattern : String
  pub extra : Extra
