-- ===== src/Db.antt =====
-- migrations/20240614200000_v0.0.1.sql and src/database.rs: the tables, and the state that the
-- methods share. A row of `trackers` is the tracker that its columns decode to, with `job_needed`;
-- so for the rows of `trackers_data` and `tasks`. Queries that cannot reach the database are not
-- modelled.
pub mod Paging
pub mod RawTracker
pub mod RawRevision
pub mod Trackers
pub mod Revisions
pub mod Jobs
use retrack.Prelude.{ℕ, suc, ◌-◌, ◌*◌, ◌%◌, Bool, List}
use retrack.Error.{ok}
use retrack.Exec.{◌>>=◌, Exec, pure}
use retrack.Types.{Tracker, TrackerDataRevision, OffsetDateTime}
use retrack.Tasks.Task.{Task}
use retrack.Scheduler.Job.{RawSchedulerJobStoredData}
use retrack.Env.{Env}

pub record TrackerRow : Type 0 where
  pub tracker : Tracker
  pub job_needed : Bool

pub record Tables : Type 0 where
  pub trackers : List TrackerRow
  pub trackers_data : List TrackerDataRevision
  pub scheduler_jobs : List RawSchedulerJobStoredData
  pub tasks : List Task

-- `moment` counts what the program has asked of its environment: the clock, new UUIDs, the network.
pub record World : Type 0 where
  pub tables : Tables
  pub open tables use *
  pub moment : ℕ

-- The environment's answer at this moment.
abbrev pub observe : {A : Type 0} → (ℕ → A) → Exec World A
observe f w = (ok (f w.moment), record w { moment = suc w.moment })

-- Database::utc_now: nanoseconds, truncated to microseconds
unfoldable pub utc_now : Env → Exec World OffsetDateTime
utc_now env = do now ← observe env.now_utc; pure (now - now % 1000)
