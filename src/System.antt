-- ===== src/System.antt =====
-- The operations of the program on the shared tables, one after another: what the clients of the API
-- and the scheduler's jobs may do, in any order.
pub mod Ids
pub mod Methods
pub mod Process
pub mod Start
pub mod RunEnds
pub mod Invariant
use retrack.Prelude.{ℕ, ◌≡◌, String, List, true, some}
use retrack.Exec.{Exec}
use retrack.Types.{Uuid, TrackerCreateParams, TrackerUpdateParams, Tracker}
use retrack.Env.{Env}
use retrack.Db.{World}
use retrack.Db.Trackers as Rows
use retrack.Db.Revisions.{clear_tracker_data}
use retrack.Db.Jobs.{reset_scheduler_job_state}
use retrack.Trackers.Api.{create_tracker, update_tracker, remove_trackers}
use retrack.Trackers.Revise.{create_tracker_data_revision}
use retrack.Scheduler.ScheduleJob.{schedule_trackers}
use retrack.Scheduler.RunJob.{process}
use retrack.Scheduler.Resume as Scheduler
use retrack.Tasks.Run.{Delivery, execute_pending_tasks}

-- One operation, whether it succeeds or fails.
pub data Step (env : Env) : World → World → Type 0 where
  create : (params : TrackerCreateParams) (w : World) → Step env w (create_tracker env params w).1
  update :
      (id : Uuid) (params : TrackerUpdateParams) (w : World)
      → Step env w (update_tracker env id params w).1
  remove : (id : Uuid) (w : World) → Step env w (Rows.remove_tracker id w).1
  remove_all : (tags : List String) (w : World) → Step env w (remove_trackers env tags w).1
  check : (id : Uuid) (w : World) → Step env w (create_tracker_data_revision env id w).1
  clear : (id : Uuid) (w : World) → Step env w (clear_tracker_data id w).1
  -- a round of the schedule job
  schedule : (w : World) → Step env w (schedule_trackers env w).1
  -- a trigger job that fires, and a tracker that the run job takes up
  trigger : (job : Uuid) (w : World) → Step env w (reset_scheduler_job_state job true w).1
  run : (t : Tracker) (w : World) → Step env w (process env t w).1
  -- a run of the pending tasks that ends, by the tasks job
  tasks :
      (delivery : Delivery) (fuel limit count : ℕ) (w : World) {w' : World}
      → execute_pending_tasks env delivery fuel limit w ≡ some (count, w')
      → Step env w w'
  -- a start of the scheduler
  start : (fuel : ℕ) (w : World) → Step env w (Scheduler.start env fuel w).1

pub data Reach (env : Env) (first : World) : World → Type 0 where
  here : Reach env first first
  next : {w w' : World} → Reach env first w → Step env w w' → Reach env first w'
