-- ===== src/System/Process.antt =====
-- A tracker that the run job takes up, and the table `trackers`.
use retrack.Prelude.{
  Bool-cases, Option-cases, any, inl, inr, Bool, false, not, ◌&&◌, Option, none, some, List, arith,
}
use retrack.Error.{Error, Result, ok, err}
use retrack.Exec.{Exec, pure, ◌>>◌}
use retrack.Exec.Keeps.{Keeps, Keeps-pure, Keeps-if, keeps_rules}
use retrack.Types.{Tracker, TrackerDataRevision, Uuid}
use retrack.Env.{Env}
use retrack.Db.{World, TrackerRow}
use retrack.Db.Trackers as Rows
use retrack.Db.Trackers.{update_where, set_job}
use retrack.Db.Jobs.{reset_scheduler_job_state, get_scheduler_job_meta, update_scheduler_job_meta}
use retrack.Scheduler.Retry.{schedule_retry}
use retrack.Scheduler.RetryStrategy.{SchedulerJobRetryStrategy}
use retrack.Scheduler.RunJob.{
  attempt, remove_job, validate_pending, report_error, plan_retry, on_failure, on_result, check,
  process, is_runnable,
}
use retrack.Trackers.Api.Linked.{IsLinked, AllLinked, update_where-All}
use retrack.Trackers.Revise.Keeps.{OfTrackers, same-Keeps, create_tracker_data_revision-Keeps}
use retrack.Tasks.Api.{schedule_task}

pub set_none-AllLinked : (id : Uuid) → Keeps AllLinked (Rows.update_tracker_job id none)
unfolding Rows.update_tracker_job Rows.job_needed
set_none-AllLinked id = record {
  at = λ w h. elim (Bool-cases (any (Rows.has_id id) w.trackers)) [
    | inr e ↦ rw e h
    | inl e ↦
        elim (Bool-cases (
          any (λ r. not (Rows.has_id id r) && Rows.same_job_id r.tracker.job_id none) w.trackers)) [
            | inl e' ↦ rw (e, e') h
            | inr e' ↦
                rw (e, e')
                  (update_where-All IsLinked (set_job none) id w.trackers
                    (λ r k. record { column = k.column; linked = λ b. cc }) h)
          ]
  ];
}

pub reset-Keeps :
    (Q : List TrackerRow → Type 0) (id : Uuid) (stopped : Bool)
    → Keeps (OfTrackers Q) (reset_scheduler_job_state id stopped)
unfolding reset_scheduler_job_state
reset-Keeps Q id stopped = same-Keeps Q (reset_scheduler_job_state id stopped) (λ w. ground arith)

-- A tracker that the run job takes up: of `trackers` nothing is written but a job that is dropped.
module _ (Q : List TrackerRow → Type 0) (env : Env)
    (unlink : (id : Uuid) → Keeps (OfTrackers Q) (Rows.update_tracker_job id none)) where
  pub remove_job-Keeps : (id : Uuid) → Keeps (OfTrackers Q) (remove_job env id)
  remove_job-Keeps id = same-Keeps Q (remove_job env id) (λ w. ground arith)

  unlink_job-Keeps :
      (t : Tracker) (id : Uuid)
      → Keeps
          (OfTrackers Q)
          (remove_job env id >> (Rows.update_tracker_job t.id none >> pure {A = Option Uuid} none))
  unlink_job-Keeps t id = search (keeps_rules, remove_job-Keeps, unlink)

  validate_pending-Keeps : (t : Tracker) → Keeps (OfTrackers Q) (validate_pending env t)
  unfolding validate_pending
  validate_pending-Keeps t = elim (Option-cases t.job_id) [
    | inl e ↦ rw (e, validate_pending) (Keeps-pure none)
    | inr (id, e) ↦
        rw (e, validate_pending)
          (Keeps-if (is_runnable t) (pure (some id))
            (remove_job env id >> (Rows.update_tracker_job t.id none >> pure none))
            (Keeps-pure (some id)) (unlink_job-Keeps t id))
  ]

  attempt-Keeps :
      {A : Type 0} (m : Exec World A) → Keeps (OfTrackers Q) m → Keeps (OfTrackers Q) (attempt m)
  attempt-Keeps m k = record { at = λ w h. k.at w h }

  plan_retry-Keeps :
      (id : Uuid) (s : Option SchedulerJobRetryStrategy)
      → Keeps (OfTrackers Q) (plan_retry env id s)
  unfolding schedule_retry update_scheduler_job_meta get_scheduler_job_meta
  plan_retry-Keeps id none = Keeps-pure none
  plan_retry-Keeps id (some s) = same-Keeps Q (schedule_retry env id s) (λ w. ground arith)

  report_error-Keeps : (t : Tracker) (e : Error) → Keeps (OfTrackers Q) (report_error env t e)
  unfolding report_error schedule_task
  report_error-Keeps t e = same-Keeps Q (report_error env t e) (λ w. ground arith)

  on_result-Keeps :
      (t : Tracker) (id : Uuid) (r : Result TrackerDataRevision)
      → Keeps (OfTrackers Q) (on_result env t id r)
  unfolding on_result on_failure
  on_result-Keeps t id (ok d) = reset-Keeps Q id false
  on_result-Keeps t id (err e) =
      search (keeps_rules, plan_retry-Keeps, reset-Keeps Q, report_error-Keeps)

  check-Keeps : (t : Tracker) (job : Option Uuid) → Keeps (OfTrackers Q) (check env t job)
  check-Keeps t none = Keeps-pure tt
  check-Keeps t (some id) =
      search (keeps_rules, attempt-Keeps, create_tracker_data_revision-Keeps Q env, on_result-Keeps)

  pub process-Keeps : (t : Tracker) → Keeps (OfTrackers Q) (process env t)
  unfolding process
  process-Keeps t = search (keeps_rules, validate_pending-Keeps, check-Keeps)
