-- ===== src/Scheduler/RunJob.antt =====
-- src/scheduler/scheduler_jobs/trackers_run_job.rs, and the stream `get_trackers_to_run` of
-- src/trackers/database_ext.rs: checking the trackers whose jobs are pending.
pub mod Outcome
pub mod Stream
use retrack.Prelude.{
  ltb, ◌==◌, if◌then◌else◌, length, last?, find, and_then, unwrap_or, is_some, ℕ, zero, suc, Bool,
  false, not, ◌&&◌, Option, none, some, List, [], ◌∷◌,
}
use retrack.Error.{Error, Result, ok, err, unknown, scheduler_failed}
use retrack.Exec.{◌>>=◌, ◌>>◌, Exec, pure, lift}
use retrack.Types.{Tracker, TrackerDataRevision, Uuid, OffsetDateTime}
use retrack.Env.{Env, SmtpConfig, SmtpCatchAllConfig}
use retrack.Db.{World, TrackerRow, observe}
use retrack.Db.Paging.{page, last_key}
use retrack.Db.Trackers as Rows
use retrack.Db.Jobs.{is_job, with_jobs, decode, reset_scheduler_job_state}
use retrack.Scheduler.Job.{
  RawSchedulerJobStoredData, SchedulerJobMetadata, SchedulerJobRetryState, Extra,
}
use retrack.Scheduler.RetryStrategy.{SchedulerJobRetryStrategy}
use retrack.Scheduler.Retry.{schedule_retry}
use retrack.Tasks.Task.{template, tracker_changes, failed}
use retrack.Tasks.Task
use retrack.Tasks.Api.{schedule_task}
use retrack.Trackers.Revise.{create_tracker_data_revision}

abbrev pub max_jobs_page_size : ℕ
max_jobs_page_size = 1000

-- A record of the join of a tracker with its job.
pub record Joined : Type 0 where
  pub tracker : Tracker
  pub extra : Option Extra

abbrev pub is_stopped : RawSchedulerJobStoredData → Bool
is_stopped j = unwrap_or j.stopped false

abbrev pub join_job : Tracker → Option RawSchedulerJobStoredData → List Joined → List Joined
join_job t none rest = rest
join_job t (some j) rest =
    if is_stopped j then record { tracker = t; extra = j.extra } ∷ rest else rest

abbrev pub job_of : Option Uuid → List RawSchedulerJobStoredData → Option RawSchedulerJobStoredData
job_of none jobs = none
job_of (some id) jobs = find (is_job id) jobs

-- INNER JOIN … ON trackers.job_id = jobs.id WHERE jobs.stopped = true
unfoldable pub pending : List TrackerRow → List RawSchedulerJobStoredData → List Joined
pending [] jobs = []
pending (r ∷ rs) jobs = join_job r.tracker (job_of r.tracker.job_id jobs) (pending rs jobs)

abbrev pub joined_key : Joined → ℕ
joined_key j = j.tracker.created_at

-- whether the retry of the job's metadata is still to come
abbrev pub waits : Option SchedulerJobMetadata → OffsetDateTime → Bool
waits none now = false
waits (some m) now = elim m.retry [ none ↦ false | some r ↦ ltb now r.next_at ]

-- `tracker.config.job.as_ref().and_then(|job_config| job_config.retry_strategy)`
abbrev pub retry_strategy_of : Tracker → Option SchedulerJobRetryStrategy
retry_strategy_of t = and_then t.config.job (λ j. j.retry_strategy)

abbrev pub is_runnable : Tracker → Bool
is_runnable t = t.enabled && not (t.config.revisions == 0) && is_some t.config.job

-- the outcome of a method as a value: `match … { Ok(…) => …, Err(…) => … }`
abbrev pub attempt : {A : Type 0} → Exec World A → Exec World (Result A)
attempt m w = let (r, w') = m w in (ok r, w')

abbrev pub or_scheduler_failed : Option (List RawSchedulerJobStoredData) → Exec World Unit
or_scheduler_failed none w = (err (unknown scheduler_failed), w)
or_scheduler_failed (some rows) w = (ok tt, with_jobs rows w)

module _ (env : Env) where
  -- scheduler.remove(&job_id)
  abbrev pub remove_job : Uuid → Exec World Unit
  remove_job id w = or_scheduler_failed (env.remove_job id w.scheduler_jobs) w

  unfoldable pub validate_pending : Tracker → Exec World (Option Uuid)
  validate_pending t = elim t.job_id [
    | none ↦ pure none
    | some id ↦
        if is_runnable t
        then pure (some id)
        else (do remove_job id; Rows.update_tracker_job t.id none; pure none)
  ]

  abbrev pub catch_all_of : Option SmtpCatchAllConfig
  catch_all_of = and_then env.config.smtp (λ (s : SmtpConfig). s.catch_all)

  unfoldable pub report_error : Tracker → Error → Exec World Unit
  report_error t e = elim catch_all_of [
    | none ↦ pure tt
    | some c ↦ do
      now ← observe env.now_utc
      scheduled ← attempt (
          schedule_task env
            (Task.email (record {
              to = c.recipient ∷ [];
              content = template (tracker_changes t.name (failed (env.error_text e)));
            }))
            now)
      pure tt
  ]

  abbrev pub plan_retry :
      Uuid → Option SchedulerJobRetryStrategy → Exec World (Option SchedulerJobRetryState)
  plan_retry id none = pure none
  plan_retry id (some s) = schedule_retry env id s

  -- the arm of a failed check
  unfoldable pub on_failure : Tracker → Uuid → Error → Exec World Unit
  on_failure t id e = do
    retry ← plan_retry id (retry_strategy_of t)
    (if is_some retry then pure tt else (do reset_scheduler_job_state id false; report_error t e))

  unfoldable pub on_result : Tracker → Uuid → Result TrackerDataRevision → Exec World Unit
  on_result t id (ok r) = reset_scheduler_job_state id false
  on_result t id (err e) = on_failure t id e

  abbrev pub check : Tracker → Option Uuid → Exec World Unit
  check t none = pure tt
  check t (some id) = do
    result ← attempt (create_tracker_data_revision env t.id)
    on_result t id result

  -- one turn of the `while let` loop
  unfoldable pub process : Tracker → Exec World Unit
  process t = do job ← validate_pending t; check t job

  -- the records of one page: those whose retry is to come are passed over
  unfoldable pub process_page : OffsetDateTime → List Joined → Exec World Unit
  process_page now [] = pure tt
  process_page now (j ∷ js) = do
    meta ← lift (decode j.extra)
    (if waits meta now then pure tt else process j.tracker)
    process_page now js

  -- The pages, each read when the one before is done.
  unfoldable pub run_pages : ℕ → ℕ → Exec World Unit
  run_pages zero last w = (err (unknown scheduler_failed), w)
  run_pages (suc fuel) last w =
      let rows = page joined_key max_jobs_page_size (pending w.trackers w.scheduler_jobs) last in
      let rest = run_pages fuel (last_key joined_key last (last? rows)) in
      (do
        now ← observe env.now_utc
        process_page now rows
        (if ltb (length rows) max_jobs_page_size then pure tt else rest))
        w
