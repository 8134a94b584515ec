-- ===== src/Scheduler/Retry.antt =====
-- src/scheduler/api_ext.rs: scheduling the next attempt of a failed job.
pub mod Attempts
use retrack.Prelude.{leb, if◌then◌else◌, map_option, unwrap_or, ℕ, ◌+◌, Option, none, some}
use retrack.Exec.{◌>>=◌, ◌>>◌, Exec, pure}
use retrack.Types.{Uuid}
use retrack.Env.{Env}
use retrack.Db.{World, observe}
use retrack.Db.Jobs.{get_scheduler_job_meta, update_scheduler_job_meta, or_gone}
use retrack.Scheduler.Job.{SchedulerJobMetadata, SchedulerJobRetryState}
use retrack.Scheduler.RetryStrategy.{SchedulerJobRetryStrategy, interval, max_attempts}

-- `retry.map(|state| state.attempts).unwrap_or_default()`
abbrev pub attempts_of : SchedulerJobMetadata → ℕ
attempts_of m = unwrap_or (map_option (λ r. r.attempts) m.retry) 0

module _ (env : Env) where
  unfoldable pub next_retry :
      SchedulerJobRetryStrategy → ℕ → Exec World (Option SchedulerJobRetryState)
  next_retry strategy attempts w =
      if leb (max_attempts strategy) attempts
      then pure none w
      else (do
        now ← observe env.now_utc
        pure
            (some (record { attempts = attempts + 1; next_at = now + interval strategy attempts })))
          w

  unfoldable pub schedule_retry :
      Uuid → SchedulerJobRetryStrategy → Exec World (Option SchedulerJobRetryState)
  unfolding next_retry
  schedule_retry job_id strategy = do
    found ← get_scheduler_job_meta job_id
    meta ← or_gone found
    retry_state ← next_retry strategy (attempts_of meta)
    update_scheduler_job_meta job_id (record meta { retry = retry_state })
    pure retry_state
