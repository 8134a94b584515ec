-- ===== src/Scheduler/RunJob/Outcome.antt =====
-- The row of a job behind a check of its tracker.
use retrack.Scheduler.Retry.{attempts_of, schedule_retry}
use retrack.Prelude.{
  ltb, leb, if◌then◌else◌, Bool-cases, Option-cases, find, ℕ, suc, ◌+◌, ◌≡◌, refl, inl, inr, Bool,
  false, Option, none, some, arith,
}
use retrack.Error.{ok, err, Result, Error}
use retrack.Types.{Tracker, TrackerDataRevision, Uuid}
use retrack.Env.{Env}
use retrack.Db.{World}
use retrack.Db.Jobs.{
  is_job, reset, get_scheduler_job_meta, update_scheduler_job_meta, reset_scheduler_job_state,
}
use retrack.Scheduler.Job.{
  RawSchedulerJobStoredData, SchedulerJobMetadata, SchedulerJobRetryState, metadata,
}
use retrack.Scheduler.RetryStrategy.{SchedulerJobRetryStrategy, max_attempts, interval}
use retrack.Scheduler.Retry.Attempts.{find-update_job, any-is_job}
use retrack.Scheduler.RunJob.{on_result, on_failure, report_error, retry_strategy_of, catch_all_of}
use retrack.Tasks.Api.{schedule_task}

-- The row of the job `id` is `j`.
abbrev pub IsRow : Uuid → RawSchedulerJobStoredData → World → Type 0
IsRow id j w = find (is_job id) w.scheduler_jobs ≡ some j

module _ (id : Uuid) (j : RawSchedulerJobStoredData) (m : SchedulerJobMetadata) (w : World) where
  reset-IsRow :
      (stopped : Bool)
      → IsRow id j w
      → j.extra ≡ some (metadata m)
      → IsRow id (reset stopped m j) (reset_scheduler_job_state id stopped w).1
  unfolding reset_scheduler_job_state
  reset-IsRow stopped h e =
      ground (arith, find-update_job (reset stopped m) id w.scheduler_jobs (λ j. refl))

  update_meta-IsRow :
      (n : SchedulerJobMetadata)
      → IsRow id j w
      → IsRow id (record j { extra = some (metadata n) }) (update_scheduler_job_meta id n w).1
  unfolding update_scheduler_job_meta
  update_meta-IsRow n h = ground (
    arith,
    any-is_job id w.scheduler_jobs,
    find-update_job (λ j. record j { extra = some (metadata n) }) id w.scheduler_jobs (λ j. refl),
  )

update_meta-ok :
    (id : Uuid) (j : RawSchedulerJobStoredData) (w : World) (n : SchedulerJobMetadata)
    → IsRow id j w
    → (update_scheduler_job_meta id n w).0 ≡ ok tt
unfolding update_scheduler_job_meta
update_meta-ok id j w n h = ground (arith, any-is_job id w.scheduler_jobs)

-- The retry that the strategy still allows after `attempts` failures, at the time `now`.
abbrev pub planned_retry : Option SchedulerJobRetryStrategy → ℕ → ℕ → Option SchedulerJobRetryState
planned_retry none attempts now = none
planned_retry (some s) attempts now =
    if ltb attempts (max_attempts s)
    then some (record { attempts = attempts + 1; next_at = now + interval s attempts })
    else none

-- The row that a check leaves: it stays pending only while a retry is planned.
abbrev pub settled :
    SchedulerJobMetadata
    → Result TrackerDataRevision
    → Option SchedulerJobRetryState
    → RawSchedulerJobStoredData
    → RawSchedulerJobStoredData
settled m (ok r) retry j = reset false m j
settled m (err e) none j = reset false m j
settled m (err e) (some r) j = record j { extra = some (metadata (record m { retry = some r })) }

module _ (env : Env) where
  report_error-jobs :
      (t : Tracker) (e : Error) (w : World)
      → (report_error env t e w).1.scheduler_jobs ≡ w.scheduler_jobs
  unfolding report_error schedule_task
  report_error-jobs t e w = elim (Option-cases (catch_all_of env)) [
    | inl none_set ↦ ground arith
    | inr (c, found) ↦ ground arith
  ]

  schedule_retry-IsRow :
      (id : Uuid) (j : RawSchedulerJobStoredData) (m : SchedulerJobMetadata) (w : World)
      (s : SchedulerJobRetryStrategy)
      → IsRow id j w
      → j.extra ≡ some (metadata m)
      → let retry = planned_retry (some s) (attempts_of m) (env.now_utc w.moment) in
        ((schedule_retry env id s w).0 ≡ ok retry)
        × IsRow id
            (record j { extra = some (metadata (record m { retry = retry })) })
            (schedule_retry env id s w).1
  unfolding schedule_retry get_scheduler_job_meta
  schedule_retry-IsRow id j m w s h e =
      let later : World = record w { moment = suc w.moment } in
      let next : SchedulerJobRetryState = record {
        attempts = attempts_of m + 1;
        next_at = env.now_utc w.moment + interval s (attempts_of m);
      } in
      elim (Bool-cases (leb (max_attempts s) (attempts_of m))) [
        | inl spent ↦ ground (
          arith,
          update_meta-ok id j w (record m { retry = none }),
          update_meta-IsRow id j m w (record m { retry = none }) h,
        )
        | inr more ↦ ground (
          arith,
          update_meta-ok id j later (record m { retry = some next }),
          update_meta-IsRow id j m later (record m { retry = some next }) h,
        )
      ]

  -- After a check of a tracker its job's row is as follows. Where the check succeeded, or failed with
  -- no attempt left, the job is no longer pending and no retry is planned. Where an attempt is left,
  -- the row stays as it was but for the metadata, which counts one attempt more and says when the
  -- next one is due.
  pub on_result-settled :
      (t : Tracker) (id : Uuid) (r : Result TrackerDataRevision) (j : RawSchedulerJobStoredData)
      (m : SchedulerJobMetadata) (w : World)
      → IsRow id j w
      → j.extra ≡ some (metadata m)
      → IsRow id
          (settled m r
            (planned_retry (retry_strategy_of t) (attempts_of m) (env.now_utc w.moment))
            j)
          (on_result env t id r w).1
  unfolding on_result on_failure
  on_result-settled t id (ok r) j m w h e = reset-IsRow id j m w false h e
  on_result-settled t id (err x) j m w h e = elim (Option-cases (retry_strategy_of t)) [
    | inl no_strategy ↦ ground (
      arith,
      no_strategy,
      reset-IsRow id j m w false h e,
      report_error-jobs t x (reset_scheduler_job_state id false w).1,
    )
    | inr (s, strategy) ↦
        let (answer, stored) = schedule_retry-IsRow id j m w s h e in
        let v = (schedule_retry env id s w).1 in
        let spent : SchedulerJobMetadata = record m { retry = none } in
        let j' : RawSchedulerJobStoredData = record j { extra = some (metadata spent) } in
        ground (
          arith,
          strategy,
          answer,
          stored,
          reset-IsRow id j' spent v false,
          report_error-jobs t x (reset_scheduler_job_state id false v).1,
        )
  ]
