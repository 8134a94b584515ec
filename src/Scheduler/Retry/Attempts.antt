-- ===== src/Scheduler/Retry/Attempts.antt =====
-- A failing job is retried as often as its strategy says, and then no more.
use retrack.Scheduler.RetryStrategy.{SchedulerJobRetryStrategy, max_attempts, interval}
use retrack.Env.{Env}
use retrack.Prelude.{
  leb, if◌then◌else◌, Bool-cases, any, find, map_option, is_some, ℕ, zero, suc, ◌+◌, ◌≤◌, ◌<◌, ◌≡◌,
  refl, inl, inr, Bool, true, false, Option, none, some, List, [], ◌∷◌, arith,
}
use retrack.Error.{ok, Result}
use retrack.Types.{Uuid}
use retrack.Db.{World}
use retrack.Db.Jobs.{is_job, update_job, get_scheduler_job_meta, update_scheduler_job_meta}
use retrack.Scheduler.Job
use retrack.Scheduler.Job.{
  SchedulerJobMetadata, SchedulerJobRetryState, RawSchedulerJobStoredData, metadata,
}
use retrack.Scheduler.Retry.{attempts_of, schedule_retry}

pub find-update_job :
    (f : RawSchedulerJobStoredData → RawSchedulerJobStoredData) (id : Uuid)
    (rows : List RawSchedulerJobStoredData)
    → ((j : RawSchedulerJobStoredData) → (f j).id ≡ j.id)
    → find (is_job id) (update_job f id rows) ≡ map_option f (find (is_job id) rows)
unfolding update_job
find-update_job f id [] h = refl
find-update_job f id (j ∷ js) h = ground (arith, h j, find-update_job f id js h)

pub any-is_job :
    (id : Uuid) (rows : List RawSchedulerJobStoredData)
    → any (is_job id) rows ≡ is_some (find (is_job id) rows)
any-is_job id [] = refl
any-is_job id (j ∷ js) = ground (arith, any-is_job id js)

-- The row of the job is there, and its metadata is `m`.
abbrev pub HasMeta : Uuid → SchedulerJobMetadata → World → Type 0
HasMeta id m w = (get_scheduler_job_meta id w).0 ≡ ok (some m)

pub update-HasMeta :
    (id : Uuid) (m n : SchedulerJobMetadata) (w : World)
    → HasMeta id m w
    → ((update_scheduler_job_meta id n w).0 ≡ ok tt)
      × HasMeta id n (update_scheduler_job_meta id n w).1
unfolding get_scheduler_job_meta update_scheduler_job_meta
update-HasMeta id m n w h = ground (
  arith,
  any-is_job id w.scheduler_jobs,
  find-update_job (λ j. record j { extra = some (metadata n) }) id w.scheduler_jobs (λ j. refl),
)

-- a further attempt was scheduled
abbrev pub is_answered : Result (Option SchedulerJobRetryState) → Bool
is_answered (ok (some r)) = true
is_answered _ = false

module _ (env : Env) (id : Uuid) (s : SchedulerJobRetryStrategy) where
  -- the state that the next retry gets at the world's moment
  abbrev due : ℕ → World → Option SchedulerJobRetryState
  due attempts w =
      if leb (max_attempts s) attempts
      then none
      else some
          (record { attempts = attempts + 1; next_at = env.now_utc w.moment + interval s attempts })

  -- One failure: what is returned, and what is stored.
  pub schedule_retry_step :
      (m : SchedulerJobMetadata) (w : World)
      → HasMeta id m w
      → ((schedule_retry env id s w).0 ≡ ok (due (attempts_of m) w))
        × HasMeta id (record m { retry = due (attempts_of m) w }) (schedule_retry env id s w).1
  unfolding schedule_retry get_scheduler_job_meta
  schedule_retry_step m w h =
      let later : World = record w { moment = suc w.moment } in
      let kept = record m { retry = due (attempts_of m) w } in
      elim (Bool-cases (leb (max_attempts s) (attempts_of m))) [
        | inl spent ↦ ground (arith, update-HasMeta id m (record m { retry = none }) w h)
        | inr more ↦ ground (arith, update-HasMeta id m kept later h)
      ]

  -- the world after so many failures in a row
  pub failures : ℕ → World → World
  failures zero w = w
  failures (suc n) w = failures n (schedule_retry env id s w).1

  abbrev Counts : ℕ → SchedulerJobMetadata → World → Type 0
  Counts n m w =
      (k : SchedulerJobMetadata) × HasMeta id k w × (attempts_of k ≡ n) × (k.job_type ≡ m.job_type)

  -- As long as attempts are left, each failure is counted.
  failures_counted :
      (n : ℕ) (m : SchedulerJobMetadata) (w : World)
      → HasMeta id m w
      → attempts_of m + n ≤ max_attempts s
      → Counts (attempts_of m + n) m (failures n w)
  unfolding failures
  failures_counted zero m w h le = (m, h, omega arith, refl)
  failures_counted (suc n) m w h le =
      let (_, stored) = schedule_retry_step m w h in
      let next : SchedulerJobMetadata = record m { retry = due (attempts_of m) w } in
      let counted : attempts_of next ≡ attempts_of m + 1 = ground arith in
      let (k, has, count, same) =
        failures_counted n next (schedule_retry env id s w).1 stored (omega (arith, counted)) in
      (k, has, omega (arith, count, counted), same)

  -- A job with no retry pending is retried exactly `max_attempts` times: every failure before that
  -- is answered by a further attempt, and the next one by none, and leaves no retry pending.
  pub retries_exhausted :
      (m : SchedulerJobMetadata) (w : World)
      → HasMeta id m w
      → attempts_of m ≡ 0
      → ((n : ℕ)
          → n < max_attempts s
          → is_answered (schedule_retry env id s (failures n w)).0 ≡ true)
        × ((schedule_retry env id s (failures (max_attempts s) w)).0 ≡ ok none)
        × HasMeta id (Job.new m.job_type) (schedule_retry env id s (failures (max_attempts s) w)).1
  unfolding Job.new
  retries_exhausted m w h zero_attempts = (before, last.0, last.1)
    where
      before :
          (n : ℕ)
          → n < max_attempts s
          → is_answered (schedule_retry env id s (failures n w)).0 ≡ true
      before n lt =
          let (k, has, count, _) = failures_counted n m w h (omega arith) in
          ground (arith, (schedule_retry_step k (failures n w) has).0)

      last :
          ((schedule_retry env id s (failures (max_attempts s) w)).0 ≡ ok none)
          × HasMeta id
              (Job.new m.job_type)
              (schedule_retry env id s (failures (max_attempts s) w)).1
      last =
          let (k, has, count, same) = failures_counted (max_attempts s) m w h (omega arith) in
          let step = schedule_retry_step k (failures (max_attempts s) w) has in
          ground (arith, step.0, step.1)
