-- ===== src/Scheduler/RetryStrategy.antt =====
-- components/retrack-types/src/scheduler/scheduler_job_retry_strategy.rs: how long a failed job
-- waits before its next attempt. A `Duration` is its number of nanoseconds, below
-- `duration_limit`; a `u32` is a number below `u32_limit`. The checked operations of the standard
-- library answer `none` where the exact result does not fit.
pub mod Exact
use retrack.Prelude.{ℕ, ◌+◌, ◌*◌, ◌^◌, min, Option, none, some, ltb, and_then, if◌then◌else◌}

abbrev pub Duration : Type 0
Duration = ℕ

abbrev pub secs : ℕ → Duration
secs n = n * 1000000000

abbrev pub u32_limit : ℕ
u32_limit = 2 ^ 32

abbrev pub duration_limit : ℕ
duration_limit = 2 ^ 64 * 1000000000

pub data SchedulerJobRetryStrategy : Type 0 where
  -- interval, max_attempts
  constant : Duration → ℕ → SchedulerJobRetryStrategy
  -- initial_interval, multiplier, max_interval, max_attempts
  exponential : Duration → ℕ → Duration → ℕ → SchedulerJobRetryStrategy
  -- initial_interval, increment, max_interval, max_attempts
  linear : Duration → Duration → Duration → ℕ → SchedulerJobRetryStrategy

-- u32::checked_pow
abbrev checked_pow : ℕ → ℕ → Option ℕ
checked_pow base exp = let p = base ^ exp in if ltb p u32_limit then some p else none

-- Duration::checked_mul, Duration::checked_add
abbrev checked_mul : Duration → ℕ → Option Duration
checked_mul d n = if ltb (d * n) duration_limit then some (d * n) else none

abbrev checked_add : Duration → Duration → Option Duration
checked_add d e = if ltb (d + e) duration_limit then some (d + e) else none

-- `.map(|interval| interval.min(*max_interval)).unwrap_or_else(|| *max_interval)`
abbrev capped : Duration → Option Duration → Duration
capped max_interval none = max_interval
capped max_interval (some interval) = min interval max_interval

unfoldable pub interval : SchedulerJobRetryStrategy → ℕ → Duration
interval (constant i _) attempt = i
interval (exponential initial_interval multiplier max_interval _) attempt =
    capped max_interval
      (and_then (checked_pow multiplier attempt) (λ m. checked_mul initial_interval m))
interval (linear initial_interval increment max_interval _) attempt =
    capped max_interval
      (and_then (checked_mul increment attempt) (λ i. checked_add initial_interval i))

unfoldable pub max_attempts : SchedulerJobRetryStrategy → ℕ
max_attempts (constant _ n) = n
max_attempts (exponential _ _ _ n) = n
max_attempts (linear _ _ _ n) = n

unfoldable pub min_interval : SchedulerJobRetryStrategy → Duration
min_interval (constant i _) = i
min_interval (exponential i _ _ _) = i
min_interval (linear i _ _ _) = i
