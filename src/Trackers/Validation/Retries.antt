-- ===== src/Trackers/Validation/Retries.antt =====
-- How long the retries wait of a strategy that the API accepts.
use Prim.Native.Nat.pow
use native.Mathlib.Nat.{pow-suc}
use retrack.Prelude.{ℕ, zero, suc, ◌*◌, ◌^◌, ◌≤◌, ◌<◌, min, ◌≡◌, arith}
use retrack.Error.{ok}
use retrack.Env.{Env}
use retrack.Scheduler.RetryStrategy.{
  Duration, secs, SchedulerJobRetryStrategy, constant, exponential, linear, interval, min_interval,
}
use retrack.Scheduler.RetryStrategy.Exact.{planned, CapWithin, interval-eq-planned}
use retrack.Trackers.Validation.{validate_retry_strategy}
use retrack.Trackers.Validation.Limits.{RetryOk, validate_retry_strategy-RetryOk}

-- The multiplier of an exponential strategy is not 0.
abbrev pub Grows : SchedulerJobRetryStrategy → Type 0
Grows (exponential _ multiplier _ _) = 0 < multiplier
Grows _ = Unit

-- A strategy with a cap waits at most `d`.
abbrev pub CappedBy : Duration → Duration → SchedulerJobRetryStrategy → Type 0
CappedBy wait d (constant _ _) = Unit
CappedBy wait d _ = wait ≤ d

RetryOk-CapWithin :
    {every : Duration} (s : SchedulerJobRetryStrategy) → RetryOk every s → CapWithin (secs 43200) s
RetryOk-CapWithin (constant i a) h = tt
RetryOk-CapWithin (exponential i m top a) h = h.cap_fits.1
RetryOk-CapWithin (linear i inc top a) h = h.cap_fits.1

pow_positive : (m n : ℕ) → 0 < m → 0 < m ^ n
pow_positive m zero h = rw pow.zero (omega arith)
pow_positive m (suc n) h = rw pow-suc (grind (arith, pow_positive m n h))

mul_le : (i p : ℕ) → 0 < p → i ≤ i * p
mul_le i p h = grind arith

planned_bounds :
    (every : Duration) (s : SchedulerJobRetryStrategy) (n : ℕ)
    → RetryOk every s
    → Grows s
    → (secs 60 ≤ planned s n) × CappedBy (planned s n) (min (secs 43200) every) s
unfolding min_interval
planned_bounds every (constant i a) n h g = (h.late_enough, tt)
planned_bounds every (exponential i m top a) n h g =
    omega (arith, mul_le i (m ^ n) (pow_positive m n g), h.late_enough, h.cap_fits)
planned_bounds every (linear i inc top a) n h g = omega (arith, h.late_enough, h.cap_fits)

-- Each retry of an accepted strategy whose multiplier is not 0 waits at least a minute, and, if the
-- strategy has a cap, no longer than twelve hours and than the schedule's interval.
pub accepted_wait :
    (env : Env) (every : Duration) (s : SchedulerJobRetryStrategy) (n : ℕ)
    → validate_retry_strategy env every s ≡ ok tt
    → Grows s
    → (secs 60 ≤ interval s n) × CappedBy (interval s n) (min (secs 43200) every) s
accepted_wait env every s n h g =
    let fine = validate_retry_strategy-RetryOk env every s h in
    rw (interval-eq-planned s n fine.late_enough (RetryOk-CapWithin s fine))
      (planned_bounds every s n fine g)

zero-pow-suc : (n : ℕ) → 0 ^ suc n ≡ 0
zero-pow-suc n = rw pow-suc (omega arith)

-- With the multiplier 0, which the API accepts, every retry but the first is due at once.
pub zero_multiplier_wait :
    (env : Env) (every i top a n : ℕ)
    → validate_retry_strategy env every (exponential i 0 top a) ≡ ok tt
    → interval (exponential i 0 top a) (suc n) ≡ 0
zero_multiplier_wait env every i top a n h =
    let fine = validate_retry_strategy-RetryOk env every (exponential i 0 top a) h in
    rw
      (interval-eq-planned (exponential i 0 top a) (suc n) fine.late_enough
        (RetryOk-CapWithin (exponential i 0 top a) fine))
      (rw (zero-pow-suc n) (omega arith))
