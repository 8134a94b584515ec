-- ===== src/Scheduler/RetryStrategy/Exact.antt =====
-- The checked arithmetic of `interval` never changes its result on a strategy that the API accepts.
use retrack.Prelude.{ℕ, ◌+◌, ◌*◌, ◌^◌, ◌≤◌, min, ◌≡◌, refl, arith}
use retrack.Scheduler.RetryStrategy.{
  Duration, secs, SchedulerJobRetryStrategy, constant, exponential, linear, interval, min_interval,
}

-- The interval that the documentation promises, in exact arithmetic.
abbrev pub planned : SchedulerJobRetryStrategy → ℕ → Duration
planned (constant i _) n = i
planned (exponential initial multiplier top _) n = min (initial * multiplier ^ n) top
planned (linear initial increment top _) n = min (initial + increment * n) top

-- `max_interval`, where the strategy has one, is at most `bound`.
abbrev pub CapWithin : Duration → SchedulerJobRetryStrategy → Type 0
CapWithin bound (constant _ _) = Unit
CapWithin bound (exponential _ _ top _) = top ≤ bound
CapWithin bound (linear _ _ top _) = top ≤ bound

overflow_passes_cap : (i p top : ℕ) → secs 60 ≤ i → top ≤ secs 43200 → 2 ^ 32 ≤ p → top ≤ i * p
overflow_passes_cap i p top h c o = grind arith

-- A strategy with an initial interval of at least a minute and a cap of at most twelve hours waits
-- exactly as planned before each attempt: no overflow of the checked arithmetic shows.
pub interval-eq-planned :
    (s : SchedulerJobRetryStrategy) (n : ℕ)
    → secs 60 ≤ min_interval s
    → CapWithin (secs 43200) s
    → interval s n ≡ planned s n
unfolding interval min_interval
interval-eq-planned (constant i a) n h c = refl
interval-eq-planned (exponential i m top a) n h c =
    ground (arith, overflow_passes_cap i (m ^ n) top h c)
interval-eq-planned (linear i inc top a) n h c = ground arith
