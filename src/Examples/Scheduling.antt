-- ===== src/Examples/Scheduling.antt =====
-- The theorems on retries, on jobs and on the streams at concrete inputs, and tests.
use retrack.Scheduler.ScheduleJob.{schedule_trackers, schedule_tracker, create_trigger}
use retrack.Scheduler.ScheduleJob.Linked.{schedule_trackers-AllLinked}
use retrack.Trackers.Api.Linked.{AllLinked}
use retrack.Db.Trackers.{
  job_needed, to_schedule, get_trackers_to_schedule, update_tracker_job, update_where,
}
use retrack.Scheduler.ScheduleJob.Served.{schedule_trackers-served}
use retrack.Exec.{for_each}
use retrack.Prelude.{ltb, keep, ℕ, ◌≤◌, ◌<◌, min, ◌≡◌, refl, true, none, some, List, [], ◌∷◌, arith}
use retrack.Types.{Tracker}
use retrack.Error.{ok, err, unknown, scraper_failed}
use retrack.Db.Jobs.{get_scheduler_job_meta, get_scheduler_jobs}
use retrack.Db.Paging.{order_by, page}
use retrack.Scheduler.Job
use retrack.Scheduler.RetryStrategy.{max_attempts, secs, interval, exponential, min_interval}
use retrack.Scheduler.RetryStrategy.Exact.{planned, interval-eq-planned}
use retrack.Scheduler.Retry.{schedule_retry}
use retrack.Scheduler.Retry.Attempts.{HasMeta, is_answered, failures, retries_exhausted}
use retrack.Scheduler.RunJob.{on_result, retry_strategy_of, pending, joined_key}
use retrack.Scheduler.RunJob.Outcome.{IsRow, settled, planned_retry, on_result-settled}
use retrack.Scheduler.RunJob.Stream.{
  job_key, get_scheduler_jobs_complete, get_trackers_to_run, Picked, get_trackers_to_run_complete,
}
use retrack.Trackers.Validation.{validate_retry_strategy}
use retrack.Trackers.Validation.Retries.{CappedBy, accepted_wait, zero_multiplier_wait}
use retrack.Examples.Data.{
  unscheduled_world, demo_env, doubling, stuck, demo_tracker, demo_world, demo_meta, demo_job,
  retrying_meta, retrying_world,
}

-- the waits of the documentation
waits :
    (interval doubling 0 ≡ secs 60)
    × (interval doubling 2 ≡ secs 240)
    × (interval doubling 9 ≡ secs 600)
unfolding interval
waits = (refl, refl, refl)

-- where the checked arithmetic overflows the cap is taken
overflow : interval (exponential (secs 60) 2 (secs 600) 99) 40 ≡ secs 600
unfolding interval
overflow = refl

interval-eq-planned_example : interval doubling 2 ≡ planned doubling 2
unfolding min_interval
interval-eq-planned_example = interval-eq-planned doubling 2 (omega arith) (omega arith)

accepted : validate_retry_strategy demo_env (secs 3600) doubling ≡ ok tt
unfolding validate_retry_strategy
accepted = refl

accepted_wait_example :
    (secs 60 ≤ interval doubling 2)
    × CappedBy (interval doubling 2) (min (secs 43200) (secs 3600)) doubling
accepted_wait_example = accepted_wait demo_env (secs 3600) doubling 2 accepted (omega arith)

zero_multiplier_wait_example : interval stuck 1 ≡ 0
unfolding validate_retry_strategy
zero_multiplier_wait_example =
    zero_multiplier_wait demo_env (secs 3600) (secs 60) (secs 600) 3 0 refl

retries_exhausted_example :
    ((n : ℕ)
      → n < 3
      → is_answered
          (schedule_retry demo_env 7 doubling (failures demo_env 7 doubling n demo_world)).0
        ≡ true)
    × ((schedule_retry demo_env 7 doubling (failures demo_env 7 doubling 3 demo_world)).0 ≡ ok none)
    × HasMeta 7
        (Job.new Job.trackers_trigger)
        (schedule_retry demo_env 7 doubling (failures demo_env 7 doubling 3 demo_world)).1
unfolding get_scheduler_job_meta max_attempts
retries_exhausted_example = retries_exhausted demo_env 7 doubling demo_meta demo_world refl refl

on_result-settled_example :
    IsRow 7
      (settled demo_meta
        (err (unknown scraper_failed))
        (planned_retry (retry_strategy_of demo_tracker) 0 1000000)
        demo_job)
      (on_result demo_env demo_tracker 7 (err (unknown scraper_failed)) demo_world).1
on_result-settled_example =
    on_result-settled demo_env demo_tracker 7 (err (unknown scraper_failed)) demo_job demo_meta
      demo_world refl refl

get_scheduler_jobs_complete_example :
    get_scheduler_jobs 2 1000 demo_world
    ≡ some (order_by job_key (keep (λ j. ltb 0 j.id) demo_world.scheduler_jobs))
get_scheduler_jobs_complete_example =
    get_scheduler_jobs_complete 2 1000 demo_world (omega arith) (tt, tt) (omega arith)

-- the tracker is yielded, and passed over while its retry is to come
runs_now :
    ((get_trackers_to_run demo_env 2 1000 0 demo_world).0 ≡ ok (demo_tracker ∷ []))
    × ((get_trackers_to_run demo_env 2 1000 0 retrying_world).0 ≡ ok [])
unfolding get_trackers_to_run pending page order_by
runs_now = (refl, refl)

get_trackers_to_run_complete_example :
    (ts : List Tracker) × ((get_trackers_to_run demo_env 2 1000 0 retrying_world).0 ≡ ok ts)
    × Picked demo_env 0
        (order_by joined_key (
          keep
            (λ j. ltb 0 j.tracker.created_at)
            (pending retrying_world.trackers retrying_world.scheduler_jobs)))
        ts
unfolding pending
get_trackers_to_run_complete_example =
    get_trackers_to_run_complete demo_env 2 1000 retrying_world (omega arith)
      ((some retrying_meta, refl), tt) (tt, tt) (omega arith)

unscheduled_linked : AllLinked unscheduled_world
unfolding job_needed
unscheduled_linked = (record { column = refl; linked = λ e. refl }, tt)

schedule_trackers-AllLinked_example : AllLinked (schedule_trackers demo_env unscheduled_world).1
schedule_trackers-AllLinked_example =
    schedule_trackers-AllLinked demo_env unscheduled_world (tt, tt) unscheduled_linked

schedule_trackers-served_example :
    keep to_schedule (schedule_trackers demo_env unscheduled_world).1.trackers ≡ []
schedule_trackers-served_example =
    schedule_trackers-served demo_env unscheduled_world unscheduled_linked (
      unfold schedule_trackers get_trackers_to_schedule order_by for_each schedule_tracker
        create_trigger update_tracker_job update_where in
      refl)
