-- ===== src/Examples/Scripts.antt =====
-- The theorems on the execution of scripts at a concrete interleaving, and tests.
use retrack.Prelude.{◌≤◌, ◌≡◌, refl, true, false, none, some, arith}
use retrack.Scheduler.RetryStrategy.{secs}
use retrack.JsRuntime.{sleep_time, code, from, is_running, context_of, time_limit}
use retrack.JsRuntime.Execution.{
  Execution, failure, answered, Watcher, execute_fail, load, handle_other, load_running, time_out,
  store, terminate, begin, Run, resolved_value, sleeping, time_left, promise, resolve, complete,
  read, wake, load_other, here, later, run, watch, spawn, tick,
}
use retrack.JsRuntime.Answers.{IsFair, answered-IsFair}
use retrack.JsRuntime.Watch.{watcher_stops}

slept :
    (sleep_time (secs 10) (secs 3) ≡ some (secs 2))
    × (sleep_time (secs 10) (secs 9) ≡ some (secs 1))
    × (sleep_time (secs 10) (secs 11) ≡ none)
unfolding sleep_time
slept = (refl, refl, refl)

-- the time runs out after two seconds, the script is terminated and fails
abbrev late : Execution
late = record {
  shared = record { script_status = 2; terminated = true; memory_reached = false; elapsed = 3 };
  runtime = answered true (failure (some time_limit));
  watcher = Watcher.returned;
}

timed_out : Run 2 begin 4 late
unfolding from code is_running context_of sleep_time
timed_out =
    later
      (later
        (later
          (later
            (later
              (later
                (later
                  (later (later (here refl) (spawn refl refl) refl) (watch (load_running refl))
                    refl)
                  (tick 3 refl) refl)
                (watch (time_out refl)) refl)
              (watch store) refl)
            (watch terminate) refl)
          (run execute_fail) refl)
        (run load) refl)
      (run (handle_other refl)) refl

answered-IsFair_example : IsFair 2 late.shared true (failure (some time_limit))
answered-IsFair_example = answered-IsFair 2 true (failure (some time_limit)) timed_out refl

-- the script is answered in time, while the watching thread sleeps
abbrev in_time : Execution
in_time = record {
  shared = record { script_status = 3; terminated = false; memory_reached = false; elapsed = 0 };
  runtime = answered false resolved_value;
  watcher = sleeping 9;
}

answered_in_time : Run 9 begin 2 in_time
unfolding from code is_running sleep_time
answered_in_time =
    later
      (later
        (later
          (later
            (later
              (later (later (here refl) (spawn refl refl) refl) (watch (load_running refl)) refl)
              (watch (time_left refl)) refl)
            (run promise) refl)
          (run resolve) refl)
        (run complete) refl)
      (run read) refl

-- it wakes once more
abbrev woken : Execution
woken = record in_time {
  shared = record in_time.shared { elapsed = 10 };
  watcher = Watcher.returned;
}

wakes_and_returns : Run 9 in_time 2 woken
unfolding from is_running
wakes_and_returns =
    later (later (later (here refl) (tick 10 refl) refl) (watch (wake (omega arith))) refl)
      (watch (load_other refl)) refl

watcher_stops_example : ◌≤◌ 2 3
watcher_stops_example = watcher_stops 9 answered_in_time refl wakes_and_returns
