-- ===== src/JsRuntime/Execution.antt =====
-- src/js_runtime.rs: one execution of a script, `execute_script_internal`, a shared access at a time.
-- Two threads share the status: the runtime thread, on which the heap callback runs too, and the
-- thread that watches the time. What the engine does with the script is left open: it may call back,
-- fail or succeed at any time, terminated or not.
use retrack.Prelude.{ℕ, ◌+◌, ◌≤◌, ◌≡◌, Bool, true, false, Option, none, some}
use retrack.Scheduler.RetryStrategy.{Duration}
use retrack.JsRuntime.{
  ScriptExecutionStatus, running, reached_memory_limit, reached_time_limit, execution_completed,
  code, from, is_running, context_of, sleep_time, Limit,
}

-- `memory_reached` is history: the heap callback has run. `elapsed` is the time since the watching
-- thread has started.
pub record Shared : Type 0 where
  pub script_status : ℕ
  pub terminated : Bool
  pub memory_reached : Bool
  pub elapsed : Duration

-- `set_script_args`; `execute_script`; `with_event_loop_promise`; `from_v8`
pub data Phase : Type 0 where
  preparing executing awaiting reading : Phase

pub data Answer : Type 0 where
  bad_args : Answer
  failure : Option Limit → Answer
  resolved_value : Answer
  bad_result : Answer

-- Where the runtime thread stands. A Boolean is history: whether the script was terminated when it
-- failed.
pub data Runtime : Type 0 where
  at : Phase → Runtime
  near_limit : Phase → Runtime
  failed : Bool → Runtime
  handling : Bool → ScriptExecutionStatus → Runtime
  resolved : Runtime
  answered : Bool → Answer → Runtime

-- Where the watching thread stands.
pub data Watcher : Type 0 where
  unborn checking passed expired terminating returned : Watcher
  sleeping : (until : Duration) → Watcher

pub data RuntimeMove (m : Shared) : Runtime → Shared → Runtime → Type 0 where
  -- the heap callback: terminate, then store
  callback : {p : Phase} → RuntimeMove m (at p) (record m { terminated = true }) (near_limit p)
  callback_store :
      {p : Phase}
      → RuntimeMove m
          (near_limit p)
          (record m { script_status = code reached_memory_limit; memory_reached = true })
          (at p)
  args_fail : RuntimeMove m (at preparing) m (answered m.terminated bad_args)
  -- the promise, or an error, of `execute_script`
  promise : RuntimeMove m (at executing) m (at awaiting)
  execute_fail : RuntimeMove m (at executing) m (failed m.terminated)
  -- the value, or an error, of the promise
  resolve : RuntimeMove m (at awaiting) m resolved
  await_fail : RuntimeMove m (at awaiting) m (failed m.terminated)
  complete :
      RuntimeMove m resolved (record m { script_status = code execution_completed }) (at reading)
  -- the result is deserialized
  read : RuntimeMove m (at reading) m (answered false resolved_value)
  read_fail : RuntimeMove m (at reading) m (answered m.terminated bad_result)
  -- handle_error
  load : {b : Bool} → RuntimeMove m (failed b) m (handling b (from m.script_status))
  handle_running :
      {b : Bool} {s : ScriptExecutionStatus}
      → is_running s ≡ true
      → RuntimeMove m
          (handling b s)
          (record m { script_status = code execution_completed })
          (answered b (failure (context_of s)))
  handle_other :
      {b : Bool} {s : ScriptExecutionStatus}
      → is_running s ≡ false
      → RuntimeMove m (handling b s) m (answered b (failure (context_of s)))

pub data WatcherMove (max_execution_time : Duration) (m : Shared)
    : Watcher → Shared → Watcher → Type 0 where
  load_running :
      is_running (from m.script_status) ≡ true → WatcherMove max_execution_time m checking m passed
  load_other :
      is_running (from m.script_status) ≡ false
      → WatcherMove max_execution_time m checking m returned
  time_out :
      sleep_time max_execution_time m.elapsed ≡ none
      → WatcherMove max_execution_time m passed m expired
  time_left :
      {d : Duration}
      → sleep_time max_execution_time m.elapsed ≡ some d
      → WatcherMove max_execution_time m passed m (sleeping (m.elapsed + d))
  store :
      WatcherMove max_execution_time m expired
        (record m { script_status = code reached_time_limit })
        terminating
  terminate : WatcherMove max_execution_time m terminating (record m { terminated = true }) returned
  wake :
      {until : Duration}
      → until ≤ m.elapsed
      → WatcherMove max_execution_time m (sleeping until) m checking

pub record Execution : Type 0 where
  pub shared : Shared
  pub runtime : Runtime
  pub watcher : Watcher

abbrev pub begin : Execution
begin = record {
  shared = record {
    script_status = code running;
    terminated = false;
    memory_reached = false;
    elapsed = 0;
  };
  runtime = at preparing;
  watcher = unborn;
}

abbrev pub is_born : Watcher → Bool
is_born unborn = false
is_born _ = true

pub data Step (max_execution_time : Duration) (e : Execution) : Execution → Type 0 where
  run :
      {m : Shared} {r : Runtime}
      → RuntimeMove e.shared e.runtime m r
      → Step max_execution_time e (record e { shared = m; runtime = r })
  watch :
      {m : Shared} {t : Watcher}
      → WatcherMove max_execution_time e.shared e.watcher m t
      → Step max_execution_time e (record e { shared = m; watcher = t })
  -- `std::thread::spawn` behind the arguments
  spawn :
      e.watcher ≡ unborn
      → e.runtime ≡ at preparing
      → Step max_execution_time e (record e { runtime = at executing; watcher = checking })
  -- time passes for the watching thread
  tick :
      (d : Duration)
      → is_born e.watcher ≡ true
      → Step max_execution_time e
          (record e { shared = record e.shared { elapsed = e.shared.elapsed + d } })

-- whether the step is one of the watching thread
abbrev pub watched :
    {max_execution_time : Duration} {e f : Execution} → Step max_execution_time e f → ℕ
watched (run mv) = 0
watched (watch mv) = 1
watched (spawn u h) = 0
watched (tick d b) = 0

-- The executions reached from `e`, with the count of the moves of the watching thread.
pub data Run (max_execution_time : Duration) (e : Execution) : ℕ → Execution → Type 0 where
  here : {n : ℕ} → n ≡ 0 → Run max_execution_time e n e
  later :
      {n k : ℕ} {f g : Execution}
      → Run max_execution_time e n f
      → (step : Step max_execution_time f g) → k ≡ n + watched step
      → Run max_execution_time e k g
