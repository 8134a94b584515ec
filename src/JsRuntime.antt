-- ===== src/JsRuntime.antt =====
-- src/js_runtime/script_execution_status.rs, and what the runtime thread and the thread that watches
-- the time decide in src/js_runtime.rs.
pub mod Execution
pub mod Answers
pub mod Watch
use retrack.Prelude.{
  ltb, ◌==◌, ◌≡◌, refl, if◌then◌else◌, ℕ, ◌-◌, min, Bool, true, false, Option, none, some,
}
use retrack.Scheduler.RetryStrategy.{Duration, secs}

pub data ScriptExecutionStatus : Type 0 where
  running reached_memory_limit reached_time_limit execution_completed : ScriptExecutionStatus

-- `as usize`
unfoldable pub code : ScriptExecutionStatus → ℕ
code running = 0
code reached_memory_limit = 1
code reached_time_limit = 2
code execution_completed = 3

-- From<usize>
unfoldable pub from : ℕ → ScriptExecutionStatus
from n =
    if n == 1
    then reached_memory_limit
    else if n == 2
    then reached_time_limit
    else if n == 3
    then execution_completed
    else running

-- SCRIPT_TIMEOUT_CHECK_INTERVAL
abbrev pub timeout_check_interval : Duration
timeout_check_interval = secs 2

-- How long the watching thread sleeps after `elapsed`; `none` where the time is out. `checked_sub`
-- fails below zero.
unfoldable pub sleep_time : Duration → Duration → Option Duration
sleep_time max_execution_time elapsed =
    if ltb max_execution_time elapsed
    then none
    else some (min (max_execution_time - elapsed) timeout_check_interval)

pub data Limit : Type 0 where
  memory_limit time_limit : Limit

-- The context that `handle_error` adds to an error.
unfoldable pub context_of : ScriptExecutionStatus → Option Limit
context_of reached_memory_limit = some memory_limit
context_of reached_time_limit = some time_limit
context_of running = none
context_of execution_completed = none

-- whether `handle_error` marks the script as completed
unfoldable pub is_running : ScriptExecutionStatus → Bool
is_running running = true
is_running _ = false

-- What was stored as a status is read as that status.
pub from-code : (s : ScriptExecutionStatus) → from (code s) ≡ s
unfolding from code
from-code running = refl
from-code reached_memory_limit = refl
from-code reached_time_limit = refl
from-code execution_completed = refl
