-- ===== src/Lib.antt =====
-- Retrack: a service that checks web pages and APIs for changes on a schedule, stores revisions of
-- what it found, and notifies by email and webhooks.
--
-- The parts and how they interact. Clients create and change trackers through the trackers API
-- (src/trackers/api_ext.rs), which validates them and writes the table `trackers`
-- (src/trackers/database_ext.rs). The schedule job gives a trigger job to each tracker that needs one;
-- when the trigger fires, its row in `scheduler_jobs` is marked as stopped, which means pending; the run
-- job checks the trackers of the pending jobs, stores a new revision in `trackers_data` if the data has
-- changed, runs the tracker's actions, which put tasks into the table `tasks`, and un-stops the job, or
-- plans a retry of a failed check.
--
-- Which file models which part:
--   Prelude, Error, Exec   shared notation and lemmas; src/error.rs; the monad of fallible methods
--   Types, Tasks/Task      components/retrack-types/src/trackers, src/tasks
--   Env                    configuration, and the parameters that stand for other packages
--   Db                     the migration, and the state `World` of all tables; Db/Trackers and
--                          Db/Revisions: src/trackers/database_ext.rs; Db/Jobs:
--                          src/scheduler/database_ext.rs; Db/Paging: the paging of the streams;
--                          Db/RawTracker, Db/RawRevision: the rows as they are encoded
--                          (src/trackers/database_ext)
--   JsRuntime              src/js_runtime.rs: what is decided there; JsRuntime/Execution: the threads of
--                          one execution, a shared access at a time
--   Network                src/network.rs; Network/IpAddrExt: src/network/ip_addr_ext.rs
--   Scheduler              RetryStrategy: components/retrack-types/src/scheduler; Job, Cron, Retry:
--                          src/scheduler; RunJob, ScheduleJob, UniqueJobs:
--                          src/scheduler/scheduler_jobs; Resume: src/scheduler.rs, the start
--   Tasks                  Api, Run: scheduling and executing tasks in src/tasks; Template:
--                          src/tasks/email_task_type
--   Trackers               Tags, Validation, Api, Actions, Fetch, Revise, History:
--                          src/trackers/api_ext.rs; Diff: src/trackers/tracker_data_revisions_diff.rs;
--                          Parsers: src/trackers/parsers
--   Server                 src/server: the requests that the handlers answer; Server/Refines: the
--                          operations that they ask for; Server/Resources and Server/Removal: what is
--                          answered behind a request that writes
--   System                 the operations of the API and of the jobs, one after another, as steps
--   Examples               tests, and the theorems at concrete inputs
-- A method is a function of its source's name into `Exec World`: it returns a result or an error, and
-- the tables that it leaves, also behind an error, since no method opens a transaction.
--
-- State and environment. What the program asks of the clock, the network, other packages and new UUIDs
-- is a field of `Env`, a function of the moment of the question where the answer may change. Durations
-- and times are numbers of nanoseconds; `interval` has the overflow checks of `u32` and `Duration`.
-- The column `config` holds the values that its bytes decode to.
--
-- Loops. Loops over collections are recursions on lists. The streams that page through a table take
-- fuel: one round more than the table has rows is enough. So it is for `run_pages`, which reads each
-- page behind the work on the last one and ends with an error where its fuel runs out. The execution of
-- tasks, which pages through the table that it changes, ends with more rounds of fuel than the table
-- has tasks; so does the loop that resumes the stored jobs, with more rounds than there are jobs.
--
-- Threads. The two threads of a script's execution are a step relation over the shared status, one
-- access at a time, so that a run is any interleaving of them. What the engine does in between is open:
-- the heap callback may run while the arguments are written, the script runs or its result is read.
--
-- Other packages. Of the job library the theorems on the start of the scheduler ask that `remove` deletes
-- the row of an id and that `add` writes or inserts a row; the laws are hypotheses (Scheduler/Resume/Laws),
-- and an environment of the examples meets them.
--
-- Not modelled: queries that fail for want of a connection, methods of the API and jobs that run at
-- the same time, the parsing of HTTP requests, the JavaScript engine and the queue of its scripts,
-- the rendering of HTML, the texts of errors and logs, and the order of rows that compare equal.
-- The queries work on trackers, revisions and tasks as they are decoded; a row that cannot be
-- decoded is not modelled there.
mod Prelude
pub mod Error
pub mod Exec
pub mod Types
pub mod Tasks
pub mod Scheduler
pub mod Env
pub mod Db
pub mod Network
pub mod JsRuntime
pub mod Trackers
pub mod Server
pub mod System
mod Examples
