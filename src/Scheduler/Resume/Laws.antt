-- ===== src/Scheduler/Resume/Laws.antt =====
-- What the scheduler relies on of the job library: which rows of `scheduler_jobs` are there behind a
-- call of `add` or `remove`. The order of the rows means nothing; a new row stands first.
use retrack.Prelude.{ℕ, ◌≡◌, true, false, not, any, keep, none, some, List, ◌∷◌}
use retrack.Types.{Uuid}
use retrack.Env.{Env, NewJob}
use retrack.Db.Jobs.{is_job, update_job}
use retrack.Scheduler.Job.{RawSchedulerJobStoredData, ResumedJob, metadata}

-- `remove` deletes the row of the id.
abbrev pub Removes : Env → Type 0
Removes env =
    (id : Uuid) (rows rows' : List RawSchedulerJobStoredData)
    → env.remove_job id rows ≡ some rows'
    → rows' ≡ keep (λ j. not (is_job id j)) rows

abbrev pub restored : ResumedJob → RawSchedulerJobStoredData → RawSchedulerJobStoredData
restored job j = record j {
  stopped = some job.stopped;
  schedule = some job.pattern;
  extra = some job.extra;
}

-- `add` of a job whose id has a row writes that row.
abbrev pub Restores : Env → Type 0
Restores env =
    (m : ℕ) (job : ResumedJob) (rows rows' : List RawSchedulerJobStoredData)
    → any (is_job job.id) rows ≡ true
    → env.resume_job m job rows ≡ some rows'
    → rows' ≡ update_job (restored job) job.id rows

abbrev pub new_row : Uuid → NewJob → RawSchedulerJobStoredData
new_row id job = record {
  id = id;
  stopped = some false;
  schedule = some job.pattern;
  extra = some (metadata (record { job_type = job.job_type; retry = none }));
}

-- `add` of a new job inserts a row.
abbrev pub Adds : Env → Type 0
Adds env =
    (m : ℕ) (job : NewJob) (id : Uuid) (rows rows' : List RawSchedulerJobStoredData)
    → env.add_job m job rows ≡ some (id, rows')
    → rows' ≡ new_row id job ∷ rows
