-- ===== src/Db/Jobs.antt =====
-- src/scheduler/database_ext.rs: the queries on `scheduler_jobs`.
use retrack.Prelude.{
  ◌==◌, if◌then◌else◌, any, find, and_then, ℕ, Bool, Option, none, some, List, [], ◌∷◌,
}
use retrack.Error.{Result, ok, err, unknown, job_gone, bad_metadata}
use retrack.Exec.{◌>>=◌, Exec, pure, bail, modify}
use retrack.Types.{Uuid}
use retrack.Scheduler.Job.{
  RawSchedulerJobStoredData, SchedulerJobMetadata, Extra, metadata, undecodable,
}
use retrack.Scheduler.Job
use retrack.Db.Paging.{stream}
use retrack.Db.{World}

abbrev pub is_job : Uuid → RawSchedulerJobStoredData → Bool
is_job id j = j.id == id

abbrev pub with_jobs : List RawSchedulerJobStoredData → World → World
with_jobs rows w = record w { tables = record w.tables { scheduler_jobs = rows } }

-- `SchedulerJobMetadata::try_from` on the bytes of `extra`
abbrev pub decode : Option Extra → Result (Option SchedulerJobMetadata)
decode none = ok none
decode (some (metadata m)) = ok (some m)
decode (some undecodable) = err (unknown bad_metadata)

unfoldable pub get_scheduler_job_meta : Uuid → Exec World (Option SchedulerJobMetadata)
get_scheduler_job_meta id w =
    (decode (and_then (find (is_job id) w.scheduler_jobs) (λ j. j.extra)), w)

-- `UPDATE scheduler_jobs SET … WHERE id = $1`
unfoldable pub update_job :
    (RawSchedulerJobStoredData → RawSchedulerJobStoredData)
    → Uuid
    → List RawSchedulerJobStoredData
    → List RawSchedulerJobStoredData
update_job f id [] = []
update_job f id (j ∷ js) = (if is_job id j then f j else j) ∷ update_job f id js

unfoldable pub update_scheduler_job_meta : Uuid → SchedulerJobMetadata → Exec World (Unit)
unfolding update_job
update_scheduler_job_meta id meta w =
    if any (is_job id) w.scheduler_jobs
    then (
      ok tt,
      with_jobs (update_job (λ j. record j { extra = some (metadata meta) }) id w.scheduler_jobs) w,
    )
    else (err (unknown job_gone), w)

abbrev pub or_gone : {A : Type 0} → Option A → Exec World A
or_gone none = bail (unknown job_gone)
or_gone (some a) = pure a

-- the row of a job whose state is reset: no retry is pending
abbrev pub reset :
    Bool → SchedulerJobMetadata → RawSchedulerJobStoredData → RawSchedulerJobStoredData
reset stopped m j = record j {
  stopped = some stopped;
  extra = some (metadata (Job.new m.job_type));
}

unfoldable pub reset_scheduler_job_state : Uuid → Bool → Exec World (Unit)
unfolding get_scheduler_job_meta update_job
reset_scheduler_job_state id stopped = do
  found ← get_scheduler_job_meta id
  m ← or_gone found
  modify λ w. with_jobs (update_job (reset stopped m) id w.scheduler_jobs) w

-- Database::get_scheduler_jobs, over a table that does not change meanwhile
unfoldable pub get_scheduler_jobs : ℕ → ℕ → World → Option (List RawSchedulerJobStoredData)
unfolding stream
get_scheduler_jobs fuel page_size w = stream (λ j. j.id) fuel page_size w.scheduler_jobs 0
