-- ===== src/Scheduler/ScheduleJob/Pending.antt =====
-- From the schedule job to the run job: the trigger job that a tracker is given makes the tracker
-- pending when it fires.
use retrack.Prelude.{
  ◌==◌, Bool-cases, Option-cases, any, find, suc, ◌≡◌, refl, inl, inr, Bool, true, not, ◌&&◌,
  Option, none, some, List, [], ◌∷◌, arith,
}
use retrack.Error.{Result, ok, err}
use retrack.Types.{Tracker, Uuid, SchedulerJobConfig}
use retrack.Env.{Env, NewJob}
use retrack.Db.{World, TrackerRow}
use retrack.Db.Trackers as Rows
use retrack.Db.Trackers.{has_id, update_where, set_job}
use retrack.Db.Jobs.{is_job, with_jobs, update_job, reset, reset_scheduler_job_state}
use retrack.Scheduler.Job.{trackers_trigger, metadata, RawSchedulerJobStoredData}
use retrack.Scheduler.Job
use retrack.Scheduler.Resume.Laws.{Adds, new_row}
use retrack.Scheduler.RunJob.{Joined, pending, job_of, join_job, is_stopped}
use retrack.Scheduler.ScheduleJob.{schedule_with, schedule_tracker, create_trigger}

abbrev pub is_of_tracker : Uuid → Joined → Bool
is_of_tracker id j = j.tracker.id == id

join-any :
    (id : Uuid) (t : Tracker) (o : Option RawSchedulerJobStoredData) (rest : List Joined)
    → any (is_of_tracker id) rest ≡ true
    → any (is_of_tracker id) (join_job t o rest) ≡ true
join-any id t none rest h = h
join-any id t (some j) rest h = ground arith

-- a row that refers to a stopped job is pending
pending-any :
    (id job : Uuid) (rows : List TrackerRow) (jobs : List RawSchedulerJobStoredData)
    {j : RawSchedulerJobStoredData}
    → any (λ r. has_id id r && Rows.has_job_id job r) rows ≡ true
    → find (is_job job) jobs ≡ some j
    → is_stopped j ≡ true
    → any (is_of_tracker id) (pending rows jobs) ≡ true
unfolding pending
pending-any id job [] jobs h f s = cc
pending-any id job (r ∷ rs) jobs {j} h f s =
    elim (Bool-cases (has_id id r && Rows.has_job_id job r)) [
      | inl e ↦ elim (Option-cases r.tracker.job_id) [
        | inl none_at ↦ absurd (ground arith)
        | inr (job', at) ↦
            let same : job' ≡ job = ground arith in rw (at, same, f, s) (ground arith)
      ]
      | inr e ↦
          join-any id r.tracker (job_of r.tracker.job_id jobs) (pending rs jobs)
            (pending-any id job rs jobs (ground arith) f s)
    ]

set_job-any :
    (id job : Uuid) (rows : List TrackerRow)
    → any (has_id id) rows ≡ true
    → any (λ r. has_id id r && Rows.has_job_id job r) (update_where (set_job (some job)) id rows)
      ≡ true
unfolding update_where
set_job-any id job [] h = cc
set_job-any id job (r ∷ rs) h = ground (arith, set_job-any id job rs)

-- what firing a job leaves
abbrev pub fired : Uuid → World → World
fired job w = (reset_scheduler_job_state job true w).1

fired_lem :
    (job : Uuid) (w : World) (j : RawSchedulerJobStoredData) (m : Job.SchedulerJobMetadata)
    → find (is_job job) w.scheduler_jobs ≡ some j
    → j.extra ≡ some (metadata m)
    → fired job w ≡ with_jobs (update_job (reset true m) job w.scheduler_jobs) w
unfolding reset_scheduler_job_state
fired_lem job w j m f x = rw (f, fired, x) refl

find-new_row :
    (job : Uuid) (made : NewJob) (rows : List RawSchedulerJobStoredData)
    → find (is_job job) (new_row job made ∷ rows) ≡ some (new_row job made)
find-new_row job made rows = ground arith

find-fired :
    (job : Uuid) (made : NewJob) (m : Job.SchedulerJobMetadata)
    (rows : List RawSchedulerJobStoredData)
    → find (is_job job) (update_job (reset true m) job (new_row job made ∷ rows))
      ≡ some (reset true m (new_row job made))
unfolding update_job
find-fired job made m rows = ground arith

fired-pending :
    (id job : Uuid) (made : NewJob) (rows : List RawSchedulerJobStoredData) (w : World)
    → any (λ r. has_id id r && Rows.has_job_id job r) w.trackers ≡ true
    → w.scheduler_jobs ≡ new_row job made ∷ rows
    → any (is_of_tracker id) (pending (fired job w).trackers (fired job w).scheduler_jobs) ≡ true
unfolding Job.new
fired-pending id job made rows w linked at =
    let m : Job.SchedulerJobMetadata = Job.new made.job_type in
    let same : fired job w ≡ with_jobs (update_job (reset true m) job w.scheduler_jobs) w =
      fired_lem job w (new_row job made) m (rw at (find-new_row job made rows)) refl in
    rw (same, at)
      (pending-any id job w.trackers (update_job (reset true m) job (new_row job made ∷ rows))
        linked (find-fired job made m rows) refl)

-- the rows of a tracker that refer to a job
abbrev pub refers : Uuid → Uuid → TrackerRow → Bool
refers id job r = has_id id r && Rows.has_job_id job r

-- the job that a tracker refers to makes it pending
abbrev pub IsPendingSoon : Uuid → World → Type 0
IsPendingSoon id w =
    (job : Uuid) × (any (refers id job) w.trackers ≡ true)
    × (any (is_of_tracker id) (pending (fired job w).trackers (fired job w).scheduler_jobs) ≡ true)

abbrev IfOk : Uuid → Result Unit → World → Type 0
IfOk id (err e) w = Unit
IfOk id (ok u) w = IsPendingSoon id w

module _ (env : Env) (adds : Adds env) where
  linked-pending :
      (id job : Uuid) (made : NewJob) (rows : List RawSchedulerJobStoredData) (w : World)
      → any (has_id id) w.trackers ≡ true
      → w.scheduler_jobs ≡ new_row job made ∷ rows
      → IfOk id
          (Rows.update_tracker_job id (some job) w).0
          (Rows.update_tracker_job id (some job) w).1
  unfolding Rows.update_tracker_job
  linked-pending id job made rows w there at =
      elim (Bool-cases
        (any (λ r. not (has_id id r) && Rows.same_job_id r.tracker.job_id (some job)) w.trackers)) [
          | inl e ↦ rw (there, e) tt
          | inr e ↦
              rw (there, e)
                (
                  job,
                  set_job-any id job w.trackers there,
                  fired-pending id job made rows
                      (Rows.with_trackers (update_where (set_job (some job)) id w.trackers) w)
                      (set_job-any id job w.trackers there) at,
                )
        ]

  schedule_with-pending :
      (t : Tracker) (config : SchedulerJobConfig) (w : World)
      → any (has_id t.id) w.trackers ≡ true
      → IfOk t.id (schedule_with env t (some config) w).0 (schedule_with env t (some config) w).1
  unfolding create_trigger
  schedule_with-pending t config w there = elim (Option-cases (env.parse_cron config.schedule)) [
    | inl bad ↦ rw bad tt
    | inr (cron, good) ↦
        let made : NewJob = record { pattern = cron.pattern; job_type = trackers_trigger } in
        elim (Option-cases (env.add_job w.moment made w.scheduler_jobs)) [
          | inl failed ↦ rw (good, failed) tt
          | inr ((job, jobs), added) ↦
              rw (good, added)
                (linked-pending t.id job made w.scheduler_jobs
                  (with_jobs jobs (record w { moment = suc w.moment })) there
                  (adds w.moment made job w.scheduler_jobs jobs added))
        ]
  ]

  if_ok : (id : Uuid) (r : Result Unit) (w : World) → IfOk id r w → r ≡ ok tt → IsPendingSoon id w
  if_ok id (ok u) w p e = p
  if_ok id (err x) w p e = cc

  -- Let `add` insert the row of a new job. When the schedule job has given a job to a tracker of the
  -- table that asks for one, there is a job to which the tracker's row refers, and when that job fires,
  -- the tracker is among those that the run job finds pending.
  pub schedule_tracker-pending :
      (t : Tracker) (config : SchedulerJobConfig) (w : World)
      → t.config.job ≡ some config
      → any (has_id t.id) w.trackers ≡ true
      → (schedule_tracker env t w).0 ≡ ok tt
      → IsPendingSoon t.id (schedule_tracker env t w).1
  unfolding schedule_tracker
  schedule_tracker-pending t config w asks there h =
      if_ok t.id (schedule_with env t t.config.job w).0 (schedule_with env t t.config.job w).1
        (rw asks (schedule_with-pending t config w there)) h
