-- ===== src/Scheduler/Resume/Unreadable.antt =====
-- A stored job whose metadata cannot be read, and the trackers that refer to it.
use retrack.Prelude.{
  ◌==◌, Bool-cases, Option-cases, find, keep, All, ℕ, ◌≡◌, refl, subst, inl, inr, ◌⊎◌, Bool, true,
  false, not, none, some, List, [], ◌∷◌, arith,
}
use retrack.Error.{ok}
use retrack.Types.{Tracker, Uuid}
use retrack.Env.{Env}
use retrack.Db.{World, TrackerRow}
use retrack.Db.Trackers as Trackers
use retrack.Db.Trackers.{has_job_id, to_schedule}
use retrack.Db.Jobs.{is_job, with_jobs}
use retrack.Scheduler.Job.{SchedulerJob, RawSchedulerJobStoredData}
use retrack.Scheduler.RunJob.{Joined, pending, job_of, join_job, is_stopped}
use retrack.Scheduler.Resume.{meta_of, resume_one}
use retrack.Scheduler.Resume.Laws.{Removes}

abbrev Jobs : Type 0
Jobs = List RawSchedulerJobStoredData

abbrev pub refers_to : Uuid → Tracker → Bool
refers_to id t = Trackers.same_job_id t.job_id (some id)

find_removed :
    (id : Uuid) (jobs : Jobs) → find (is_job id) (keep (λ j. not (is_job id j)) jobs) ≡ none
find_removed id [] = refl
find_removed id (j ∷ js) = ground (arith, find_removed id js)

-- a tracker with a job is passed over by the schedule job
abbrev NotScheduled : Uuid → TrackerRow → Type 0
NotScheduled id r = refers_to id r.tracker ≡ true → to_schedule r ≡ false

all_not_scheduled : (id : Uuid) (rows : List TrackerRow) → All (NotScheduled id) rows
all_not_scheduled id [] = tt
all_not_scheduled id (r ∷ rs) = ((λ e. ground arith), all_not_scheduled id rs)

other_job :
    (job id : Uuid) (jobs : Jobs) {j : RawSchedulerJobStoredData}
    → find (is_job job) jobs ≡ some j
    → find (is_job id) jobs ≡ none
    → (job == id) ≡ false
other_job job id jobs {j} found gone = elim (Bool-cases (job == id)) [
  | inr e ↦ e
  | inl e ↦
      let same : job ≡ id = ground arith in
      cc (subst (λ (x : ℕ). find (is_job x) jobs ≡ some j) same found, gone)
]

-- and without the job's row it is not pending
abbrev NotReferring : Uuid → Joined → Type 0
NotReferring id j = refers_to id j.tracker ≡ false

pending-NotReferring :
    (id : Uuid) (rows : List TrackerRow) (jobs : Jobs)
    → find (is_job id) jobs ≡ none
    → All (NotReferring id) (pending rows jobs)
unfolding pending
pending-NotReferring id [] jobs gone = tt
pending-NotReferring id (r ∷ rs) jobs gone =
    joined (Option-cases r.tracker.job_id) (pending-NotReferring id rs jobs gone)
  where
    joined :
        (r.tracker.job_id ≡ none) ⊎ ((a : Uuid) × (r.tracker.job_id ≡ some a))
        → All (NotReferring id) (pending rs jobs)
        → All
            (NotReferring id)
            (join_job r.tracker (job_of r.tracker.job_id jobs) (pending rs jobs))
    joined (inl e) h = rw e h
    joined (inr (job, e)) h = elim (Option-cases (find (is_job job) jobs)) [
      | inl none_found ↦ rw (e, none_found) h
      | inr (j, found) ↦ elim (Bool-cases (is_stopped j)) [
        | inr s ↦ rw (e, found, s) h
        | inl s ↦ rw (e, found, s) (other_job job id jobs found gone, h)
      ]
    ]

-- The trackers that refer to a job that is lost are lost with it.
pub record IsLost (id : Uuid) (before : World) (behind : World) : Type 0 where
  pub removed : behind.scheduler_jobs ≡ keep (λ j. not (is_job id j)) before.scheduler_jobs
  pub untouched : behind.trackers ≡ before.trackers
  pub unscheduled : All (NotScheduled id) behind.trackers
  pub unchecked : All (NotReferring id) (pending behind.trackers behind.scheduler_jobs)

module _ (env : Env) (removes : Removes env) where
  removed-IsLost :
      (raw : RawSchedulerJobStoredData) (w : World) (rows : Jobs)
      → rows ≡ keep (λ j. not (is_job raw.id j)) w.scheduler_jobs
      → IsLost raw.id w (with_jobs rows w)
  removed-IsLost raw w rows e = record {
    removed = e;
    untouched = refl;
    unscheduled = all_not_scheduled raw.id w.trackers;
    unchecked =
        pending-NotReferring raw.id w.trackers rows (rw e (find_removed raw.id w.scheduler_jobs));
  }

  -- Let `remove` delete the row of an id. A stored job whose metadata cannot be read is removed when
  -- the jobs are resumed, and no tracker is written: the trackers that refer to the job keep its id, so
  -- that the schedule job passes them over, and they are not among those that the run job finds pending.
  pub resume_one-IsLost :
      (unique next : List SchedulerJob) (raw : RawSchedulerJobStoredData) (w : World)
      → meta_of raw ≡ none
      → (resume_one env unique raw w).0 ≡ ok next
      → IsLost raw.id w (resume_one env unique raw w).1
  unfolding resume_one
  resume_one-IsLost unique next raw w unread =
      elim (Option-cases (env.remove_job raw.id w.scheduler_jobs)) [
        | inl bad ↦ rw (unread, bad) (λ h. cc)
        | inr (rows, good) ↦
            rw (unread, good)
              (λ h. removed-IsLost raw w rows (removes raw.id w.scheduler_jobs rows good))
      ]
