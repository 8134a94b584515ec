-- ===== src/Scheduler/Resume/Steps.antt =====
-- What turns of the loop keep: the rows to come, the distinct ids, and the count of each type.
use retrack.Prelude.{
  if◌then◌else◌, Option-cases, Option, find, ℕ, ◌+◌, ◌≤◌, ◌≡◌, ◌≢◌, refl, ap, ◌∙◌, inl, inr, Bool,
  true, false, not, none, some, List, arith,
}
use retrack.Db.Jobs.{is_job}
use retrack.Db.Paging.Complete.{Distinct, keep-Distinct, after}
use retrack.Scheduler.Job.{
  SchedulerJob, trackers_trigger, trackers_schedule, trackers_run, tasks_run, same_job, is_unique,
  SchedulerJobMetadata, RawSchedulerJobStoredData, ResumedJob,
}
use retrack.Scheduler.Resume.{job_id, meta_of, contains, remember}
use retrack.Scheduler.Resume.Laws.{restored}
use retrack.Scheduler.Resume.Turns.{TakesOver, Turn, dropped, taken}
use retrack.Scheduler.Resume.JobRows.{
  Jobs, is_of, tally, tally_dropped, tally_updated, later_dropped, later_updated, updated-Distinct,
  find_updated, find_kept,
}

-- how many jobs of a type are remembered
abbrev pub seen : SchedulerJob → List SchedulerJob → ℕ
seen t unique = if contains t unique then 1 else 0

abbrev one_of : SchedulerJob → RawSchedulerJobStoredData → ℕ
one_of t raw = if is_of t raw then 1 else 0

seen_remembered :
    (t u : SchedulerJob) (unique : List SchedulerJob)
    → is_unique t ≡ true
    → contains u unique ≡ false
    → seen t (remember u unique) ≡ (if same_job t u then 1 else 0) + seen t unique
unfolding is_unique
seen_remembered trackers_trigger u unique h f = cc
seen_remembered trackers_schedule trackers_trigger unique h f = ground arith
seen_remembered trackers_schedule trackers_schedule unique h f = ground arith
seen_remembered trackers_schedule trackers_run unique h f = ground arith
seen_remembered trackers_schedule tasks_run unique h f = ground arith
seen_remembered trackers_run trackers_trigger unique h f = ground arith
seen_remembered trackers_run trackers_schedule unique h f = ground arith
seen_remembered trackers_run trackers_run unique h f = ground arith
seen_remembered trackers_run tasks_run unique h f = ground arith
seen_remembered tasks_run trackers_trigger unique h f = ground arith
seen_remembered tasks_run trackers_schedule unique h f = ground arith
seen_remembered tasks_run trackers_run unique h f = ground arith
seen_remembered tasks_run tasks_run unique h f = ground arith

abbrev is_of_meta : SchedulerJob → Option SchedulerJobMetadata → Bool
is_of_meta t o = elim o [ none ↦ false | some m ↦ same_job t m.job_type ]

is_of_known :
    (t : SchedulerJob) (raw : RawSchedulerJobStoredData) (m : SchedulerJobMetadata)
    → meta_of raw ≡ some m
    → is_of t raw ≡ same_job t m.job_type
unfolding is_of
is_of_known t raw m read = ap (is_of_meta t) read

restored_meta :
    (raw : RawSchedulerJobStoredData) (job : ResumedJob)
    → TakesOver raw (some job)
    → meta_of (restored job raw) ≡ meta_of raw
unfolding meta_of
restored_meta raw job k = elim (Option-cases raw.extra) [
  | inl e ↦ rw (k.1, e) refl
  | inr (x, e) ↦ rw (k.1, e) refl
]

restored_type :
    (t : SchedulerJob) (raw : RawSchedulerJobStoredData) (job : ResumedJob)
    → TakesOver raw (some job)
    → is_of t (restored job raw) ≡ is_of t raw
unfolding is_of
restored_type t raw job k = ap (is_of_meta t) (restored_meta raw job k)

module _ {unique : List SchedulerJob} {raw : RawSchedulerJobStoredData} {rows : Jobs} where
  pub Turn-later :
      {next : List SchedulerJob} {rows' : Jobs} (k : ℕ)
      → Turn unique raw rows next rows'
      → raw.id ≤ k
      → after job_id k rows' ≡ after job_id k rows
  Turn-later k dropped h = later_dropped raw.id k rows h
  Turn-later k (taken m job read first t) h =
      later_updated raw.id (restored job) (λ j. refl) k rows h

  pub Turn-Distinct :
      {next : List SchedulerJob} {rows' : Jobs}
      → Turn unique raw rows next rows'
      → Distinct job_id rows
      → Distinct job_id rows'
  Turn-Distinct dropped d = keep-Distinct job_id (λ j. not (is_job raw.id j)) rows d
  Turn-Distinct (taken m job read first t) d =
      updated-Distinct raw.id (restored job) (λ j. refl) rows d

  pub Turn-find :
      {next : List SchedulerJob} {rows' : Jobs}
      → Turn unique raw rows next rows'
      → (other : RawSchedulerJobStoredData) → other.id ≢ raw.id
      → find (is_job other.id) rows ≡ some other
      → find (is_job other.id) rows' ≡ some other
  Turn-find dropped other n h = find_kept raw.id other.id rows n ∙ h
  Turn-find (taken m job read first t) other n h =
      find_updated raw.id (restored job) (λ j. refl) other.id rows n ∙ h

  pub Turn-tally :
      {next : List SchedulerJob} {rows' : Jobs} (t : SchedulerJob)
      → Turn unique raw rows next rows'
      → is_unique t ≡ true
      → Distinct job_id rows
      → find (is_job raw.id) rows ≡ some raw
      → tally t rows' + seen t unique + one_of t raw ≡ tally t rows + seen t next
  Turn-tally t dropped u d h = omega (arith, tally_dropped raw.id t rows raw d h)
  Turn-tally t (taken m job read first k) u d h =
      let same : is_of t (restored job raw) ≡ is_of t raw = restored_type t raw job k in
      let typed : is_of t raw ≡ same_job t m.job_type = is_of_known t raw m read in
      rw typed (
        omega (
          arith,
          tally_updated raw.id t (restored job) rows raw d h same,
          seen_remembered t m.job_type unique u first,
        ))
