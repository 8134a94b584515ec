-- ===== src/Scheduler/Resume/Turns.antt =====
-- What one turn of the loop that resumes the stored jobs does to their rows.
use retrack.Prelude.{
  Bool-cases, Option-cases, map_option, find, String, any, keep, unwrap_or, ◌≡◌, refl, sym, subst,
  ◌∙◌, ap, inl, inr, true, false, not, Option, none, some, List, arith,
}
use retrack.Error.{Result, ok, err, Result-cases}
use retrack.Exec.{◌>>=◌, ◌>>◌, pure, continue}
use retrack.Types.{Uuid, Tracker, SchedulerJobConfig}
use retrack.Env.{Env, NewJob}
use retrack.Db.{World}
use retrack.Db.Trackers as Rows
use retrack.Db.Jobs.{is_job, update_job}
use retrack.Scheduler.Job.{
  SchedulerJob, trackers_trigger, trackers_schedule, trackers_run, tasks_run, undecodable,
  ResumedJob, SchedulerJobMetadata, RawSchedulerJobStoredData,
}
use retrack.Scheduler.ScheduleJob.{create_trigger}
use retrack.Scheduler.UniqueJobs.{
  new_job, resumed_as, are_schedules_equal, try_resume_tasks_run, try_resume_trackers_run,
  try_resume_trackers_schedule,
}
use retrack.Scheduler.RunJob.{remove_job}
use retrack.Scheduler.Resume.{
  settle_job, meta_of, contains, remember, resume_one, try_resume, give_up, kept_or_given_up,
  try_resume_trackers_trigger, resume_found, resume_configured,
}
use retrack.Scheduler.Resume.Laws.{Removes, Restores, restored}

-- A job that is to take over a row has the row's id and its metadata.
abbrev pub TakesOver : RawSchedulerJobStoredData → Option ResumedJob → Type 0
TakesOver raw none = Unit
TakesOver raw (some job) = (job.id ≡ raw.id) × (job.extra ≡ unwrap_or raw.extra undecodable)

abbrev Fits : RawSchedulerJobStoredData → Result (Option ResumedJob) → Type 0
Fits raw (ok job) = TakesOver raw job
Fits raw (err e) = Unit

-- An attempt leaves the jobs as they are.
abbrev IsAttempt : RawSchedulerJobStoredData → World → Result (Option ResumedJob) × World → Type 0
IsAttempt raw w answer = (answer.1.scheduler_jobs ≡ w.scheduler_jobs) × Fits raw answer.0

resumed_as-TakesOver :
    (raw : RawSchedulerJobStoredData) (job : NewJob) → TakesOver raw (resumed_as raw job)
unfolding resumed_as
resumed_as-TakesOver raw job = elim (Bool-cases (are_schedules_equal job raw)) [
  | inl e ↦ rw e (refl, refl)
  | inr e ↦ rw e tt
]

module _ (env : Env) (raw : RawSchedulerJobStoredData) where
  update_job-jobs :
      (id : Uuid) (w : World)
      → (Rows.update_tracker_job id none w).1.scheduler_jobs ≡ w.scheduler_jobs
  unfolding Rows.update_tracker_job
  update_job-jobs id w = ground arith

  give_up-IsAttempt : (id : Uuid) (w : World) → IsAttempt raw w (give_up env id w)
  give_up-IsAttempt id w = elim (Result-cases (Rows.update_tracker_job id none w).0) [
    | inl (u, e) ↦ rw e (update_job-jobs id w, tt)
    | inr (x, e) ↦ rw e (update_job-jobs id w, tt)
  ]

  kept_or_given_up-IsAttempt :
      (id : Uuid) (job : Option ResumedJob) (w : World)
      → TakesOver raw job
      → IsAttempt raw w (kept_or_given_up env id job w)
  kept_or_given_up-IsAttempt id none w t = give_up-IsAttempt id w
  kept_or_given_up-IsAttempt id (some job) w t = (refl, t)

  resume_configured-IsAttempt :
      (id : Uuid) (config : Option SchedulerJobConfig) (w : World)
      → IsAttempt raw w (resume_configured env raw id config w)
  unfolding create_trigger
  resume_configured-IsAttempt id none w = give_up-IsAttempt id w
  resume_configured-IsAttempt id (some config) w =
      elim (Option-cases (env.parse_cron config.schedule)) [
        | inl bad ↦ rw bad (refl, tt)
        | inr (cron, good) ↦
            let job : NewJob = record { pattern = cron.pattern; job_type = trackers_trigger } in
            rw good
              (kept_or_given_up-IsAttempt id (resumed_as raw job) w (resumed_as-TakesOver raw job))
      ]

  resume_found-IsAttempt :
      (found : Option Tracker) (w : World) → IsAttempt raw w (resume_found env raw found w)
  resume_found-IsAttempt none w = (refl, tt)
  resume_found-IsAttempt (some t) w = resume_configured-IsAttempt t.id t.config.job w

  resume_unique-IsAttempt :
      (text : String) (t : SchedulerJob) (w : World)
      → IsAttempt raw w ((new_job env text t >>= λ job. pure (resumed_as raw job)) w)
  resume_unique-IsAttempt text t w = elim (Option-cases (env.parse_cron text)) [
    | inl bad ↦ rw bad (refl, tt)
    | inr (cron, good) ↦
        rw good (refl, resumed_as-TakesOver raw (record { pattern = cron.pattern; job_type = t }))
  ]

  try_resume-IsAttempt : (t : SchedulerJob) (w : World) → IsAttempt raw w (try_resume env t raw w)
  unfolding try_resume try_resume_tasks_run try_resume_trackers_run try_resume_trackers_schedule
      try_resume_trackers_trigger Rows.get_tracker_by_job_id
  try_resume-IsAttempt trackers_trigger w =
      resume_found-IsAttempt
        (map_option (λ r. r.tracker) (find (Rows.has_job_id raw.id) w.trackers)) w
  try_resume-IsAttempt trackers_schedule w =
      resume_unique-IsAttempt env.config.scheduler.trackers_schedule trackers_schedule w
  try_resume-IsAttempt trackers_run w =
      resume_unique-IsAttempt env.config.scheduler.trackers_run trackers_run w
  try_resume-IsAttempt tasks_run w =
      resume_unique-IsAttempt env.config.scheduler.tasks_run tasks_run w

-- The rows behind a turn: the row is removed, or it is kept and its type is remembered.
pub data Turn (unique : List SchedulerJob) (raw : RawSchedulerJobStoredData)
    (rows : List RawSchedulerJobStoredData)
    : List SchedulerJob → List RawSchedulerJobStoredData → Type 0 where
  dropped : Turn unique raw rows unique (keep (λ j. not (is_job raw.id j)) rows)
  taken :
      (m : SchedulerJobMetadata) (job : ResumedJob)
      → meta_of raw ≡ some m
      → contains m.job_type unique ≡ false
      → TakesOver raw (some job)
      → Turn unique raw rows (remember m.job_type unique) (update_job (restored job) raw.id rows)

-- the rows behind a turn that succeeds
abbrev pub TurnsTo :
    List SchedulerJob
    → RawSchedulerJobStoredData
    → List RawSchedulerJobStoredData
    → Result (List SchedulerJob)
    → World
    → Type 0
TurnsTo unique raw rows (ok next) w = Turn unique raw rows next w.scheduler_jobs
TurnsTo unique raw rows (err e) w = Unit

module _ (env : Env) (removes : Removes env) (restores : Restores env) (unique : List SchedulerJob)
    (raw : RawSchedulerJobStoredData) where
  drop-Turn :
      (w : World)
      → TurnsTo unique raw w.scheduler_jobs
          ((remove_job env raw.id >> pure unique) w).0
          ((remove_job env raw.id >> pure unique) w).1
  drop-Turn w = elim (Option-cases (env.remove_job raw.id w.scheduler_jobs)) [
    | inl bad ↦ rw bad tt
    | inr (rows, good) ↦ rw good (
        subst (λ l. Turn unique raw w.scheduler_jobs unique l)
          (sym (removes raw.id w.scheduler_jobs rows good)) dropped)
  ]

  settle-Turn :
      (m : SchedulerJobMetadata) (job : Option ResumedJob) (w : World)
      → meta_of raw ≡ some m
      → contains m.job_type unique ≡ false
      → TakesOver raw job
      → any (is_job raw.id) w.scheduler_jobs ≡ true
      → TurnsTo unique raw w.scheduler_jobs
          (settle_job env unique m.job_type raw.id job w).0
          (settle_job env unique m.job_type raw.id job w).1
  settle-Turn m none w read first t there = drop-Turn w
  settle-Turn m (some job) w read first t there =
      elim (Option-cases (env.resume_job w.moment job w.scheduler_jobs)) [
        | inl bad ↦ rw bad tt
        | inr (rows, good) ↦
            let written : rows ≡ update_job (restored job) raw.id w.scheduler_jobs =
              restores w.moment job w.scheduler_jobs rows (rw t.0 there) good
              ∙ ap (λ (id : Uuid). update_job (restored job) id w.scheduler_jobs) t.0 in
            rw good (
              subst (λ l. Turn unique raw w.scheduler_jobs (remember m.job_type unique) l)
                (sym written) (taken m job read first t))
      ]

  resume_known-Turn :
      (m : SchedulerJobMetadata) (r : Result (Option ResumedJob)) (w : World)
      → meta_of raw ≡ some m
      → contains m.job_type unique ≡ false
      → Fits raw r
      → any (is_job raw.id) w.scheduler_jobs ≡ true
      → TurnsTo unique raw w.scheduler_jobs
          (continue r (settle_job env unique m.job_type raw.id) w).0
          (continue r (settle_job env unique m.job_type raw.id) w).1
  resume_known-Turn m (ok job) w read first t there = settle-Turn m job w read first t there
  resume_known-Turn m (err e) w read first t there = tt

  pub resume_one-Turn :
      (w : World)
      → any (is_job raw.id) w.scheduler_jobs ≡ true
      → TurnsTo unique raw w.scheduler_jobs
          (resume_one env unique raw w).0
          (resume_one env unique raw w).1
  unfolding resume_one
  resume_one-Turn w there = elim (Option-cases (meta_of raw)) [
    | inl e ↦ rw e (drop-Turn w)
    | inr (m, e) ↦ elim (Bool-cases (contains m.job_type unique)) [
      | inl twice ↦ rw (e, twice) (drop-Turn w)
      | inr first ↦
          let (same, fits) = try_resume-IsAttempt env raw m.job_type w in
          let (r, w') = try_resume env m.job_type raw w in
          rw (e, first)
            (subst
              (λ rows.
                TurnsTo unique raw rows (continue r (settle_job env unique m.job_type raw.id) w').0
                  (continue r (settle_job env unique m.job_type raw.id) w').1)
              same (resume_known-Turn m r w' e first fits (rw same there)))
    ]
  ]
