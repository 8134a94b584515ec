-- ===== src/System/Start.antt =====
-- The start of the scheduler, and the table `trackers`.
use retrack.Prelude.{
  if◌then◌else◌, ltb, Option-cases, length, last?, inl, inr, ℕ, zero, suc, String, Option, none,
  some, List, [], ◌∷◌, arith,
}
use retrack.Exec.{pure}
use retrack.Exec.Keeps.{Keeps, Keeps-pure, Keeps-if, Keeps-bind, keeps_rules}
use retrack.Types.{Tracker, Uuid, SchedulerJobConfig}
use retrack.Env.{Env, NewJob}
use retrack.Db.{TrackerRow, Tables}
use retrack.Db.Trackers as Rows
use retrack.Db.Paging.{page, last_key}
use retrack.Scheduler.Job.{
  SchedulerJob, trackers_trigger, trackers_schedule, trackers_run, tasks_run,
  RawSchedulerJobStoredData, ResumedJob,
}
use retrack.Scheduler.ScheduleJob.{create_trigger, add_job}
use retrack.Scheduler.UniqueJobs.{
  new_job, create_tasks_run, create_trackers_run, create_trackers_schedule, try_resume_tasks_run,
  try_resume_trackers_run, try_resume_trackers_schedule,
}
use retrack.Scheduler.RunJob.{max_jobs_page_size}
use retrack.Scheduler.Resume.{
  job_id, meta_of, restore_job, give_up, kept_or_given_up, resume_configured, resume_found,
  try_resume_trackers_trigger, try_resume, settle_job, resume_one, resume_list, resume_pages,
  add_missing, launch, finish, start,
}
use retrack.Trackers.Revise.Keeps.{OfTrackers, same-Keeps}
use retrack.Trackers.Fetch.Keeps.{observe-Keeps}
use retrack.System.Process.{remove_job-Keeps}

module _ (Q : List TrackerRow → Type 0) (env : Env)
    (unlink : (id : Uuid) → Keeps (OfTrackers Q) (Rows.update_tracker_job id none)) where
  create_trigger-Keeps : (text : String) → Keeps (OfTrackers Q) (create_trigger env text)
  unfolding create_trigger
  create_trigger-Keeps text = same-Keeps Q (create_trigger env text) (λ w. ground arith)

  new_job-Keeps : (text : String) (t : SchedulerJob) → Keeps (OfTrackers Q) (new_job env text t)
  new_job-Keeps text t = same-Keeps Q (new_job env text t) (λ w. ground arith)

  restore_job-Keeps : (job : ResumedJob) → Keeps (OfTrackers Q) (restore_job env job)
  restore_job-Keeps job = same-Keeps Q (restore_job env job) (λ w. ground arith)

  add_job-Keeps : (job : NewJob) → Keeps (OfTrackers Q) (add_job env job)
  add_job-Keeps job = same-Keeps Q (add_job env job) (λ w. ground arith)

  by_job_id-Keeps : (id : Uuid) → Keeps (OfTrackers Q) (Rows.get_tracker_by_job_id id)
  unfolding Rows.get_tracker_by_job_id
  by_job_id-Keeps id = record { at = λ w h. h }

  give_up-Keeps : (id : Uuid) → Keeps (OfTrackers Q) (give_up env id)
  give_up-Keeps id = search (keeps_rules, unlink)

  kept_or_given_up-Keeps :
      (id : Uuid) (job : Option ResumedJob) → Keeps (OfTrackers Q) (kept_or_given_up env id job)
  kept_or_given_up-Keeps id none = give_up-Keeps id
  kept_or_given_up-Keeps id (some job) = Keeps-pure (some job)

  resume_configured-Keeps :
      (raw : RawSchedulerJobStoredData) (id : Uuid) (config : Option SchedulerJobConfig)
      → Keeps (OfTrackers Q) (resume_configured env raw id config)
  resume_configured-Keeps raw id none = give_up-Keeps id
  resume_configured-Keeps raw id (some config) =
      search (keeps_rules, create_trigger-Keeps, kept_or_given_up-Keeps)

  resume_found-Keeps :
      (raw : RawSchedulerJobStoredData) (found : Option Tracker)
      → Keeps (OfTrackers Q) (resume_found env raw found)
  resume_found-Keeps raw none = Keeps-pure none
  resume_found-Keeps raw (some t) = resume_configured-Keeps raw t.id t.config.job

  try_resume-Keeps :
      (t : SchedulerJob) (raw : RawSchedulerJobStoredData)
      → Keeps (OfTrackers Q) (try_resume env t raw)
  unfolding try_resume try_resume_trackers_trigger try_resume_tasks_run try_resume_trackers_run
      try_resume_trackers_schedule create_tasks_run create_trackers_run create_trackers_schedule
  try_resume-Keeps trackers_trigger raw = search (keeps_rules, by_job_id-Keeps, resume_found-Keeps)
  try_resume-Keeps trackers_schedule raw = search (keeps_rules, new_job-Keeps)
  try_resume-Keeps trackers_run raw = search (keeps_rules, new_job-Keeps)
  try_resume-Keeps tasks_run raw = search (keeps_rules, new_job-Keeps)

  settle_job-Keeps :
      (unique : List SchedulerJob) (t : SchedulerJob) (id : Uuid) (job : Option ResumedJob)
      → Keeps (OfTrackers Q) (settle_job env unique t id job)
  settle_job-Keeps unique t id none = search (keeps_rules, remove_job-Keeps Q env unlink)
  settle_job-Keeps unique t id (some job) = search (keeps_rules, restore_job-Keeps)

  resume_one-Keeps :
      (unique : List SchedulerJob) (raw : RawSchedulerJobStoredData)
      → Keeps (OfTrackers Q) (resume_one env unique raw)
  unfolding resume_one
  resume_one-Keeps unique raw = elim (Option-cases (meta_of raw)) [
    | inl e ↦ rw (e, resume_one) (search (keeps_rules, remove_job-Keeps Q env unlink))
    | inr (m, e) ↦
        rw (e, resume_one)
          (search (keeps_rules, remove_job-Keeps Q env unlink, try_resume-Keeps, settle_job-Keeps))
  ]

  resume_list-Keeps :
      (rows : List RawSchedulerJobStoredData) (unique : List SchedulerJob)
      → Keeps (OfTrackers Q) (resume_list env unique rows)
  unfolding resume_list
  resume_list-Keeps [] unique = Keeps-pure unique
  resume_list-Keeps (raw ∷ rest) unique =
      Keeps-bind (resume_one env unique raw) (λ n. resume_list env n rest)
        (resume_one-Keeps unique raw) (λ n. resume_list-Keeps rest n)

  resume_pages-Keeps :
      (fuel last : ℕ) (unique : List SchedulerJob)
      → Keeps (OfTrackers Q) (resume_pages env fuel last unique)
  unfolding resume_pages
  resume_pages-Keeps zero last unique = record { at = λ w h. h }
  resume_pages-Keeps (suc fuel) last unique = record {
    at = λ w h.
        let rows : List RawSchedulerJobStoredData =
          page job_id max_jobs_page_size w.scheduler_jobs last in
        let rest =
          λ (n : List SchedulerJob). resume_pages env fuel (last_key job_id last (last? rows)) n in
        (Keeps-bind (resume_list env unique rows)
            (λ n. if ltb (length rows) max_jobs_page_size then pure n else rest n)
            (resume_list-Keeps rows unique)
            (λ n.
              Keeps-if (ltb (length rows) max_jobs_page_size) (pure n) (rest n) (Keeps-pure n)
                (resume_pages-Keeps fuel (last_key job_id last (last? rows)) n))).at
          w h;
  }

  add_missing-Keeps :
      (t : SchedulerJob) (text : String) (a : SchedulerJob) (unique : List SchedulerJob)
      → Keeps (OfTrackers Q) (add_missing env t (new_job env text a) unique)
  add_missing-Keeps t text a unique = search (keeps_rules, new_job-Keeps, add_job-Keeps)

  launch-Keeps : Keeps (OfTrackers Q) (launch env)
  launch-Keeps = same-Keeps Q (launch env) (λ w. ground arith)

  finish-Keeps : (unique : List SchedulerJob) → Keeps (OfTrackers Q) (finish env unique)
  unfolding finish create_tasks_run create_trackers_run create_trackers_schedule
  finish-Keeps unique = search (keeps_rules, add_missing-Keeps, launch-Keeps)

  -- The start of the scheduler keeps every property of the table `trackers` that giving up the job
  -- of a tracker keeps.
  pub start-Keeps : (fuel : ℕ) → Keeps (OfTrackers Q) (start env fuel)
  unfolding start
  start-Keeps fuel =
      search (
        keeps_rules,
        resume_pages-Keeps,
        finish-Keeps,
        observe-Keeps (λ (x : Tables). Q x.trackers),
      )
