-- ===== src/Scheduler/Resume/Loop.antt =====
-- The loop over a list of rows, turn by turn.
use retrack.Prelude.{
  find, All, ℕ, ◌+◌, ◌≤◌, ◌≡◌, ◌≢◌, refl, ◌∙◌, true, some, inl, inr, List, [], ◌∷◌, ◌++◌, arith,
}
use retrack.Error.{Result, ok, err, Result-cases}
use retrack.Env.{Env}
use retrack.Exec.{continue, ◌>>=◌}
use retrack.Db.{World}
use retrack.Db.Jobs.{is_job}
use retrack.Db.Paging.Complete.{Distinct, after}
use retrack.Scheduler.Job.{SchedulerJob, is_unique, RawSchedulerJobStoredData}
use retrack.Scheduler.Resume.{job_id, resume_one, resume_list}
use retrack.Scheduler.Resume.Laws.{Removes, Restores}
use retrack.Scheduler.Resume.Turns.{Turn, TurnsTo, resume_one-Turn}
use retrack.Scheduler.Resume.JobRows.{Jobs, tally, Stored, find-any}
use retrack.Scheduler.Resume.Steps.{seen, Turn-later, Turn-Distinct, Turn-find, Turn-tally}

-- The table behind a loop over the rows `p` that succeeds.
pub record IsResumed (p : Jobs) (unique : List SchedulerJob) (rows : Jobs)
    (next : List SchedulerJob) (rows' : Jobs) : Type 0 where
  pub distinct : Distinct job_id rows'
  pub later : (k : ℕ) → All (λ j. job_id j ≤ k) p → after job_id k rows' ≡ after job_id k rows
  pub counted :
      (t : SchedulerJob)
      → is_unique t ≡ true
      → tally t rows' + seen t unique + tally t p ≡ tally t rows + seen t next

abbrev pub ResumesTo : Jobs → List SchedulerJob → Jobs → Result (List SchedulerJob) → World → Type 0
ResumesTo p unique rows (ok next) w = IsResumed p unique rows next w.scheduler_jobs
ResumesTo p unique rows (err e) w = Unit

Turn-Stored :
    {unique next : List SchedulerJob} {raw : RawSchedulerJobStoredData} {rows rows' : Jobs}
    (p : Jobs)
    → Turn unique raw rows next rows'
    → All (λ j. job_id j ≢ raw.id) p
    → Stored rows p
    → Stored rows' p
Turn-Stored [] turn n h = tt
Turn-Stored (x ∷ p) turn n h = (Turn-find turn x n.0 h.0, Turn-Stored p turn n.1 h.1)

module _ (unique : List SchedulerJob) (raw : RawSchedulerJobStoredData) (p rows : Jobs)
    (stored : find (is_job raw.id) rows ≡ some raw) (d : Distinct job_id rows) where
  cons-ResumesTo :
      (n : List SchedulerJob) (rows' : Jobs) (r : Result (List SchedulerJob)) (w : World)
      → Turn unique raw rows n rows'
      → ResumesTo p n rows' r w
      → ResumesTo (raw ∷ p) unique rows r w
  cons-ResumesTo n rows' (err e) w turn h = tt
  cons-ResumesTo n rows' (ok next) w turn h = record {
    distinct = h.distinct;
    later = λ k below. h.later k below.1 ∙ Turn-later k turn below.0;
    counted = λ t u. omega (arith, h.counted t u, Turn-tally t turn u d stored);
  }

module _ (env : Env) where
  module _ (p : Jobs)
      (ih : (n : List SchedulerJob) (w : World)
        → Stored w.scheduler_jobs p
        → Distinct job_id w.scheduler_jobs
        → ResumesTo p n w.scheduler_jobs (resume_list env n p w).0 (resume_list env n p w).1) where
    turn-ResumesTo :
        (unique : List SchedulerJob) (raw : RawSchedulerJobStoredData) (rows : Jobs)
        (r : Result (List SchedulerJob)) (w : World)
        → TurnsTo unique raw rows r w
        → All (λ j. job_id j ≢ raw.id) p
        → Stored rows (raw ∷ p)
        → Distinct job_id rows
        → ResumesTo
            (raw ∷ p)
            unique
            rows
            (continue r (λ n. resume_list env n p) w).0
            (continue r (λ n. resume_list env n p) w).1
    turn-ResumesTo unique raw rows (err e) w turn others stored d = tt
    turn-ResumesTo unique raw rows (ok n) w turn others stored d =
        cons-ResumesTo unique raw p rows stored.0 d n w.scheduler_jobs (resume_list env n p w).0
          (resume_list env n p w).1 turn
          (ih n w (Turn-Stored p turn others stored.1) (Turn-Distinct turn d))

  module _ (removes : Removes env) (restores : Restores env) where
    pub resume_list-ResumesTo :
        (p : Jobs) (unique : List SchedulerJob) (w : World)
        → Distinct job_id p
        → Stored w.scheduler_jobs p
        → Distinct job_id w.scheduler_jobs
        → ResumesTo p unique w.scheduler_jobs
            (resume_list env unique p w).0
            (resume_list env unique p w).1
    unfolding resume_list
    resume_list-ResumesTo [] unique w e stored d = record {
      distinct = d;
      later = λ k h. refl;
      counted = λ t u. omega arith;
    }
    resume_list-ResumesTo (raw ∷ p) unique w e stored d =
        turn-ResumesTo p (λ n w'. resume_list-ResumesTo p n w' e.1) unique raw w.scheduler_jobs
          (resume_one env unique raw w).0 (resume_one env unique raw w).1
          (resume_one-Turn env removes restores unique raw w
            (find-any raw.id w.scheduler_jobs raw stored.0))
          e.0 stored d

  -- a loop over two lists is two loops
  pub resume_list-append :
      (p rest : Jobs) (unique : List SchedulerJob) (w : World)
      → resume_list env unique (p ++ rest) w
        ≡ (resume_list env unique p >>= λ n. resume_list env n rest) w
  unfolding resume_list
  resume_list-append [] rest unique w = refl
  resume_list-append (raw ∷ p) rest unique w = elim (Result-cases (resume_one env unique raw w).0) [
    | inl (n, e) ↦ rw e (resume_list-append p rest n (resume_one env unique raw w).1)
    | inr (x, e) ↦ rw e refl
  ]
