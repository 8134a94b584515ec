-- ===== src/Scheduler/Resume/Unique.antt =====
-- One job of each type of which there is to be one.
use retrack.Prelude.{
  if◌then◌else◌, Bool-cases, Option-cases, length, All, ℕ, suc, ◌+◌, ◌<◌, ◌≡◌, refl, ap, ◌∙◌, inl,
  inr, Bool, true, String, List, [], ◌∷◌, arith,
}
use retrack.Error.{Result, ok, err}
use retrack.Env.{Env, NewJob}
use retrack.Exec.{Exec, continue, >>=-eq-ok, ◌>>◌}
use retrack.Db.{World}
use retrack.Db.Paging.{order_by, insert_by}
use retrack.Db.Paging.Complete.{Distinct}
use retrack.Scheduler.Job.{
  SchedulerJob, trackers_trigger, trackers_schedule, trackers_run, tasks_run, is_unique, same_job,
  RawSchedulerJobStoredData,
}
use retrack.Scheduler.UniqueJobs.{
  new_job, create_tasks_run, create_trackers_run, create_trackers_schedule,
}
use retrack.Scheduler.Resume.{
  job_id, meta_of, contains, resume_list, add_missing, launch, finish, start,
}
use retrack.Scheduler.Resume.Laws.{Removes, Restores, Adds, new_row}
use retrack.Scheduler.Resume.JobRows.{Jobs, is_of, tally}
use retrack.Scheduler.Resume.Steps.{seen}
use retrack.Scheduler.Resume.Loop.{ResumesTo, resume_list-ResumesTo}
use retrack.Scheduler.Resume.Paged.{resume_pages-eq-list, order-Stored, order-Distinct}

module _ (t : SchedulerJob) where
  tally-insert_by :
      (j : RawSchedulerJobStoredData) (js : Jobs)
      → tally t (insert_by job_id j js) ≡ tally t (j ∷ js)
  unfolding insert_by
  tally-insert_by j [] = refl
  tally-insert_by j (x ∷ xs) = ground (arith, tally-insert_by j xs)

  tally-order_by : (js : Jobs) → tally t (order_by job_id js) ≡ tally t js
  unfolding order_by
  tally-order_by [] = refl
  tally-order_by (j ∷ js) =
      tally-insert_by j (order_by job_id js)
      ∙ ap (λ (n : ℕ). (if is_of t j then 1 else 0) + n) (tally-order_by js)

  new_row_type : (id : ℕ) (job : NewJob) → is_of t (new_row id job) ≡ same_job t job.job_type
  unfolding is_of meta_of
  new_row_type id job = refl

-- how many jobs of type `t` are added for type `a`
abbrev missing : SchedulerJob → SchedulerJob → List SchedulerJob → ℕ
missing t a unique = if contains a unique then 0 else if same_job t a then 1 else 0

all_added :
    (t : SchedulerJob) (unique : List SchedulerJob)
    → is_unique t ≡ true
    → seen t unique
        + missing t trackers_schedule unique
        + missing t trackers_run unique
        + missing t tasks_run unique
      ≡ 1
unfolding is_unique
all_added trackers_trigger unique u = cc
all_added trackers_schedule unique u = ground arith
all_added trackers_run unique u = ground arith
all_added tasks_run unique u = ground arith

-- what holds if a method succeeds
abbrev IfOk : {A : Type 0} → Result A → Type 0 → Type 0
IfOk (ok a) P = P
IfOk (err e) P = Unit

from_ok : {A P : Type 0} (r : Result A) {a : A} → r ≡ ok a → IfOk r P → P
from_ok (ok b) e p = p
from_ok (err x) e p = cc

module _ (env : Env) (adds : Adds env) (t : SchedulerJob) where
  add_missing-tally :
      (text : String) (a : SchedulerJob) (unique : List SchedulerJob) (w : World)
      → IfOk (add_missing env a (new_job env text a) unique w).0 (
          tally t (add_missing env a (new_job env text a) unique w).1.scheduler_jobs
          ≡ missing t a unique + tally t w.scheduler_jobs)
  add_missing-tally text a unique w = elim (Bool-cases (contains a unique)) [
    | inl old ↦ rw old (omega arith)
    | inr new ↦ elim (Option-cases (env.parse_cron text)) [
      | inl bad ↦ rw (new, bad) tt
      | inr (cron, good) ↦
          let job : NewJob = record { pattern = cron.pattern; job_type = a } in
          elim (Option-cases (env.add_job w.moment job w.scheduler_jobs)) [
            | inl failed ↦ rw (new, good, failed) tt
            | inr ((id, rows), added) ↦
                rw (new, good, added)
                  (ap (tally t) (adds w.moment job id w.scheduler_jobs rows added)
                    ∙ ap (λ (b : Bool). (if b then 1 else 0) + tally t w.scheduler_jobs)
                        (new_row_type t id job))
          ]
    ]
  ]

  launch-jobs : (w : World) → (launch env w).1.scheduler_jobs ≡ w.scheduler_jobs
  launch-jobs w = ground arith

  finish-tally :
      (unique : List SchedulerJob) (w : World)
      → is_unique t ≡ true
      → tally t w.scheduler_jobs ≡ seen t unique
      → (finish env unique w).0 ≡ ok tt
      → tally t (finish env unique w).1.scheduler_jobs ≡ 1
  unfolding finish create_tasks_run create_trackers_run create_trackers_schedule
  finish-tally unique w u counted h =
      let add_a : Exec World Unit =
        add_missing env trackers_schedule (create_trackers_schedule env) unique in
      let add_b : Exec World Unit = add_missing env trackers_run (create_trackers_run env) unique in
      let add_c : Exec World Unit = add_missing env tasks_run (create_tasks_run env) unique in
      let (a, ok_a, more_a, same_a) = >>=-eq-ok add_a (λ _. add_b >> (add_c >> launch env)) w h in
      let w_a : World = (add_a w).1 in
      let (b, ok_b, more_b, same_b) = >>=-eq-ok add_b (λ _. add_c >> launch env) w_a more_a in
      let w_b : World = (add_b w_a).1 in
      let (c, ok_c, more_c, same_c) = >>=-eq-ok add_c (λ _. launch env) w_b more_b in
      let first : tally t w_a.scheduler_jobs
          ≡ missing t trackers_schedule unique + tally t w.scheduler_jobs =
        from_ok (add_a w).0 ok_a
          (add_missing-tally env.config.scheduler.trackers_schedule trackers_schedule unique w) in
      let second : tally t w_b.scheduler_jobs
          ≡ missing t trackers_run unique + tally t w_a.scheduler_jobs =
        from_ok (add_b w_a).0 ok_b
          (add_missing-tally env.config.scheduler.trackers_run trackers_run unique w_a) in
      let third : tally t (add_c w_b).1.scheduler_jobs
          ≡ missing t tasks_run unique + tally t w_b.scheduler_jobs =
        from_ok (add_c w_b).0 ok_c
          (add_missing-tally env.config.scheduler.tasks_run tasks_run unique w_b) in
      ap (λ (r : Result Unit × World). tally t r.1.scheduler_jobs) (same_a ∙ same_b ∙ same_c)
      ∙ ap (tally t) (launch-jobs (add_c w_b).1)
      ∙ omega (arith, all_added t unique u)

  -- what the loop over the stored jobs leaves is what the start goes on with
  loop-tally :
      (p : Jobs) (rows : Jobs) (r : Result (List SchedulerJob)) (w : World)
      → is_unique t ≡ true
      → ResumesTo p [] rows r w
      → tally t p ≡ tally t rows
      → (continue r (finish env) w).0 ≡ ok tt
      → tally t (continue r (finish env) w).1.scheduler_jobs ≡ 1
  loop-tally p rows (err e) w u resumed same h = cc
  loop-tally p rows (ok next) w u resumed same h =
      finish-tally next w u (omega (arith, resumed.counted t u)) h

module _ (env : Env) (removes : Removes env) (restores : Restores env) (adds : Adds env) where
  -- Let `remove` delete the row of an id, and `add` write the row of a job that has one or insert a
  -- row. Where the ids of the stored jobs are distinct and none is the nil UUID, more rounds than
  -- there are jobs are enough, and a start of the scheduler that succeeds leaves exactly one job of
  -- each type of which there is to be one, however many of them were stored before.
  pub start_unique :
      (t : SchedulerJob) (fuel : ℕ) (w : World)
      → is_unique t ≡ true
      → Distinct job_id w.scheduler_jobs
      → All (λ j. 0 < job_id j) w.scheduler_jobs
      → length w.scheduler_jobs < fuel
      → (start env fuel w).0 ≡ ok tt
      → tally t (start env fuel w).1.scheduler_jobs ≡ 1
  unfolding start
  start_unique t fuel w u d pos enough =
      let w' : World = record w { moment = suc w.moment } in
      let p : Jobs = order_by job_id w.scheduler_jobs in
      elim (Bool-cases (env.open_scheduler w.moment)) [
        | inr closed ↦ rw closed (λ h. cc)
        | inl opened ↦
            let loop = resume_pages-eq-list env removes restores fuel w' d pos enough in
            rw (opened, loop)
              (loop-tally env adds t p w.scheduler_jobs (resume_list env [] p w').0
                (resume_list env [] p w').1 u
                (resume_list-ResumesTo env removes restores p [] w'
                  (order-Distinct w.scheduler_jobs d) (order-Stored w.scheduler_jobs d) d)
                (tally-order_by t w.scheduler_jobs))
      ]
