-- ===== src/Scheduler/ScheduleJob/Served.antt =====
-- What a round of the schedule job achieves: the trackers that wait for a job have one.
use retrack.Prelude.{
  ◌==◌, Bool-cases, Option-cases, any, keep, All, is_some, map, ℕ, suc, ◌≡◌, refl, ◌∙◌, inl, inr,
  Bool, true, not, ◌&&◌, Option, none, some, List, [], ◌∷◌, arith,
}
use retrack.Error.{ok}
use retrack.Exec.{>>=-eq-ok, for_each}
use retrack.Types.{Tracker, Uuid, SchedulerJobConfig}
use retrack.Env.{Env, NewJob}
use retrack.Db.{World, TrackerRow}
use retrack.Db.Trackers as Rows
use retrack.Db.Trackers.{has_id, to_schedule, update_where, set_job}
use retrack.Db.Jobs.{with_jobs}
use retrack.Db.Paging.{order_by, insert_by}
use retrack.Db.Paging.Complete.{order_by-All, All-map}
use retrack.Scheduler.Job.{trackers_trigger}
use retrack.Trackers.Api.Linked.{AllLinked, IsLinked}
use retrack.Scheduler.ScheduleJob.{
  schedule_with, schedule_tracker, schedule_trackers, create_trigger,
}
use retrack.Scheduler.ScheduleJob.Linked.{All-map_tracker}

-- a tracker of this id is among these
abbrev among : List Tracker → Uuid → Bool
among ts id = any (λ (t : Tracker). t.id == id) ts

-- who waits for a job is among these trackers
abbrev Waiting : List Tracker → List TrackerRow → Type 0
Waiting ts = All (λ r. to_schedule r ≡ true → among ts r.tracker.id ≡ true)

set_job-Waiting :
    (t : Tracker) (ts : List Tracker) (job : Uuid) (rows : List TrackerRow)
    → Waiting (t ∷ ts) rows
    → Waiting ts (update_where (set_job (some job)) t.id rows)
unfolding update_where
set_job-Waiting t ts job [] h = tt
set_job-Waiting t ts job (r ∷ rs) h = elim (Bool-cases (has_id t.id r)) [
  | inl e ↦ rw e ((λ s. ground arith), set_job-Waiting t ts job rs h.1)
  | inr e ↦ rw e ((λ s. ground (arith, h.0 s)), set_job-Waiting t ts job rs h.1)
]

update_job-Waiting :
    (t : Tracker) (ts : List Tracker) (job : Uuid) (w : World)
    → Waiting (t ∷ ts) w.trackers
    → (Rows.update_tracker_job t.id (some job) w).0 ≡ ok tt
    → Waiting ts (Rows.update_tracker_job t.id (some job) w).1.trackers
unfolding Rows.update_tracker_job
update_job-Waiting t ts job w h = elim (Bool-cases (any (has_id t.id) w.trackers)) [
  | inr e ↦ rw e (λ s. cc)
  | inl e ↦
      elim (Bool-cases (
        any (λ r. not (has_id t.id r) && Rows.same_job_id r.tracker.job_id (some job))
          w.trackers)) [
            | inl e' ↦ rw (e, e') (λ s. cc)
            | inr e' ↦ rw (e, e') (λ s. set_job-Waiting t ts job w.trackers h)
          ]
]

-- what the query of a round finds
module _ {A : Type 0} (p : A → Bool) (key : A → ℕ) where
  any-insert_by : (x : A) (ys : List A) → any p (insert_by key x ys) ≡ any p (x ∷ ys)
  unfolding insert_by
  any-insert_by x [] = refl
  any-insert_by x (y ∷ ys) = ground (arith, any-insert_by x ys)

  any-order_by : (xs : List A) → any p (order_by key xs) ≡ any p xs
  unfolding order_by
  any-order_by [] = refl
  any-order_by (x ∷ xs) = ground (arith, any-insert_by x (order_by key xs), any-order_by xs)

among-map :
    (id : Uuid) (rows : List TrackerRow)
    → among (map (λ r. r.tracker) rows) id ≡ any (has_id id) rows
among-map id [] = refl
among-map id (r ∷ rs) = ground (arith, among-map id rs)

-- the row is among the rows that wait
abbrev Found : List TrackerRow → TrackerRow → Type 0
Found waiting r = to_schedule r ≡ true → any (has_id r.tracker.id) waiting ≡ true

keep-Found : (rows : List TrackerRow) → All (Found (keep to_schedule rows)) rows
keep-Found [] = tt
keep-Found (r ∷ rs) = (
  (λ s. ground arith),
  All-map (Found (keep to_schedule rs)) (Found (keep to_schedule (r ∷ rs)))
      (λ x k s. ground (arith, k s)) rs (keep-Found rs),
)

abbrev oldest_update : TrackerRow → ℕ
oldest_update r = r.tracker.updated_at

queried-Waiting :
    (rows : List TrackerRow)
    → Waiting (map (λ r. r.tracker) (order_by oldest_update (keep to_schedule rows))) rows
queried-Waiting rows =
    let found : List TrackerRow = order_by oldest_update (keep to_schedule rows) in
    All-map (Found (keep to_schedule rows))
      (λ r. to_schedule r ≡ true → among (map (λ r. r.tracker) found) r.tracker.id ≡ true)
      (λ r k s.
        among-map r.tracker.id found
        ∙ any-order_by (has_id r.tracker.id) oldest_update (keep to_schedule rows)
        ∙ k s)
      rows (keep-Found rows)

keep-configured :
    (rows : List TrackerRow)
    → All IsLinked rows
    → All (λ r. is_some r.tracker.config.job ≡ true) (keep to_schedule rows)
unfolding Rows.job_needed
keep-configured [] h = tt
keep-configured (r ∷ rs) h = elim (Bool-cases (to_schedule r)) [
  | inr e ↦ rw e (keep-configured rs h.1)
  | inl e ↦ rw e (ground (arith, h.0.column), keep-configured rs h.1)
]

nobody_waits : (rows : List TrackerRow) → Waiting [] rows → keep to_schedule rows ≡ []
nobody_waits [] h = refl
nobody_waits (r ∷ rs) h = elim (Bool-cases (to_schedule r)) [
  | inr e ↦ rw e (nobody_waits rs h.1)
  | inl e ↦ absurd (ground (arith, h.0 e))
]

module _ (env : Env) where
  schedule_with-Waiting :
      (t : Tracker) (config : Option SchedulerJobConfig) (ts : List Tracker) (w : World)
      → is_some config ≡ true
      → Waiting (t ∷ ts) w.trackers
      → (schedule_with env t config w).0 ≡ ok tt
      → Waiting ts (schedule_with env t config w).1.trackers
  unfolding create_trigger
  schedule_with-Waiting t none ts w c h = cc
  schedule_with-Waiting t (some config) ts w c h =
      elim (Option-cases (env.parse_cron config.schedule)) [
        | inl bad ↦ rw bad (λ s. cc)
        | inr (cron, good) ↦
            let job : NewJob = record { pattern = cron.pattern; job_type = trackers_trigger } in
            elim (Option-cases (env.add_job w.moment job w.scheduler_jobs)) [
              | inl failed ↦ rw (good, failed) (λ s. cc)
              | inr ((id, jobs), added) ↦
                  rw (good, added)
                    (update_job-Waiting t ts id
                      (with_jobs jobs (record w { moment = suc w.moment })) h)
            ]
      ]

  schedule_each-Waiting :
      (ts : List Tracker) (w : World)
      → All (λ (t : Tracker). is_some t.config.job ≡ true) ts
      → Waiting ts w.trackers
      → (for_each (schedule_tracker env) ts w).0 ≡ ok tt
      → Waiting [] (for_each (schedule_tracker env) ts w).1.trackers
  unfolding for_each schedule_tracker
  schedule_each-Waiting [] w c h s = h
  schedule_each-Waiting (t ∷ ts) w c h s =
      let (u, good, rest, same) =
        >>=-eq-ok (schedule_tracker env t) (λ _. for_each (schedule_tracker env) ts) w s in
      rw same (
        schedule_each-Waiting ts (schedule_with env t t.config.job w).1 c.1
          (schedule_with-Waiting t t.config.job ts w c.0 h good) rest)

  -- Where every row's column job_needed is what its tracker asks for, a round of the schedule job
  -- that succeeds leaves no tracker that needs a job, is enabled and has no job.
  pub schedule_trackers-served :
      (w : World)
      → AllLinked w
      → (schedule_trackers env w).0 ≡ ok tt
      → keep to_schedule (schedule_trackers env w).1.trackers ≡ []
  unfolding schedule_trackers Rows.get_trackers_to_schedule
  schedule_trackers-served w h s =
      let found : List TrackerRow = order_by oldest_update (keep to_schedule w.trackers) in
      nobody_waits (schedule_trackers env w).1.trackers (
        schedule_each-Waiting (map (λ r. r.tracker) found) w
          (All-map_tracker (λ t. is_some t.config.job ≡ true) found
            (order_by-All (λ r. is_some r.tracker.config.job ≡ true) oldest_update
              (keep to_schedule w.trackers) (keep-configured w.trackers h)))
          (queried-Waiting w.trackers) s)
