-- ===== src/Scheduler/ScheduleJob/Linked.antt =====
-- The scheduling of trackers and the link between a tracker and its job: a job goes only to a row
-- that needs one.
use retrack.Scheduler.ScheduleJob.{
  schedule_with, schedule_tracker, schedule_trackers, create_trigger,
}
use retrack.Db.Paging.{order_by}
use retrack.Env.{Env, NewJob}
use retrack.Exec.{continue, for_each}
use retrack.Error.{ok, err}
use retrack.Prelude.{
  Bool-cases, Option-cases, any, keep, All, All-keep, ℕ, suc, ◌≡◌, ◌≢◌, inl, inr, true, not, ◌&&◌,
  Option, none, some, List, [], ◌∷◌, map, arith,
}
use retrack.Types.{Tracker, Uuid, SchedulerJobConfig}
use retrack.Db.{World, TrackerRow}
use retrack.Db.Trackers as Rows
use retrack.Db.Trackers.{has_id, to_schedule, update_where, set_job}
use retrack.Db.Paging.Complete.{Distinct, order_by-All, All-map}
use retrack.Scheduler.Job.{trackers_trigger}
use retrack.Db.Jobs.{with_jobs}
use retrack.Trackers.Api.Linked.{IsLinked, AllLinked}

abbrev pub row_id : TrackerRow → ℕ
row_id r = r.tracker.id

-- the rows with this id need a job
abbrev Needs : List TrackerRow → Uuid → Type 0
Needs rows id = All (λ r. has_id id r ≡ true → r.job_needed ≡ true) rows

no_such_row : (id : Uuid) (rows : List TrackerRow) → All (λ r. row_id r ≢ id) rows → Needs rows id
no_such_row id [] h = tt
no_such_row id (r ∷ rs) h = ((λ e. ground arith), no_such_row id rs h.1)

Needs-cons :
    (r : TrackerRow) (rows xs : List TrackerRow)
    → All (λ x. row_id x ≢ row_id r) xs
    → All (λ x. Needs rows (row_id x)) xs
    → All (λ x. Needs (r ∷ rows) (row_id x)) xs
Needs-cons r rows [] h k = tt
Needs-cons r rows (x ∷ xs) h k = (((λ e. ground arith), k.0), Needs-cons r rows xs h.1 k.1)

to_schedule-Needs :
    (rows : List TrackerRow)
    → Distinct row_id rows
    → All (λ x. Needs rows (row_id x)) (keep to_schedule rows)
to_schedule-Needs [] d = tt
to_schedule-Needs (r ∷ rs) d =
    let rest =
      Needs-cons r rs (keep to_schedule rs) (All-keep (λ x. row_id x ≢ row_id r) to_schedule rs d.0)
        (to_schedule-Needs rs d.1) in
    elim (Bool-cases (to_schedule r)) [
      | inr e ↦ rw e rest
      | inl e ↦ rw e (((λ same. ground arith), no_such_row (row_id r) rs d.0), rest)
    ]

pub All-map_tracker :
    (P : Tracker → Type 0) (rows : List TrackerRow)
    → All (λ r. P r.tracker) rows
    → All P (map (λ r. r.tracker) rows)
All-map_tracker P [] h = tt
All-map_tracker P (r ∷ rs) h = (h.0, All-map_tracker P rs h.1)

set_job-AllLinked :
    (id job : Uuid) (rows : List TrackerRow)
    → Needs rows id
    → All IsLinked rows
    → All IsLinked (update_where (set_job (some job)) id rows)
unfolding update_where Rows.job_needed
set_job-AllLinked id job [] n h = tt
set_job-AllLinked id job (r ∷ rs) n h = elim (Bool-cases (has_id id r)) [
  | inl e ↦
      rw e
        (record { column = h.0.column; linked = λ s. n.0 e }, set_job-AllLinked id job rs n.1 h.1)
  | inr e ↦ rw e (h.0, set_job-AllLinked id job rs n.1 h.1)
]

set_job-Needs :
    (id other : Uuid) (job : Option Uuid) (rows : List TrackerRow)
    → Needs rows other
    → Needs (update_where (set_job job) id rows) other
unfolding update_where
set_job-Needs id other job [] n = tt
set_job-Needs id other job (r ∷ rs) n = elim (Bool-cases (has_id id r)) [
  | inl e ↦ rw e (n.0, set_job-Needs id other job rs n.1)
  | inr e ↦ rw e (n.0, set_job-Needs id other job rs n.1)
]

-- what the loop keeps, for the trackers that are still to come
record IsReady (ts : List Tracker) (w : World) : Type 0 where
  kept : AllLinked w
  needed : All (λ (t : Tracker). Needs w.trackers t.id) ts

update_job-IsReady :
    (id job : Uuid) (ts : List Tracker) (w : World)
    → Needs w.trackers id
    → IsReady ts w
    → IsReady ts (Rows.update_tracker_job id (some job) w).1
unfolding Rows.update_tracker_job
update_job-IsReady id job ts w n h = elim (Bool-cases (any (has_id id) w.trackers)) [
  | inr e ↦ rw e h
  | inl e ↦
      elim (Bool-cases
        (any (λ r. not (has_id id r) && Rows.same_job_id r.tracker.job_id (some job)) w.trackers)) [
          | inl e' ↦ rw (e, e') h
          | inr e' ↦
              rw (e, e')
                (record {
                  kept = set_job-AllLinked id job w.trackers n h.kept;
                  needed =
                      All-map (λ (t : Tracker). Needs w.trackers t.id)
                        (λ (t : Tracker).
                          Needs (update_where (set_job (some job)) id w.trackers) t.id)
                        (λ t k. set_job-Needs id t.id (some job) w.trackers k) ts h.needed;
                })
        ]
]

module _ (env : Env) where
  schedule_with-IsReady :
      (t : Tracker) (config : Option SchedulerJobConfig) (ts : List Tracker) (w : World)
      → IsReady (t ∷ ts) w
      → IsReady ts (schedule_with env t config w).1
  unfolding create_trigger
  schedule_with-IsReady t none ts w h = record { kept = h.kept; needed = h.needed.1 }
  schedule_with-IsReady t (some config) ts w h =
      let left : IsReady ts w = record { kept = h.kept; needed = h.needed.1 } in
      elim (Option-cases (env.parse_cron config.schedule)) [
        | inl bad ↦ rw bad left
        | inr (cron, good) ↦
            let job : NewJob = record { pattern = cron.pattern; job_type = trackers_trigger } in
            elim (Option-cases (env.add_job w.moment job w.scheduler_jobs)) [
              | inl failed ↦ rw (good, failed) (record { kept = h.kept; needed = h.needed.1 })
              | inr ((id, jobs), added) ↦
                  rw (good, added)
                    (update_job-IsReady t.id id ts
                      (with_jobs jobs (record w { moment = suc w.moment })) h.needed.0
                      (record { kept = h.kept; needed = h.needed.1 }))
            ]
      ]

  schedule_each-IsReady :
      (ts : List Tracker) (w : World)
      → IsReady ts w
      → AllLinked (for_each (schedule_tracker env) ts w).1
  unfolding for_each schedule_tracker
  schedule_each-IsReady [] w h = h.kept
  schedule_each-IsReady (t ∷ ts) w h =
      let next = schedule_with-IsReady t t.config.job ts w h in
      elim (schedule_with env t t.config.job w).0
        as (λ r.
          AllLinked
            (continue r (λ _. for_each (schedule_tracker env) ts)
              (schedule_with env t t.config.job w).1).1) [
                | ok u ↦ schedule_each-IsReady ts (schedule_with env t t.config.job w).1 next
                | err e ↦ next.kept
              ]

  -- Where no two trackers have one id, a round of the schedule job, whether it succeeds or fails,
  -- keeps the invariant AllLinked: the column job_needed of every row is what the row's tracker
  -- asks for, and only a row that needs a job refers to one.
  pub schedule_trackers-AllLinked :
      (w : World) → Distinct row_id w.trackers → AllLinked w → AllLinked (schedule_trackers env w).1
  unfolding schedule_trackers Rows.get_trackers_to_schedule
  schedule_trackers-AllLinked w d h =
      let rows : List TrackerRow =
        order_by (λ r. r.tracker.updated_at) (keep to_schedule w.trackers) in
      schedule_each-IsReady (map (λ r. r.tracker) rows) w (record {
        kept = h;
        needed =
            All-map_tracker (λ t. Needs w.trackers t.id) rows
              (order_by-All (λ r. Needs w.trackers (row_id r)) (λ r. r.tracker.updated_at)
                (keep to_schedule w.trackers) (to_schedule-Needs w.trackers d));
      })
