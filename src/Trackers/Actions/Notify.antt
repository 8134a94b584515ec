-- ===== src/Trackers/Actions/Notify.antt =====
-- One task for each notifying action, exactly when the data has changed.
use retrack.Prelude.{
  if◌then◌else◌, Option-cases, length, length-snoc, ℕ, suc, ◌+◌, ◌-◌, ◌%◌, ◌≡◌, refl, inl, inr,
  true, false, Option, List, [], ◌∷◌, arith,
}
use retrack.Error.{ok, Result, err}
use retrack.Exec.{for_each}
use retrack.Types.{Tracker, TrackerAction, email, webhook, server_log, Json, OffsetDateTime}
use retrack.Types.DataValue.{TrackerDataValue, value}
use retrack.Tasks.Task.{TaskType, Task}
use retrack.Tasks.Api.{schedule_task}
use retrack.Env.{Env}
use retrack.Db.{World, utc_now}
use retrack.Trackers.Actions.{
  has_changed, send_email, send_webhook, execute_tracker_action, email_task, http_task,
}

-- What an action leaves alone.
pub record SameRows (v w : World) : Type 0 where
  pub trackers : w.trackers ≡ v.trackers
  pub trackers_data : w.trackers_data ≡ v.trackers_data
  pub scheduler_jobs : w.scheduler_jobs ≡ v.scheduler_jobs

abbrev pub notifications : TrackerAction → ℕ
notifications (email _) = 1
notifications (webhook _) = 1
notifications server_log = 0

abbrev pub count_notifications : List TrackerAction → ℕ
count_notifications [] = 0
count_notifications (a ∷ as') = notifications a + count_notifications as'

abbrev succeeded : {A : Type 0} → Result A → ℕ
succeeded (ok a) = 1
succeeded (err e) = 0

module _ (env : Env) where
  schedule_task-SameRows :
      (k : TaskType) (at : OffsetDateTime) (w : World) → SameRows w (schedule_task env k at w).1
  unfolding schedule_task
  schedule_task-SameRows k at w = ground arith

  length-schedule_task :
      (k : TaskType) (at : OffsetDateTime) (w : World)
      → length (schedule_task env k at w).1.tasks
        ≡ length w.tasks + succeeded (schedule_task env k at w).0
  unfolding schedule_task
  length-schedule_task k at w =
      let t : Task = record { id = env.now_v7 w.moment; task_type = k; scheduled_at = at } in
      ground (arith, length-snoc w.tasks t)

  module _ (t : Tracker) (latest : TrackerDataValue Json)
      (previous : Option (TrackerDataValue Json)) where
    action-SameRows :
        (a : TrackerAction) (w : World)
        → SameRows w (execute_tracker_action env t latest previous a w).1
    unfolding execute_tracker_action schedule_task utc_now send_email send_webhook
    action-SameRows a w = ground arith

    pub actions-SameRows :
        (xs : List TrackerAction) (w : World)
        → SameRows w (for_each (execute_tracker_action env t latest previous) xs w).1
    unfolding for_each
    actions-SameRows [] w = record { trackers = refl; trackers_data = refl; scheduler_jobs = refl }
    actions-SameRows (a ∷ xs) w = ground (
      arith,
      action-SameRows a w,
      actions-SameRows xs (execute_tracker_action env t latest previous a w).1,
    )

    length-action :
        (a : TrackerAction) (w : World)
        → has_changed latest previous ≡ true
        → (execute_tracker_action env t latest previous a w).0 ≡ ok tt
        → length (execute_tracker_action env t latest previous a w).1.tasks
          ≡ length w.tasks + notifications a
    unfolding execute_tracker_action utc_now send_email send_webhook
    length-action (email a) w c h = ground (
      arith,
      length-schedule_task (email_task env t a (value latest))
          (env.now_utc w.moment - env.now_utc w.moment % 1000) (record w { moment = suc w.moment }),
    )
    length-action (webhook a) w c h = elim (Option-cases (env.json_to_vec (value latest))) [
      | inl e ↦ absurd (ground arith)
      | inr (body, e) ↦ ground (
        arith,
        length-schedule_task (http_task env a body)
            (env.now_utc w.moment - env.now_utc w.moment % 1000)
            (record w { moment = suc w.moment }),
      )
    ]
    length-action server_log w c h = omega arith

    unchanged_action :
        (a : TrackerAction) (w : World)
        → has_changed latest previous ≡ false
        → execute_tracker_action env t latest previous a w ≡ (ok tt, w)
    unfolding execute_tracker_action
    unchanged_action a w c = ground arith

    -- The actions of a tracker that all succeed schedule one task for each email and each webhook,
    -- if the value differs from the previous one, and none if it does not.
    pub length-actions :
        (xs : List TrackerAction) (w : World)
        → (for_each (execute_tracker_action env t latest previous) xs w).0 ≡ ok tt
        → length (for_each (execute_tracker_action env t latest previous) xs w).1.tasks
          ≡ length w.tasks + (if has_changed latest previous then count_notifications xs else 0)
    unfolding for_each
    length-actions [] w h = ground arith
    length-actions (a ∷ xs) w h = ground (
      arith,
      length-action a w,
      unchanged_action a w,
      length-actions xs (execute_tracker_action env t latest previous a w).1,
    )
