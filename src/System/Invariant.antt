-- ===== src/System/Invariant.antt =====
-- The invariant of the table `trackers` in every state that the program reaches.
use retrack.Prelude.{is_empty, ◌||◌, All, All-keep, true, not, none, subst, sym, List, String}
use retrack.Exec.{Exec}
use retrack.Exec.Keeps.{Keeps, Keeps-bind, keeps_rules}
use retrack.Types.{Uuid}
use retrack.Env.{Env}
use retrack.Db.{World, TrackerRow}
use retrack.Db.Trackers as Rows
use retrack.Db.Trackers.{update_where, set_job}
use retrack.Db.Jobs.{reset_scheduler_job_state}
use retrack.Db.Paging.Complete.{Distinct, keep-Distinct}
use retrack.Scheduler.ScheduleJob.Linked.{row_id, schedule_trackers-AllLinked}
use retrack.Trackers.Api.{remove_trackers, filter_tags}
use retrack.Trackers.Api.Linked.{
  IsLinked, AllLinked, create_tracker-AllLinked, update_tracker-AllLinked,
}
use retrack.Trackers.Revise.{create_tracker_data_revision}
use retrack.Trackers.Revise.Keeps.{OfTrackers, create_tracker_data_revision-Keeps}
use retrack.System.{
  Step, create, update, remove, remove_all, check, clear, schedule, trigger, run, tasks, start,
  Reach, here, next,
}
use retrack.Tasks.Run.Others.{execute_pending_tasks-trackers}
use retrack.System.Ids.{DistinctIds, set_job-DistinctIds}
use retrack.System.Methods.{
  create_tracker-DistinctIds, update_tracker-DistinctIds, schedule_trackers-DistinctIds,
}
use retrack.System.Process.{process-Keeps, set_none-AllLinked, reset-Keeps}
use retrack.System.Start.{start-Keeps}
use retrack.Db.Revisions.{clear_tracker_data}

-- Every row's column and job are as its tracker asks, and no two rows have one id.
pub record IsConsistent (w : World) : Type 0 where
  pub linked : AllLinked w
  pub distinct : DistinctIds w

filter_tags-Keeps :
    {P : World → Type 0} (env : Env) (tags : List String) → Keeps P (filter_tags env tags)
unfolding filter_tags
filter_tags-Keeps env tags = search keeps_rules

remove_rows :
    (env : Env) (tags : List String) (w : World)
    → IsConsistent w
    → IsConsistent (Rows.remove_trackers env tags w).1
unfolding Rows.remove_trackers
remove_rows env tags w h = record {
  linked =
      All-keep IsLinked (λ r. not (is_empty tags || Rows.contains_tags env tags r)) w.trackers
        h.linked;
  distinct =
      keep-Distinct row_id (λ r. not (is_empty tags || Rows.contains_tags env tags r)) w.trackers
        h.distinct;
}

remove_trackers-IsConsistent :
    (env : Env) (tags : List String) → Keeps IsConsistent (remove_trackers env tags)
unfolding remove_trackers
remove_trackers-IsConsistent env tags =
    Keeps-bind (filter_tags env tags) (Rows.remove_trackers env) (filter_tags-Keeps env tags)
      (λ normalized. record { at = remove_rows env normalized })

remove_tracker-IsConsistent : (id : Uuid) → Keeps IsConsistent (Rows.remove_tracker id)
unfolding Rows.remove_tracker
remove_tracker-IsConsistent id = record {
  at = λ w h. record {
    linked = All-keep IsLinked (λ r. not (Rows.has_id id r)) w.trackers h.linked;
    distinct = keep-Distinct row_id (λ r. not (Rows.has_id id r)) w.trackers h.distinct;
  };
}

-- a method that keeps every property of the table
of_trackers :
    {A : Type 0} (m : Exec World A)
    → ((Q : List TrackerRow → Type 0) → Keeps (OfTrackers Q) m)
    → Keeps IsConsistent m
of_trackers m k = record {
  at = λ w h. record {
    linked = (k (All IsLinked)).at w h.linked;
    distinct = (k (Distinct row_id)).at w h.distinct;
  };
}

clear-Keeps :
    (Q : List TrackerRow → Type 0) (id : Uuid) → Keeps (OfTrackers Q) (clear_tracker_data id)
unfolding clear_tracker_data
clear-Keeps Q id = record { at = λ w h. h }

Step-IsConsistent : {env : Env} {w w' : World} → Step env w w' → IsConsistent w → IsConsistent w'
Step-IsConsistent {env} (create params w) h = record {
  linked = create_tracker-AllLinked env params w h.linked;
  distinct = (create_tracker-DistinctIds env params).at w h.distinct;
}
Step-IsConsistent {env} (update id params w) h = record {
  linked = update_tracker-AllLinked env id params w h.linked;
  distinct = (update_tracker-DistinctIds env id params).at w h.distinct;
}
Step-IsConsistent (remove id w) h = (remove_tracker-IsConsistent id).at w h
Step-IsConsistent {env} (remove_all tags w) h = (remove_trackers-IsConsistent env tags).at w h
Step-IsConsistent {env} (check id w) h =
    (of_trackers (create_tracker_data_revision env id)
        (λ Q. create_tracker_data_revision-Keeps Q env id)).at
      w h
Step-IsConsistent (clear id w) h =
    (of_trackers (clear_tracker_data id) (λ Q. clear-Keeps Q id)).at w h
Step-IsConsistent {env} (schedule w) h = record {
  linked = schedule_trackers-AllLinked env w h.distinct h.linked;
  distinct = (schedule_trackers-DistinctIds env).at w h.distinct;
}
Step-IsConsistent (trigger job w) h =
    (of_trackers (reset_scheduler_job_state job true) (λ Q. reset-Keeps Q job true)).at w h
Step-IsConsistent {env} (run t w) h = record {
  linked = (process-Keeps (All IsLinked) env set_none-AllLinked t).at w h.linked;
  distinct =
      (process-Keeps (Distinct row_id) env (λ id. set_job-DistinctIds id none) t).at w h.distinct;
}
Step-IsConsistent {env} (tasks delivery fuel limit count w {w'} e) h =
    let same = execute_pending_tasks-trackers env delivery fuel limit w count w' e in
    record {
      linked = subst (All IsLinked) (sym same) h.linked;
      distinct = subst (Distinct row_id) (sym same) h.distinct;
    }
Step-IsConsistent {env} (start fuel w) h = record {
  linked = (start-Keeps (All IsLinked) env set_none-AllLinked fuel).at w h.linked;
  distinct =
      (start-Keeps (Distinct row_id) env (λ id. set_job-DistinctIds id none) fuel).at w h.distinct;
}

-- In every state that the operations of the API, the rounds of the jobs and the starts of the
-- scheduler reach, in any order and whether each succeeds or fails, from a state in which it holds:
-- the column job_needed of every row of `trackers` is what the row's tracker asks for, only a row
-- that needs a job refers to one, and no two rows have one id.
pub Reach-IsConsistent :
    {env : Env} {first w : World} → Reach env first w → IsConsistent first → IsConsistent w
Reach-IsConsistent here h = h
Reach-IsConsistent (next r s) h = Step-IsConsistent s (Reach-IsConsistent r h)
