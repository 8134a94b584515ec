-- ===== src/Examples/Running.antt =====
-- The theorems on sequences of operations, on fetching and on the execution of tasks at concrete
-- inputs.
use retrack.Trackers.Diff.{
  tracker_data_revisions_diff, diff_newest_first, diff_of, rev_onto, pretty_print, AreDiffs,
  tracker_data_revisions_diff-AreDiffs,
}
use retrack.Trackers.History.{get_tracker_data, stored_rows, Shown, get_tracker_data-answers}
use retrack.Types.DataValue.{new, value}
use retrack.Error.{ok, err, unknown, response_failed}
use retrack.Types.{TrackerDataRevision}
use retrack.Network.IpAddrExt.{v4, is_global}
use retrack.Network.IpAddrExt.Blocks.{within, number, special_blocks, is_global-eq-blocks}
use retrack.Prelude.{
  not, any, List, ◌⊎◌, Bool, ℕ, length, ◌+◌, ◌≤◌, ◌≡◌, refl, some, none, [], ◌∷◌, true, arith,
}
use retrack.Db.{World}
use retrack.Db.Trackers.{job_needed}
use retrack.Tasks.Task.{Task, custom, HttpTaskType}
use retrack.Tasks.Task
use retrack.Tasks.Run.{
  execute_pending_tasks, run_pages, run_page, run_task, tasks_page, get_task, remove_task,
  execute_type, send_http_request,
}
use retrack.Tasks.Run.Counts.{execute_pending_tasks-counts}
use retrack.Tasks.Run.Ends.{execute_pending_tasks-ends, zero_limit_loops}
use retrack.Db.Paging.{order_by}
use retrack.Trackers.Api.{update_tracker}
use retrack.Scheduler.RunJob.{process}
use retrack.System.{update, run, schedule, here, next}
use retrack.System.Invariant.{IsConsistent, Reach-IsConsistent}
use retrack.Scheduler.ScheduleJob.{schedule_trackers}
use retrack.Examples.Data.{
  demo_delivery, demo_printing, revision, demo_env, demo_tracker, demo_world, disable,
}

demo-IsConsistent : IsConsistent demo_world
unfolding job_needed
demo-IsConsistent = record {
  linked = (record { column = refl; linked = λ e. refl }, tt);
  distinct = (tt, tt);
}

-- the run job takes up the tracker, a client switches it off, the schedule job comes round
Reach-IsConsistent_example :
    IsConsistent
      (schedule_trackers demo_env
        (update_tracker demo_env 1 disable (process demo_env demo_tracker demo_world).1).1).1
Reach-IsConsistent_example =
    Reach-IsConsistent
      (next
        (next (next here (run demo_tracker demo_world))
          (update 1 disable (process demo_env demo_tracker demo_world).1))
        (schedule
          (update_tracker demo_env 1 disable (process demo_env demo_tracker demo_world).1).1))
      demo-IsConsistent

abbrev request_task : ℕ → Task
request_task id = record {
  id = id;
  task_type = Task.http (record { url = "u"; method = "POST"; headers = none; body = none });
  scheduled_at = 4;
}

abbrev tasks_world : World
tasks_world = record demo_world {
  tables = record demo_world.tables { tasks = request_task 3 ∷ request_task 5 ∷ [] };
}

execute_pending_tasks-counts_example :
    (0 ≤ 10) × (0 + length (request_task 3 ∷ request_task 5 ∷ []) ≡ length tasks_world.tasks)
execute_pending_tasks-counts_example =
    execute_pending_tasks-counts demo_env demo_delivery 3 10 tasks_world 0
      (record tasks_world { moment = 3 }) (((λ e. omega (arith, e)), tt), (tt, tt)) (omega arith)
      (unfold execute_pending_tasks run_pages run_page run_task tasks_page get_task remove_task
          execute_type send_http_request order_by in
        refl)

execute_pending_tasks-ends_example :
    (after : ℕ × World) × (execute_pending_tasks demo_env demo_delivery 3 10 tasks_world
      ≡ some after)
execute_pending_tasks-ends_example =
    execute_pending_tasks-ends demo_env demo_delivery 3 10 tasks_world (omega arith) (omega arith)

zero_limit_loops_example : execute_pending_tasks demo_env demo_delivery 50 0 tasks_world ≡ none
zero_limit_loops_example = zero_limit_loops demo_env demo_delivery 50 tasks_world

tracker_data_revisions_diff-AreDiffs_example :
    AreDiffs demo_printing none
      (revision 11 "a" 10 ∷ revision 13 "b" 12 ∷ [])
      (revision 11 "a" 10 ∷ revision 13 "changed" 12 ∷ [])
tracker_data_revisions_diff-AreDiffs_example =
    tracker_data_revisions_diff-AreDiffs demo_printing
      (revision 11 "a" 10 ∷ revision 13 "b" 12 ∷ [])
      (revision 11 "a" 10 ∷ revision 13 "changed" 12 ∷ [])
      (unfold tracker_data_revisions_diff diff_newest_first diff_of rev_onto pretty_print new
          value in
        refl)

get_tracker_data-answers_example :
    ((out : List TrackerDataRevision) × (get_tracker_data demo_printing 1 true demo_world
        ≡ (ok out, demo_world))
      × Shown demo_printing true (stored_rows demo_printing 1 demo_world) out)
    ⊎ ((◌≡◌ {A = Bool} true true)
        × (tracker_data_revisions_diff demo_printing (stored_rows demo_printing 1 demo_world)
            ≡ none)
        × (get_tracker_data demo_printing 1 true demo_world
            ≡ (err (unknown response_failed), demo_world)))
get_tracker_data-answers_example =
    get_tracker_data-answers demo_printing 1 true demo_world
      (record { tracker = demo_tracker; job_needed = true }) refl

is_global-eq-blocks_example :
    is_global (v4 172 31 0 1) ≡ not (any (within (number 172 31 0 1)) special_blocks)
is_global-eq-blocks_example =
    is_global-eq-blocks 172 31 0 1 (omega arith) (omega arith) (omega arith) (omega arith)
