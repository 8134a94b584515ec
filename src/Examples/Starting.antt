-- ===== src/Examples/Starting.antt =====
-- The theorems on the start of the scheduler and on refused requests at concrete inputs, and tests.
use retrack.Prelude.{◌≡◌, refl, none, [], arith}
use retrack.Error.{ok}
use retrack.Db.Paging.{order_by, page}
use retrack.Scheduler.Job.{is_unique, tasks_run}
use retrack.Scheduler.Resume.{
  job_id, meta_of, try_resume, resume_one, resume_list, resume_pages, start,
}
use retrack.Scheduler.UniqueJobs.{
  try_resume_tasks_run, create_trackers_schedule, create_trackers_run,
}
use retrack.Scheduler.Resume.Laws.{Removes, Restores, Adds}
use retrack.Scheduler.Resume.JobRows.{tally}
use retrack.Scheduler.Resume.Paged.{resume_pages-eq-list}
use retrack.Scheduler.Resume.Unique.{start_unique}
use retrack.Server.{api_update, serve}
use retrack.Server.Atomic.{refused_request-Frame}
use retrack.Trackers.Api.{update_tracker}
use retrack.Db.Trackers.{get_tracker}
use retrack.Examples.Data.{
  demo_env, starting_env, demo_world, starting_world, demo_printing, disable,
}

removes : Removes starting_env
removes id rows rows' e = ground arith

restores : Restores starting_env
restores m job rows rows' there e = ground arith

adds : Adds starting_env
adds m job id rows rows' e = ground arith

-- the job of the larger id and the one that cannot be read are removed, and two jobs are added
started : (start starting_env 9 starting_world).0 ≡ ok tt
unfolding start resume_list page order_by resume_one meta_of try_resume try_resume_tasks_run
    is_unique create_trackers_schedule create_trackers_run
started = refl

resume_pages-eq-list_example :
    resume_pages starting_env 9 0 [] starting_world
    ≡ resume_list starting_env [] (order_by job_id starting_world.scheduler_jobs) starting_world
resume_pages-eq-list_example =
    resume_pages-eq-list starting_env removes restores 9 starting_world (omega arith) (omega arith)
      (omega arith)

start_unique_example : tally tasks_run (start starting_env 9 starting_world).1.scheduler_jobs ≡ 1
unfolding is_unique
start_unique_example =
    start_unique starting_env removes restores adds tasks_run 9 starting_world refl (omega arith)
      (omega arith) (omega arith) started

-- a tracker that is not there
refused_request-Frame_example :
    (serve demo_env demo_printing "1" (λ m. none) (api_update 2 disable) demo_world).1.tables
    ≡ demo_world.tables
unfolding serve update_tracker get_tracker
refused_request-Frame_example =
    refused_request-Frame demo_env demo_printing "1" (λ m. none) (api_update 2 disable) demo_world
      refl (omega arith)
