-- ===== src/Examples/Composing.antt =====
-- The theorems that join the schedule job, the run job and the start of the scheduler at concrete
-- inputs, with those on emails and on the values of a revision, and tests of the parsers.
use retrack.Prelude.{last?, map, ℕ, ◌+◌, ◌≡◌, refl, none, some, true, [], ◌∷◌, arith}
use retrack.Types.{Tracker}
use retrack.Db.Trackers.{update_tracker_job, update_where}
use retrack.Scheduler.Job.{RawSchedulerJobStoredData, undecodable}
use retrack.Scheduler.ScheduleJob.{schedule_tracker, create_trigger}
use retrack.Scheduler.ScheduleJob.Pending.{IsPendingSoon, schedule_tracker-pending}
use retrack.Scheduler.Resume.{meta_of, resume_one}
use retrack.Scheduler.Resume.Laws.{Removes, Adds}
use retrack.Scheduler.Resume.Unreadable.{IsLost, resume_one-IsLost}
use retrack.Scheduler.RunJob.{run_pages}
use retrack.System.RunEnds.{run_pages-ends}
use retrack.Env.{Env}
use retrack.Db.{World}
use retrack.Tasks.Task.{Task, email, EmailTaskType, template, tracker_changes, changed, failed}
use retrack.Tasks.Template.{
  subject_of, text_of, html_of, html_with_attachments, tracker_changes_email, compile_to_email,
  into_email,
}
use retrack.Types.DataValue.{TrackerDataValue, into_iter, size, value, sum}
use retrack.Types.DataValue.Items.{into_iter_all}
use retrack.Tasks.Run.{get_task, remove_task, execute_type, send_email, send_email_with, run_task}
use retrack.Tasks.Run.Delivers.{IsDelivered, run_task-delivers}
use retrack.Trackers.Parsers.{readable_rows, csv_parse}
use retrack.Examples.Data.{
  demo_env, demo_world, demo_tracker, demo_job, demo_delivery, doubling, unscheduled_world,
}

adds : Adds demo_env
adds m job id rows rows' e = ground arith

removes : Removes demo_env
removes id rows rows' e = ground arith

abbrev unscheduled : Tracker
unscheduled = record demo_tracker { job_id = none }

schedule_tracker-pending_example :
    IsPendingSoon 1 (schedule_tracker demo_env unscheduled unscheduled_world).1
unfolding schedule_tracker create_trigger update_tracker_job update_where
schedule_tracker-pending_example =
    schedule_tracker-pending demo_env adds unscheduled
      (record { schedule = "@hourly"; retry_strategy = some doubling }) unscheduled_world refl refl
      refl

abbrev unreadable : RawSchedulerJobStoredData
unreadable = record demo_job { extra = some undecodable }

-- the tracker of the table refers to the job that is removed
resume_one-IsLost_example : IsLost 7 demo_world (resume_one demo_env [] unreadable demo_world).1
unfolding meta_of resume_one
resume_one-IsLost_example = resume_one-IsLost demo_env removes [] [] unreadable demo_world refl refl

run_pages-ends_example : run_pages demo_env 2 0 demo_world ≡ run_pages demo_env 9 0 demo_world
run_pages-ends_example = run_pages-ends demo_env 2 9 demo_world (omega arith) (omega arith)

-- the record that cannot be read is passed over
parsed_rows : readable_rows (demo_env.csv_records []) ≡ ("a" ∷ []) ∷ ("b" ∷ []) ∷ []
unfolding readable_rows
parsed_rows = refl

parsed_length : csv_parse demo_env [] ≡ some (2 ∷ [])
unfolding csv_parse readable_rows
parsed_length = refl

-- a mail of the tracker's template, caught by the address that catches all mail
abbrev mail_env : Env
mail_env = record demo_env {
  config = record demo_env.config {
    smtp = some (record {
      username = "retrack@retrack.dev";
      catch_all = some (record { recipient = "all@retrack.dev"; text_matcher = λ t. true });
    });
  };
}

abbrev mail : EmailTaskType
mail = record {
  to = "dev@retrack.dev" ∷ [];
  content = template (tracker_changes "page" (failed "no answer"));
}

abbrev mail_task : Task
mail_task = record { id = 3; task_type = email mail; scheduled_at = 4 }

abbrev mail_world : World
mail_world = record demo_world { tables = record demo_world.tables { tasks = mail_task ∷ [] } }

run_task-delivers_example : IsDelivered mail_env demo_delivery mail 4 mail_world
unfolding run_task get_task execute_type send_email send_email_with into_email compile_to_email
    tracker_changes_email html_of html_with_attachments remove_task
run_task-delivers_example =
    run_task-delivers mail_env demo_delivery 0 3 mail_task mail mail_world refl refl refl

texts :
    (subject_of demo_delivery.templates "page" (failed "no answer")
      ≡ "[Retrack] Check failed: \"page\"")
    × (text_of demo_delivery.templates "page" (changed "new")
        ≡ "\"page\" tracker detected content changes. Visit http://localhost:1234/ws/web_scraping__content to learn more.")
unfolding subject_of text_of
texts = (refl, refl)

-- a value of 3 digits that became one of 2 digits, and then one of 1
abbrev shortened : TrackerDataValue ℕ
shortened = record { original = 3; mods = some (2 ∷ 1 ∷ []) }

into_iter_all_example :
    (into_iter shortened ≡ 3 ∷ 2 ∷ 1 ∷ [])
    × (size (λ n. n) shortened ≡ 3 + sum (map (λ n. n) (2 ∷ 1 ∷ [])))
    × (last? (into_iter shortened) ≡ some (value shortened))
into_iter_all_example = into_iter_all (λ n. n) shortened
