-- ===== src/Tasks/Api.antt =====
-- src/tasks/api_ext.rs and src/tasks/database_ext.rs: scheduling a task.
use retrack.Prelude.{◌==◌, if◌then◌else◌, any, List, [], ◌∷◌, ◌++◌}
use retrack.Error.{ok, err, unknown, cannot_write}
use retrack.Exec.{◌>>=◌, ◌>>◌, Exec, pure}
use retrack.Types.{OffsetDateTime}
use retrack.Tasks.Task.{Task, TaskType}
use retrack.Env.{Env}
use retrack.Db.{World, observe}

abbrev pub with_tasks : List Task → World → World
with_tasks rows w = record w { tables = record w.tables { tasks = rows } }

-- Database::insert_task
unfoldable pub insert_task : Task → Exec World Unit
insert_task t w =
    if any (λ r. r.id == t.id) w.tasks
    then (err (unknown cannot_write), w)
    else (ok tt, with_tasks (w.tasks ++ t ∷ []) w)

-- TasksApi::schedule_task
unfoldable pub schedule_task : Env → TaskType → OffsetDateTime → Exec World Task
unfolding insert_task
schedule_task env task_type scheduled_at = do
  id ← observe env.now_v7
  let t : Task = record { id = id; task_type = task_type; scheduled_at = scheduled_at }
  insert_task t
  pure t
