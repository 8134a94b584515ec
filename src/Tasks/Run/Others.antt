-- ===== src/Tasks/Run/Others.antt =====
-- Executing tasks leaves the table `trackers` alone.
use retrack.Prelude.{
  ltb, leb, Bool-cases, Option-cases, length, last?, find, ℕ, zero, suc, min, ◌==◌, ◌≡◌, refl, sym,
  ap, ◌∙◌, Bool, inl, inr, ◌||◌, some, List, [], ◌∷◌, arith,
}
use retrack.Error.{Result, ok, err}
use retrack.Types.{Uuid, OffsetDateTime}
use retrack.Env.{Env}
use retrack.Db.{World}
use retrack.Db.Paging.{last_key}
use retrack.Tasks.Task.{Task, TaskType, email, http, EmailTaskType}
use retrack.Tasks.Template.{into_email}
use retrack.Tasks.Run.{
  Delivery, task_id, get_task, remove_task, tasks_page, max_tasks_page_size, send_email_with,
  send_email, send_http_request, execute_type, execute_task, settle, run_task, run_page, run_pages,
  execute_pending_tasks,
}

module _ (env : Env) (delivery : Delivery) where
  send_email-trackers :
      (t : EmailTaskType) (at : OffsetDateTime) (w : World)
      → (send_email env delivery t at w).1.trackers ≡ w.trackers
  unfolding send_email send_email_with into_email
  send_email-trackers t at w = ground arith

  execute_type-trackers :
      (t : TaskType) (at : OffsetDateTime) (w : World)
      → (execute_type env delivery t at w).1.trackers ≡ w.trackers
  unfolding execute_type send_http_request
  execute_type-trackers (email t) at w = send_email-trackers t at w
  execute_type-trackers (http t) at w = ground arith

  settle-trackers :
      (n : ℕ) (id : Uuid) (r : Result Unit) (w : World)
      → (settle env delivery n id r w).1.trackers ≡ w.trackers
  unfolding remove_task
  settle-trackers n id (ok u) w = refl
  settle-trackers n id (err e) w = refl

  run_task-trackers :
      (n : ℕ) (id : Uuid) (w : World) → (run_task env delivery n id w).1.trackers ≡ w.trackers
  unfolding run_task get_task
  run_task-trackers n id w = elim (Option-cases (find (λ (x : Task). x.id == id) w.tasks)) [
    | inl e ↦ rw (e, run_task) refl
    | inr (t, e) ↦
        rw (e, run_task)
          (settle-trackers n t.id (execute_task env delivery t w).0
              (execute_task env delivery t w).1
            ∙ execute_type-trackers t.task_type t.scheduled_at w)
  ]

  run_page-trackers :
      (limit n : ℕ) (ts : List Task) (w : World)
      → (run_page env delivery limit n ts w).1.trackers ≡ w.trackers
  unfolding run_page
  run_page-trackers limit n [] w = refl
  run_page-trackers limit n (t ∷ ts) w =
      let (n', w') = run_task env delivery n t.id w in
      elim (Bool-cases (leb limit (run_task env delivery n t.id w).0)) [
        | inl met ↦ rw met (run_task-trackers n t.id w)
        | inr more ↦ rw more (run_page-trackers limit n' ts w' ∙ run_task-trackers n t.id w)
      ]

  run_pages-trackers :
      (fuel now limit n last : ℕ) (w : World) (after : ℕ × World)
      → run_pages env delivery fuel now limit n last w ≡ some after
      → after.1.trackers ≡ w.trackers
  unfolding run_pages
  run_pages-trackers zero now limit n last w after = λ h. cc
  run_pages-trackers (suc fuel) now limit n last w after =
      let rows : List Task = tasks_page now last (min max_tasks_page_size limit) w.tasks in
      let out : (ℕ × Bool) × World = run_page env delivery limit n rows w in
      let kept = run_page-trackers limit n rows w in
      elim (Bool-cases (out.0.1 || ltb (length rows) (min max_tasks_page_size limit))) [
        | inl e ↦ rw e (λ h.
            let done : (out.0.0, out.1) ≡ after = ground arith in
            ap (λ (x : ℕ × World). x.1.trackers) (sym done) ∙ kept)
        | inr e ↦ rw e (λ h.
            run_pages-trackers fuel now limit out.0.0 (last_key task_id last (last? rows)) out.1
              after h
            ∙ kept)
      ]

  -- A run of the pending tasks that ends has left the table `trackers` as it was.
  pub execute_pending_tasks-trackers :
      (fuel limit : ℕ) (w : World) (count : ℕ) (w' : World)
      → execute_pending_tasks env delivery fuel limit w ≡ some (count, w')
      → w'.trackers ≡ w.trackers
  unfolding execute_pending_tasks
  execute_pending_tasks-trackers fuel limit w count w' h =
      run_pages-trackers fuel (env.now_utc w.moment) limit 0 0 (record w { moment = suc w.moment })
        (count, w') h
