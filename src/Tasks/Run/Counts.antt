-- ===== src/Tasks/Run/Counts.antt =====
-- What executing the tasks that are due does to the table `tasks`, and that it ends.
use retrack.Prelude.{
  ltb, leb, ◌==◌, Bool-cases, Option-cases, length, last?, keep, find, All, ℕ, zero, suc, ◌+◌, min,
  ◌≤◌, ◌<◌, ◌≡◌, ◌≢◌, refl, sym, ap, subst, inl, inr, Bool, false, not, ◌||◌, some, List, [], ◌∷◌,
  arith,
}
use retrack.Error.{Result, ok, err}
use retrack.Types.{Uuid, OffsetDateTime}
use retrack.Env.{Env}
use retrack.Db.{World}
use retrack.Db.Paging.{last_key}
use retrack.Db.Paging.Complete.{Distinct, keep-Distinct}
use retrack.Tasks.Task.{Task, TaskType, email, http, EmailTaskType}
use retrack.Tasks.Template.{into_email}
use retrack.Tasks.Run.{
  Delivery, task_id, get_task, remove_task, tasks_page, max_tasks_page_size, send_email_with,
  send_email, send_http_request, execute_type, execute_task, settle, run_task, run_page, run_pages,
  execute_pending_tasks,
}

-- the rows behind one execution, and the accounts
record Accounts (before : ℕ × World) (after : ℕ × World) : Type 0 where
  total : after.0 + length after.1.tasks ≡ before.0 + length before.1.tasks
  distinct : Distinct task_id after.1.tasks

keep_others :
    (id : Uuid) (ts : List Task)
    → All (λ x. task_id x ≢ id) ts
    → length (keep (λ (x : Task). not (x.id == id)) ts) ≡ length ts
keep_others id [] h = refl
keep_others id (x ∷ ts) h = ground (arith, keep_others id ts h.1)

remove_one :
    (id : Uuid) (ts : List Task) (t : Task)
    → Distinct task_id ts
    → find (λ (x : Task). x.id == id) ts ≡ some t
    → length (keep (λ (x : Task). not (x.id == id)) ts) + 1 ≡ length ts
remove_one id [] t d e = cc
remove_one id (x ∷ ts) t d e = elim (Bool-cases (x.id == id)) [
  | inl here ↦
      let same : task_id x ≡ id = ground arith in
      let others = keep_others id ts (subst (λ (k : ℕ). All (λ y. task_id y ≢ k) ts) same d.0) in
      rw here (omega (arith, others))
  | inr there ↦ let rest = remove_one id ts t d.1 (ground arith) in rw there (omega (arith, rest))
]

pub find_id :
    (id : Uuid) (ts : List Task) (t : Task)
    → find (λ (x : Task). x.id == id) ts ≡ some t
    → t.id ≡ id
find_id id [] t e = cc
find_id id (x ∷ ts) t e = elim (Bool-cases (x.id == id)) [
  | inl here ↦ ground arith
  | inr there ↦ find_id id ts t (ground arith)
]

module _ (env : Env) (delivery : Delivery) where
  send_email-tasks :
      (t : EmailTaskType) (at : OffsetDateTime) (w : World)
      → (send_email env delivery t at w).1.tasks ≡ w.tasks
  unfolding send_email send_email_with into_email
  send_email-tasks t at w = ground arith

  pub execute_type-tasks :
      (t : TaskType) (at : OffsetDateTime) (w : World)
      → (execute_type env delivery t at w).1.tasks ≡ w.tasks
  unfolding execute_type send_http_request
  execute_type-tasks (email t) at w = send_email-tasks t at w
  execute_type-tasks (http t) at w = ground arith

  settle-Accounts :
      (n : ℕ) (t : Task) (r : Result Unit) (w : World)
      → Distinct task_id w.tasks
      → find (λ (x : Task). x.id == t.id) w.tasks ≡ some t
      → Accounts (n, w) (settle env delivery n t.id r w)
  unfolding remove_task
  settle-Accounts n t (err e) w d found = record { total = refl; distinct = d }
  settle-Accounts n t (ok u) w d found = record {
    total = omega (arith, remove_one t.id w.tasks t d found);
    distinct = keep-Distinct task_id (λ (x : Task). not (x.id == t.id)) w.tasks d;
  }

  run_task-Accounts :
      (n : ℕ) (id : Uuid) (w : World)
      → Distinct task_id w.tasks
      → Accounts (n, w) (run_task env delivery n id w)
  unfolding run_task get_task
  run_task-Accounts n id w d = elim (Option-cases (find (λ (x : Task). x.id == id) w.tasks)) [
    | inl e ↦ rw (e, run_task) (record { total = refl; distinct = d })
    | inr (t, e) ↦
        let (r, w') = execute_task env delivery t w in
        let same : (execute_task env delivery t w).1.tasks ≡ w.tasks =
          execute_type-tasks t.task_type t.scheduled_at w in
        let its_id : t.id ≡ id = find_id id w.tasks t e in
        let accounts =
          settle-Accounts n t (execute_task env delivery t w).0 (execute_task env delivery t w).1
            (subst (Distinct task_id) (sym same) d)
            (subst
              (λ (k : ℕ).
                find (λ (x : Task). x.id == k) (execute_task env delivery t w).1.tasks ≡ some t)
              (sym its_id)
              (subst (λ (l : List Task). find (λ (x : Task). x.id == id) l ≡ some t) (sym same)
                e)) in
        rw (e, run_task)
          (record {
            total = omega (arith, accounts.total, ap (λ (x : List Task). length x) same);
            distinct = accounts.distinct;
          })
  ]

  run_task-le : (n : ℕ) (id : Uuid) (w : World) → (run_task env delivery n id w).0 ≤ n + 1
  unfolding run_task get_task
  run_task-le n id w = elim (Option-cases (find (λ (x : Task). x.id == id) w.tasks)) [
    | inl e ↦ rw (e, run_task) (omega arith)
    | inr (t, e) ↦
        rw (e, run_task)
          (settled t (execute_task env delivery t w).0 (execute_task env delivery t w).1)
  ]
    where
      settled :
          (t : Task) (r : Result Unit) (w' : World) → (settle env delivery n t.id r w').0 ≤ n + 1
      settled t (ok u) w' = omega arith
      settled t (err e) w' = omega arith

  Accounts-trans : {a b c : ℕ × World} → Accounts a b → Accounts b c → Accounts a c
  Accounts-trans p q = record { total = omega (arith, p.total, q.total); distinct = q.distinct }

  run_page-Accounts :
      (limit n : ℕ) (ts : List Task) (w : World)
      → Distinct task_id w.tasks
      → let ((n', stop), w') = run_page env delivery limit n ts w in
        Accounts (n, w) (n', w') × (n < limit → (n' ≤ limit) × (stop ≡ false → n' < limit))
  unfolding run_page
  run_page-Accounts limit n [] w d =
      (record { total = refl; distinct = d }, λ h. (omega arith, λ e. h))
  run_page-Accounts limit n (t ∷ ts) w d =
      let one = run_task-Accounts n t.id w d in
      let step = run_task-le n t.id w in
      let rest =
        run_page-Accounts limit (run_task env delivery n t.id w).0 ts
          (run_task env delivery n t.id w).1 one.distinct in
      elim (Bool-cases (leb limit (run_task env delivery n t.id w).0)) [
        | inl e ↦ rw e (one, λ h. (omega arith, λ k. cc))
        | inr e ↦ rw e (Accounts-trans one rest.0, λ h. rest.1 (ground arith))
      ]

  run_pages-Accounts :
      (fuel : ℕ) (now : OffsetDateTime) (limit n last : ℕ) (w : World) (after : ℕ × World)
      → Distinct task_id w.tasks
      → n < limit
      → run_pages env delivery fuel now limit n last w ≡ some after
      → Accounts (n, w) after × (after.0 ≤ limit)
  unfolding run_pages
  run_pages-Accounts zero now limit n last w after d h = λ e. cc
  run_pages-Accounts (suc fuel) now limit n last w after d h =
      let page_size = min max_tasks_page_size limit in
      let rows : List Task = tasks_page now last page_size w.tasks in
      let page = run_page-Accounts limit n rows w d in
      let after_page : (ℕ × Bool) × World = run_page env delivery limit n rows w in
      elim (Bool-cases (after_page.0.1 || ltb (length rows) page_size)) [
        | inl e ↦ rw e (λ q.
            let done : (after_page.0.0, after_page.1) ≡ after = ground arith in
            subst (λ (x : ℕ × World). Accounts (n, w) x × (x.0 ≤ limit)) done
              (page.0, (page.1 h).0))
        | inr e ↦ rw e (λ q.
            let goes_on : after_page.0.1 ≡ false = ground arith in
            let rest =
              run_pages-Accounts fuel now limit after_page.0.0 (last_key task_id last (last? rows))
                after_page.1 after page.0.distinct ((page.1 h).1 goes_on) q in
            (Accounts-trans page.0 rest.0, rest.1))
      ]

  -- Where the ids of the tasks are distinct and the limit is not 0, a run of the pending tasks that
  -- ends has executed no more tasks than the limit, and has removed from the table exactly as many
  -- tasks as it counts as executed.
  pub execute_pending_tasks-counts :
      (fuel limit : ℕ) (w : World) (n : ℕ) (w' : World)
      → Distinct task_id w.tasks
      → 0 < limit
      → execute_pending_tasks env delivery fuel limit w ≡ some (n, w')
      → (n ≤ limit) × (n + length w'.tasks ≡ length w.tasks)
  unfolding execute_pending_tasks
  execute_pending_tasks-counts fuel limit w n w' d h e =
      let all =
        run_pages-Accounts fuel (env.now_utc w.moment) limit 0 0
          (record w { moment = suc w.moment }) (n, w') d h e in
      (all.1, omega (arith, all.0.total))
