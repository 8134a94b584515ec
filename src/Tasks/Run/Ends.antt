-- ===== src/Tasks/Run/Ends.antt =====
-- Executing the tasks that are due ends, unless the limit is 0.
use retrack.Prelude.{
  ltb, leb, ◌==◌, Bool-cases, Option-cases, length, last?, keep, find, All, All-take,
  length-keep-le, ℕ, zero, suc, min, ◌≤◌, ◌<◌, ◌≡◌, refl, subst, inl, inr, Bool, true, not, ◌&&◌,
  ◌||◌, none, some, List, [], ◌∷◌, arith,
}
use retrack.Error.{Result, ok, err}
use retrack.Types.{Uuid, OffsetDateTime}
use retrack.Env.{Env}
use retrack.Db.{World}
use retrack.Db.Paging.Complete.{order_by-All, All-map}
use retrack.Tasks.Task.{Task}
use retrack.Tasks.Run.{
  Delivery, task_id, get_task, remove_task, tasks_page, max_tasks_page_size, execute_task, settle,
  run_task, run_page, run_pages, execute_pending_tasks,
}
use retrack.Tasks.Run.Counts.{execute_type-tasks}

-- the tasks behind a position
abbrev behind : ℕ → List Task → ℕ
behind last ts = length (keep (λ (t : Task). ltb last t.id) ts)

behind-le : (a b : ℕ) (ts : List Task) → a ≤ b → behind b ts ≤ behind a ts
behind-le a b [] h = omega arith
behind-le a b (t ∷ ts) h = ground (arith, behind-le a b ts h)

-- from each task behind a position fewer tasks are ahead
abbrev Advances : ℕ → List Task → Task → Type 0
Advances last ts x = ltb last x.id ≡ true → behind x.id ts < behind last ts

Advances-each : (last : ℕ) (ts : List Task) → All (Advances last ts) ts
Advances-each last [] = tt
Advances-each last (t ∷ ts) = (
  (λ h. ground (arith, behind-le last t.id ts)),
  All-map (Advances last ts) (Advances last (t ∷ ts)) (λ x k h. ground (arith, k h)) ts
      (Advances-each last ts),
)

module _ (last : ℕ) (now : OffsetDateTime) (ts : List Task) where
  abbrev due : Task → Bool
  due t = leb t.scheduled_at now && ltb last t.id

  due-Advances :
      (xs : List Task)
      → All (Advances last ts) xs
      → All (λ (x : Task). behind x.id ts < behind last ts) (keep due xs)
  due-Advances [] h = tt
  due-Advances (x ∷ xs) h = elim (Bool-cases (due x)) [
    | inl e ↦ rw e (h.0 (ground arith), due-Advances xs h.1)
    | inr e ↦ rw e (due-Advances xs h.1)
  ]

  page-Advances :
      (size : ℕ) → All (λ (x : Task). behind x.id ts < behind last ts) (tasks_page now last size ts)
  unfolding tasks_page
  page-Advances size =
      All-take (λ (x : Task). behind x.id ts < behind last ts) size _
        (order_by-All (λ (x : Task). behind x.id ts < behind last ts) (λ (t : Task). t.scheduled_at)
          _
          (order_by-All (λ (x : Task). behind x.id ts < behind last ts) task_id _
            (due-Advances ts (Advances-each last ts))))

All-last :
    (P : Task → Type 0) (d : ℕ) (xs : List Task)
    → All P xs
    → 0 < length xs
    → (t : Task) × (last? xs ≡ some t) × P t
All-last P d [] h n = absurd (omega arith)
All-last P d (x ∷ []) h n = (x, refl, h.0)
All-last P d (x ∷ y ∷ xs) h n = All-last P d (y ∷ xs) h.1 (omega arith)

keep-keep-le :
    (p q : Task → Bool) (ts : List Task) → length (keep p (keep q ts)) ≤ length (keep p ts)
keep-keep-le p q [] = omega arith
keep-keep-le p q (t ∷ ts) = ground (arith, keep-keep-le p q ts)

module _ (env : Env) (delivery : Delivery) where
  settle-behind :
      (k n : ℕ) (id : Uuid) (r : Result Unit) (w : World)
      → behind k (settle env delivery n id r w).1.tasks ≤ behind k w.tasks
  unfolding remove_task
  settle-behind k n id (err e) w = omega arith
  settle-behind k n id (ok u) w =
      keep-keep-le (λ (t : Task). ltb k t.id) (λ (t : Task). not (t.id == id)) w.tasks

  run_task-behind :
      (k n : ℕ) (id : Uuid) (w : World)
      → behind k (run_task env delivery n id w).1.tasks ≤ behind k w.tasks
  unfolding run_task get_task
  run_task-behind k n id w = elim (Option-cases (find (λ (x : Task). x.id == id) w.tasks)) [
    | inl e ↦ rw (e, run_task) (omega arith)
    | inr (t, e) ↦
        let same = execute_type-tasks env delivery t.task_type t.scheduled_at w in
        rw (e, run_task)
          (subst
            (λ (l : List Task).
              behind k
                (settle env delivery n t.id (execute_task env delivery t w).0
                  (execute_task env delivery t w).1).1.tasks
              ≤ behind k l)
            same
            (settle-behind k n t.id (execute_task env delivery t w).0
              (execute_task env delivery t w).1))
  ]

  run_page-behind :
      (k limit n : ℕ) (ts : List Task) (w : World)
      → behind k (run_page env delivery limit n ts w).1.tasks ≤ behind k w.tasks
  unfolding run_page
  run_page-behind k limit n [] w = omega arith
  run_page-behind k limit n (t ∷ ts) w =
      let one = run_task-behind k n t.id w in
      let rest =
        run_page-behind k limit (run_task env delivery n t.id w).0 ts
          (run_task env delivery n t.id w).1 in
      elim (Bool-cases (leb limit (run_task env delivery n t.id w).0)) [
        | inl e ↦ rw e one
        | inr e ↦ rw e (omega (arith, one, rest))
      ]

  run_pages-ends :
      (fuel : ℕ) (now : OffsetDateTime) (limit n last : ℕ) (w : World)
      → 0 < limit
      → behind last w.tasks < fuel
      → (after : ℕ × World) × (run_pages env delivery fuel now limit n last w ≡ some after)
  unfolding run_pages
  run_pages-ends zero now limit n last w h f = absurd (omega arith)
  run_pages-ends (suc fuel) now limit n last w h f =
      let page_size = min max_tasks_page_size limit in
      let rows : List Task = tasks_page now last page_size w.tasks in
      let after_page : (ℕ × Bool) × World = run_page env delivery limit n rows w in
      elim (Bool-cases (after_page.0.1 || ltb (length rows) page_size)) [
        | inl e ↦ ((after_page.0.0, after_page.1), rw e refl)
        | inr e ↦
            let full : 0 < length rows = ground arith in
            let (t, is_last, advances) =
              All-last (λ (x : Task). behind x.id w.tasks < behind last w.tasks) 0 rows
                (page-Advances last now w.tasks page_size) full in
            let shrinks = run_page-behind t.id limit n rows w in
            let (after, rest) =
              run_pages-ends fuel now limit after_page.0.0 t.id after_page.1 h (omega arith) in
            (after, rw (e, is_last) rest)
      ]

  -- With a limit that is not 0, and more rounds than the table has tasks, the run ends.
  pub execute_pending_tasks-ends :
      (fuel limit : ℕ) (w : World)
      → 0 < limit
      → length w.tasks < fuel
      → (after : ℕ × World) × (execute_pending_tasks env delivery fuel limit w ≡ some after)
  unfolding execute_pending_tasks
  execute_pending_tasks-ends fuel limit w h f =
      run_pages-ends fuel (env.now_utc w.moment) limit 0 0 (record w { moment = suc w.moment }) h
        (omega (arith, length-keep-le (λ (t : Task). ltb 0 t.id) w.tasks))

  run_pages_zero :
      (fuel : ℕ) (now : OffsetDateTime) (n last : ℕ) (w : World)
      → run_pages env delivery fuel now 0 n last w ≡ none
  unfolding run_pages tasks_page run_page
  run_pages_zero zero now n last w = refl
  run_pages_zero (suc fuel) now n last w = run_pages_zero fuel now n last w

  -- With the limit 0 the run never ends, whatever the table holds: a page of no rows is not a short
  -- page.
  pub zero_limit_loops : (fuel : ℕ) (w : World) → execute_pending_tasks env delivery fuel 0 w ≡ none
  unfolding execute_pending_tasks
  zero_limit_loops fuel w =
      run_pages_zero fuel (env.now_utc w.moment) 0 0 (record w { moment = suc w.moment })
