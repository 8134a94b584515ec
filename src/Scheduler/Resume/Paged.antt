-- ===== src/Scheduler/Resume/Paged.antt =====
-- The pages of the loop that resumes the jobs: although each page is read only when the one before
-- is done, and the loop removes rows meanwhile, the loop is one pass over the table.
use retrack.Prelude.{
  ltb, tests, Bool-cases, length, take, drop, last?, find, All, All-take, All-keep, length-take,
  length-drop, take_all, take-append-drop, ℕ, zero, suc, ◌≤◌, ◌<◌, ◌≡◌, ◌≢◌, refl, sym, ap, ◌∙◌,
  inl, inr, some, List, [], ◌∷◌, arith,
}
use retrack.Error.{Result, ok, err}
use retrack.Env.{Env}
use retrack.Exec.{continue, pure}
use retrack.Db.{World}
use retrack.Db.Jobs.{is_job}
use retrack.Db.Paging.{order_by, last_key}
use retrack.Db.Paging.Complete.{
  Distinct, Ascending, after, order_by-Ascending, order_by-after, order_by-All, after-after,
  after_page, after_below, last_key_above, after-Ascending, after-bounded, length-order_by,
  page-eq-take, All-map,
}
use retrack.Scheduler.Job.{SchedulerJob, RawSchedulerJobStoredData}
use retrack.Scheduler.RunJob.{max_jobs_page_size}
use retrack.Scheduler.Resume.{job_id, resume_list, resume_pages}
use retrack.Scheduler.Resume.Laws.{Removes, Restores}
use retrack.Scheduler.Resume.JobRows.{Jobs, Stored}
use retrack.Scheduler.Resume.Loop.{ResumesTo, resume_list-ResumesTo, resume_list-append}

-- the rows of a table are found by their ids
find_cons :
    (j : RawSchedulerJobStoredData) (rows xs : Jobs)
    → All (λ x. job_id x ≢ job_id j) xs
    → Stored rows xs
    → Stored (j ∷ rows) xs
find_cons j rows [] n h = tt
find_cons j rows (x ∷ xs) n h = (ground (arith, n.0, h.0), find_cons j rows xs n.1 h.1)

pub Distinct-Stored : (rows : Jobs) → Distinct job_id rows → Stored rows rows
Distinct-Stored [] d = tt
Distinct-Stored (j ∷ js) d = (ground arith, find_cons j js js d.0 (Distinct-Stored js d.1))

Ascending-Distinct : (xs : Jobs) → Ascending job_id xs → Distinct job_id xs
Ascending-Distinct [] h = tt
Ascending-Distinct (x ∷ xs) h = (
  All-map (λ y. job_id x < job_id y) (λ y. job_id y ≢ job_id x) (λ y lt e. omega arith) xs h.0,
  Ascending-Distinct xs h.1,
)

take-Ascending : (n : ℕ) (xs : Jobs) → Ascending job_id xs → Ascending job_id (take n xs)
take-Ascending zero xs h = tt
take-Ascending (suc n) [] h = tt
take-Ascending (suc n) (x ∷ xs) h =
    (All-take (λ y. job_id x < job_id y) n xs h.0, take-Ascending n xs h.1)

-- no id of a page lies above the last one
last_key_last :
    (d : ℕ) (xs : Jobs)
    → Ascending job_id xs
    → All (λ j. job_id j ≤ last_key job_id d (last? xs)) xs
last_key_last d [] h = tt
last_key_last d (x ∷ []) h = (omega arith, tt)
last_key_last d (x ∷ y ∷ xs) h =
    let rest = last_key_last d (y ∷ xs) h.1 in (omega (arith, h.0.0, rest.0), rest)

-- what is to come behind an id
abbrev pub ahead : ℕ → Jobs → Jobs
ahead last rows = after job_id last (order_by job_id rows)

ahead_same :
    (last : ℕ) (rows rows' : Jobs)
    → after job_id last rows' ≡ after job_id last rows
    → ahead last rows' ≡ ahead last rows
ahead_same last rows rows' h =
    sym (order_by-after job_id last rows')
    ∙ ap (order_by job_id) h
    ∙ order_by-after job_id last rows

module _ (rows : Jobs) (d : Distinct job_id rows) (last : ℕ) where
  ahead-Ascending : Ascending job_id (ahead last rows)
  ahead-Ascending =
      after-Ascending job_id last (order_by job_id rows) (order_by-Ascending job_id rows d)

  ahead-Stored : Stored rows (ahead last rows)
  ahead-Stored =
      All-keep (λ raw. find (is_job raw.id) rows ≡ some raw) (λ r. ltb last (job_id r))
        (order_by job_id rows)
        (order_by-All (λ raw. find (is_job raw.id) rows ≡ some raw) job_id rows
          (Distinct-Stored rows d))

  -- a full page, and what is to come behind it
  module _ (n : ℕ) (pos : 0 < n) (fits : n ≤ length (ahead last rows)) where
    page_end : ℕ
    page_end = last_key job_id last (last? (take n (ahead last rows)))

    full_page : ahead page_end rows ≡ drop n (ahead last rows)
    unfolding page_end
    full_page =
        let above : last < page_end =
          last_key_above job_id last last n (ahead last rows)
            (after-bounded job_id last (order_by job_id rows)) pos fits in
        sym (after-after job_id last page_end (order_by job_id rows) (omega arith))
        ∙ after_page job_id last n (ahead last rows) ahead-Ascending pos fits

    page_below : All (λ j. job_id j ≤ page_end) (take n (ahead last rows))
    unfolding page_end
    page_below =
        last_key_last last (take n (ahead last rows))
          (take-Ascending n (ahead last rows) ahead-Ascending)

bind_pure : {A : Type 0} (r : Result A) (w : World) → continue r (λ a. pure a) w ≡ (r, w)
bind_pure (ok a) w = refl
bind_pure (err e) w = refl

module _ (env : Env) (removes : Removes env) (restores : Restores env) where
  module _ (fuel last : ℕ) (rest : Jobs)
      (ih : (n : List SchedulerJob) (w : World)
        → Distinct job_id w.scheduler_jobs
        → length (ahead last w.scheduler_jobs) < fuel
        → resume_pages env fuel last n w ≡ resume_list env n (ahead last w.scheduler_jobs) w) where
    next_pages :
        (p : Jobs) (unique : List SchedulerJob) (rows : Jobs) (r : Result (List SchedulerJob))
        (w : World)
        → ResumesTo p unique rows r w
        → All (λ j. job_id j ≤ last) p
        → ahead last rows ≡ rest
        → length rest < fuel
        → continue r (resume_pages env fuel last) w ≡ continue r (λ n. resume_list env n rest) w
    next_pages p unique rows (err e) w h below same enough = refl
    next_pages p unique rows (ok n) w h below same enough =
        let behind : ahead last w.scheduler_jobs ≡ rest =
          ahead_same last rows w.scheduler_jobs (h.later last below) ∙ same in
        ih n w h.distinct (rw behind enough) ∙ ap (λ (l : Jobs). resume_list env n l w) behind

  -- The loop, page by page, is the loop over all the rows that are to come.
  pages_from :
      (fuel last : ℕ) (unique : List SchedulerJob) (w : World)
      → Distinct job_id w.scheduler_jobs
      → length (ahead last w.scheduler_jobs) < fuel
      → resume_pages env fuel last unique w ≡ resume_list env unique (ahead last w.scheduler_jobs) w
  unfolding resume_pages page_end
  pages_from zero last unique w d enough = absurd (omega arith)
  pages_from (suc fuel) last unique w d enough =
      let t : Jobs = ahead last w.scheduler_jobs in
      let p : Jobs = take max_jobs_page_size t in
      elim (Bool-cases (ltb (length p) max_jobs_page_size)) [
        | inl short ↦
            let whole : p ≡ t =
              take_all max_jobs_page_size t (omega (tests, length-take max_jobs_page_size t)) in
            rw (page-eq-take job_id max_jobs_page_size w.scheduler_jobs last, short, whole)
              (bind_pure (resume_list env unique t w).0 (resume_list env unique t w).1)
        | inr full ↦
            let fits : max_jobs_page_size ≤ length t =
              ground (arith, length-take max_jobs_page_size t) in
            rw (page-eq-take job_id max_jobs_page_size w.scheduler_jobs last, full)
              (next_pages fuel
                  (page_end w.scheduler_jobs d last max_jobs_page_size (omega arith) fits)
                  (drop max_jobs_page_size t)
                  (λ n w' d' e'.
                    pages_from fuel
                      (page_end w.scheduler_jobs d last max_jobs_page_size (omega arith) fits) n w'
                      d' e')
                  p unique w.scheduler_jobs (resume_list env unique p w).0
                  (resume_list env unique p w).1
                  (resume_list-ResumesTo env removes restores p unique w
                    (Ascending-Distinct p (
                      take-Ascending max_jobs_page_size t
                        (ahead-Ascending w.scheduler_jobs d last)))
                    (All-take (λ raw. find (is_job raw.id) w.scheduler_jobs ≡ some raw)
                      max_jobs_page_size t (ahead-Stored w.scheduler_jobs d last))
                    d)
                  (page_below w.scheduler_jobs d last max_jobs_page_size (omega arith) fits)
                  (full_page w.scheduler_jobs d last max_jobs_page_size (omega arith) fits)
                  (omega (arith, length-drop max_jobs_page_size t))
                ∙ sym (resume_list-append env p (drop max_jobs_page_size t) unique w)
                ∙ ap (λ (l : Jobs). resume_list env unique l w)
                    (take-append-drop max_jobs_page_size t))
      ]

  -- Where the ids of the stored jobs are distinct and none is the nil UUID, more rounds than there
  -- are jobs are enough, and the loop that resumes them page by page while it removes some of them
  -- does what one pass does over all the jobs of the table, in the order of their ids: the answer
  -- and the state are the same, whether it succeeds or fails.
  pub resume_pages-eq-list :
      (fuel : ℕ) (w : World)
      → Distinct job_id w.scheduler_jobs
      → All (λ j. 0 < job_id j) w.scheduler_jobs
      → length w.scheduler_jobs < fuel
      → resume_pages env fuel 0 [] w ≡ resume_list env [] (order_by job_id w.scheduler_jobs) w
  resume_pages-eq-list fuel w d pos enough =
      let all : ahead 0 w.scheduler_jobs ≡ order_by job_id w.scheduler_jobs =
        after_below job_id 0 (order_by job_id w.scheduler_jobs)
          (order_by-All (λ j. 0 < job_id j) job_id w.scheduler_jobs pos) in
      pages_from fuel 0 [] w d (rw all (omega (arith, length-order_by job_id w.scheduler_jobs)))
      ∙ ap (λ (l : Jobs). resume_list env [] l w) all

pub order-Stored : (rows : Jobs) → Distinct job_id rows → Stored rows (order_by job_id rows)
order-Stored rows d =
    order_by-All (λ raw. find (is_job raw.id) rows ≡ some raw) job_id rows (Distinct-Stored rows d)

pub order-Distinct : (rows : Jobs) → Distinct job_id rows → Distinct job_id (order_by job_id rows)
order-Distinct rows d = Ascending-Distinct (order_by job_id rows) (order_by-Ascending job_id rows d)
