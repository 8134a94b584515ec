-- ===== src/System/RunEnds.antt =====
-- The end of a round of the run job: TrackersRunJob::run, which reads each page of the pending
-- trackers when the one before is done.
use retrack.Prelude.{
  ltb, ◌==◌, if◌then◌else◌, Bool-cases, length, last?, any, keep, All, All-take, length-keep-le,
  map, ℕ, zero, suc, ◌≤◌, ◌<◌, ◌≡◌, refl, ap, inl, inr, Bool, true, false, Option, none, some, List,
  [], ◌∷◌, arith,
}
use retrack.Error.{Result, ok, err}
use retrack.Exec.{pure, lift, continue}
use retrack.Exec.Keeps.{Keeps, Keeps-pure, Keeps-lift, Keeps-bind, Keeps-if}
use retrack.Types.{Uuid, OffsetDateTime}
use retrack.Env.{Env}
use retrack.Db.{World, TrackerRow}
use retrack.Db.Trackers as Rows
use retrack.Db.Trackers.{has_id, update_where, set_job}
use retrack.Db.Jobs.{decode}
use retrack.Db.Paging.{order_by, page, last_key}
use retrack.Db.Paging.Complete.{order_by-All, All-map}
use retrack.Scheduler.Job.{RawSchedulerJobStoredData}
use retrack.Scheduler.RunJob.{
  Joined, joined_key, pending, process, process_page, run_pages, max_jobs_page_size, waits, job_of,
  join_job, is_stopped,
}
use retrack.Trackers.Revise.Keeps.{OfTrackers}
use retrack.System.Process.{process-Keeps}

-- when the trackers of the table were created
abbrev pub times : List TrackerRow → List ℕ
times = map (λ r. r.tracker.created_at)

-- how many of them after a time
abbrev above : ℕ → List ℕ → ℕ
above k ts = length (keep (ltb k) ts)

abbrev among : ℕ → List ℕ → Bool
among k = any (λ t. t == k)

above-le : (last k : ℕ) (ts : List ℕ) → last ≤ k → above k ts ≤ above last ts
above-le last k [] h = omega arith
above-le last k (t ∷ ts) h = ground (arith, above-le last k ts h)

above-lt : (last k : ℕ) (ts : List ℕ) → among k ts ≡ true → last < k → above k ts < above last ts
above-lt last k [] m h = cc
above-lt last k (t ∷ ts) m h = elim (Bool-cases (t == k)) [
  | inl e ↦ ground (arith, above-le last k ts)
  | inr e ↦ ground (arith, above-lt last k ts)
]

abbrev Created : List ℕ → Joined → Type 0
Created ts j = among (joined_key j) ts ≡ true

Created-cons : (t : ℕ) (ts : List ℕ) (j : Joined) → Created ts j → Created (t ∷ ts) j
Created-cons t ts j h = ground arith

-- a pending tracker is one of the table
pending-Created :
    (rows : List TrackerRow) (jobs : List RawSchedulerJobStoredData)
    → All (Created (times rows)) (pending rows jobs)
unfolding pending
pending-Created [] jobs = tt
pending-Created (r ∷ rs) jobs =
    let rest : All (Created (times (r ∷ rs))) (pending rs jobs) =
      All-map (Created (times rs)) (Created (times (r ∷ rs)))
        (Created-cons r.tracker.created_at (times rs)) (pending rs jobs)
        (pending-Created rs jobs) in
    joined (job_of r.tracker.job_id jobs) rest
  where
    joined :
        (o : Option RawSchedulerJobStoredData)
        → All (Created (times (r ∷ rs))) (pending rs jobs)
        → All (Created (times (r ∷ rs))) (join_job r.tracker o (pending rs jobs))
    joined none h = h
    joined (some j) h = elim (Bool-cases (is_stopped j)) [
      | inl e ↦ rw e (ground arith, h)
      | inr e ↦ rw e h
    ]

-- behind a record of a page fewer trackers are left
abbrev Falls : ℕ → List ℕ → Joined → Type 0
Falls last ts j = above (joined_key j) ts < above last ts

keep-Falls :
    (last : ℕ) (ts : List ℕ) (js : List Joined)
    → All (Created ts) js
    → All (Falls last ts) (keep (λ j. ltb last (joined_key j)) js)
keep-Falls last ts [] h = tt
keep-Falls last ts (j ∷ js) h = elim (Bool-cases (ltb last (joined_key j))) [
  | inl e ↦ rw e (above-lt last (joined_key j) ts h.0 (ground arith), keep-Falls last ts js h.1)
  | inr e ↦ rw e (keep-Falls last ts js h.1)
]

page-Falls :
    (last : ℕ) (rows : List TrackerRow) (jobs : List RawSchedulerJobStoredData)
    → All (Falls last (times rows)) (page joined_key max_jobs_page_size (pending rows jobs) last)
unfolding page
page-Falls last rows jobs =
    All-take (Falls last (times rows)) max_jobs_page_size
      (order_by joined_key (keep (λ j. ltb last (joined_key j)) (pending rows jobs)))
      (order_by-All (Falls last (times rows)) joined_key
        (keep (λ j. ltb last (joined_key j)) (pending rows jobs))
        (keep-Falls last (times rows) (pending rows jobs) (pending-Created rows jobs)))

last_key-Falls :
    (last d : ℕ) (ts : List ℕ) (js : List Joined)
    → All (Falls last ts) js
    → 0 < length js
    → above (last_key joined_key d (last? js)) ts < above last ts
last_key-Falls last d ts [] h pos = absurd (omega arith)
last_key-Falls last d ts (j ∷ []) h pos = h.0
last_key-Falls last d ts (j ∷ k ∷ js) h pos = last_key-Falls last d ts (k ∷ js) h.1 (omega arith)

-- the table is as long, and as old, as it was
abbrev SameTimes : List ℕ → List TrackerRow → Type 0
SameTimes ts rows = times rows ≡ ts

set_job-times :
    (job : Option Uuid) (id : Uuid) (rows : List TrackerRow)
    → times (update_where (set_job job) id rows) ≡ times rows
unfolding update_where
set_job-times job id [] = refl
set_job-times job id (r ∷ rs) = ground (arith, set_job-times job id rs)

unlink-times :
    (ts : List ℕ) (id : Uuid) → Keeps (OfTrackers (SameTimes ts)) (Rows.update_tracker_job id none)
unfolding Rows.update_tracker_job
unlink-times ts id = record { at = λ w h. ground (arith, set_job-times none id w.trackers) }

length-times : (rows : List TrackerRow) → length (times rows) ≡ length rows
length-times [] = refl
length-times (r ∷ rs) = ap suc (length-times rs)

module _ (env : Env) where
  process_page-times :
      (ts : List ℕ) (now : OffsetDateTime) (js : List Joined)
      → Keeps (OfTrackers (SameTimes ts)) (process_page env now js)
  unfolding process_page
  process_page-times ts now [] = Keeps-pure tt
  process_page-times ts now (j ∷ js) =
      Keeps-bind (lift (decode j.extra)) _ (Keeps-lift (decode j.extra)) (λ meta.
        Keeps-bind (if waits meta now then pure tt else process env j.tracker)
          (λ u. process_page env now js)
          (Keeps-if (waits meta now) (pure tt) (process env j.tracker) (Keeps-pure tt)
            (process-Keeps (SameTimes ts) env (unlink-times ts) j.tracker))
          (λ u. process_page-times ts now js))

  -- the pages behind one, with two amounts of fuel
  rest-same :
      (fuel fuel' next : ℕ) (short : Bool) (r : Result Unit) (w : World)
      → (run_pages env fuel next w ≡ run_pages env fuel' next w)
      → continue r (λ u. if short then pure tt else run_pages env fuel next) w
        ≡ continue r (λ u. if short then pure tt else run_pages env fuel' next) w
  rest-same fuel fuel' next true (ok u) w h = refl
  rest-same fuel fuel' next false (ok u) w h = h
  rest-same fuel fuel' next short (err e) w h = refl

  run_pages-fuel :
      (fuel fuel' last : ℕ) (w : World)
      → above last (times w.trackers) < fuel
      → above last (times w.trackers) < fuel'
      → run_pages env fuel last w ≡ run_pages env fuel' last w
  unfolding run_pages
  run_pages-fuel zero fuel' last w h h' = absurd (omega arith)
  run_pages-fuel (suc fuel) zero last w h h' = absurd (omega arith)
  run_pages-fuel (suc fuel) (suc fuel') last w h h' =
      let rows : List Joined =
        page joined_key max_jobs_page_size (pending w.trackers w.scheduler_jobs) last in
      let w' : World = record w { moment = suc w.moment } in
      let behind : World = (process_page env (env.now_utc w.moment) rows w').1 in
      let same : times behind.trackers ≡ times w.trackers =
        (process_page-times (times w.trackers) (env.now_utc w.moment) rows).at w' refl in
      let next : ℕ = last_key joined_key last (last? rows) in
      elim (Bool-cases (ltb (length rows) max_jobs_page_size)) [
        | inl short ↦ rw short refl
        | inr full ↦
            let falls : above next (times behind.trackers) < above last (times w.trackers) =
              rw same (
                last_key-Falls last last (times w.trackers) rows
                  (page-Falls last w.trackers w.scheduler_jobs) (ground arith)) in
            rest-same fuel fuel' next (ltb (length rows) max_jobs_page_size)
              (process_page env (env.now_utc w.moment) rows w').0 behind
              (run_pages-fuel fuel fuel' next behind (omega arith) (omega arith))
      ]

  -- A round of the run job ends: more rounds of fuel than there are trackers are enough, and how much
  -- more there is changes neither the answer nor the state, although every page is read behind the work
  -- on the last one, whatever comes of that.
  pub run_pages-ends :
      (fuel fuel' : ℕ) (w : World)
      → length w.trackers < fuel
      → length w.trackers < fuel'
      → run_pages env fuel 0 w ≡ run_pages env fuel' 0 w
  run_pages-ends fuel fuel' w h h' =
      let few = length-keep-le (ltb 0) (times w.trackers) in
      let same = length-times w.trackers in
      run_pages-fuel fuel fuel' 0 w (omega (arith, few, same)) (omega (arith, few, same))
