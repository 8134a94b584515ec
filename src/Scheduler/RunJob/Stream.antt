-- ===== src/Scheduler/RunJob/Stream.antt =====
-- The streams over the jobs and over the trackers to run, over tables that do not change meanwhile.
use retrack.Prelude.{
  ltb, if◌then◌else◌, length, last?, keep, All, All-take, All-keep, Bool-cases, Option-cases, ℕ,
  zero, suc, ◌≤◌, ◌<◌, ◌≡◌, refl, subst, inl, inr, true, false, Option, some, List, [], ◌∷◌, ◌++◌,
  arith,
}
use retrack.Error.{ok, unknown, scheduler_failed}
use retrack.Exec.{◌>>=◌, Exec, pure, bail, lift}
use retrack.Types.{Tracker, OffsetDateTime}
use retrack.Env.{Env}
use retrack.Db.{World, observe}
use retrack.Db.Jobs.{decode, get_scheduler_jobs}
use retrack.Db.Paging.{order_by, page, last_key, stream}
use retrack.Db.Paging.Complete.{Distinct, order_by-All, stream_complete}
use retrack.Scheduler.Job.{RawSchedulerJobStoredData, SchedulerJobMetadata}
use retrack.Scheduler.RunJob.{Joined, joined_key, pending, waits}

-- the records of one page that are yielded: those whose retry is to come are passed over
unfoldable pub ready : OffsetDateTime → List Joined → Exec World (List Tracker)
ready now [] = pure []
ready now (j ∷ js) = do
  meta ← lift (decode j.extra)
  rest ← ready now js
  pure (if waits meta now then rest else j.tracker ∷ rest)

module _ (env : Env) where
  -- TrackersDatabaseExt::get_trackers_to_run, collected from the last creation time on
  unfoldable pub get_trackers_to_run : ℕ → ℕ → ℕ → Exec World (List Tracker)
  unfolding ready
  get_trackers_to_run zero page_size last w = bail (unknown scheduler_failed) w
  get_trackers_to_run (suc fuel) page_size last w =
      let rows = page joined_key page_size (pending w.trackers w.scheduler_jobs) last in
      let rest = get_trackers_to_run fuel page_size (last_key joined_key last (last? rows)) in
      (do
        now ← observe env.now_utc
        yielded ← ready now rows
        (if ltb (length rows) page_size
            then pure yielded
            else (do more ← rest; pure (yielded ++ more))))
        w

  -- `Picked first js ts`: of the records `js`, the trackers `ts` are yielded, in the order of the
  -- records; each of the others waits for a retry that is to come. The clock is read from the moment
  -- `first` on.
  pub data Picked (first : ℕ) : List Joined → List Tracker → Type 0 where
    nobody : Picked first [] []
    taken :
        {j : Joined} {js : List Joined} {ts : List Tracker} (meta : Option SchedulerJobMetadata)
        (m : ℕ)
        → decode j.extra ≡ ok meta
        → first ≤ m
        → waits meta (env.now_utc m) ≡ false
        → Picked first js ts
        → Picked first (j ∷ js) (j.tracker ∷ ts)
    passed_over :
        {j : Joined} {js : List Joined} {ts : List Tracker} (meta : Option SchedulerJobMetadata)
        (m : ℕ)
        → decode j.extra ≡ ok meta
        → first ≤ m
        → waits meta (env.now_utc m) ≡ true
        → Picked first js ts
        → Picked first (j ∷ js) ts

abbrev pub job_key : RawSchedulerJobStoredData → ℕ
job_key j = j.id

-- Where the ids of the jobs are distinct and the page size is not 0, the jobs come out complete,
-- read page by page: every job with an id other than the nil UUID, once, in the order of the ids.
-- More rounds than there are jobs are enough.
pub get_scheduler_jobs_complete :
    (fuel page_size : ℕ) (w : World)
    → 0 < page_size
    → Distinct job_key w.scheduler_jobs
    → length w.scheduler_jobs < fuel
    → get_scheduler_jobs fuel page_size w
      ≡ some (order_by job_key (keep (λ j. ltb 0 j.id) w.scheduler_jobs))
unfolding get_scheduler_jobs
get_scheduler_jobs_complete fuel page_size w pos d enough =
    stream_complete job_key page_size w.scheduler_jobs fuel 0 pos d enough

-- the metadata of the record's job can be read
abbrev pub Decodes : Joined → Type 0
Decodes j = (meta : Option SchedulerJobMetadata) × (decode j.extra ≡ ok meta)

appended :
    (m : Exec World (List Tracker)) (ts : List Tracker) (w : World) {us : List Tracker}
    → (m w).0 ≡ ok us
    → ((m >>= λ more. pure (ts ++ more)) w).0 ≡ ok (ts ++ us)
appended m ts w e = let (r, w') = m w in rw e refl

module _ (env : Env) (first : ℕ) where
  Picked-append :
      {js ks : List Joined} {ts us : List Tracker}
      → Picked env first js ts
      → Picked env first ks us
      → Picked env first (js ++ ks) (ts ++ us)
  Picked-append nobody q = q
  Picked-append (taken meta m d le w p) q = taken meta m d le w (Picked-append p q)
  Picked-append (passed_over meta m d le w p) q = passed_over meta m d le w (Picked-append p q)

  ready-Picked :
      (m : ℕ)
      → first ≤ m
      → (js : List Joined) → All Decodes js
      → (s : World)
      → (ts : List Tracker) × (ready (env.now_utc m) js s ≡ (ok ts, s)) × Picked env first js ts
  unfolding ready
  ready-Picked m le [] h s = ([], refl, nobody)
  ready-Picked m le (j ∷ js) ((meta, d), h) s =
      let (ts, e, p) = ready-Picked m le js h s in
      elim (Bool-cases (waits meta (env.now_utc m))) [
        | inl later ↦ (ts, rw (d, e, later) refl, passed_over meta m d le later p)
        | inr due ↦ (j.tracker ∷ ts, rw (d, e, due) refl, taken meta m d le due p)
      ]

  page-Decodes :
      (page_size last : ℕ) (rows : List Joined)
      → All Decodes rows
      → All Decodes (page joined_key page_size rows last)
  unfolding page
  page-Decodes page_size last rows h =
      All-take Decodes page_size (order_by joined_key (keep (λ r. ltb last (joined_key r)) rows)) (
        order_by-All Decodes joined_key (keep (λ r. ltb last (joined_key r)) rows)
          (All-keep Decodes (λ r. ltb last (joined_key r)) rows h))

  -- the collected stream follows the pages
  get_trackers_to_run-follows :
      (fuel page_size last : ℕ) (w : World) (all : List Joined)
      → first ≤ w.moment
      → All Decodes (pending w.trackers w.scheduler_jobs)
      → stream joined_key fuel page_size (pending w.trackers w.scheduler_jobs) last ≡ some all
      → (ts : List Tracker) × ((get_trackers_to_run env fuel page_size last w).0 ≡ ok ts)
        × Picked env first all ts
  unfolding get_trackers_to_run stream
  get_trackers_to_run-follows zero page_size last w all le h e = absurd (ground arith)
  get_trackers_to_run-follows (suc fuel) page_size last w all le h e =
      let rows : List Joined =
        page joined_key page_size (pending w.trackers w.scheduler_jobs) last in
      let w' : World = record w { moment = suc w.moment } in
      let next : ℕ = last_key joined_key last (last? rows) in
      let (ts, now, p) =
        ready-Picked w.moment le rows
          (page-Decodes page_size last (pending w.trackers w.scheduler_jobs) h) w' in
      elim (Bool-cases (ltb (length rows) page_size)) [
        | inl short ↦ (
          ts,
          rw (now, short) refl,
          subst (λ (x : List Joined). Picked env first x ts) (ground (arith, short, e)) p,
        )
        | inr full ↦
            elim (Option-cases
              (stream joined_key fuel page_size (pending w.trackers w.scheduler_jobs) next)) [
                | inl bad ↦ absurd (ground (arith, full, bad, e))
                | inr (more, good) ↦
                    let (us, e', q) =
                      get_trackers_to_run-follows fuel page_size next w' more (omega arith) h
                        good in
                    (
                      ts ++ us,
                      rw (now, full)
                          (appended (get_trackers_to_run env fuel page_size next) ts w' e'),
                      subst (λ (x : List Joined). Picked env first x (ts ++ us))
                          (ground (arith, full, good, e)) (Picked-append p q),
                    )
              ]
      ]

-- Let the page size be not 0, the metadata of every pending job be readable, and no two pending
-- trackers have been created at one time. More rounds than there are pending trackers are enough,
-- and the stream of the trackers to run goes through every pending tracker once, in the order of
-- their creation (but for a creation time of 0): it yields the tracker if, at a moment from the
-- start on, no retry of its job was still to come, and passes it over if one was.
pub get_trackers_to_run_complete :
    (env : Env) (fuel page_size : ℕ) (w : World)
    → 0 < page_size
    → All Decodes (pending w.trackers w.scheduler_jobs)
    → Distinct joined_key (pending w.trackers w.scheduler_jobs)
    → length (pending w.trackers w.scheduler_jobs) < fuel
    → (ts : List Tracker) × ((get_trackers_to_run env fuel page_size 0 w).0 ≡ ok ts)
      × Picked env w.moment
          (order_by joined_key
            (keep (λ j. ltb 0 j.tracker.created_at) (pending w.trackers w.scheduler_jobs)))
          ts
get_trackers_to_run_complete env fuel page_size w pos h d enough =
    get_trackers_to_run-follows env w.moment fuel page_size 0 w _ (omega arith) h (
      stream_complete joined_key page_size (pending w.trackers w.scheduler_jobs) fuel 0 pos d
        enough)
