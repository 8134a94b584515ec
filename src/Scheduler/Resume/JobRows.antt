-- ===== src/Scheduler/Resume/JobRows.antt =====
-- The rows of `scheduler_jobs` behind the turns of the loop: which are removed, which are kept, and
-- how many there are of each type.
use retrack.Prelude.{
  ltb, if◌then◌else◌, Bool-cases, any, find, keep, All, ℕ, ◌+◌, ◌≤◌, ◌≡◌, ◌≢◌, refl, sym, subst,
  ◌∙◌, inl, inr, Bool, true, false, not, none, some, List, [], ◌∷◌, arith,
}
use retrack.Types.{Uuid}
use retrack.Db.Jobs.{is_job, update_job}
use retrack.Db.Paging.Complete.{Distinct, All-map}
use retrack.Scheduler.Job.{SchedulerJob, same_job, RawSchedulerJobStoredData}
use retrack.Scheduler.Resume.{job_id, meta_of}

abbrev pub Jobs : Type 0
Jobs = List RawSchedulerJobStoredData

-- the row's metadata can be read and is of this type
unfoldable pub is_of : SchedulerJob → RawSchedulerJobStoredData → Bool
is_of t raw = elim (meta_of raw) [ none ↦ false | some m ↦ same_job t m.job_type ]

-- how many rows are of the type
abbrev pub tally : SchedulerJob → Jobs → ℕ
tally t [] = 0
tally t (j ∷ js) = (if is_of t j then 1 else 0) + tally t js

-- the rows to come are in the table
abbrev pub Stored : Jobs → Jobs → Type 0
Stored rows = All (λ raw. find (is_job raw.id) rows ≡ some raw)

pub find-any :
    (id : Uuid) (rows : Jobs) (raw : RawSchedulerJobStoredData)
    → find (is_job id) rows ≡ some raw
    → any (is_job id) rows ≡ true
find-any id [] raw h = cc
find-any id (j ∷ js) raw h = elim (Bool-cases (is_job id j)) [
  | inl e ↦ rw e refl
  | inr e ↦ rw e (find-any id js raw (ground arith))
]

module _ (id : Uuid) where
  keep_others :
      (rows : Jobs) → All (λ j. job_id j ≢ id) rows → keep (λ j. not (is_job id j)) rows ≡ rows
  keep_others [] h = refl
  keep_others (j ∷ js) h = ground (arith, h.0, keep_others js h.1)

  update_others :
      (f : RawSchedulerJobStoredData → RawSchedulerJobStoredData) (rows : Jobs)
      → All (λ j. job_id j ≢ id) rows
      → update_job f id rows ≡ rows
  unfolding update_job
  update_others f [] h = refl
  update_others f (j ∷ js) h = ground (arith, h.0, update_others f js h.1)

  -- the ids of the other rows are those of the rows behind the first
  others_of_first :
      (j : RawSchedulerJobStoredData) (js : Jobs)
      → job_id j ≡ id
      → All (λ x. job_id x ≢ job_id j) js
      → All (λ x. job_id x ≢ id) js
  others_of_first j js e =
      All-map (λ x. job_id x ≢ job_id j) (λ x. job_id x ≢ id) (λ x h same. h (same ∙ sym e)) js

  pub tally_dropped :
      (t : SchedulerJob) (rows : Jobs) (raw : RawSchedulerJobStoredData)
      → Distinct job_id rows
      → find (is_job id) rows ≡ some raw
      → tally t rows ≡ (if is_of t raw then 1 else 0) + tally t (keep (λ j. not (is_job id j)) rows)
  tally_dropped t [] raw d h = cc
  tally_dropped t (j ∷ js) raw d h = elim (Bool-cases (is_job id j)) [
    | inl e ↦
        let same : j ≡ raw = ground arith in
        rw (e, same, keep_others js (others_of_first j js (ground arith) d.0)) refl
    | inr e ↦ rw e (omega (arith, tally_dropped t js raw d.1 (ground arith)))
  ]

  pub tally_updated :
      (t : SchedulerJob) (f : RawSchedulerJobStoredData → RawSchedulerJobStoredData) (rows : Jobs)
      (raw : RawSchedulerJobStoredData)
      → Distinct job_id rows
      → find (is_job id) rows ≡ some raw
      → is_of t (f raw) ≡ is_of t raw
      → tally t (update_job f id rows) ≡ tally t rows
  unfolding update_job
  tally_updated t f [] raw d h s = refl
  tally_updated t f (j ∷ js) raw d h s = elim (Bool-cases (is_job id j)) [
    | inl e ↦
        let same : j ≡ raw = ground arith in
        rw (e, same, update_others f js (others_of_first j js (ground arith) d.0), s) refl
    | inr e ↦ rw e (ground (arith, tally_updated t f js raw d.1 (ground arith) s))
  ]

  -- the rows of larger ids
  pub later_dropped :
      (k : ℕ) (rows : Jobs)
      → id ≤ k
      → keep (λ j. ltb k (job_id j)) (keep (λ j. not (is_job id j)) rows)
        ≡ keep (λ j. ltb k (job_id j)) rows
  later_dropped k [] h = refl
  later_dropped k (j ∷ js) h = ground (arith, later_dropped k js h)

  module _ (f : RawSchedulerJobStoredData → RawSchedulerJobStoredData)
      (same : (j : RawSchedulerJobStoredData) → job_id (f j) ≡ job_id j) where
    pub later_updated :
        (k : ℕ) (rows : Jobs)
        → id ≤ k
        → keep (λ j. ltb k (job_id j)) (update_job f id rows) ≡ keep (λ j. ltb k (job_id j)) rows
    unfolding update_job
    later_updated k [] h = refl
    later_updated k (j ∷ js) h = ground (arith, same j, later_updated k js h)

    updated_ids :
        (k : ℕ) (rows : Jobs)
        → All (λ j. job_id j ≢ k) rows
        → All (λ j. job_id j ≢ k) (update_job f id rows)
    unfolding update_job
    updated_ids k [] h = tt
    updated_ids k (j ∷ js) h = elim (Bool-cases (is_job id j)) [
      | inl e ↦ rw e ((λ q. h.0 (sym (same j) ∙ q)), updated_ids k js h.1)
      | inr e ↦ rw e (h.0, updated_ids k js h.1)
    ]

    pub updated-Distinct :
        (rows : Jobs) → Distinct job_id rows → Distinct job_id (update_job f id rows)
    unfolding update_job
    updated-Distinct [] d = tt
    updated-Distinct (j ∷ js) d = elim (Bool-cases (is_job id j)) [
      | inl e ↦ rw e (
        subst (λ (k : ℕ). All (λ x. job_id x ≢ k) (update_job f id js)) (sym (same j))
            (updated_ids (job_id j) js d.0),
        updated-Distinct js d.1,
      )
      | inr e ↦ rw e (updated_ids (job_id j) js d.0, updated-Distinct js d.1)
    ]

    pub find_updated :
        (k : Uuid) (rows : Jobs)
        → k ≢ id
        → find (is_job k) (update_job f id rows) ≡ find (is_job k) rows
    unfolding update_job
    find_updated k [] h = refl
    find_updated k (j ∷ js) h = ground (arith, same j, find_updated k js h)

  pub find_kept :
      (k : Uuid) (rows : Jobs)
      → k ≢ id
      → find (is_job k) (keep (λ j. not (is_job id j)) rows) ≡ find (is_job k) rows
  find_kept k [] h = refl
  find_kept k (j ∷ js) h = ground (arith, find_kept k js h)
