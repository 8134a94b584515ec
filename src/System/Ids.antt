-- ===== src/System/Ids.antt =====
-- No two rows of `trackers` have one id.
use retrack.Prelude.{
  Bool-cases, any, All, All-append, ◌≡◌, refl, sym, ◌∙◌, subst, ◌≢◌, inl, inr, Bool, true, false,
  not, ◌&&◌, ◌||◌, Option, List, [], ◌∷◌, ◌++◌, arith, ℕ,
}
use retrack.Exec.Keeps.{Keeps}
use retrack.Types.{Tracker, Uuid}
use retrack.Env.{Env}
use retrack.Db.{World, TrackerRow}
use retrack.Db.Trackers as Rows
use retrack.Db.Trackers.{has_id, update_where, overwrite, set_job, row_of}
use retrack.Db.Paging.Complete.{Distinct}
use retrack.Scheduler.ScheduleJob.Linked.{row_id}

abbrev pub DistinctIds : World → Type 0
DistinctIds w = Distinct row_id w.trackers

other_ids :
    (id : Uuid) (p : TrackerRow → Bool) (rows : List TrackerRow)
    → any (λ r. has_id id r || p r) rows ≡ false
    → All (λ r. row_id r ≢ id) rows
other_ids id p [] h = tt
other_ids id p (r ∷ rs) h = ((λ e. ground arith), other_ids id p rs (ground arith))

Distinct-snoc :
    (rows : List TrackerRow) (r : TrackerRow)
    → All (λ x. row_id x ≢ row_id r) rows
    → Distinct row_id rows
    → Distinct row_id (rows ++ r ∷ [])
Distinct-snoc [] r h d = (tt, tt)
Distinct-snoc (x ∷ xs) r h d = (
  All-append (λ y. row_id y ≢ row_id x) xs (r ∷ []) d.0 ((λ e. h.0 (sym e)), tt),
  Distinct-snoc xs r h.1 d.1,
)

module _ (f : TrackerRow → TrackerRow) (id : Uuid)
    (same : (r : TrackerRow) → has_id id r ≡ true → row_id (f r) ≡ row_id r) where
  update_where-others :
      (k : ℕ) (rows : List TrackerRow)
      → All (λ r. row_id r ≢ k) rows
      → All (λ r. row_id r ≢ k) (update_where f id rows)
  unfolding update_where
  update_where-others k [] h = tt
  update_where-others k (r ∷ rs) h = elim (Bool-cases (has_id id r)) [
    | inl e ↦ rw e ((λ q. h.0 (sym (same r e) ∙ q)), update_where-others k rs h.1)
    | inr e ↦ rw e (h.0, update_where-others k rs h.1)
  ]

  pub update_where-Distinct :
      (rows : List TrackerRow) → Distinct row_id rows → Distinct row_id (update_where f id rows)
  unfolding update_where
  update_where-Distinct [] d = tt
  update_where-Distinct (r ∷ rs) d = elim (Bool-cases (has_id id r)) [
    | inl e ↦ rw e (
      subst (λ (k : ℕ). All (λ x. row_id x ≢ k) (update_where f id rs)) (sym (same r e))
          (update_where-others (row_id r) rs d.0),
      update_where-Distinct rs d.1,
    )
    | inr e ↦ rw e (update_where-others (row_id r) rs d.0, update_where-Distinct rs d.1)
  ]

module _ (env : Env) where
  pub insert-DistinctIds : (t : Tracker) → Keeps DistinctIds (Rows.insert_tracker env t)
  unfolding Rows.insert_tracker
  insert-DistinctIds t = record {
    at = λ w d.
        elim (Bool-cases (any (λ r. has_id t.id r || Rows.same_unique env t r) w.trackers)) [
          | inl e ↦ rw e d
          | inr e ↦ rw e (
              Distinct-snoc w.trackers (row_of t)
                (other_ids t.id (Rows.same_unique env t) w.trackers e) d)
        ];
  }

  pub update-DistinctIds : (t : Tracker) → Keeps DistinctIds (Rows.update_tracker env t)
  unfolding Rows.update_tracker row_of
  update-DistinctIds t = record {
    at = λ w d. elim (Bool-cases (any (has_id t.id) w.trackers)) [
      | inr e ↦ rw e d
      | inl e ↦
          elim (Bool-cases
            (any (λ r. not (has_id t.id r) && Rows.same_unique env t r) w.trackers)) [
              | inl e' ↦ rw (e, e') d
              | inr e' ↦
                  rw (e, e')
                    (update_where-Distinct (overwrite env t) t.id (λ r same. ground arith)
                      w.trackers d)
            ]
    ];
  }

pub set_job-DistinctIds :
    (id : Uuid) (job : Option Uuid) → Keeps DistinctIds (Rows.update_tracker_job id job)
unfolding Rows.update_tracker_job
set_job-DistinctIds id job = record {
  at = λ w d. elim (Bool-cases (any (has_id id) w.trackers)) [
    | inr e ↦ rw e d
    | inl e ↦
        elim (Bool-cases
          (any (λ r. not (has_id id r) && Rows.same_job_id r.tracker.job_id job) w.trackers)) [
            | inl e' ↦ rw (e, e') d
            | inr e' ↦
                rw (e, e') (update_where-Distinct (set_job job) id (λ r same. refl) w.trackers d)
          ]
  ];
}
