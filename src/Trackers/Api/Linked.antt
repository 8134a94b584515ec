-- ===== src/Trackers/Api/Linked.antt =====
-- The link between a tracker and its job. The scheduler's queries read the column `job_needed`; a
-- tracker that no longer needs a job must not keep the reference to one.
use retrack.Trackers.Validation.Frame.{validate_tracker-Frame}
use retrack.Trackers.Validation.{validate_tracker}
use retrack.Error.{ok, err}
use retrack.Exec.{Exec, continue, pure, ◌>>◌}
use retrack.Prelude.{
  Bool-cases, Option-cases, any, find, All, is_some, All-append, All-find, suc, ◌-◌, ◌%◌, ◌≡◌, refl,
  sym, subst, inl, inr, true, not, ◌&&◌, ◌||◌, List, [], ◌∷◌, arith,
}
use retrack.Types.{Tracker, Uuid, TrackerCreateParams, TrackerUpdateParams, OffsetDateTime}
use retrack.Env.{Env}
use retrack.Db.{World, TrackerRow, utc_now, Tables}
use retrack.Db.Trackers as Rows
use retrack.Db.Trackers.{job_needed, row_of, update_where, has_id, overwrite}
use retrack.Trackers.Api.{
  updated, create_tracker, update_tracker, new_tracker, write_update, is_unchanged,
}

-- The column says what the configuration asks for, and only a row that needs a job refers to one.
pub record IsLinked (r : TrackerRow) : Type 0 where
  pub column : r.job_needed ≡ job_needed r.tracker
  pub linked : is_some r.tracker.job_id ≡ true → r.job_needed ≡ true

pub update_where-All :
    (P : TrackerRow → Type 0) (f : TrackerRow → TrackerRow) (id : Uuid) (rows : List TrackerRow)
    → ((r : TrackerRow) → P r → P (f r))
    → All P rows
    → All P (update_where f id rows)
unfolding update_where
update_where-All P f id [] keeps h = tt
update_where-All P f id (r ∷ rs) keeps h = elim (Bool-cases (has_id id r)) [
  | inl e ↦ rw e (keeps r h.0, update_where-All P f id rs keeps h.1)
  | inr e ↦ rw e (h.0, update_where-All P f id rs keeps h.1)
]

-- Disabling a tracker, switching its revisions off or changing its schedule drops the job.
updated_link :
    (env : Env) (r : TrackerRow) (params : TrackerUpdateParams) (now : OffsetDateTime)
    → IsLinked r
    → is_some (updated env r.tracker params now).job_id ≡ true
    → job_needed (updated env r.tracker params now) ≡ true
unfolding updated job_needed
updated_link env r params now h = ground arith

row_of-IsLinked :
    (t : Tracker) → (is_some t.job_id ≡ true → job_needed t ≡ true) → IsLinked (row_of t)
unfolding row_of
row_of-IsLinked t h = record { column = refl; linked = h }

overwrite-IsLinked :
    (env : Env) (t : Tracker)
    → (is_some t.job_id ≡ true → job_needed t ≡ true)
    → (r : TrackerRow) → IsLinked r
    → IsLinked (overwrite env t r)
unfolding row_of job_needed
overwrite-IsLinked env t h r k = record { column = refl; linked = h }

abbrev pub AllLinked : World → Type 0
AllLinked w = All IsLinked w.trackers

module _ (env : Env) (t : Tracker) (needed : is_some t.job_id ≡ true → job_needed t ≡ true) where
  insert_tracker-AllLinked : (w : World) → AllLinked w → AllLinked (Rows.insert_tracker env t w).1
  unfolding Rows.insert_tracker
  insert_tracker-AllLinked w h =
      elim (Bool-cases (any (λ r. has_id t.id r || Rows.same_unique env t r) w.trackers)) [
        | inl e ↦ rw e h
        | inr e ↦
            rw e (All-append IsLinked w.trackers (row_of t ∷ []) h (row_of-IsLinked t needed, tt))
      ]

  update_row-AllLinked : (w : World) → AllLinked w → AllLinked (Rows.update_tracker env t w).1
  unfolding Rows.update_tracker
  update_row-AllLinked w h = elim (Bool-cases (any (has_id t.id) w.trackers)) [
    | inr e ↦ rw e h
    | inl e ↦
        elim (Bool-cases (any (λ r. not (has_id t.id r) && Rows.same_unique env t r) w.trackers)) [
          | inl e' ↦ rw (e, e') h
          | inr e' ↦
              rw (e, e')
                (update_where-All IsLinked (overwrite env t) t.id w.trackers
                  (overwrite-IsLinked env t needed) h)
        ]
  ]

  -- a write that follows the validation, whose outcome decides
  validated :
      {A : Type 0} (write : Exec World A)
      → ((w : World) → AllLinked w → AllLinked (write w).1)
      → (w : World) → AllLinked w
      → AllLinked
          (continue (validate_tracker env t w).0 (λ _. write) (validate_tracker env t w).1).1
  validated write keeps w h =
      let same = validate_tracker-Frame env t w in
      let kept : AllLinked (validate_tracker env t w).1 =
        subst (λ (tables : Tables). All IsLinked tables.trackers) (sym same) h in
      elim (validate_tracker env t w).0
        as (λ r. AllLinked (continue r (λ _. write) (validate_tracker env t w).1).1) [
          | ok u ↦ keeps (validate_tracker env t w).1 kept
          | err e ↦ kept
        ]

returning :
    {A : Type 0} (m : Exec World Unit) (a : A) (w : World)
    → AllLinked (m w).1
    → AllLinked ((m >> pure a) w).1
returning m a w h = elim (m w).0 as (λ r. AllLinked (continue r (λ _. pure a) (m w).1).1) [
  | ok u ↦ h
  | err e ↦ h
]

module _ (env : Env) where
  -- Creating a tracker, whether it succeeds or fails, keeps the invariant
  -- AllLinked: the column job_needed of every row is what the row's tracker
  -- asks for, and only a row that needs a job refers to one.
  pub create_tracker-AllLinked :
      (params : TrackerCreateParams) (w : World)
      → AllLinked w
      → AllLinked (create_tracker env params w).1
  unfolding create_tracker utc_now
  create_tracker-AllLinked params w h =
      let w' : World = record w { moment = suc (suc w.moment) } in
      let t : Tracker =
        new_tracker env params (env.now_v7 (suc w.moment))
          (env.now_utc w.moment - env.now_utc w.moment % 1000) in
      let needed : is_some t.job_id ≡ true → job_needed t ≡ true = λ e. cc in
      validated env t needed (Rows.insert_tracker env t >> pure t)
        (λ v k.
          returning (Rows.insert_tracker env t) t v (insert_tracker-AllLinked env t needed v k))
        w' h

  -- what follows the look-up of the tracker that is there
  write_update-AllLinked :
      (params : TrackerUpdateParams) (r : TrackerRow) (w : World)
      → IsLinked r
      → AllLinked w
      → AllLinked (write_update env params r.tracker w).1
  unfolding write_update utc_now
  write_update-AllLinked params r w linked h =
      let w' : World = record w { moment = suc w.moment } in
      let now : OffsetDateTime = env.now_utc w.moment - env.now_utc w.moment % 1000 in
      let t : Tracker = updated env r.tracker params now in
      let needed : is_some t.job_id ≡ true → job_needed t ≡ true =
        updated_link env r params now linked in
      validated env t needed (Rows.update_tracker env t >> pure t)
        (λ v k. returning (Rows.update_tracker env t) t v (update_row-AllLinked env t needed v k))
        w' h

  -- Updating a tracker, whether it succeeds or fails, keeps the invariant
  -- AllLinked: the column job_needed of every row is what the row's tracker
  -- asks for, and only a row that needs a job refers to one.
  pub update_tracker-AllLinked :
      (id : Uuid) (params : TrackerUpdateParams) (w : World)
      → AllLinked w
      → AllLinked (update_tracker env id params w).1
  unfolding update_tracker Rows.get_tracker
  update_tracker-AllLinked id params w h = elim (Bool-cases (is_unchanged params)) [
    | inl e ↦ rw e h
    | inr e ↦ elim (Option-cases (find (has_id id) w.trackers)) [
      | inl missing ↦ rw (e, missing) h
      | inr (r, found) ↦
          rw (e, found)
            (write_update-AllLinked params r w (All-find IsLinked (has_id id) w.trackers h found) h)
    ]
  ]
