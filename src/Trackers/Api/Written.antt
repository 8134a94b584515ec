-- ===== src/Trackers/Api/Written.antt =====
-- What a successful creation or update of a tracker writes.
use retrack.Prelude.{
  Bool-cases, Option-cases, any, find, ◌≡◌, refl, sym, ap, subst, ◌∙◌, inl, inr, false, not, ◌&&◌,
  ◌||◌, some, List, [], ◌∷◌, ◌++◌, arith,
}
use retrack.Error.{Result, ok}
use retrack.Exec.{pure, ◌>>=◌, >>=-eq-ok}
use retrack.Types.{Tracker, Uuid, TrackerCreateParams, TrackerUpdateParams}
use retrack.Env.{Env}
use retrack.Db.{World, Tables, TrackerRow, utc_now}
use retrack.Db.Trackers as Rows
use retrack.Db.Trackers.{has_id, row_of, update_where, overwrite}
use retrack.Db.Trackers.Find.{any-or}
use retrack.Trackers.Api.{create_tracker, update_tracker, write_update, updated, is_unchanged}
use retrack.Trackers.Validation.{validate_tracker}
use retrack.Trackers.Validation.Frame.{validate_tracker-Frame}

module _ (env : Env) where
  inserted :
      (t t' : Tracker) (w : World)
      → ((Rows.insert_tracker env t >>= λ u. pure t) w).0 ≡ ok t'
      → (t ≡ t')
        × (((Rows.insert_tracker env t >>= λ u. pure t) w).1.trackers ≡ w.trackers ++ row_of t ∷ [])
        × (any (has_id t.id) w.trackers ≡ false)
  unfolding Rows.insert_tracker
  inserted t t' w h =
      elim (Bool-cases (any (λ r. has_id t.id r || Rows.same_unique env t r) w.trackers)) [
        | inl clash ↦ absurd (ground (arith, clash, h))
        | inr free ↦ (
          ground (arith, free, h),
          rw free refl,
          any-or (has_id t.id) (Rows.same_unique env t) w.trackers free,
        )
      ]

  validated_insert :
      (t t' : Tracker) (w : World)
      → ((validate_tracker env t >>= λ v. Rows.insert_tracker env t >>= λ u. pure t) w).0 ≡ ok t'
      → (((validate_tracker env t >>= λ v. Rows.insert_tracker env t >>= λ u. pure t) w).1.trackers
          ≡ w.trackers ++ row_of t' ∷ [])
        × (any (has_id t'.id) w.trackers ≡ false)
  validated_insert t t' w h =
      let out : World =
        ((validate_tracker env t >>= λ v. Rows.insert_tracker env t >>= λ u. pure t) w).1 in
      let (v, valid, more, e) =
        >>=-eq-ok (validate_tracker env t) (λ v. Rows.insert_tracker env t >>= λ u. pure t) w h in
      let (same, rows, free) = inserted t t' (validate_tracker env t w).1 more in
      subst
        (λ (x : Tracker).
          (out.trackers ≡ w.trackers ++ row_of x ∷ []) × (any (has_id x.id) w.trackers ≡ false))
        same
        (subst
          (λ (x : Tables).
            (out.trackers ≡ x.trackers ++ row_of t ∷ []) × (any (has_id t.id) x.trackers ≡ false))
          (validate_tracker-Frame env t w)
          (ap (λ (x : Result Tracker × World). x.1.trackers) e ∙ rows, free))

  pub created_row :
      (params : TrackerCreateParams) (t : Tracker) (w : World)
      → (create_tracker env params w).0 ≡ ok t
      → ((create_tracker env params w).1.trackers ≡ w.trackers ++ row_of t ∷ [])
        × (any (has_id t.id) w.trackers ≡ false)
  unfolding create_tracker utc_now
  created_row params t w h = validated_insert _ t _ h

  overwritten :
      (t t' : Tracker) (w : World)
      → ((Rows.update_tracker env t >>= λ u. pure t) w).0 ≡ ok t'
      → (t ≡ t')
        × (((Rows.update_tracker env t >>= λ u. pure t) w).1.trackers
            ≡ update_where (overwrite env t) t.id w.trackers)
  unfolding Rows.update_tracker
  overwritten t t' w h = elim (Bool-cases (any (has_id t.id) w.trackers)) [
    | inr gone ↦ absurd (ground (arith, gone, h))
    | inl there ↦
        elim (Bool-cases (any (λ r. not (has_id t.id r) && Rows.same_unique env t r) w.trackers)) [
          | inl clash ↦ absurd (ground (arith, there, clash, h))
          | inr free ↦ (ground (arith, there, free, h), rw (there, free) refl)
        ]
  ]

  validated_overwrite :
      (t t' : Tracker) (w : World)
      → ((validate_tracker env t >>= λ v. Rows.update_tracker env t >>= λ u. pure t) w).0 ≡ ok t'
      → (t ≡ t')
        × (((validate_tracker env t >>= λ v. Rows.update_tracker env t >>= λ u. pure t)
              w).1.trackers
            ≡ update_where (overwrite env t) t.id w.trackers)
  validated_overwrite t t' w h =
      let (v, valid, more, e) =
        >>=-eq-ok (validate_tracker env t) (λ v. Rows.update_tracker env t >>= λ u. pure t) w h in
      let (same, rows) = overwritten t t' (validate_tracker env t w).1 more in
      (
        same,
        ap (λ (x : Result Tracker × World). x.1.trackers) e
            ∙ rows
            ∙ ap (λ (x : Tables). update_where (overwrite env t) t.id x.trackers)
                (validate_tracker-Frame env t w),
      )

  -- what a successful update says of the tracker, and writes
  pub record IsUpdate (existing t : Tracker) (before after : List TrackerRow) : Type 0 where
    pub same_id : t.id ≡ existing.id
    pub same_created_at : t.created_at ≡ existing.created_at
    pub rows : after ≡ update_where (overwrite env t) t.id before

  written :
      (params : TrackerUpdateParams) (existing t : Tracker) (w : World)
      → (write_update env params existing w).0 ≡ ok t
      → IsUpdate existing t w.trackers (write_update env params existing w).1.trackers
  unfolding write_update utc_now updated
  written params existing t w h =
      let (same, rows) = validated_overwrite _ t _ h in
      record {
        same_id = ap (λ (x : Tracker). x.id) (sym same);
        same_created_at = ap (λ (x : Tracker). x.created_at) (sym same);
        rows = rows ∙ ap (λ (x : Tracker). update_where (overwrite env x) x.id w.trackers) same;
      }

  pub updated_row :
      (id : Uuid) (params : TrackerUpdateParams) (t : Tracker) (w : World)
      → (update_tracker env id params w).0 ≡ ok t
      → (r : TrackerRow) × (find (has_id id) w.trackers ≡ some r)
        × IsUpdate r.tracker t w.trackers (update_tracker env id params w).1.trackers
  unfolding update_tracker Rows.get_tracker
  updated_row id params t w h = elim (Bool-cases (is_unchanged params)) [
    | inl none_given ↦ absurd (ground (arith, none_given, h))
    | inr given ↦ elim (Option-cases (find (has_id id) w.trackers)) [
      | inl absent ↦ absurd (ground (arith, given, absent, h))
      | inr (r, present) ↦ (
        r,
        present,
        rw (given, present) (written params r.tracker t w (rw (given, present) at h)),
      )
    ]
  ]
