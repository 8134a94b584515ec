-- ===== src/Trackers/History.antt =====
-- src/trackers/api_ext.rs: `get_tracker_data`, the revisions of a tracker, as they are or as
-- differences.
use retrack.Prelude.{
  Option-cases, Bool-cases, any, keep, find, ◌≡◌, refl, Bool, true, false, Option, none, some, List,
  inl, inr, ◌⊎◌, ◌∙◌, arith, [], ◌∷◌,
}
use retrack.Error.{ok, err, unknown, response_failed}
use retrack.Exec.{◌>>=◌, Exec, pure, bail}
use retrack.Types.{TrackerDataRevision, Uuid}
use retrack.Db.{World, TrackerRow}
use retrack.Db.Trackers as Rows
use retrack.Db.Trackers.{has_id}
use retrack.Db.Revisions as Stored
use retrack.Db.Revisions.{belongs_to}
use retrack.Db.Paging.{order_by}
use retrack.Trackers.Api.{or_not_found}
use retrack.Trackers.Diff.{
  Printing, tracker_data_revisions_diff, AreDiffs, tracker_data_revisions_diff-AreDiffs,
}

module _ (p : Printing) where
  abbrev or_no_diff : Option (List TrackerDataRevision) → Exec World (List TrackerDataRevision)
  or_no_diff none = bail (unknown response_failed)
  or_no_diff (some ds) = pure ds

  abbrev pub shown : Bool → List TrackerDataRevision → Exec World (List TrackerDataRevision)
  shown true revisions = or_no_diff (tracker_data_revisions_diff p revisions)
  shown false revisions = pure revisions

  -- TrackersApiExt::get_tracker_data; the flag is `calculate_diff`
  unfoldable pub get_tracker_data : Uuid → Bool → Exec World (List TrackerDataRevision)
  get_tracker_data tracker_id calculate_diff = do
    found ← Rows.get_tracker tracker_id
    t ← or_not_found found
    revisions ← Stored.get_tracker_data tracker_id
    shown calculate_diff revisions

  -- the rows of a tracker, oldest first
  abbrev pub stored_rows : Uuid → World → List TrackerDataRevision
  stored_rows id w = order_by (λ d. d.created_at) (keep (belongs_to id) w.trackers_data)

  abbrev pub Shown : Bool → List TrackerDataRevision → List TrackerDataRevision → Type 0
  Shown true rows out = AreDiffs p none rows out
  Shown false rows out = out ≡ rows

  any_of_find :
      (id : Uuid) (rows : List TrackerRow) (r : TrackerRow)
      → find (has_id id) rows ≡ some r
      → any (has_id id) rows ≡ true
  any_of_find id [] r e = cc
  any_of_find id (x ∷ rows) r e = elim (Bool-cases (has_id id x)) [
    | inl here ↦ rw here refl
    | inr there ↦ rw there (any_of_find id rows r (ground arith))
  ]

  pub shown_lem :
      (id : Uuid) (d : Bool) (w : World) (r : TrackerRow)
      → find (has_id id) w.trackers ≡ some r
      → get_tracker_data id d w ≡ shown d (stored_rows id w) w
  unfolding get_tracker_data Rows.get_tracker Stored.get_tracker_data
  shown_lem id d w r e = rw (e, any_of_find id w.trackers r e) refl

  -- what is answered, and that nothing changes
  abbrev Answered : Bool → List TrackerDataRevision → World → Type 0
  Answered d rows w =
      (((out : List TrackerDataRevision) × (shown d rows w ≡ (ok out, w)) × Shown d rows out)
        ⊎ ((d ≡ true)
            × (tracker_data_revisions_diff p rows ≡ none)
            × (shown d rows w ≡ (err (unknown response_failed), w))))

  shown-Answered : (d : Bool) (rows : List TrackerDataRevision) (w : World) → Answered d rows w
  shown-Answered false rows w = inl (rows, refl, refl)
  shown-Answered true rows w = elim (Option-cases (tracker_data_revisions_diff p rows)) [
    | inl bad ↦ inr (refl, bad, rw bad refl)
    | inr (out, good) ↦
        inl (out, rw good refl, tracker_data_revisions_diff-AreDiffs p rows out good)
  ]

  -- For a tracker that is there, listing its revisions gives all of its rows, oldest first, or, where
  -- differences are asked for, the oldest row and the differences of the later ones; or differences
  -- were asked for and cannot be computed, which is an unknown error. No table is written.
  pub get_tracker_data-answers :
      (id : Uuid) (d : Bool) (w : World) (r : TrackerRow)
      → find (has_id id) w.trackers ≡ some r
      → ((out : List TrackerDataRevision) × (get_tracker_data id d w ≡ (ok out, w))
          × Shown d (stored_rows id w) out)
        ⊎ ((d ≡ true)
            × (tracker_data_revisions_diff p (stored_rows id w) ≡ none)
            × (get_tracker_data id d w ≡ (err (unknown response_failed), w)))
  get_tracker_data-answers id d w r e = elim (shown-Answered d (stored_rows id w) w) [
    | inl (out, same, right) ↦ inl (out, shown_lem id d w r e ∙ same, right)
    | inr (asked, bad, same) ↦ inr (asked, bad, shown_lem id d w r e ∙ same)
  ]
