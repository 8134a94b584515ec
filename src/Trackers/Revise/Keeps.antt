-- ===== src/Trackers/Revise/Keeps.antt =====
-- Checking a tracker reads the table `trackers` and does not write it.
use retrack.Prelude.{
  Option-cases, ◌≡◌, sym, subst, none, some, List, last?, length, take, ◌+◌, ◌-◌, arith, inl, inr,
  Option,
}
use retrack.Exec.{Exec, pure}
use retrack.Exec.Keeps.{Keeps, Keeps-pure, Keeps-if, Keeps-for_each, keeps_rules}
use retrack.Types.{
  Tracker, TrackerDataRevision, TrackerAction, email, webhook, server_log, Json, Uuid,
  OffsetDateTime,
}
use retrack.Types.DataValue.{TrackerDataValue}
use retrack.Env.{Env}
use retrack.Db.{World, Tables, TrackerRow, utc_now}
use retrack.Db.Trackers as Rows
use retrack.Db.Revisions.{
  get_tracker_data, insert_tracker_data_revision, remove_tracker_data_revision,
}
use retrack.Tasks.Task.{TaskType}
use retrack.Tasks.Api.{schedule_task}
use retrack.Trackers.Api.{or_not_found}
use retrack.Trackers.Actions.{send_email, send_webhook, execute_tracker_action}
use retrack.Trackers.Fetch.Keeps.{fetch_revision-Keeps}
use retrack.Trackers.Revise.{
  insert_if_allowed, displace, store_changed, store_revision, create_tracker_data_revision,
  same_original, max_revisions,
}

module _ (Q : List TrackerRow → Type 0) where
  abbrev pub OfTrackers : World → Type 0
  OfTrackers w = Q w.trackers

  -- a method that leaves the table as it was
  pub same-Keeps :
      {A : Type 0} (m : Exec World A)
      → ((w : World) → (m w).1.trackers ≡ w.trackers)
      → Keeps OfTrackers m
  same-Keeps m f = record { at = λ w h. subst Q (sym (f w)) h }

module _ (env : Env) where
  pub schedule_task-trackers :
      (task : TaskType) (at : OffsetDateTime) (w : World)
      → (schedule_task env task at w).1.trackers ≡ w.trackers
  unfolding schedule_task
  schedule_task-trackers task at w = ground arith

  action-trackers :
      (t : Tracker) (latest : TrackerDataValue Json) (previous : Option (TrackerDataValue Json))
      (a : TrackerAction) (w : World)
      → (execute_tracker_action env t latest previous a w).1.trackers ≡ w.trackers
  unfolding execute_tracker_action send_email send_webhook schedule_task utc_now
  action-trackers t latest previous (email a) w = ground arith
  action-trackers t latest previous (webhook a) w = ground arith
  action-trackers t latest previous server_log w = ground arith

insert-trackers :
    (d : TrackerDataRevision) (w : World)
    → (insert_tracker_data_revision d w).1.trackers ≡ w.trackers
unfolding insert_tracker_data_revision
insert-trackers d w = ground arith

insert_allowed-trackers :
    (env : Env) (t : Tracker) (d : TrackerDataRevision) (w : World)
    → (insert_if_allowed env t d w).1.trackers ≡ w.trackers
unfolding insert_if_allowed
insert_allowed-trackers env t d w = ground (arith, insert-trackers d w)

module _ (Q : List TrackerRow → Type 0) (env : Env) where
  insert_if_allowed-Keeps :
      (t : Tracker) (d : TrackerDataRevision) → Keeps (OfTrackers Q) (insert_if_allowed env t d)
  insert_if_allowed-Keeps t d =
      same-Keeps Q (insert_if_allowed env t d) (insert_allowed-trackers env t d)

  action-Keeps :
      (t : Tracker) (latest : TrackerDataValue Json) (previous : Option (TrackerDataValue Json))
      (a : TrackerAction)
      → Keeps (OfTrackers Q) (execute_tracker_action env t latest previous a)
  action-Keeps t latest previous a =
      same-Keeps Q (execute_tracker_action env t latest previous a)
        (action-trackers env t latest previous a)

  displace-Keeps :
      (t : Tracker) (revisions : List TrackerDataRevision)
      → Keeps (OfTrackers Q) (displace env t revisions)
  unfolding displace remove_tracker_data_revision
  displace-Keeps t revisions =
      Keeps-for_each (λ (r : TrackerDataRevision). remove_tracker_data_revision t.id r.id)
        (λ r. record { at = λ w h. h })
        (take (length revisions + 1 - max_revisions env t) revisions)

  store_changed-Keeps :
      (t : Tracker) (revisions : List TrackerDataRevision) (d : TrackerDataRevision)
      → Keeps (OfTrackers Q) (store_changed env t revisions d)
  unfolding store_changed
  store_changed-Keeps t revisions d =
      search (keeps_rules, Keeps-for_each, action-Keeps, insert_if_allowed-Keeps, displace-Keeps)

  store_revision-Keeps :
      (t : Tracker) (revisions : List TrackerDataRevision) (d : TrackerDataRevision)
      → Keeps (OfTrackers Q) (store_revision env t revisions d)
  unfolding store_revision
  store_revision-Keeps t revisions d = elim (Option-cases (last? revisions)) [
    | inl e ↦ rw (e, store_revision) (store_changed-Keeps t revisions d)
    | inr (last, e) ↦
        rw (e, store_revision)
          (Keeps-if (same_original last d) (pure last) (store_changed env t revisions d)
            (Keeps-pure last) (store_changed-Keeps t revisions d))
  ]

  or_not_found-Keeps : (o : Option Tracker) → Keeps (OfTrackers Q) (or_not_found o)
  or_not_found-Keeps none = record { at = λ w h. h }
  or_not_found-Keeps (some t) = Keeps-pure t

  get_tracker-Keeps : (id : Uuid) → Keeps (OfTrackers Q) (Rows.get_tracker id)
  unfolding Rows.get_tracker
  get_tracker-Keeps id = record { at = λ w h. h }

  get_tracker_data-Keeps : (id : Uuid) → Keeps (OfTrackers Q) (get_tracker_data id)
  unfolding get_tracker_data
  get_tracker_data-Keeps id = record { at = λ w h. h }

  -- Checking a tracker keeps every property of the table `trackers`.
  pub create_tracker_data_revision-Keeps :
      (id : Uuid) → Keeps (OfTrackers Q) (create_tracker_data_revision env id)
  unfolding create_tracker_data_revision
  create_tracker_data_revision-Keeps id = search (
    keeps_rules,
    get_tracker-Keeps,
    or_not_found-Keeps,
    get_tracker_data-Keeps,
    fetch_revision-Keeps (λ (x : Tables). Q x.trackers),
    store_revision-Keeps,
  )
