-- ===== src/Trackers/Revise.antt =====
-- src/trackers/api_ext.rs: `create_tracker_data_revision`, which checks a tracker and stores what is
-- new.
pub mod Displace
pub mod Keeps
pub mod Retention
use retrack.Prelude.{
  ltb, if◌then◌else◌, length, take, last?, map_option, ℕ, ◌+◌, ◌-◌, min, Bool, none, some, List,
  str_eq,
}
use retrack.Error.{ok}
use retrack.Exec.{◌>>=◌, ◌>>◌, Exec, pure, for_each}
use retrack.Types.{Tracker, TrackerDataRevision, Uuid}
use retrack.Env.{Env}
use retrack.Db.{World}
use retrack.Db.Trackers as Rows
use retrack.Db.Revisions.{
  get_tracker_data, insert_tracker_data_revision, remove_tracker_data_revision,
}
use retrack.Trackers.Api.{or_not_found}
use retrack.Trackers.Actions.{execute_tracker_action}
use retrack.Trackers.Fetch.{fetch_revision}

-- the limit that holds for a tracker: its own, or the server's if that is lower
abbrev pub max_revisions : Env → Tracker → ℕ
max_revisions env t = min t.config.revisions env.config.trackers.max_revisions

-- `last_revision.data.original() == new_revision.data.original()`
abbrev pub same_original : TrackerDataRevision → TrackerDataRevision → Bool
same_original last fetched = str_eq last.value.original fetched.value.original

module _ (env : Env) (t : Tracker) where
  unfoldable pub insert_if_allowed : TrackerDataRevision → Exec World Unit
  insert_if_allowed fetched w =
      if ltb 0 (max_revisions env t) then insert_tracker_data_revision fetched w else (ok tt, w)

  -- `max(len - max_revisions + 1, 0)` in signed arithmetic
  unfoldable pub displace : List TrackerDataRevision → Exec World Unit
  unfolding for_each
  displace revisions =
      for_each (λ (r : TrackerDataRevision). remove_tracker_data_revision t.id r.id)
        (take (length revisions + 1 - max_revisions env t) revisions)

  -- the actions, the insertion and the displacement
  unfoldable pub store_changed :
      List TrackerDataRevision → TrackerDataRevision → Exec World TrackerDataRevision
  unfolding for_each
  store_changed revisions fetched = do
    for_each
        (execute_tracker_action env t fetched.value (map_option (λ r. r.value) (last? revisions)))
        t.actions
    insert_if_allowed fetched
    displace revisions
    pure fetched

  unfoldable pub store_revision :
      List TrackerDataRevision → TrackerDataRevision → Exec World TrackerDataRevision
  store_revision revisions fetched = elim (last? revisions) [
    | none ↦ store_changed revisions fetched
    | some last ↦ if same_original last fetched then pure last else store_changed revisions fetched
  ]

module _ (env : Env) where
  unfoldable pub create_tracker_data_revision : Uuid → Exec World TrackerDataRevision
  create_tracker_data_revision tracker_id = do
    found ← Rows.get_tracker tracker_id
    t ← or_not_found found
    revisions ← get_tracker_data t.id
    fetched ← fetch_revision env t revisions
    store_revision env t revisions fetched
