-- ===== src/Db/Revisions.antt =====
-- src/trackers/database_ext.rs: the queries on `trackers_data`.
use retrack.Prelude.{◌==◌, if◌then◌else◌, any, keep, Bool, not, ◌&&◌, ◌||◌, List, [], ◌∷◌, ◌++◌}
use retrack.Error.{ok, err, client, unknown, revision_exists, cannot_write}
use retrack.Exec.{Exec, gets, modify}
use retrack.Types.{TrackerDataRevision, Uuid}
use retrack.Db.{World}
use retrack.Db.Paging.{order_by}
use retrack.Db.Trackers.{has_id}

abbrev pub belongs_to : Uuid → TrackerDataRevision → Bool
belongs_to tracker_id d = d.tracker_id == tracker_id

abbrev pub with_data : List TrackerDataRevision → World → World
with_data rows w = record w { tables = record w.tables { trackers_data = rows } }

-- the rows of one tracker that is there (INNER JOIN), oldest first
unfoldable pub get_tracker_data : Uuid → Exec World (List TrackerDataRevision)
get_tracker_data tracker_id = gets λ w.
    if any (has_id tracker_id) w.trackers
    then order_by (λ d. d.created_at) (keep (belongs_to tracker_id) w.trackers_data)
    else []

unfoldable pub clear_tracker_data : Uuid → Exec World (Unit)
clear_tracker_data tracker_id =
    modify λ w. with_data (keep (λ d. not (belongs_to tracker_id d)) w.trackers_data) w

-- the primary key, and UNIQUE (created_at, tracker_id)
abbrev pub same_revision : TrackerDataRevision → TrackerDataRevision → Bool
same_revision a b = a.id == b.id || (a.created_at == b.created_at && a.tracker_id == b.tracker_id)

unfoldable pub insert_tracker_data_revision : TrackerDataRevision → Exec World (Unit)
insert_tracker_data_revision d w =
    if any (same_revision d) w.trackers_data
    then (err (client revision_exists), w)
    else if any (has_id d.tracker_id) w.trackers
    then (ok tt, with_data (w.trackers_data ++ d ∷ []) w)
    else (err (unknown cannot_write), w)

unfoldable pub remove_tracker_data_revision : Uuid → Uuid → Exec World (Unit)
remove_tracker_data_revision tracker_id id =
    modify
      λ w. with_data (keep (λ d. not (belongs_to tracker_id d && d.id == id)) w.trackers_data) w
