-- ===== src/Db/Trackers.antt =====
-- src/trackers/database_ext.rs: the queries on `trackers`, and the columns that `RawTracker` computes
-- (src/trackers/database_ext/raw_tracker.rs).
pub mod Find
use retrack.Prelude.{
  ltb, ◌==◌, if◌then◌else◌, length, is_empty, any, all, keep, find, map_option, is_some, ℕ, String,
  Bool, false, not, ◌&&◌, ◌||◌, Option, some, List, [], ◌∷◌, ◌++◌, map,
}
use retrack.Error.{ok, err, client, unknown, already_exists, cannot_write, tracker_gone}
use retrack.Exec.{Exec, modify, gets}
use retrack.Types.{Tracker, Uuid}
use retrack.Env.{Env}
use retrack.Db.{TrackerRow, World}
use retrack.Db.Paging.{order_by}

-- the `job_needed` column: TryFrom<&Tracker> for RawTracker
unfoldable pub job_needed : Tracker → Bool
job_needed t = is_some t.config.job && ltb 0 t.config.revisions && t.enabled

unfoldable pub row_of : Tracker → TrackerRow
unfolding job_needed
row_of t = record { tracker = t; job_needed = job_needed t }

abbrev pub has_id : Uuid → TrackerRow → Bool
has_id id r = r.tracker.id == id

-- one job cannot serve two rows: `job_id UUID UNIQUE`
abbrev pub same_job_id : Option Uuid → Option Uuid → Bool
same_job_id (some a) (some b) = a == b
same_job_id _ _ = false

abbrev pub has_job_id : Uuid → TrackerRow → Bool
has_job_id job r = same_job_id r.tracker.job_id (some job)

-- the rows of `tables`, after a change to `trackers`
abbrev pub with_trackers : List TrackerRow → World → World
with_trackers rows w = record w { tables = record w.tables { trackers = rows } }

-- `UPDATE trackers SET … WHERE id = $1`
unfoldable pub update_where : (TrackerRow → TrackerRow) → Uuid → List TrackerRow → List TrackerRow
update_where f id [] = []
update_where f id (r ∷ rs) = (if has_id id r then f r else r) ∷ update_where f id rs

module _ (env : Env) where
  -- `tags @> $1`
  unfoldable pub contains_tags : List String → TrackerRow → Bool
  contains_tags tags r = all (λ tag. any (env.same_text tag) r.tracker.tags) tags

  -- a unique column of `t` has its value in `r` already
  abbrev pub same_unique : Tracker → TrackerRow → Bool
  same_unique t r = env.same_text r.tracker.name t.name || same_job_id r.tracker.job_id t.job_id

  unfoldable pub get_trackers : List String → Exec World (List Tracker)
  unfolding contains_tags
  get_trackers tags = gets λ w.
      map (λ r. r.tracker)
        (order_by (λ r. r.tracker.updated_at)
          (if is_empty tags then w.trackers else keep (contains_tags tags) w.trackers))

  unfoldable pub insert_tracker : Tracker → Exec World (Unit)
  unfolding row_of
  insert_tracker t w =
      if any (λ r. has_id t.id r || same_unique t r) w.trackers
      then (err (client already_exists), w)
      else (ok tt, with_trackers (w.trackers ++ row_of t ∷ []) w)

  -- `created_at` is not among the columns that are set
  abbrev pub overwrite : Tracker → TrackerRow → TrackerRow
  overwrite t r = row_of (record t { created_at = r.tracker.created_at })

  unfoldable pub update_tracker : Tracker → Exec World (Unit)
  unfolding update_where row_of
  update_tracker t w =
      if any (has_id t.id) w.trackers
      then if any (λ r. not (has_id t.id r) && same_unique t r) w.trackers
        then (err (unknown cannot_write), w)
        else (ok tt, with_trackers (update_where (overwrite t) t.id w.trackers) w)
      else (err (client tracker_gone), w)

  -- `trackers_data.tracker_id` is declared ON DELETE CASCADE
  unfoldable pub remove_trackers : List String → Exec World ℕ
  unfolding contains_tags
  remove_trackers tags w =
      let gone = keep (λ r. is_empty tags || contains_tags tags r) w.trackers in
      (
        ok (length gone),
        record w {
          tables = record w.tables {
            trackers = keep (λ r. not (is_empty tags || contains_tags tags r)) w.trackers;
            trackers_data = keep (λ d. not (any (has_id d.tracker_id) gone)) w.trackers_data;
          };
        },
      )

unfoldable pub get_tracker : Uuid → Exec World (Option Tracker)
get_tracker id = gets λ w. map_option (λ r. r.tracker) (find (has_id id) w.trackers)

unfoldable pub remove_tracker : Uuid → Exec World (Unit)
remove_tracker id = modify λ w. record w {
  tables = record w.tables {
    trackers = keep (λ r. not (has_id id r)) w.trackers;
    trackers_data = keep (λ d. not (d.tracker_id == id)) w.trackers_data;
  };
}

abbrev pub to_schedule : TrackerRow → Bool
to_schedule r = r.job_needed && r.tracker.enabled && not (is_some r.tracker.job_id)

unfoldable pub get_trackers_to_schedule : Exec World (List Tracker)
get_trackers_to_schedule =
    gets
      λ w. map (λ r. r.tracker) (order_by (λ r. r.tracker.updated_at) (keep to_schedule w.trackers))

unfoldable pub get_tracker_by_job_id : Uuid → Exec World (Option Tracker)
get_tracker_by_job_id job = gets λ w. map_option (λ r. r.tracker) (find (has_job_id job) w.trackers)

abbrev pub set_job : Option Uuid → TrackerRow → TrackerRow
set_job job r = record r { tracker = record r.tracker { job_id = job } }

unfoldable pub update_tracker_job : Uuid → Option Uuid → Exec World (Unit)
unfolding update_where
update_tracker_job id job w =
    if any (has_id id) w.trackers
    then if any (λ r. not (has_id id r) && same_job_id r.tracker.job_id job) w.trackers
      then (err (unknown cannot_write), w)
      else (ok tt, with_trackers (update_where (set_job job) id w.trackers) w)
    else (err (client tracker_gone), w)
