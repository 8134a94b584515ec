-- ===== src/Trackers/Api.antt =====
-- src/trackers/api_ext.rs: the methods that create, change, list and remove trackers.
pub mod Linked
pub mod Written
use retrack.Prelude.{
  ltb, ◌==◌, if◌then◌else◌, length, map_option, unwrap_or, is_some, ℕ, String, Bool, true, false,
  not, ◌&&◌, ◌||◌, Option, none, some, List, str_eq,
}
use retrack.Error.{client, nothing_to_update, tracker_not_found, too_many_filter_tags}
use retrack.Exec.{◌>>=◌, ◌>>◌, Exec, pure, bail, lift}
use retrack.Types.{
  Tracker, Uuid, TrackerCreateParams, TrackerUpdateParams, TrackerConfig, SchedulerJobConfig,
  OffsetDateTime,
}
use retrack.Env.{Env}
use retrack.Db.{World, observe, utc_now}
use retrack.Db.Trackers as Rows
use retrack.Trackers.Tags.{max_tracker_tags_count, normalize_tracker_tags, validate_tracker_tags}
use retrack.Trackers.Validation.{reject_if, validate_tracker}

abbrev pub new_tracker : Env → TrackerCreateParams → Uuid → OffsetDateTime → Tracker
new_tracker env params id created_at = record {
  id = id;
  name = params.name;
  enabled = params.enabled;
  target = params.target;
  job_id = none;
  config = params.config;
  tags = normalize_tracker_tags env params.tags;
  actions = params.actions;
  created_at = created_at;
  updated_at = created_at;
}

abbrev pub is_unchanged : TrackerUpdateParams → Bool
is_unchanged p =
    not (is_some p.name)
    && not (is_some p.enabled)
    && not (is_some p.target)
    && not (is_some p.config)
    && not (is_some p.tags)
    && not (is_some p.actions)

-- the `match` on the two job configurations
abbrev pub schedule_differs : Option SchedulerJobConfig → Option SchedulerJobConfig → Bool
schedule_differs (some existing) (some job) = not (str_eq job.schedule existing.schedule)
schedule_differs _ _ = true

abbrev pub changed_schedule : Tracker → Option TrackerConfig → Bool
changed_schedule existing none = false
changed_schedule existing (some config) = schedule_differs existing.config.job config.job

abbrev pub disabled_revisions : Option TrackerConfig → Bool
disabled_revisions none = false
disabled_revisions (some config) = config.revisions == 0

-- the tracker that `update_tracker` writes
unfoldable pub updated : Env → Tracker → TrackerUpdateParams → OffsetDateTime → Tracker
updated env existing params now =
    let enabled = unwrap_or params.enabled existing.enabled in
    record existing {
      name = unwrap_or params.name existing.name;
      enabled = enabled;
      target = unwrap_or params.target existing.target;
      job_id =
          if not enabled
            || disabled_revisions params.config
            || changed_schedule existing params.config
          then none
          else existing.job_id;
      config = unwrap_or params.config existing.config;
      tags = unwrap_or (map_option (normalize_tracker_tags env) params.tags) existing.tags;
      actions = unwrap_or params.actions existing.actions;
      updated_at = now;
    }

abbrev pub or_not_found : Option Tracker → Exec World Tracker
or_not_found none = bail (client tracker_not_found)
or_not_found (some t) = pure t

module _ (env : Env) where
  unfoldable pub create_tracker : TrackerCreateParams → Exec World Tracker
  create_tracker params = do
    created_at ← utc_now env
    id ← observe env.now_v7
    let t = new_tracker env params id created_at
    validate_tracker env t
    Rows.insert_tracker env t
    pure t

  -- the rest of `update_tracker`, with the tracker that was found
  unfoldable pub write_update : TrackerUpdateParams → Tracker → Exec World Tracker
  write_update params existing = do
    now ← utc_now env
    let t = updated env existing params now
    validate_tracker env t
    Rows.update_tracker env t
    pure t

  unfoldable pub update_tracker : Uuid → TrackerUpdateParams → Exec World Tracker
  update_tracker id params = do
    lift (reject_if (is_unchanged params) nothing_to_update)
    found ← Rows.get_tracker id
    existing ← or_not_found found
    write_update params existing

  -- the checks that `get_trackers` and `remove_trackers` share
  unfoldable pub filter_tags : List String → Exec World (List String)
  filter_tags tags = do
    let normalized_tags = normalize_tracker_tags env tags
    lift (reject_if (ltb max_tracker_tags_count (length normalized_tags)) too_many_filter_tags)
    lift (validate_tracker_tags normalized_tags)
    pure normalized_tags

  unfoldable pub get_trackers : List String → Exec World (List Tracker)
  get_trackers tags = do normalized_tags ← filter_tags tags; Rows.get_trackers env normalized_tags

  unfoldable pub remove_trackers : List String → Exec World ℕ
  remove_trackers tags = do
    normalized_tags ← filter_tags tags
    Rows.remove_trackers env normalized_tags
