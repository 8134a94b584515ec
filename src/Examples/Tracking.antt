-- ===== src/Examples/Tracking.antt =====
-- The theorems on trackers and their data at concrete inputs, and tests.
use retrack.Prelude.{length, any, String, ◌≡◌, refl, ◌≢◌, some, map, arith, str_eq}
use retrack.Exec.{for_each}
use retrack.Error.{ok}
use retrack.Types.{Uuid}
use retrack.Db.{utc_now}
use retrack.Db.Trackers.{job_needed}
use retrack.Trackers.Tags.{
  NoRepeat, normalize_tracker_tags, normalize_tracker_tags-NoRepeat, validate_tracker_tags,
}
use retrack.Scheduler.Cron
use retrack.Db.Paging.{order_by}
use retrack.Db.Revisions.{insert_tracker_data_revision, remove_tracker_data_revision}
use retrack.Trackers.Validation.{
  validate_tracker, validate_tracker_actions, validate_action, validate_target,
  validate_page_target, validate_script_url, validate_job, validate_retry_strategy,
}
use retrack.Trackers.Validation.Limits.{TrackerOk, validate_tracker-TrackerOk}
use retrack.Trackers.Api.{update_tracker}
use retrack.Trackers.Api.Linked.{AllLinked, update_tracker-AllLinked}
use retrack.Tasks.Api.{schedule_task}
use retrack.Trackers.Actions.{has_changed, send_email, execute_tracker_action}
use retrack.Trackers.Actions.Notify.{length-actions}
use retrack.Trackers.Revise.{store_changed, insert_if_allowed, displace}
use retrack.Trackers.Revise.Retention.{rows_of, oldest_first, store_changed-retention}
use retrack.Examples.Data.{
  demo_env, demo_tracker, demo_world, demo_params, disable, fetched, demo_actions, value_of,
}

demo_accepted : (validate_tracker demo_env demo_tracker demo_world).0 ≡ ok tt
unfolding validate_tracker validate_tracker_actions validate_action validate_tracker_tags
    validate_target validate_page_target validate_script_url validate_job Cron.min_interval
    Cron.shortest_of validate_retry_strategy
demo_accepted = refl

validate_tracker-TrackerOk_example : TrackerOk demo_env demo_tracker
validate_tracker-TrackerOk_example =
    validate_tracker-TrackerOk demo_env demo_tracker demo_world demo_accepted

normalize_tracker_tags-NoRepeat_example :
    NoRepeat (normalize_tracker_tags demo_env demo_params.tags)
    × ((t : String)
        → any (str_eq t) (normalize_tracker_tags demo_env demo_params.tags)
          ≡ any (str_eq t) (map demo_env.trim_to_lowercase demo_params.tags))
normalize_tracker_tags-NoRepeat_example = normalize_tracker_tags-NoRepeat demo_env demo_params.tags

demo_linked : AllLinked demo_world
unfolding job_needed
demo_linked = (record { column = refl; linked = λ e. refl }, tt)

update_tracker-AllLinked_example : AllLinked (update_tracker demo_env 1 disable demo_world).1
update_tracker-AllLinked_example =
    update_tracker-AllLinked demo_env 1 disable demo_world demo_linked

length-actions_example :
    length
      (for_each
        (execute_tracker_action demo_env demo_tracker (value_of "c") (some (value_of "b")))
        demo_actions
        demo_world).1.tasks
    ≡ 1
unfolding execute_tracker_action has_changed schedule_task utc_now send_email for_each
length-actions_example =
    length-actions demo_env demo_tracker (value_of "c") (some (value_of "b")) demo_actions
      demo_world refl

store_changed-retention_example :
    (length (
        rows_of 1
          (store_changed demo_env demo_tracker
            (oldest_first (rows_of 1 demo_world))
            fetched
            demo_world).1)
      ≡ 2)
    × ((other : Uuid)
        → other ≢ 1
        → rows_of other
            (store_changed demo_env demo_tracker
              (oldest_first (rows_of 1 demo_world))
              fetched
              demo_world).1
          ≡ rows_of other demo_world)
store_changed-retention_example =
    store_changed-retention demo_env demo_tracker fetched demo_world (omega arith) refl (
      unfold store_changed execute_tracker_action has_changed schedule_task utc_now send_email
        for_each insert_if_allowed insert_tracker_data_revision displace
        remove_tracker_data_revision order_by in
      refl)
