-- ===== src/Examples/Fetching.antt =====
-- The theorems on targets and on fetching at concrete inputs, and tests.
use retrack.Prelude.{◌≡◌, refl, []}
use retrack.Error.{ok}
use retrack.Types.{TrackerDataRevision}
use retrack.Db.{utc_now}
use retrack.Network.{is_public_web_url}
use retrack.Network.IpAddrExt.{is_global}
use retrack.Scheduler.Cron
use retrack.Trackers.Tags.{validate_tracker_tags}
use retrack.Trackers.Validation
use retrack.Trackers.Validation.{validate_tracker}
use retrack.Trackers.Validation.Targets.{TargetOk, validate_tracker-TargetOk}
use retrack.Trackers.Fetch.{get_script_content, create_page_revision}
use retrack.Trackers.Fetch.Page.{IsScraped, create_page_revision-IsScraped}
use retrack.Examples.Data.{
  restricted_env, api_tracker, remote_target, demo_tracker, demo_world, value_of,
}

api_accepted : (validate_tracker restricted_env api_tracker demo_world).0 ≡ ok tt
unfolding validate_tracker Validation.validate_tracker_actions Validation.validate_action
    validate_tracker_tags Validation.validate_target Validation.validate_api_target
    is_public_web_url is_global Validation.validate_script Validation.validate_script_url
    Validation.validate_job Cron.min_interval Cron.shortest_of Validation.validate_retry_strategy
api_accepted = refl

validate_tracker-TargetOk_example : TargetOk restricted_env api_tracker.target
validate_tracker-TargetOk_example =
    validate_tracker-TargetOk restricted_env api_tracker demo_world api_accepted

abbrev scraped_revision : TrackerDataRevision
scraped_revision = record { id = 103; tracker_id = 1; value = value_of "new"; created_at = 5000000 }

is_scraped :
    (create_page_revision restricted_env demo_tracker remote_target [] demo_world).0
    ≡ ok scraped_revision
unfolding create_page_revision get_script_content is_public_web_url is_global utc_now
is_scraped = refl

create_page_revision-IsScraped_example :
    IsScraped restricted_env demo_tracker remote_target [] scraped_revision
create_page_revision-IsScraped_example =
    create_page_revision-IsScraped restricted_env demo_tracker remote_target [] demo_world
      is_scraped
