-- ===== src/Server.antt =====
-- src/server/handlers and src/server/server_state: the requests that the server answers. The routes,
-- and the parsing of paths, queries and JSON bodies, are those of the web framework; a body is the
-- value that is printed as JSON.
pub mod Atomic
pub mod Refines
pub mod Resources
pub mod Removal
use retrack.Prelude.{if◌then◌else◌, ℕ, String, Bool, not, Option, none, some, List, ◌&&◌}
use retrack.Error.{Error, Reason, Result, ok, err, client, unknown, status_code}
use retrack.Exec.{◌>>=◌, ◌>>◌, Exec, pure}
use retrack.Types.{Tracker, TrackerDataRevision, Uuid, TrackerCreateParams, TrackerUpdateParams}
use retrack.Env.{Env}
use retrack.Db.{World}
use retrack.Db.Trackers as Rows
use retrack.Db.Revisions.{clear_tracker_data}
use retrack.Scheduler.Resume as Scheduler
use retrack.Scheduler.Resume.{SchedulerStatus}
use retrack.Trackers.Api.{create_tracker, update_tracker, get_trackers, remove_trackers}
use retrack.Trackers.Revise.{create_tracker_data_revision}
use retrack.Trackers.Diff.{Printing}
use retrack.Trackers.History.{get_tracker_data}

-- Status: src/server/server_state/status.rs
pub record Status : Type 0 where
  pub version : String
  pub scheduler : SchedulerStatus

abbrev pub is_operational : Status → Bool
is_operational s = s.scheduler.operational

pub data Body : Type 0 where
  empty : Body
  status : Status → Body
  tracker : Tracker → Body
  trackers : List Tracker → Body
  revision : TrackerDataRevision → Body
  revisions : List TrackerDataRevision → Body
  count : ℕ → Body
  -- the message of a client error, or "Internal Server Error"
  message : Option Reason → Body

pub record HttpResponse : Type 0 where
  pub code : ℕ
  pub body : Body

abbrev pub ok_json : Body → HttpResponse
ok_json b = record { code = 200; body = b }

abbrev pub no_content : HttpResponse
no_content = record { code = 204; body = empty }

-- ResponseError::error_response
unfoldable pub error_response : Error → HttpResponse
unfolding status_code
error_response (client r) = record { code = status_code (client r); body = message (some r) }
error_response (unknown r) = record { code = status_code (unknown r); body = message none }

-- the routes, with what the web framework has parsed
pub data Request : Type 0 where
  api_status : (fail_if_not_operational : Bool) → Request
  api_list : (tags : List String) → Request
  api_get : (id : Uuid) → Request
  api_create : (params : TrackerCreateParams) → Request
  api_update : (id : Uuid) (params : TrackerUpdateParams) → Request
  api_remove : (id : Uuid) → Request
  api_bulk_remove : (tags : List String) → Request
  api_list_revisions : (id : Uuid) (calculate_diff : Bool) → Request
  api_create_revision : (id : Uuid) → Request
  api_clear_revisions : (id : Uuid) → Request

abbrev pub found : Option Tracker → HttpResponse
found (some t) = ok_json (tracker t)
found none = record { code = 404; body = empty }

-- ServerState::status, and `api_status` with it
unfoldable pub report : Bool → Status → HttpResponse
report fail s =
    if not (is_operational s) && fail
    then (record { code = 500; body = empty })
    else ok_json (status s)

module _ (env : Env) (printing : Printing) (version : String)
    (next_job : ℕ → Option (Option ℕ)) where
  abbrev status_of : World → Status
  status_of w = record { version = version; scheduler = Scheduler.status (next_job w.moment) }

  -- the handlers
  unfoldable pub status_get : Bool → Exec World HttpResponse
  unfolding report
  status_get fail = λ w. (ok (report fail (status_of w)), w)

  unfoldable pub trackers_list : List String → Exec World HttpResponse
  trackers_list tags = do ts ← get_trackers env tags; pure (ok_json (trackers ts))

  unfoldable pub trackers_get : Uuid → Exec World HttpResponse
  trackers_get id = do t ← Rows.get_tracker id; pure (found t)

  unfoldable pub trackers_create : TrackerCreateParams → Exec World HttpResponse
  trackers_create params = do t ← create_tracker env params; pure (ok_json (tracker t))

  unfoldable pub trackers_update : Uuid → TrackerUpdateParams → Exec World HttpResponse
  trackers_update id params = do t ← update_tracker env id params; pure (ok_json (tracker t))

  unfoldable pub trackers_remove : Uuid → Exec World HttpResponse
  trackers_remove id = do Rows.remove_tracker id; pure no_content

  unfoldable pub trackers_bulk_remove : List String → Exec World HttpResponse
  trackers_bulk_remove tags = do n ← remove_trackers env tags; pure (ok_json (count n))

  unfoldable pub trackers_list_revisions : Uuid → Bool → Exec World HttpResponse
  trackers_list_revisions id calculate_diff = do
    rs ← get_tracker_data printing id calculate_diff
    pure (ok_json (revisions rs))

  unfoldable pub trackers_create_revision : Uuid → Exec World HttpResponse
  trackers_create_revision id = do
    r ← create_tracker_data_revision env id
    pure (ok_json (revision r))

  unfoldable pub trackers_clear_revisions : Uuid → Exec World HttpResponse
  trackers_clear_revisions id = do clear_tracker_data id; pure no_content

  unfoldable pub handle : Request → Exec World HttpResponse
  unfolding status_get trackers_list trackers_get trackers_create trackers_update trackers_remove
      trackers_bulk_remove trackers_list_revisions trackers_create_revision trackers_clear_revisions
  handle (api_status fail) = status_get fail
  handle (api_list tags) = trackers_list tags
  handle (api_get id) = trackers_get id
  handle (api_create params) = trackers_create params
  handle (api_update id params) = trackers_update id params
  handle (api_remove id) = trackers_remove id
  handle (api_bulk_remove tags) = trackers_bulk_remove tags
  handle (api_list_revisions id diff) = trackers_list_revisions id diff
  handle (api_create_revision id) = trackers_create_revision id
  handle (api_clear_revisions id) = trackers_clear_revisions id

  abbrev pub answer : Result HttpResponse → HttpResponse
  answer (ok r) = r
  answer (err e) = error_response e

  -- What is sent: an error of a handler becomes a response.
  unfoldable pub serve : Request → World → HttpResponse × World
  unfolding handle error_response
  serve request w = let (r, w') = handle request w in (answer r, w')
