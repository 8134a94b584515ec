-- ===== src/Db/RawTracker.antt =====
-- src/trackers/database_ext/raw_tracker.rs: a row of `trackers` and its conversion to and from a
-- tracker. The bytes of the column `config` have the type `Stored`. A `HashMap` of headers is a list
-- in which no name occurs twice; its order is not modelled.
pub mod RoundTrip
use retrack.Prelude.{
  if◌then◌else◌, any, traverse, and_then, map_option, unwrap_or, is_some, ltb, ℕ, String, Bool,
  true, false, ◌&&◌, Option, none, some, List, [], ◌∷◌, map, str_eq,
}
use retrack.Types.{
  Tracker, TrackerTarget, TargetRequest, TrackerAction, SchedulerJobConfig, HeaderMap, Json, Bytes,
  Url, Uuid, OffsetDateTime,
}
use retrack.Scheduler.RetryStrategy.{Duration, SchedulerJobRetryStrategy}

pub data RawSchedulerJobRetryStrategy : Type 0 where
  constant : Duration → ℕ → RawSchedulerJobRetryStrategy
  exponential : Duration → ℕ → Duration → ℕ → RawSchedulerJobRetryStrategy
  linear : Duration → Duration → Duration → ℕ → RawSchedulerJobRetryStrategy

pub record RawSchedulerJobConfig : Type 0 where
  pub schedule : String
  pub retry_strategy : Option RawSchedulerJobRetryStrategy

pub record RawPageTarget : Type 0 where
  pub extractor : String
  pub extractor_params : Option Bytes
  pub user_agent : Option String
  pub ignore_https_errors : Option Bool

pub record RawApiTargetRequest : Type 0 where
  pub url : String
  pub method : Option String
  pub headers : Option (List (String × String))
  pub body : Option Bytes
  pub media_type : Option String

pub record RawApiTarget : Type 0 where
  pub requests : List RawApiTargetRequest
  pub configurator : Option String
  pub extractor : Option String

pub data RawTrackerTarget : Type 0 where
  page : RawPageTarget → RawTrackerTarget
  api : RawApiTarget → RawTrackerTarget

pub data RawTrackerAction : Type 0 where
  email : List String → RawTrackerAction
  -- url, method, headers
  webhook : String → Option String → Option (List (String × String)) → RawTrackerAction
  server_log : RawTrackerAction

pub record RawTrackerConfig : Type 0 where
  pub revisions : ℕ
  pub timeout : Option Duration
  pub target : RawTrackerTarget
  pub actions : List RawTrackerAction
  pub job : Option RawSchedulerJobConfig

pub record RawTracker (Stored : Type 0) : Type 0 where
  pub id : Uuid
  pub name : String
  pub enabled : Bool
  pub config : Stored
  pub tags : List String
  pub created_at : OffsetDateTime
  pub updated_at : OffsetDateTime
  pub job_id : Option Uuid
  pub job_needed : Bool

-- The packages `postcard`, `serde_json`, `url` and `http`.
pub record Codecs (Stored : Type 0) : Type 0 where
  pub to_stdvec : RawTrackerConfig → Option Stored
  pub from_bytes : Stored → Option RawTrackerConfig
  pub json_to_vec : Json → Option Bytes
  pub json_from_slice : Bytes → Option Json
  pub url_as_str : Url → String
  pub parse_url : String → Option Url
  -- `HeaderName::from_str`, `HeaderValue::from_str` and `String::from_utf8_lossy` on a header's value
  pub parse_header_name : String → Option String
  pub parse_header_value : String → Option String
  pub header_text : String → String

-- a strategy, either way
abbrev pub raw_strategy : SchedulerJobRetryStrategy → RawSchedulerJobRetryStrategy
raw_strategy (SchedulerJobRetryStrategy.constant i n) = RawSchedulerJobRetryStrategy.constant i n
raw_strategy (SchedulerJobRetryStrategy.exponential i m c n) =
    RawSchedulerJobRetryStrategy.exponential i m c n
raw_strategy (SchedulerJobRetryStrategy.linear i s c n) =
    RawSchedulerJobRetryStrategy.linear i s c n

abbrev pub strategy_of : RawSchedulerJobRetryStrategy → SchedulerJobRetryStrategy
strategy_of (RawSchedulerJobRetryStrategy.constant i n) = SchedulerJobRetryStrategy.constant i n
strategy_of (RawSchedulerJobRetryStrategy.exponential i m c n) =
    SchedulerJobRetryStrategy.exponential i m c n
strategy_of (RawSchedulerJobRetryStrategy.linear i s c n) = SchedulerJobRetryStrategy.linear i s c n

abbrev pub raw_job : SchedulerJobConfig → RawSchedulerJobConfig
raw_job j = record {
  schedule = j.schedule;
  retry_strategy = map_option raw_strategy j.retry_strategy;
}

abbrev pub job_of : RawSchedulerJobConfig → SchedulerJobConfig
job_of j = record {
  schedule = j.schedule;
  retry_strategy = map_option strategy_of j.retry_strategy;
}

-- a later entry of a name takes the place of an earlier one
unfoldable pub collect_map : List (String × String) → List (String × String)
collect_map [] = []
collect_map ((k, v) ∷ m) =
    let rest = collect_map m in
    if any (λ (e : String × String). str_eq e.0 k) rest then rest else (k, v) ∷ rest

-- `Option::map(…).transpose()`
abbrev pub transpose : {A B : Type 0} → (A → Option B) → Option A → Option (Option B)
transpose f none = some none
transpose f (some a) = map_option (λ b. some b) (f a)

module _ {Stored : Type 0} (c : Codecs Stored) where
  abbrev raw_header : String × String → String × String
  raw_header h = (h.0, c.header_text h.1)

  unfoldable pub raw_headers : HeaderMap → List (String × String)
  unfolding collect_map
  raw_headers h = collect_map (map raw_header h)

  abbrev header_of : String × String → Option (String × String)
  header_of h =
      and_then (c.parse_header_name h.0) (λ k. map_option (λ v. (k, v)) (c.parse_header_value h.1))

  unfoldable pub headers_of : List (String × String) → Option HeaderMap
  unfolding collect_map
  headers_of m = map_option collect_map (traverse header_of m)

  unfoldable pub raw_request : TargetRequest → Option RawApiTargetRequest
  unfolding raw_headers
  raw_request r =
      map_option
        (λ body. record {
          url = c.url_as_str r.url;
          method = r.method;
          headers = map_option raw_headers r.headers;
          body = body;
          media_type = r.media_type;
        })
        (transpose c.json_to_vec r.body)

  unfoldable pub request_of : RawApiTargetRequest → Option TargetRequest
  unfolding headers_of
  request_of r = and_then (c.parse_url r.url) λ url.
      and_then (transpose headers_of r.headers) λ headers.
        map_option
          (λ body. record {
            url = url;
            method = r.method;
            headers = headers;
            media_type = r.media_type;
            body = body;
          })
          (transpose c.json_from_slice r.body)

  unfoldable pub raw_action : TrackerAction → RawTrackerAction
  unfolding raw_headers
  raw_action (TrackerAction.email a) = RawTrackerAction.email a.to
  raw_action (TrackerAction.webhook a) =
      RawTrackerAction.webhook (c.url_as_str a.url) a.method (map_option raw_headers a.headers)
  raw_action TrackerAction.server_log = RawTrackerAction.server_log

  unfoldable pub action_of : RawTrackerAction → Option TrackerAction
  unfolding headers_of
  action_of (RawTrackerAction.email to) = some (TrackerAction.email (record { to = to }))
  action_of (RawTrackerAction.webhook url method headers) = and_then (c.parse_url url) λ u.
      map_option (λ h. TrackerAction.webhook (record { url = u; method = method; headers = h }))
        (transpose headers_of headers)
  action_of RawTrackerAction.server_log = some TrackerAction.server_log

  unfoldable pub raw_target : TrackerTarget → Option RawTrackerTarget
  unfolding raw_request
  raw_target (TrackerTarget.page t) =
      map_option
        (λ params. RawTrackerTarget.page (record {
          extractor = t.extractor;
          extractor_params = params;
          user_agent = t.user_agent;
          ignore_https_errors = if t.ignore_https_errors then some true else none;
        }))
        (transpose c.json_to_vec t.params)
  raw_target (TrackerTarget.api t) =
      map_option
        (λ requests.
          RawTrackerTarget.api (record {
            requests = requests;
            configurator = t.configurator;
            extractor = t.extractor;
          }))
        (traverse raw_request t.requests)

  unfoldable pub target_of : RawTrackerTarget → Option TrackerTarget
  unfolding request_of
  target_of (RawTrackerTarget.page t) =
      map_option
        (λ params. TrackerTarget.page (record {
          extractor = t.extractor;
          params = params;
          user_agent = t.user_agent;
          ignore_https_errors = unwrap_or t.ignore_https_errors false;
        }))
        (transpose c.json_from_slice t.extractor_params)
  target_of (RawTrackerTarget.api t) =
      map_option
        (λ requests.
          TrackerTarget.api (record {
            requests = requests;
            configurator = t.configurator;
            extractor = t.extractor;
          }))
        (traverse request_of t.requests)

  abbrev pub raw_config : Tracker → RawTrackerTarget → RawTrackerConfig
  raw_config t target = record {
    revisions = t.config.revisions;
    timeout = t.config.timeout;
    target = target;
    actions = map raw_action t.actions;
    job = map_option raw_job t.config.job;
  }

  -- TryFrom<&Tracker> for RawTracker
  unfoldable pub raw_of : Tracker → Option (RawTracker Stored)
  unfolding raw_target raw_action
  raw_of t = and_then (raw_target t.target) λ target.
      map_option
        (λ config. record {
          id = t.id;
          name = t.name;
          enabled = t.enabled;
          config = config;
          tags = t.tags;
          created_at = t.created_at;
          updated_at = t.updated_at;
          job_id = t.job_id;
          job_needed = is_some t.config.job && ltb 0 t.config.revisions && t.enabled;
        })
        (c.to_stdvec (raw_config t target))

  -- the tracker of a row whose configuration, target and actions are decoded
  abbrev with_config :
      RawTracker Stored → RawTrackerConfig → TrackerTarget → List TrackerAction → Tracker
  with_config raw config target actions = record {
    id = raw.id;
    name = raw.name;
    enabled = raw.enabled;
    target = target;
    job_id = raw.job_id;
    config = record {
      revisions = config.revisions;
      timeout = config.timeout;
      job = map_option job_of config.job;
    };
    tags = raw.tags;
    actions = actions;
    created_at = raw.created_at;
    updated_at = raw.updated_at;
  }

  -- TryFrom<RawTracker> for Tracker
  unfoldable pub tracker_of : RawTracker Stored → Option Tracker
  unfolding target_of action_of
  tracker_of raw = and_then (c.from_bytes raw.config) λ config.
      and_then (target_of config.target)
        λ target. map_option (with_config raw config target) (traverse action_of config.actions)
