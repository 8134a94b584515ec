-- ===== src/Env.antt =====
-- What the program reads from its configuration (src/config) and asks of other packages, of the
-- network and of the clock. Everything here is a parameter of the development; what a theorem needs
-- of it is a hypothesis of that theorem.
use retrack.Prelude.{ℕ, String, Bool, Option, List}
use retrack.Network.IpAddrExt.{IpAddr}
use retrack.Types.DataValue.{TrackerDataValue}
use retrack.Error.{Error}
use retrack.Scheduler.Job.{SchedulerJob, RawSchedulerJobStoredData, ResumedJob}
use retrack.Types.{Uuid, OffsetDateTime, Bytes, Json, Url, HeaderMap}
use retrack.Scheduler.RetryStrategy.{Duration}

-- TrackersConfig: src/config/trackers_config.rs
pub record TrackersConfig : Type 0 where
  pub max_revisions : ℕ
  pub min_schedule_interval : Duration
  pub restrict_to_public_urls : Bool
  pub max_script_size : ℕ

-- SmtpCatchAllConfig: src/config/smtp_config.rs; the regular expression is its `is_match`
pub record SmtpCatchAllConfig : Type 0 where
  pub recipient : String
  pub text_matcher : String → Bool

pub record SmtpConfig : Type 0 where
  pub username : String
  pub catch_all : Option SmtpCatchAllConfig

-- SchedulerJobsConfig: src/config/scheduler_jobs_config.rs
pub record SchedulerJobsConfig : Type 0 where
  pub tasks_run : String
  pub trackers_schedule : String
  pub trackers_run : String

pub record Config : Type 0 where
  pub trackers : TrackersConfig
  pub smtp : Option SmtpConfig
  pub scheduler : SchedulerJobsConfig

-- A parsed schedule of the `croner` package: its pattern as text, and so many of the times that
-- follow a given time.
pub record Cron : Type 0 where
  pub pattern : String
  pub iter_from : OffsetDateTime → ℕ → List OffsetDateTime

pub data Host : Type 0 where
  domain : String → Host
  ip : IpAddr → Host

-- What a request brings: no connection, or a status and a body (`none` where it cannot be read).
pub data Status : Type 0 where
  success client_error other_error : Status

pub record Response (A : Type 0) : Type 0 where
  pub status : Status
  pub body : Option A

-- WebScraperContentRequest: src/trackers/web_scraper/web_scraper_content_request.rs
pub record WebScraperContentRequest : Type 0 where
  pub extractor : String
  pub extractor_params : Option Json
  pub tags : List String
  pub user_agent : Option String
  pub ignore_https_errors : Bool
  pub timeout : Option Duration
  pub previous_content : Option (TrackerDataValue Json)

-- ConfiguratorScriptRequest, the arguments and the result of the two kinds of script:
-- components/retrack-types/src/trackers/tracker_target/api_target
pub record ConfiguratorScriptRequest : Type 0 where
  pub url : Url
  pub method : Option String
  pub headers : Option HeaderMap
  pub media_type : Option String
  pub body : Option Bytes

pub record ConfiguratorScriptArgs : Type 0 where
  pub tags : List String
  pub previous_content : Option (TrackerDataValue Json)
  pub requests : List ConfiguratorScriptRequest

pub data ConfiguratorScriptResult : Type 0 where
  requests : List ConfiguratorScriptRequest → ConfiguratorScriptResult
  response : Bytes → ConfiguratorScriptResult

pub record ExtractorScriptArgs : Type 0 where
  pub tags : List String
  pub previous_content : Option (TrackerDataValue Json)
  pub responses : Option (List Bytes)

-- the outer option is a failure of the script, the inner one a script with no result
abbrev pub ScriptOutcome : Type 0 → Type 0
ScriptOutcome A = Option (Option A)

-- A request as it is sent.
pub record HttpRequest : Type 0 where
  pub method : String
  pub url : Url
  pub headers : Option HeaderMap
  pub body : Option Bytes
  pub timeout : Option Duration

-- A media type as `mediatype` gives it.
pub record MediaType : Type 0 where
  pub ty : String
  pub subty : String

-- A worksheet: src/trackers/parsers/xls_parser.rs
pub record Sheet : Type 0 where
  pub name : String
  pub rows : List (List String)

-- What `Job::new_async` and `set_job_type` build: the pattern of the schedule and the job's type.
pub record NewJob : Type 0 where
  pub pattern : String
  pub job_type : SchedulerJob

pub record Env : Type 0 where
  pub config : Config
  -- the clock and `Uuid::now_v7`, at each moment
  pub now_utc : ℕ → OffsetDateTime
  pub now_v7 : ℕ → Uuid
  -- equality under the collation `case_insensitive` of the database
  pub same_text : String → String → Bool
  -- `trim().to_lowercase()` on Unicode text
  pub trim_to_lowercase : String → String
  -- `Mailbox::from_str(_).is_ok()`
  pub is_mailbox : String → Bool
  -- `Cron::new(_).with_seconds_required().with_dom_and_dow().parse().ok()`
  pub parse_cron : String → Option Cron
  -- the `url` package
  pub parse_url : String → Option Url
  pub scheme : Url → String
  pub host : Url → Option Host
  -- `DnsResolver::lookup_ip`, at each moment
  pub lookup_ip : ℕ → String → Option (List IpAddr)
  -- `Value::to_string`, `serde_json::to_vec`
  pub json_to_string : Json → String
  pub json_to_vec : Json → Option Bytes
  -- `serde_json::from_slice`, and `json!` of a list of byte lists
  pub json_from_slice : Bytes → Option Json
  pub json_of_responses : List Bytes → Json
  -- the HTTP client and the web scraper service, at each moment; `none` is a failed connection
  pub send : ℕ → HttpRequest → Option (Response Bytes)
  pub fetch_text : ℕ → Url → Option String
  pub scrape : ℕ → WebScraperContentRequest → Option (Response Json)
  -- the JavaScript runtime, at each moment
  pub run_configurator :
      ℕ → String → ConfiguratorScriptArgs → ScriptOutcome ConfiguratorScriptResult
  pub run_extractor : ℕ → String → ExtractorScriptArgs → ScriptOutcome (Option Bytes)
  -- the `mediatype` package: the parts of a media type, and equality of names
  pub media_type : String → MediaType
  pub same_name : String → String → Bool
  -- the `calamine` package: the worksheets of a workbook in either format, a cell as it is printed
  pub open_xlsx : Bytes → Option (List Sheet)
  pub open_xls : Bytes → Option (List Sheet)
  -- the records that the `csv` package reads, `none` where it fails on one
  pub csv_records : Bytes → List (Option (List String))
  -- `serde_json::to_vec`
  pub sheets_to_vec : List Sheet → Option Bytes
  pub rows_to_vec : List (List String) → Option Bytes
  -- `JobScheduler::add` and `remove`, at each moment: the new job's id and the rows of
  -- `scheduler_jobs` behind the call; `none` is an error
  pub add_job :
      ℕ → NewJob → List RawSchedulerJobStoredData → Option (Uuid × List RawSchedulerJobStoredData)
  pub remove_job : Uuid → List RawSchedulerJobStoredData → Option (List RawSchedulerJobStoredData)
  -- `add` of a job that has an id, at each moment
  pub resume_job :
      ℕ → ResumedJob → List RawSchedulerJobStoredData → Option (List RawSchedulerJobStoredData)
  -- `JobScheduler::new_with_storage_and_code` and `start`, at each moment: whether they succeed
  pub open_scheduler : ℕ → Bool
  pub start_scheduler : ℕ → Bool
  -- the text of an error in a report
  pub error_text : Error → String
