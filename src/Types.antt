-- ===== src/Types.antt =====
-- components/retrack-types/src: the tracker and its parts. A UUID is a number, a time its number of
-- nanoseconds since the epoch. The types of other packages appear as follows: a `serde_json::Value`
-- and a `Url` are named by a text (two of them are equal exactly if the texts are), a `HeaderMap` is
-- its list of names and values, a `Method` and a `MediaType` their text, a script its text.
pub mod DataValue
use retrack.Prelude.{ℕ, String, Bool, Option, List}
use retrack.Scheduler.RetryStrategy.{Duration, SchedulerJobRetryStrategy}
use DataValue.{TrackerDataValue}

abbrev pub Uuid : Type 0
Uuid = ℕ

abbrev pub OffsetDateTime : Type 0
OffsetDateTime = ℕ

abbrev pub Bytes : Type 0
Bytes = List ℕ

abbrev pub Json : Type 0
Json = String

abbrev pub Url : Type 0
Url = String

abbrev pub HeaderMap : Type 0
HeaderMap = List (String × String)

pub record SchedulerJobConfig : Type 0 where
  pub schedule : String
  pub retry_strategy : Option SchedulerJobRetryStrategy

pub record TrackerConfig : Type 0 where
  pub revisions : ℕ
  pub timeout : Option Duration
  pub job : Option SchedulerJobConfig

pub record PageTarget : Type 0 where
  pub extractor : String
  pub params : Option Json
  pub user_agent : Option String
  pub ignore_https_errors : Bool

pub record TargetRequest : Type 0 where
  pub url : Url
  pub method : Option String
  pub headers : Option HeaderMap
  pub media_type : Option String
  pub body : Option Json

pub record ApiTarget : Type 0 where
  pub requests : List TargetRequest
  pub configurator : Option String
  pub extractor : Option String

pub data TrackerTarget : Type 0 where
  page : PageTarget → TrackerTarget
  api : ApiTarget → TrackerTarget

pub record EmailAction : Type 0 where
  pub to : List String

pub record WebhookAction : Type 0 where
  pub url : Url
  pub method : Option String
  pub headers : Option HeaderMap

pub data TrackerAction : Type 0 where
  email : EmailAction → TrackerAction
  webhook : WebhookAction → TrackerAction
  server_log : TrackerAction

pub record Tracker : Type 0 where
  pub id : Uuid
  pub name : String
  pub enabled : Bool
  pub target : TrackerTarget
  pub job_id : Option Uuid
  pub config : TrackerConfig
  pub tags : List String
  pub actions : List TrackerAction
  pub created_at : OffsetDateTime
  pub updated_at : OffsetDateTime

pub record TrackerDataRevision : Type 0 where
  pub id : Uuid
  pub tracker_id : Uuid
  pub value : TrackerDataValue Json
  pub created_at : OffsetDateTime

pub record TrackerCreateParams : Type 0 where
  pub name : String
  pub enabled : Bool
  pub target : TrackerTarget
  pub config : TrackerConfig
  pub tags : List String
  pub actions : List TrackerAction

pub record TrackerUpdateParams : Type 0 where
  pub name : Option String
  pub enabled : Option Bool
  pub target : Option TrackerTarget
  pub config : Option TrackerConfig
  pub tags : Option (List String)
  pub actions : Option (List TrackerAction)
