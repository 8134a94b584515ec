-- ===== src/Trackers/Fetch.antt =====
-- src/trackers/api_ext.rs: fetching a new revision of a tracker's data, from a page by the scraper
-- service or from an API by requests and scripts.
pub mod Keeps
pub mod Page
use retrack.Prelude.{
  if◌then◌else◌, last?, traverse, and_then, map_option, unwrap_or, String, ◌⊎◌, inl, inr, Option,
  none, some, List, [], ◌∷◌,
}
use retrack.Error.{
  client, unknown, Reason, script_failed, scraper_failed, response_failed, url_not_public,
}
use retrack.Exec.{◌>>=◌, ◌>>◌, Exec, pure, bail}
use retrack.Types.{
  Tracker, page, api, PageTarget, ApiTarget, TargetRequest, TrackerDataRevision, Json, Bytes, Url,
}
use retrack.Types.DataValue.{TrackerDataValue}
use retrack.Types.DataValue
use retrack.Trackers.Parsers.{xls_supports, xls_parse, csv_supports, csv_parse}
use retrack.Env.{
  Env, success, client_error, other_error, Response, WebScraperContentRequest,
  ConfiguratorScriptRequest, ConfiguratorScriptArgs, ConfiguratorScriptResult, requests, response,
  ExtractorScriptArgs, HttpRequest,
}
use retrack.Db.{World, observe, utc_now}
use retrack.Network.{is_public_web_url}

-- `ok_or_else(…)?` with an error that is no `RetrackError`
abbrev pub or_unknown : {A : Type 0} → Reason → Option A → Exec World A
or_unknown r none = bail (unknown r)
or_unknown r (some a) = pure a

abbrev pub previous_content : List TrackerDataRevision → Option (TrackerDataValue Json)
previous_content revisions = map_option (λ r. r.value) (last? revisions)

-- `TryFrom` between a request and its form for scripts
abbrev encode_request : Env → TargetRequest → Option ConfiguratorScriptRequest
encode_request env r = elim r.body [
  | none ↦ some (record {
    url = r.url;
    method = r.method;
    headers = r.headers;
    media_type = r.media_type;
    body = none;
  })
  | some json ↦
      map_option
        (λ bytes. record {
          url = r.url;
          method = r.method;
          headers = r.headers;
          media_type = r.media_type;
          body = some bytes;
        })
        (env.json_to_vec json)
]

abbrev decode_request : Env → ConfiguratorScriptRequest → Option TargetRequest
decode_request env r = elim r.body [
  | none ↦ some (record {
    url = r.url;
    method = r.method;
    headers = r.headers;
    media_type = r.media_type;
    body = none;
  })
  | some bytes ↦
      map_option
        (λ json. record {
          url = r.url;
          method = r.method;
          headers = r.headers;
          media_type = r.media_type;
          body = some json;
        })
        (env.json_from_slice bytes)
]

module _ (env : Env) where
  -- the branch of `get_script_content` for a text that is a URL
  abbrev pub fetch_script : Url → Exec World String
  fetch_script url = do
    (if env.config.trackers.restrict_to_public_urls
        then (do
          public ← is_public_web_url env url
          (if public then pure tt else bail (client url_not_public)))
        else pure tt)
    content ← observe (λ m. env.fetch_text m url)
    or_unknown response_failed content

  unfoldable pub get_script_content : String → Exec World String
  get_script_content script_ref = elim (env.parse_url script_ref) [
    | none ↦ pure script_ref
    | some url ↦ fetch_script url
  ]

  abbrev pub new_revision : Tracker → Json → Exec World TrackerDataRevision
  new_revision t json = do
    id ← observe env.now_v7
    created_at ← utc_now env
    pure
        (record { id = id; tracker_id = t.id; value = DataValue.new json; created_at = created_at })

  abbrev pub scraped : Response Json → Exec World Json
  scraped r = elim r.status [
    | success ↦ or_unknown response_failed r.body
    | client_error ↦ do message ← or_unknown response_failed r.body; bail (client scraper_failed)
    | other_error ↦ do message ← or_unknown response_failed r.body; bail (unknown scraper_failed)
  ]

  unfoldable pub create_page_revision :
      Tracker → PageTarget → List TrackerDataRevision → Exec World TrackerDataRevision
  unfolding DataValue.new
  create_page_revision t target revisions = do
    extractor ← get_script_content target.extractor
    let request : WebScraperContentRequest = record {
      extractor = extractor;
      extractor_params = target.params;
      tags = t.tags;
      user_agent = target.user_agent;
      ignore_https_errors = target.ignore_https_errors;
      timeout = t.config.timeout;
      previous_content = previous_content revisions;
    }
    answer ← observe (λ m. env.scrape m request)
    reached ← or_unknown scraper_failed answer
    json ← scraped reached
    new_revision t json

  -- what the configurator decides: the requests to make, or the response itself
  abbrev configured :
      ApiTarget → Option ConfiguratorScriptResult → Exec World (List TargetRequest ⊎ Bytes)
  configured target none = pure (inl target.requests)
  configured target (some (requests [])) = pure (inl target.requests)
  configured target (some (requests (r ∷ rs))) = do
    decoded ← or_unknown response_failed (traverse (decode_request env) (r ∷ rs))
    pure (inl decoded)
  configured target (some (response body)) = pure (inr body)

  unfoldable pub run_configurator :
      Tracker
      → ApiTarget
      → List TrackerDataRevision
      → Option String
      → Exec World (List TargetRequest ⊎ Bytes)
  run_configurator t target revisions none = pure (inl target.requests)
  run_configurator t target revisions (some configurator) = do
    encoded ← or_unknown response_failed (traverse (encode_request env) target.requests)
    script ← get_script_content configurator
    let args : ConfiguratorScriptArgs = record {
      tags = t.tags;
      previous_content = previous_content revisions;
      requests = encoded;
    }
    outcome ← observe (λ m. env.run_configurator m script args)
    result ← or_unknown script_failed outcome
    configured target result

  -- the `match` on the media type
  abbrev pub parsed : Option String → Bytes → Option Bytes
  parsed none bytes = some bytes
  parsed (some m) bytes =
      if xls_supports env (env.media_type m)
      then xls_parse env bytes
      else if csv_supports env (env.media_type m)
      then csv_parse env bytes
      else some bytes

  abbrev received : Response Bytes → Exec World Bytes
  received r = elim r.status [
    | success ↦ or_unknown response_failed r.body
    | client_error ↦ do text ← or_unknown response_failed r.body; bail (client response_failed)
    | other_error ↦ do text ← or_unknown response_failed r.body; bail (unknown response_failed)
  ]

  -- `None` is no body, `Some(None)` a body that cannot be written
  abbrev body_of : Option Json → Option (Option Bytes)
  body_of none = some none
  body_of (some json) = map_option (λ b. some b) (env.json_to_vec json)

  unfoldable pub execute_request : Tracker → TargetRequest → Exec World Bytes
  execute_request t r = do
    body ← or_unknown response_failed (body_of r.body)
    let request : HttpRequest = record {
      method = unwrap_or r.method "GET";
      url = r.url;
      headers = r.headers;
      body = body;
      timeout = t.config.timeout;
    }
    answer ← observe (λ m. env.send m request)
    reached ← or_unknown response_failed answer
    bytes ← received reached
    or_unknown response_failed (parsed r.media_type bytes)

  unfoldable pub execute_requests : Tracker → List TargetRequest → Exec World (List Bytes)
  execute_requests t [] = pure []
  execute_requests t (r ∷ rs) = do
    bytes ← execute_request t r
    rest ← execute_requests t rs
    pure (bytes ∷ rest)

  abbrev gather : Tracker → List TargetRequest ⊎ Bytes → Exec World (List Bytes)
  gather t (inl rs) = execute_requests t rs
  gather t (inr body) = pure (body ∷ [])

  -- the extractor's result, `none` where there is no extractor or it gives none
  unfoldable pub run_extractor :
      Tracker → List TrackerDataRevision → List Bytes → Option String → Exec World (Option Bytes)
  run_extractor t revisions responses none = pure none
  run_extractor t revisions responses (some extractor) = do
    script ← get_script_content extractor
    let args : ExtractorScriptArgs = record {
      tags = t.tags;
      previous_content = previous_content revisions;
      responses = some responses;
    }
    outcome ← observe (λ m. env.run_extractor m script args)
    result ← or_unknown script_failed outcome
    pure (unwrap_or result none)

  abbrev data_value : List Bytes → Option Bytes → Option Json
  data_value responses (some bytes) = env.json_from_slice bytes
  data_value (one ∷ []) none = env.json_from_slice one
  data_value responses none = some (env.json_of_responses responses)

  unfoldable pub create_api_revision :
      Tracker → ApiTarget → List TrackerDataRevision → Exec World TrackerDataRevision
  unfolding DataValue.new
  create_api_revision t target revisions = do
    decision ← run_configurator t target revisions target.configurator
    responses ← gather t decision
    extracted ← run_extractor t revisions responses target.extractor
    json ← or_unknown response_failed (data_value responses extracted)
    new_revision t json

  -- the `match` on the target of `create_tracker_data_revision`
  unfoldable pub fetch_revision :
      Tracker → List TrackerDataRevision → Exec World TrackerDataRevision
  fetch_revision t revisions = elim t.target [
    | page target ↦ create_page_revision t target revisions
    | api target ↦ create_api_revision t target revisions
  ]
