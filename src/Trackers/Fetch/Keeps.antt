-- ===== src/Trackers/Fetch/Keeps.antt =====
-- Fetching reads the state and writes no table.
use retrack.Prelude.{
  Option-cases, ◌⊎◌, inl, inr, Option, none, some, List, [], ◌∷◌, sym, subst, arith, ℕ, String,
}
use retrack.Error.{Reason, unknown}
use retrack.Exec.{Exec, pure, ◌>>=◌}
use retrack.Exec.Keeps.{Keeps, Keeps-pure, Keeps-bail, Keeps-bind, keeps_rules}
use retrack.Types.{
  Tracker, page, api, PageTarget, ApiTarget, TargetRequest, TrackerDataRevision, Json, Bytes, Url,
}
use retrack.Env.{Env, Response, ConfiguratorScriptResult, requests, response}
use retrack.Db.{World, Tables, observe, utc_now}
use retrack.Network.{is_public_web_url}
use retrack.Trackers.Validation.Frame.{Frame, is_public_web_url-Frame}
use retrack.Trackers.Fetch.{
  or_unknown, fetch_script, get_script_content, new_revision, scraped, create_page_revision,
  configured, run_configurator, received, execute_request, execute_requests, gather, run_extractor,
  create_api_revision, fetch_revision,
}

module _ (Q : Tables → Type 0) where
  abbrev pub OfTables : World → Type 0
  OfTables w = Q w.tables

  pub observe-Keeps : {A : Type 0} (f : ℕ → A) → Keeps OfTables (observe f)
  observe-Keeps f = record { at = λ w h. h }

  pub utc_now-Keeps : (env : Env) → Keeps OfTables (utc_now env)
  unfolding utc_now
  utc_now-Keeps env = record { at = λ w h. h }

  pub Frame-Keeps : {A : Type 0} (m : Exec World A) → Frame m → Keeps OfTables m
  Frame-Keeps m f = record { at = λ w h. subst Q (sym (f w)) h }

  pub or_unknown-Keeps : {A : Type 0} (r : Reason) (o : Option A) → Keeps OfTables (or_unknown r o)
  or_unknown-Keeps r none = Keeps-bail (unknown r)
  or_unknown-Keeps r (some a) = Keeps-pure a

  module _ (env : Env) where
    is_public_web_url-Keeps : (url : Url) → Keeps OfTables (is_public_web_url env url)
    is_public_web_url-Keeps url =
        Frame-Keeps (is_public_web_url env url) (is_public_web_url-Frame env url)

    fetch_script-Keeps : (url : Url) → Keeps OfTables (fetch_script env url)
    fetch_script-Keeps url =
        search (keeps_rules, is_public_web_url-Keeps, observe-Keeps, or_unknown-Keeps)

    get_script_content-Keeps : (script : String) → Keeps OfTables (get_script_content env script)
    unfolding get_script_content
    get_script_content-Keeps script = elim (Option-cases (env.parse_url script)) [
      | inl e ↦ rw (e, get_script_content) (Keeps-pure script)
      | inr (url, e) ↦ rw (e, get_script_content) (fetch_script-Keeps url)
    ]

    new_revision-Keeps : (t : Tracker) (json : Json) → Keeps OfTables (new_revision env t json)
    new_revision-Keeps t json = search (keeps_rules, observe-Keeps, utc_now-Keeps)

    scraped-Frame : (r : Response Json) → Frame (scraped env r)
    scraped-Frame r w = ground arith

    scraped-Keeps : (r : Response Json) → Keeps OfTables (scraped env r)
    scraped-Keeps r = Frame-Keeps (scraped env r) (scraped-Frame r)

    create_page_revision-Keeps :
        (t : Tracker) (target : PageTarget) (revisions : List TrackerDataRevision)
        → Keeps OfTables (create_page_revision env t target revisions)
    unfolding create_page_revision
    create_page_revision-Keeps t target revisions = search (
      keeps_rules, get_script_content-Keeps, observe-Keeps, or_unknown-Keeps, scraped-Keeps,
      new_revision-Keeps,
    )

    configured-Keeps :
        (target : ApiTarget) (r : Option ConfiguratorScriptResult)
        → Keeps OfTables (configured env target r)
    configured-Keeps target none = Keeps-pure (inl target.requests)
    configured-Keeps target (some (requests [])) = Keeps-pure (inl target.requests)
    configured-Keeps target (some (requests (r ∷ rs))) = search (keeps_rules, or_unknown-Keeps)
    configured-Keeps target (some (response body)) = Keeps-pure (inr body)

    run_configurator-Keeps :
        (t : Tracker) (target : ApiTarget) (revisions : List TrackerDataRevision)
        (configurator : Option String)
        → Keeps OfTables (run_configurator env t target revisions configurator)
    unfolding run_configurator
    run_configurator-Keeps t target revisions none = Keeps-pure (inl target.requests)
    run_configurator-Keeps t target revisions (some script) =
        search
          (keeps_rules, get_script_content-Keeps, observe-Keeps, or_unknown-Keeps, configured-Keeps)

    received-Frame : (r : Response Bytes) → Frame (received env r)
    received-Frame r w = ground arith

    received-Keeps : (r : Response Bytes) → Keeps OfTables (received env r)
    received-Keeps r = Frame-Keeps (received env r) (received-Frame r)

    execute_request-Keeps :
        (t : Tracker) (r : TargetRequest) → Keeps OfTables (execute_request env t r)
    unfolding execute_request
    execute_request-Keeps t r =
        search (keeps_rules, observe-Keeps, or_unknown-Keeps, received-Keeps)

    execute_requests-Keeps :
        (t : Tracker) (rs : List TargetRequest) → Keeps OfTables (execute_requests env t rs)
    unfolding execute_requests
    execute_requests-Keeps t [] = Keeps-pure []
    execute_requests-Keeps t (r ∷ rs) =
        Keeps-bind (execute_request env t r)
          (λ b. execute_requests env t rs >>= λ bs. pure (b ∷ bs)) (execute_request-Keeps t r)
          (λ b.
            Keeps-bind (execute_requests env t rs) (λ bs. pure (b ∷ bs))
              (execute_requests-Keeps t rs) (λ bs. Keeps-pure (b ∷ bs)))

    gather-Keeps : (t : Tracker) (d : List TargetRequest ⊎ Bytes) → Keeps OfTables (gather env t d)
    gather-Keeps t (inl rs) = execute_requests-Keeps t rs
    gather-Keeps t (inr body) = Keeps-pure (body ∷ [])

    run_extractor-Keeps :
        (t : Tracker) (revisions : List TrackerDataRevision) (responses : List Bytes)
        (extractor : Option String)
        → Keeps OfTables (run_extractor env t revisions responses extractor)
    unfolding run_extractor
    run_extractor-Keeps t revisions responses none = Keeps-pure none
    run_extractor-Keeps t revisions responses (some script) =
        search (keeps_rules, get_script_content-Keeps, observe-Keeps, or_unknown-Keeps)

    create_api_revision-Keeps :
        (t : Tracker) (target : ApiTarget) (revisions : List TrackerDataRevision)
        → Keeps OfTables (create_api_revision env t target revisions)
    unfolding create_api_revision
    create_api_revision-Keeps t target revisions = search (
      keeps_rules, run_configurator-Keeps, gather-Keeps, run_extractor-Keeps, or_unknown-Keeps,
      new_revision-Keeps,
    )

    -- Fetching a revision, from a page or from an API, whether it succeeds or fails, keeps every
    -- property of the tables.
    pub fetch_revision-Keeps :
        (t : Tracker) (revisions : List TrackerDataRevision)
        → Keeps OfTables (fetch_revision env t revisions)
    unfolding fetch_revision
    fetch_revision-Keeps t revisions =
        elim t.target
          as (λ target. Keeps OfTables (elim target as (λ x. Exec World TrackerDataRevision) [
            | page p ↦ create_page_revision env t p revisions
            | api a ↦ create_api_revision env t a revisions
          ])) [
            | page p ↦ create_page_revision-Keeps t p revisions
            | api a ↦ create_api_revision-Keeps t a revisions
          ]
