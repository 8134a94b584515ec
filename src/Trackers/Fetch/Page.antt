-- ===== src/Trackers/Fetch/Page.antt =====
-- Where a revision that is fetched from a page comes from.
use retrack.Prelude.{
  if◌then◌else◌, Bool-cases, Option-cases, String, suc, ◌≡◌, refl, ap, ◌∙◌, inl, inr, Bool, true,
  false, Option, none, some, List, arith, ℕ,
}
use retrack.Error.{Reason, ok, client, url_not_public, scraper_failed, response_failed}
use retrack.Exec.{Exec, pure, bail, ◌>>=◌, >>=-eq-ok}
use retrack.Types.{Tracker, PageTarget, TrackerDataRevision, Json, Url}
use retrack.Types.DataValue
use retrack.Env.{
  Env, Response, WebScraperContentRequest, Status, success, client_error, other_error,
}
use retrack.Db.{World, utc_now}
use retrack.Network.{is_public_web_url}
use retrack.Trackers.Validation.Targets.{UrlOk, PublicUrl, is_public_web_url-PublicUrl}
use retrack.Trackers.Fetch.{
  or_unknown, previous_content, fetch_script, get_script_content, new_revision, scraped,
  create_page_revision,
}

-- `content` is the script that `script_ref` stands for: the text itself, or what was fetched from the
-- URL that the text is.
abbrev pub IsScript : Env → Option Url → String → String → Type 0
IsScript env none script_ref content = content ≡ script_ref
IsScript env (some url) script_ref content =
    UrlOk env url × ((m : ℕ) × (env.fetch_text m url ≡ some content))

-- what the scraper was asked, and that its answer is the value of the revision
pub record IsScraped (env : Env) (t : Tracker) (target : PageTarget)
    (revisions : List TrackerDataRevision) (r : TrackerDataRevision) : Type 0 where
  pub request : WebScraperContentRequest
  pub json : Json
  pub m : ℕ
  pub answer : Response Json
  pub answered : env.scrape m request ≡ some answer
  pub succeeded : answer.status ≡ success
  pub body : answer.body ≡ some json
  pub stored : r.value ≡ DataValue.new json
  pub owner : r.tracker_id ≡ t.id
  pub script : IsScript env (env.parse_url target.extractor) target.extractor request.extractor
  pub tags : request.tags ≡ t.tags
  pub previous : request.previous_content ≡ previous_content revisions
  pub params : request.extractor_params ≡ target.params
  pub timeout : request.timeout ≡ t.config.timeout

module _ (env : Env) where
  or_unknown_ok :
      {A : Type 0} (r : Reason) (o : Option A) (w : World) {a : A}
      → (or_unknown r o w).0 ≡ ok a
      → o ≡ some a
  or_unknown_ok r none w h = cc
  or_unknown_ok r (some a) w h = ground arith

  allowed :
      (url : Url) (w : World)
      → ((is_public_web_url env url >>= λ public.
            if public then pure tt else bail (client url_not_public))
          w).0
        ≡ ok tt
      → PublicUrl env url
  allowed url w h =
      let (public, e, more, _) = >>=-eq-ok (is_public_web_url env url) _ w h in
      is_public_web_url-PublicUrl env url w (e ∙ ap ok (passed public _ more))
    where
      passed :
          (public : Bool) (w' : World)
          → ((if public then pure tt else bail (client url_not_public)) w').0 ≡ ok tt
          → public ≡ true
      passed true w' q = refl
      passed false w' q = cc

  fetch_script-IsScript :
      (url : Url) (w : World) (script_ref : String) {content : String}
      → (fetch_script env url w).0 ≡ ok content
      → IsScript env (some url) script_ref content
  fetch_script-IsScript url w script_ref h =
      let guard : Exec World Unit =
        if env.config.trackers.restrict_to_public_urls
        then (is_public_web_url env url >>= λ public.
            if public then pure tt else bail (client url_not_public))
        else pure tt in
      let (u, passed, more, _) = >>=-eq-ok guard _ w h in
      (restricted passed, ((guard w).1.moment, or_unknown_ok response_failed _ _ more))
    where
      restricted :
          ((if env.config.trackers.restrict_to_public_urls
                then (is_public_web_url env url >>= λ public.
                    if public then pure tt else bail (client url_not_public))
                else pure tt)
              w).0
            ≡ ok tt
          → UrlOk env url
      restricted e = elim (Bool-cases env.config.trackers.restrict_to_public_urls) [
        | inl on ↦ inr (allowed url w (ground (arith, on, e)))
        | inr off ↦ inl off
      ]

  get_script_content-IsScript :
      (script_ref : String) (w : World) {content : String}
      → (get_script_content env script_ref w).0 ≡ ok content
      → IsScript env (env.parse_url script_ref) script_ref content
  unfolding get_script_content
  get_script_content-IsScript script_ref w h = elim (Option-cases (env.parse_url script_ref)) [
    | inl e ↦ rw e (ground (arith, e, h))
    | inr (url, e) ↦ rw e (fetch_script-IsScript url w script_ref (ground (arith, e, h)))
  ]

  scraped_ok :
      (r : Response Json) (w : World) {json : Json}
      → (scraped env r w).0 ≡ ok json
      → (r.status ≡ success) × (r.body ≡ some json)
  scraped_ok r w h = of_status r.status r.body h
    where
      of_status :
          (status : Status) (body : Option Json) {json : Json}
          → (scraped env (record { status = status; body = body }) w).0 ≡ ok json
          → (status ≡ success) × (body ≡ some json)
      of_status success body q = (refl, or_unknown_ok response_failed body w q)
      of_status client_error none q = cc
      of_status client_error (some text) q = cc
      of_status other_error none q = cc
      of_status other_error (some text) q = cc

  new_revision_of :
      (t : Tracker) (json : Json) (w : World) {r : TrackerDataRevision}
      → (new_revision env t json w).0 ≡ ok r
      → (r.value ≡ DataValue.new json) × (r.tracker_id ≡ t.id)
  unfolding utc_now
  new_revision_of t json w h = (ground arith, ground arith)

  -- When a revision is fetched from a page, its value is the body of a successful answer of the scraper
  -- to a request with the tracker's tags and timeout, the target's parameters and the value of the
  -- latest revision before; and the script of the request is the extractor's text, or, where that text
  -- is a URL, what was fetched from the URL, which is public if the configuration asks for that.
  pub create_page_revision-IsScraped :
      (t : Tracker) (target : PageTarget) (revisions : List TrackerDataRevision) (w : World)
      {r : TrackerDataRevision}
      → (create_page_revision env t target revisions w).0 ≡ ok r
      → IsScraped env t target revisions r
  unfolding create_page_revision
  create_page_revision-IsScraped t target revisions w h =
      let (extractor, e1, h1, _) = >>=-eq-ok (get_script_content env target.extractor) _ w h in
      let w1 : World = (get_script_content env target.extractor w).1 in
      let asked : WebScraperContentRequest = record {
        extractor = extractor;
        extractor_params = target.params;
        tags = t.tags;
        user_agent = target.user_agent;
        ignore_https_errors = target.ignore_https_errors;
        timeout = t.config.timeout;
        previous_content = previous_content revisions;
      } in
      let w2 : World = record w1 { moment = suc w1.moment } in
      let (reached, e2, h2, _) =
        >>=-eq-ok (or_unknown scraper_failed (env.scrape w1.moment asked)) _ w2 h1 in
      let (json, e3, h3, _) = >>=-eq-ok (scraped env reached) _ _ h2 in
      let (ok_status, ok_body) = scraped_ok reached _ e3 in
      let (value, owner) = new_revision_of t json _ h3 in
      record {
        request = asked;
        json = json;
        m = w1.moment;
        answer = reached;
        answered = or_unknown_ok scraper_failed _ w2 e2;
        succeeded = ok_status;
        body = ok_body;
        stored = value;
        owner = owner;
        script = get_script_content-IsScript target.extractor w e1;
        tags = refl;
        previous = refl;
        params = refl;
        timeout = refl;
      }
