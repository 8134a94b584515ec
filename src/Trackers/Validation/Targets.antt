-- ===== src/Trackers/Validation/Targets.antt =====
-- What the target of a tracker satisfies that `validate_tracker` accepts.
use retrack.Prelude.{
  if◌then◌else◌, Bool-cases, Option-cases, all, length, is_empty, All, ℕ, ◌≤◌, ◌<◌, String, len,
  ltb, str_eq, ap, ◌∙◌, ◌≡◌, refl, ◌≢◌, ◌⊎◌, inl, inr, Bool, true, false, not, Option, none, some,
  List, [], ◌∷◌, arith, eq_iff,
}
use retrack.Error.{Reason, Result, ok}
use retrack.Error
use retrack.Exec.{Exec, pure, lift, for_each, ◌>>=◌, >>=-eq-ok}
use retrack.Types.{Tracker, TrackerTarget, page, api, PageTarget, ApiTarget, TargetRequest, Url}
use retrack.Env.{Env, Host, domain, ip}
use retrack.Db.{World}
use retrack.Network.{is_public_web_url, host_is_public, all_global}
use retrack.Network.IpAddrExt.{IpAddr, is_global}
use retrack.Trackers.Validation.{
  reject_if, if_some, if_some_run, validate_script_url, validate_page_target, validate_request_url,
  validate_script, validate_api_target, validate_target, validate_tracker,
}
use retrack.Trackers.Validation.Limits.{IfSome}

-- At the moment `m` of the look-up a host is an address that is globally reachable, or a name of
-- which all the addresses are.
abbrev pub PublicHost : Env → ℕ → Option Host → Type 0
PublicHost env m none = ⊥
PublicHost env m (some (ip a)) = is_global a ≡ true
PublicHost env m (some (domain d)) =
    (lookup : List IpAddr) × (env.lookup_ip m d ≡ some lookup)
    × All (λ a. is_global a ≡ true) lookup

abbrev pub PublicUrl : Env → Url → Type 0
PublicUrl env url =
    ((env.scheme url ≡ "http") ⊎ (env.scheme url ≡ "https"))
    × ((m : ℕ) × PublicHost env m (env.host url))

-- the restriction is off, or the URL is public
abbrev pub UrlOk : Env → Url → Type 0
UrlOk env url = (env.config.trackers.restrict_to_public_urls ≡ false) ⊎ PublicUrl env url

abbrev pub ScriptUrlOk : Env → Option Url → Type 0
ScriptUrlOk env none = Unit
ScriptUrlOk env (some url) = UrlOk env url

abbrev pub ScriptOk : Env → String → Type 0
ScriptOk env s =
    (s ≢ "") × (len s ≤ env.config.trackers.max_script_size) × ScriptUrlOk env (env.parse_url s)

abbrev pub TargetOk : Env → TrackerTarget → Type 0
TargetOk env (page t) =
    ScriptOk env t.extractor × IfSome (λ ua. (ua ≢ "") × (len ua ≤ 200)) t.user_agent
TargetOk env (api t) =
    (0 < length t.requests)
    × (length t.requests ≤ 10)
    × All (λ r. UrlOk env r.url) t.requests
    × IfSome (ScriptOk env) t.configurator
    × IfSome (ScriptOk env) t.extractor

some_request : {A : Type 0} (xs : List A) → is_empty xs ≡ false → 0 < length xs
some_request [] h = cc
some_request (x ∷ xs) h = omega arith

all-All : (xs : List IpAddr) → all is_global xs ≡ true → All (λ a. is_global a ≡ true) xs
all-All [] h = tt
all-All (x ∷ xs) h = ground (arith, all-All xs)

module _ (env : Env) where
  looked_up :
      (o : Option (List IpAddr))
      → all_global o ≡ true
      → (lookup : List IpAddr) × (o ≡ some lookup) × All (λ a. is_global a ≡ true) lookup
  looked_up none h = cc
  looked_up (some lookup) h = (lookup, refl, all-All lookup h)

  host-PublicHost :
      (h : Option Host) (w : World)
      → (host_is_public env h w).0 ≡ ok true
      → PublicHost env w.moment h
  host-PublicHost none w e = cc
  host-PublicHost (some (ip a)) w e = ground arith
  host-PublicHost (some (domain d)) w e = looked_up (env.lookup_ip w.moment d) (ground arith)

  pub is_public_web_url-PublicUrl :
      (url : Url) (w : World) → (is_public_web_url env url w).0 ≡ ok true → PublicUrl env url
  unfolding is_public_web_url
  is_public_web_url-PublicUrl url w e = (
    ground (arith, eq_iff (env.scheme url) "http", eq_iff (env.scheme url) "https"),
    (
      w.moment,
      host-PublicHost (env.host url) w
          (ground (arith, eq_iff (env.scheme url) "http", eq_iff (env.scheme url) "https")),
    ),
  )

  -- `if !is_public_web_url(…) { bail! }`
  required-PublicUrl :
      (url : Url) (r : Reason) (w : World)
      → ((is_public_web_url env url >>= λ public. lift (reject_if (not public) r)) w).0 ≡ ok tt
      → PublicUrl env url
  required-PublicUrl url r w h =
      let (public, e, more, _) =
        >>=-eq-ok (is_public_web_url env url) (λ public. lift (reject_if (not public) r)) w h in
      is_public_web_url-PublicUrl url w (e ∙ ap ok (passed public more))
    where
      passed : (public : Bool) → reject_if (not public) r ≡ ok tt → public ≡ true
      passed true q = refl
      passed false q = cc

  unrestricted :
      (o : Option Url) → env.config.trackers.restrict_to_public_urls ≡ false → ScriptUrlOk env o
  unrestricted none off = tt
  unrestricted (some url) off = inl off

  validate_script_url-ScriptUrlOk :
      (s : String) (w : World)
      → (validate_script_url env s w).0 ≡ ok tt
      → ScriptUrlOk env (env.parse_url s)
  unfolding validate_script_url
  validate_script_url-ScriptUrlOk s w h =
      elim (Bool-cases env.config.trackers.restrict_to_public_urls) [
        | inr off ↦ unrestricted (env.parse_url s) off
        | inl on ↦ elim (Option-cases (env.parse_url s)) [
          | inl e ↦ rw e tt
          | inr (url, e) ↦ rw e (
              inr (required-PublicUrl url Error.script_url_not_public w (ground (arith, on, e, h))))
        ]
      ]

  validate_script-ScriptOk :
      (a b : Reason) (s : String) (w : World)
      → (validate_script env a b s w).0 ≡ ok tt
      → ScriptOk env s
  unfolding validate_script
  validate_script-ScriptOk a b s w h = (
    ground (arith, eq_iff s ""),
    ground (arith, eq_iff s ""),
    validate_script_url-ScriptUrlOk s w (ground (arith, eq_iff s "")),
  )

  script_given :
      (a b : Reason) (o : Option String) (w : World)
      → (if_some_run o (validate_script env a b) w).0 ≡ ok tt
      → IfSome (ScriptOk env) o
  script_given a b none w h = tt
  script_given a b (some s) w h = validate_script-ScriptOk a b s w h

  user_agent_given :
      (o : Option String)
      → if_some o (λ ua. reject_if (str_eq ua "") Error.user_agent_empty) ≡ ok tt
      → if_some o (λ ua. reject_if (ltb 200 (len ua)) Error.user_agent_too_long) ≡ ok tt
      → IfSome (λ ua. (ua ≢ "") × (len ua ≤ 200)) o
  user_agent_given none h k = tt
  user_agent_given (some ua) h k = ground (arith, eq_iff ua "")

  validate_page_target-TargetOk :
      (t : PageTarget) (w : World)
      → (validate_page_target env t w).0 ≡ ok tt
      → TargetOk env (page t)
  unfolding validate_page_target
  validate_page_target-TargetOk t w h = (
    (
      ground (arith, eq_iff t.extractor ""),
      ground (arith, eq_iff t.extractor ""),
      validate_script_url-ScriptUrlOk t.extractor w (ground (arith, eq_iff t.extractor "")),
    ),
    user_agent_given t.user_agent (ground (arith, eq_iff t.extractor ""))
        (ground (arith, eq_iff t.extractor "")),
  )

  unrestricted_requests :
      (rs : List TargetRequest)
      → env.config.trackers.restrict_to_public_urls ≡ false
      → All (λ r. UrlOk env r.url) rs
  unrestricted_requests [] off = tt
  unrestricted_requests (r ∷ rs) off = (inl off, unrestricted_requests rs off)

  requests-UrlOk :
      (rs : List TargetRequest) (w : World)
      → (for_each (validate_request_url env) rs w).0 ≡ ok tt
      → All (λ r. UrlOk env r.url) rs
  unfolding for_each validate_request_url
  requests-UrlOk [] w h = tt
  requests-UrlOk (r ∷ rs) w h =
      let (u, e, more, same) =
        >>=-eq-ok (validate_request_url env r) (λ x. for_each (validate_request_url env) rs) w h in
      (
        inr (required-PublicUrl r.url Error.url_not_public w e),
        requests-UrlOk rs (validate_request_url env r w).1 more,
      )

  restricted_requests :
      (rs : List TargetRequest) (w : World)
      → ((if env.config.trackers.restrict_to_public_urls
            then for_each (validate_request_url env) rs
            else pure tt)
          w).0
        ≡ ok tt
      → All (λ r. UrlOk env r.url) rs
  restricted_requests rs w h = elim (Bool-cases env.config.trackers.restrict_to_public_urls) [
    | inl on ↦ requests-UrlOk rs w (ground (arith, on, h))
    | inr off ↦ unrestricted_requests rs off
  ]

  validate_api_target-TargetOk :
      (t : ApiTarget) (w : World) → (validate_api_target env t w).0 ≡ ok tt → TargetOk env (api t)
  unfolding validate_api_target
  validate_api_target-TargetOk t w h =
      let run : Exec World Unit =
        if env.config.trackers.restrict_to_public_urls
        then for_each (validate_request_url env) t.requests
        else pure tt in
      let configure : Exec World Unit =
        if_some_run t.configurator
          (validate_script env Error.configurator_empty Error.configurator_too_large) in
      (
        some_request t.requests (ground arith),
        ground arith,
        restricted_requests t.requests w (ground arith),
        script_given Error.configurator_empty Error.configurator_too_large t.configurator (run w).1
            (ground arith),
        script_given Error.extractor_empty Error.extractor_too_large t.extractor
            (configure (run w).1).1 (ground arith),
      )

  validate_target-TargetOk :
      (t : TrackerTarget) (w : World) → (validate_target env t w).0 ≡ ok tt → TargetOk env t
  unfolding validate_target
  validate_target-TargetOk (page t) w h = validate_page_target-TargetOk t w h
  validate_target-TargetOk (api t) w h = validate_api_target-TargetOk t w h

-- The API accepts a tracker only if its target is within the limits: the scripts (the extractor of
-- a page; the configurator and the extractor of an API, where there are any) are not empty and not
-- larger than configured, the user agent of a page, if there is one, has 1 to 200 bytes, and an
-- API has 1 to 10 requests. And where the configuration restricts URLs to public ones, each URL of
-- a request or of a script is one of http or https, whose host is a globally reachable address or
-- was looked up to such addresses only.
pub validate_tracker-TargetOk :
    (env : Env) (t : Tracker) (w : World)
    → (validate_tracker env t w).0 ≡ ok tt
    → TargetOk env t.target
unfolding validate_tracker
validate_tracker-TargetOk env t w h = validate_target-TargetOk env t.target w (ground arith)
