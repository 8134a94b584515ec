-- ===== src/Error.antt =====
-- src/error.rs and src/error/error_kind.rs. `client` is an `Error` whose kind is `ClientError`,
-- `unknown` any other error that a `?` passes on. Of the message only the case is kept: the texts,
-- with the names and ids that they show, are left out.
use retrack.Prelude.{ℕ, ◌≡◌, refl, ◌⊎◌, inl, inr}

pub data Reason : Type 0 where
  -- trackers/api_ext.rs, validation
  name_empty name_too_long too_many_tags too_many_actions bad_tag : Reason
  no_recipient too_many_recipients bad_recipient bad_method too_many_headers : Reason
  too_many_revisions timeout_too_long bad_schedule schedule_too_often bad_attempts : Reason
  retry_too_soon retry_cap_too_low retry_cap_too_high : Reason
  extractor_empty extractor_too_large configurator_empty configurator_too_large : Reason
  script_url_not_public user_agent_empty user_agent_too_long : Reason
  no_request too_many_requests url_not_public : Reason
  -- trackers/api_ext.rs, the other operations
  nothing_to_update tracker_not_found too_many_filter_tags : Reason
  wrong_target script_failed scraper_failed response_failed no_interval : Reason
  -- the database extensions
  already_exists cannot_write tracker_gone revision_exists job_gone bad_row : Reason
  -- tasks and scheduler
  no_smtp send_failed bad_pattern scheduler_failed bad_metadata : Reason

pub data Error : Type 0 where
  client : Reason → Error
  unknown : Reason → Error

pub data Result (A : Type 0) : Type 0 where
  ok : A → Result A
  err : Error → Result A

pub Result-cases :
    {A : Type 0} (r : Result A) → ((a : A) × (r ≡ ok a)) ⊎ ((e : Error) × (r ≡ err e))
Result-cases (ok a) = inl (a, refl)
Result-cases (err e) = inr (e, refl)

infixl 5 ◌>>=◌ ◌>>◌
abbrev pub ◌>>=◌ : {A B : Type 0} → Result A → (A → Result B) → Result B
ok a >>= f = f a
err e >>= f = err e

abbrev pub ◌>>◌ : {B : Type 0} → Result Unit → Result B → Result B
m >> k = m >>= λ _. k

-- impl ResponseError for Error: the HTTP status
unfoldable pub status_code : Error → ℕ
status_code (client _) = 400
status_code (unknown _) = 500
