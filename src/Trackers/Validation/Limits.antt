-- ===== src/Trackers/Validation/Limits.antt =====
-- What a tracker satisfies that `validate_tracker` accepts.
use retrack.Prelude.{
  ltb, Option-cases, length, All, ℕ, ◌≤◌, ◌<◌, String, len, ◌≡◌, refl, ◌≢◌, ◌⊎◌, inl, inr, true,
  not, Option, none, some, List, [], ◌∷◌, arith, eq_iff,
}
use retrack.Error.{Error, Result, ok, err}
use retrack.Error
use retrack.Types.{Tracker, TrackerAction, email, webhook, server_log, SchedulerJobConfig}
use retrack.Env.{Env, Cron}
use retrack.Db.{World}
use retrack.Scheduler.Cron
use retrack.Scheduler.RetryStrategy.{
  Duration, secs, SchedulerJobRetryStrategy, constant, exponential, linear, max_attempts,
  min_interval,
}
use retrack.Trackers.Tags.{validate_tracker_tags}
use retrack.Trackers.Validation.{
  reject_if, if_some, check_all, method_allowed, validate_action, validate_tracker_actions,
  validate_target, validate_retry_strategy, validate_job, validate_tracker, if_some_run,
}

abbrev pub IfSome : {A : Type 0} → (A → Type 0) → Option A → Type 0
IfSome P none = Unit
IfSome P (some a) = P a

abbrev pub TagOk : String → Type 0
TagOk tag = (tag ≢ "") × (len tag ≤ 50)

abbrev pub MethodOk : String → Type 0
MethodOk m = (m ≡ "GET") ⊎ ((m ≡ "POST") ⊎ (m ≡ "PUT"))

abbrev pub ActionOk : Env → TrackerAction → Type 0
ActionOk env (email a) =
    (0 < length a.to) × (length a.to ≤ 10) × All (λ r. env.is_mailbox r ≡ true) a.to
ActionOk env (webhook a) = IfSome MethodOk a.method × IfSome (λ hs. length hs ≤ 20) a.headers
ActionOk env server_log = Unit

-- The bounds on a retry strategy beside a schedule that fires `every` so often.
abbrev pub MaxIntervalOk : Duration → SchedulerJobRetryStrategy → Type 0
MaxIntervalOk every (constant _ _) = Unit
MaxIntervalOk every (exponential _ _ top _) = (secs 60 ≤ top) × (top ≤ secs 43200) × (top ≤ every)
MaxIntervalOk every (linear _ _ top _) = (secs 60 ≤ top) × (top ≤ secs 43200) × (top ≤ every)

pub record RetryOk (every : Duration) (s : SchedulerJobRetryStrategy) : Type 0 where
  pub some_attempts : 0 < max_attempts s
  pub few_attempts : max_attempts s ≤ 10
  pub late_enough : secs 60 ≤ min_interval s
  pub cap_fits : MaxIntervalOk every s

check_all-All :
    {A : Type 0} (check : A → Result Unit) (P : A → Type 0)
    (sound : (a : A) → check a ≡ ok tt → P a) (xs : List A)
    → check_all check xs ≡ ok tt
    → All P xs
unfolding check_all
check_all-All check P sound [] h = tt
check_all-All check P sound (x ∷ xs) h = ground (arith, sound x, check_all-All check P sound xs)

pub validate_retry_strategy-RetryOk :
    (env : Env) (every : Duration) (s : SchedulerJobRetryStrategy)
    → validate_retry_strategy env every s ≡ ok tt
    → RetryOk every s
unfolding validate_retry_strategy
validate_retry_strategy-RetryOk env every (constant i n) h = ground arith
validate_retry_strategy-RetryOk env every (exponential i m top n) h = ground arith
validate_retry_strategy-RetryOk env every (linear i inc top n) h = ground arith

validate_tracker_tags-All :
    (tags : List String) → validate_tracker_tags tags ≡ ok tt → All TagOk tags
unfolding validate_tracker_tags
validate_tracker_tags-All [] h = tt
validate_tracker_tags-All (t ∷ ts) h =
    let ih = validate_tracker_tags-All ts in ground (arith, eq_iff t "", ih)

validate_action-ActionOk :
    (env : Env) (a : TrackerAction) → validate_action env a ≡ ok tt → ActionOk env a
unfolding validate_action
validate_action-ActionOk env (email a) h =
    let recipients =
      check_all-All (λ recipient. reject_if (not (env.is_mailbox recipient)) Error.bad_recipient)
        (λ r. env.is_mailbox r ≡ true) (λ r e. ground arith) a.to in
    ground (arith, recipients)
validate_action-ActionOk env (webhook a) h =
    (method a.method (ground arith), headers a.headers (ground arith))
  where
    method :
        (o : Option String)
        → if_some o (λ m. reject_if (not (method_allowed m)) Error.bad_method) ≡ ok tt
        → IfSome MethodOk o
    method none e = tt
    method (some m) e = ground (arith, eq_iff m "GET", eq_iff m "POST", eq_iff m "PUT")

    headers :
        (o : Option (List (String × String)))
        → if_some o (λ hs. reject_if (ltb 20 (length hs)) Error.too_many_headers) ≡ ok tt
        → IfSome (λ hs. length hs ≤ 20) o
    headers none e = tt
    headers (some hs) e = ground arith
validate_action-ActionOk env server_log h = tt

pub record JobOk (env : Env) (job : SchedulerJobConfig) : Type 0 where
  pub cron : Cron
  pub now : ℕ
  pub every : Duration
  pub parses : env.parse_cron job.schedule ≡ some cron
  pub spacing : Cron.shortest_of (cron.iter_from now 100) ≡ ok every
  pub rare : env.config.trackers.min_schedule_interval ≤ every
  pub retry : IfSome (RetryOk every) job.retry_strategy

if_some-IfSome :
    {A : Type 0} (check : A → Result Unit) (P : A → Type 0) (o : Option A)
    → ((a : A) → check a ≡ ok tt → P a)
    → if_some o check ≡ ok tt
    → IfSome P o
if_some-IfSome check P none f h = tt
if_some-IfSome check P (some a) f h = f a h

validate_job-JobOk :
    (env : Env) (job : SchedulerJobConfig) (w : World)
    → (validate_job env job w).0 ≡ ok tt
    → JobOk env job
unfolding validate_job Cron.min_interval
validate_job-JobOk env job w h = elim (Option-cases (env.parse_cron job.schedule)) [
  | inl e ↦ absurd (ground arith)
  | inr (c, e) ↦ spaced c e (Cron.shortest_of (c.iter_from (env.now_utc w.moment) 100)) refl
]
  where
    spaced :
        (c : Cron)
        → env.parse_cron job.schedule ≡ some c
        → (r : Result Duration) → Cron.shortest_of (c.iter_from (env.now_utc w.moment) 100) ≡ r
        → JobOk env job
    spaced c e (ok every) q = record {
      cron = c;
      now = env.now_utc w.moment;
      every = every;
      parses = e;
      spacing = q;
      rare = ground arith;
      retry =
          if_some-IfSome (validate_retry_strategy env every) (RetryOk every) job.retry_strategy
            (validate_retry_strategy-RetryOk env every) (ground arith);
    }
    spaced c e (err x) q = absurd (ground arith)

pub record TrackerOk (env : Env) (t : Tracker) : Type 0 where
  pub named : t.name ≢ ""
  pub short_name : len t.name ≤ 100
  pub few_tags : length t.tags ≤ 20
  pub tags : All TagOk t.tags
  pub few_actions : length t.actions ≤ 10
  pub actions : All (ActionOk env) t.actions
  pub few_revisions : t.config.revisions ≤ env.config.trackers.max_revisions
  pub timeout : IfSome (λ d. d ≤ secs 300) t.config.timeout
  pub job : IfSome (JobOk env) t.config.job

if_some_run-JobOk :
    (env : Env) (o : Option SchedulerJobConfig) (w : World)
    → (if_some_run o (validate_job env) w).0 ≡ ok tt
    → IfSome (JobOk env) o
if_some_run-JobOk env none w h = tt
if_some_run-JobOk env (some j) w h = validate_job-JobOk env j w h

actions-All :
    (env : Env) (xs : List TrackerAction)
    → validate_tracker_actions env xs ≡ ok tt
    → All (ActionOk env) xs
unfolding validate_tracker_actions
actions-All env xs =
    check_all-All (validate_action env) (ActionOk env) (validate_action-ActionOk env) xs

timeout-IfSome :
    (o : Option Duration)
    → if_some o (λ d. reject_if (ltb (secs 300) d) Error.timeout_too_long) ≡ ok tt
    → IfSome (λ d. d ≤ secs 300) o
timeout-IfSome none h = tt
timeout-IfSome (some d) h = ground arith

-- The API accepts a tracker only if it keeps every limit: its name, tags, actions, revisions and
-- timeout, and, where it has a job, a schedule that parses, fires no more often than configured, and
-- has a retry strategy of 1 to 10 attempts, a first wait of at least a minute, and a cap (where the
-- strategy has one) between a minute and the smaller of twelve hours and the schedule's interval.
pub validate_tracker-TrackerOk :
    (env : Env) (t : Tracker) (w : World) → (validate_tracker env t w).0 ≡ ok tt → TrackerOk env t
unfolding validate_tracker
validate_tracker-TrackerOk env t w h = ground (
  arith,
  eq_iff t.name "",
  actions-All env t.actions,
  validate_tracker_tags-All t.tags,
  timeout-IfSome t.config.timeout,
  if_some_run-JobOk env t.config.job (validate_target env t.target w).1,
)
