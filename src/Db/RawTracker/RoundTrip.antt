-- ===== src/Db/RawTracker/RoundTrip.antt =====
-- What is written to a row of `trackers` is read back.
use retrack.Prelude.{
  Option-cases, any, traverse, traverse_back, All, and_then, map_option, ◌∙◌, ◌≡◌, refl, String,
  false, Option, none, some, List, [], ◌∷◌, map, str_eq, inl, inr, arith,
}
use retrack.Types.{
  Tracker, TrackerTarget, page, api, TargetRequest, TrackerAction, email, webhook, server_log,
  SchedulerJobConfig, HeaderMap, Json, Bytes, Url,
}
use retrack.Scheduler.RetryStrategy.{SchedulerJobRetryStrategy, constant, exponential, linear}
use retrack.Db.Trackers.{job_needed}
use retrack.Db.RawTracker.{
  Codecs, RawTracker, RawTrackerConfig, RawTrackerTarget, RawApiTargetRequest, raw_strategy,
  strategy_of, raw_job, job_of, collect_map, transpose, raw_headers, headers_of, raw_request,
  request_of, raw_action, action_of, raw_target, target_of, raw_of, tracker_of, raw_config,
}

-- What the packages promise: a value that can be written is read back.
pub record IsFaithful {Stored : Type 0} (c : Codecs Stored) : Type 0 where
  pub config :
      (r : RawTrackerConfig) (s : Stored) → c.to_stdvec r ≡ some s → c.from_bytes s ≡ some r
  pub json : (j : Json) (b : Bytes) → c.json_to_vec j ≡ some b → c.json_from_slice b ≡ some j
  pub url : (u : Url) → c.parse_url (c.url_as_str u) ≡ some u

-- no name of a header occurs twice
abbrev pub NoNameTwice : List (String × String) → Type 0
NoNameTwice [] = Unit
NoNameTwice (h ∷ hs) = (any (λ (e : String × String). str_eq e.0 h.0) hs ≡ false) × NoNameTwice hs

collect_map_all : (m : List (String × String)) → NoNameTwice m → collect_map m ≡ m
unfolding collect_map
collect_map_all [] h = refl
collect_map_all ((k, v) ∷ m) h = rw (collect_map_all m h.1, h.0) refl

module _ {A B : Type 0} (f : A → Option B) (g : B → Option A)
    (back : (a : A) (b : B) → f a ≡ some b → g b ≡ some a) where
  transpose_back :
      (o : Option A) (o' : Option B) → transpose f o ≡ some o' → transpose g o' ≡ some o
  transpose_back none none e = refl
  transpose_back none (some b) e = cc
  transpose_back (some a) none e = elim (Option-cases (f a)) [
    | inl bad ↦ absurd (ground arith)
    | inr (b, good) ↦ absurd (ground arith)
  ]
  transpose_back (some a) (some b) e = elim (Option-cases (f a)) [
    | inl bad ↦ absurd (ground arith)
    | inr (b', good) ↦ ground (arith, back a b)
  ]

strategy_back :
    (o : Option SchedulerJobRetryStrategy) → map_option strategy_of (map_option raw_strategy o) ≡ o
strategy_back none = refl
strategy_back (some (constant i n)) = refl
strategy_back (some (exponential i m c n)) = refl
strategy_back (some (linear i s c n)) = refl

job_back : (o : Option SchedulerJobConfig) → map_option job_of (map_option raw_job o) ≡ o
job_back none = refl
job_back (some j) = rw (strategy_back j.retry_strategy) refl

module _ {Stored : Type 0} (c : Codecs Stored) where
  -- a header that the `http` package reads back as it was
  abbrev pub HeaderKept : String × String → Type 0
  HeaderKept h =
      (c.parse_header_name h.0 ≡ some h.0) × (c.parse_header_value (c.header_text h.1) ≡ some h.1)

  abbrev pub HeadersKept : Option HeaderMap → Type 0
  HeadersKept none = Unit
  HeadersKept (some h) = NoNameTwice h × All HeaderKept h

  abbrev pub ActionKept : TrackerAction → Type 0
  ActionKept (webhook a) = HeadersKept a.headers
  ActionKept _ = Unit

  abbrev pub TargetKept : TrackerTarget → Type 0
  TargetKept (page t) = Unit
  TargetKept (api t) = All (λ (r : TargetRequest). HeadersKept r.headers) t.requests

  same_names :
      (k : String) (h : HeaderMap)
      → any
          (λ (e : String × String). str_eq e.0 k)
          (map (λ (e : String × String). (e.0, c.header_text e.1)) h)
        ≡ any (λ (e : String × String). str_eq e.0 k) h
  same_names k [] = refl
  same_names k (e ∷ h) = ground (arith, same_names k h)

  raw_NoNameTwice :
      (h : HeaderMap)
      → NoNameTwice h
      → NoNameTwice (map (λ (e : String × String). (e.0, c.header_text e.1)) h)
  raw_NoNameTwice [] n = tt
  raw_NoNameTwice (e ∷ h) n = (same_names e.0 h ∙ n.0, raw_NoNameTwice h n.1)

  read_each :
      (h : HeaderMap)
      → All HeaderKept h
      → traverse
          (λ (e : String × String).
            and_then
              (c.parse_header_name e.0)
              (λ k. map_option (λ v. (k, v)) (c.parse_header_value e.1)))
          (map (λ (e : String × String). (e.0, c.header_text e.1)) h)
        ≡ some h
  read_each [] k = refl
  read_each (e ∷ h) k = rw (k.0.0, k.0.1, read_each h k.1) refl

  headers_back :
      (h : HeaderMap) → NoNameTwice h → All HeaderKept h → headers_of c (raw_headers c h) ≡ some h
  unfolding headers_of raw_headers
  headers_back h n k =
      rw (collect_map_all _ (raw_NoNameTwice h n), read_each h k, collect_map_all h n) refl

  some_headers_back :
      (o : Option HeaderMap)
      → HeadersKept o
      → transpose (headers_of c) (map_option (raw_headers c) o) ≡ some o
  some_headers_back none k = refl
  some_headers_back (some h) k = rw (headers_back h k.0 k.1) refl

  module _ (faithful : IsFaithful c) where
    json_back :
        (o : Option Json) (o' : Option Bytes)
        → transpose c.json_to_vec o ≡ some o'
        → transpose c.json_from_slice o' ≡ some o
    json_back = transpose_back c.json_to_vec c.json_from_slice faithful.json

    request_back :
        (r : TargetRequest)
        → HeadersKept r.headers
        → (raw : RawApiTargetRequest) → raw_request c r ≡ some raw
        → request_of c raw ≡ some r
    unfolding raw_request request_of
    request_back r k raw e = elim (Option-cases (transpose c.json_to_vec r.body)) [
      | inl bad ↦ absurd (ground arith)
      | inr (body, good) ↦
          ground (arith, faithful.url r.url, some_headers_back r.headers k, json_back r.body body)
    ]

    action_back : (a : TrackerAction) → ActionKept a → action_of c (raw_action c a) ≡ some a
    unfolding raw_action action_of
    action_back (email a) k = refl
    action_back (webhook a) k = rw (faithful.url a.url, some_headers_back a.headers k) refl
    action_back server_log k = refl

    actions_back :
        (as' : List TrackerAction)
        → All ActionKept as'
        → traverse (action_of c) (map (raw_action c) as') ≡ some as'
    actions_back [] k = refl
    actions_back (a ∷ as') k = rw (action_back a k.0, actions_back as' k.1) refl

    target_back :
        (t : TrackerTarget)
        → TargetKept t
        → (raw : RawTrackerTarget) → raw_target c t ≡ some raw
        → target_of c raw ≡ some t
    unfolding raw_target target_of
    target_back (page t) k raw e = elim (Option-cases (transpose c.json_to_vec t.params)) [
      | inl bad ↦ absurd (ground arith)
      | inr (params, good) ↦ ground (arith, json_back t.params params)
    ]
    target_back (api t) k raw e = elim (Option-cases (traverse (raw_request c) t.requests)) [
      | inl bad ↦ absurd (ground arith)
      | inr (requests, good) ↦
          let whole =
            traverse_back (raw_request c) (request_of c) (λ r. HeadersKept r.headers) request_back
              t.requests k requests good in
          ground (arith, whole)
    ]

    -- A tracker that can be written to a row is read back from the row unchanged, and the row's
    -- column job_needed says what the scheduler's queries need. For packages that read back what
    -- they write, and where no header of the tracker has two values.
    pub raw_of-tracker_of :
        (t : Tracker) (raw : RawTracker Stored)
        → TargetKept t.target
        → All ActionKept t.actions
        → raw_of c t ≡ some raw
        → (tracker_of c raw ≡ some t) × (raw.job_needed ≡ job_needed t)
    unfolding raw_of tracker_of job_needed
    raw_of-tracker_of t raw k ks e = elim (Option-cases (raw_target c t.target)) [
      | inl bad ↦ absurd (ground arith)
      | inr (target, good) ↦ elim (Option-cases (c.to_stdvec (raw_config c t target))) [
        | inl bad ↦ absurd (ground arith)
        | inr (config, stored) ↦ ground (
          arith,
          faithful.config (raw_config c t target) config,
          target_back t.target k target,
          actions_back t.actions ks,
          job_back t.config.job,
        )
      ]
    ]
