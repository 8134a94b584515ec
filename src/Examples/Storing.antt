-- ===== src/Examples/Storing.antt =====
-- The theorems on the rows of `trackers` and `trackers_data` at concrete inputs.
use retrack.Prelude.{
  if◌then◌else◌, Bool-cases, ◌≡◌, sym, refl, String, none, some, List, [], ◌∷◌, inl, inr, true,
  eq_iff, str_eq, arith,
}
use retrack.Types.{Tracker, api, TargetRequest, webhook, TrackerDataRevision, Json, Bytes}
use retrack.Db.Trackers.{job_needed}
use retrack.Scheduler.RetryStrategy.{secs}
use retrack.Db.RawTracker.{
  RawTrackerTarget, RawTrackerAction, RawSchedulerJobRetryStrategy, Codecs, RawTracker,
  RawTrackerConfig, raw_of, tracker_of, raw_target, raw_request, raw_headers, raw_action,
  collect_map,
}
use retrack.Db.RawTracker.RoundTrip.{IsFaithful, raw_of-tracker_of}
use retrack.Db.RawRevision.{
  Texts, IsReadable, raw_revision_of, revision_of, values, raw_revision_of-revision_of,
}
use retrack.Examples.Data.{demo_tracker, revision}

abbrev demo_codecs : Codecs RawTrackerConfig
demo_codecs = record {
  to_stdvec = λ r. some r;
  from_bytes = λ r. some r;
  json_to_vec = λ j. if str_eq j "{}" then some (1 ∷ []) else none;
  json_from_slice = λ b. some "{}";
  url_as_str = λ u. u;
  parse_url = λ u. some u;
  parse_header_name = λ n. some n;
  parse_header_value = λ v. some v;
  header_text = λ v. v;
}

demo_json :
    (j : Json) (b : Bytes)
    → demo_codecs.json_to_vec j ≡ some b
    → demo_codecs.json_from_slice b ≡ some j
demo_json j b h = elim (Bool-cases (str_eq j "{}")) [
  | inl e ↦ ground (arith, eq_iff j "{}")
  | inr e ↦ absurd (ground arith)
]

demo-IsFaithful : IsFaithful demo_codecs
demo-IsFaithful = record { config = λ r s h. sym h; json = demo_json; url = λ u. refl }

abbrev demo_request : TargetRequest
demo_request = record {
  url = "https://retrack.dev/api";
  method = some "POST";
  headers = some (("accept", "text/plain") ∷ ("x-key", "k") ∷ []);
  media_type = none;
  body = some "{}";
}

abbrev api_tracker : Tracker
api_tracker = record demo_tracker {
  target = api (record { requests = demo_request ∷ []; configurator = none; extractor = none });
  actions =
      webhook (record {
        url = "https://retrack.dev/hook";
        method = none;
        headers = some (("x-key", "k") ∷ []);
      })
      ∷ [];
}

abbrev api_row : RawTracker RawTrackerConfig
api_row = record {
  id = 1;
  name = "page";
  enabled = true;
  config = record {
    revisions = 2;
    timeout = none;
    target = RawTrackerTarget.api (record {
      requests =
          record {
            url = "https://retrack.dev/api";
            method = some "POST";
            headers = some (("accept", "text/plain") ∷ ("x-key", "k") ∷ []);
            body = some (1 ∷ []);
            media_type = none;
          }
          ∷ [];
      configurator = none;
      extractor = none;
    });
    actions =
        RawTrackerAction.webhook "https://retrack.dev/hook" none (some (("x-key", "k") ∷ [])) ∷ [];
    job = some (record {
      schedule = "@hourly";
      retry_strategy = some (RawSchedulerJobRetryStrategy.exponential (secs 60) 2 (secs 600) 3);
    });
  };
  tags = "news" ∷ [];
  created_at = 5;
  updated_at = 5;
  job_id = some 7;
  job_needed = true;
}

raw_of-tracker_of_example :
    (tracker_of demo_codecs api_row ≡ some api_tracker)
    × (api_row.job_needed ≡ job_needed api_tracker)
raw_of-tracker_of_example =
    raw_of-tracker_of demo_codecs demo-IsFaithful api_tracker api_row
      (((refl, (refl, tt)), ((refl, refl), ((refl, refl), tt))), tt)
      (((refl, tt), ((refl, refl), tt)), tt)
      (unfold raw_of raw_target raw_request raw_headers raw_action collect_map in refl)

abbrev demo_texts : Texts (List String)
demo_texts = record {
  to_stdvec = λ ts. some ts;
  from_bytes = λ ts. some ts;
  to_string = λ j. j;
  from_str = λ t. some t;
}

demo-IsReadable : IsReadable demo_texts
demo-IsReadable = record { texts = λ ts s h. sym h; json = λ j. refl }

abbrev modified : TrackerDataRevision
modified = record (revision 11 "a" 10) { value = record { original = "a"; mods = some ("b" ∷ []) } }

raw_revision_of-revision_of_example :
    revision_of demo_texts
      (record { id = 11; tracker_id = 1; content = "a" ∷ "b" ∷ []; created_at = 10 })
    ≡ some modified
raw_revision_of-revision_of_example =
    raw_revision_of-revision_of demo_texts demo-IsReadable modified
      (record { id = 11; tracker_id = 1; content = "a" ∷ "b" ∷ []; created_at = 10 }) (λ e. cc)
      (unfold raw_revision_of values in refl)
