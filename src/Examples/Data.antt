-- ===== src/Examples/Data.antt =====
-- An environment whose parameters are concrete functions, and a few trackers, jobs and worlds.
use retrack.Prelude.{
  if◌then◌else◌, length, keep, not, ℕ, ◌+◌, ◌*◌, String, true, false, none, some, List, [], ◌∷◌,
  str_eq,
}
use retrack.Types.{
  Tracker, TrackerConfig, PageTarget, page, api, email, server_log, TrackerDataRevision,
  TrackerCreateParams, TrackerUpdateParams, TrackerAction,
}
use retrack.Types.DataValue.{TrackerDataValue}
use retrack.Network.IpAddrExt.{v4}
use retrack.Env.{Env, Cron, domain, ip, success}
use retrack.Scheduler.RetryStrategy.{secs, exponential, SchedulerJobRetryStrategy}
use retrack.Scheduler.Job.{
  RawSchedulerJobStoredData, SchedulerJobMetadata, trackers_trigger, tasks_run, metadata,
  undecodable,
}
use retrack.Tasks.Run.{Delivery}
use retrack.Trackers.Diff.{Printing}
use retrack.Db.{World}
use retrack.Db.Jobs.{is_job, update_job}
use retrack.Scheduler.Resume.Laws.{restored}

-- every hour
abbrev pub hourly : Cron
hourly = record {
  pattern = "0 0 * * * *";
  iter_from = λ now n. now ∷ (now + secs 3600) ∷ (now + secs 7200) ∷ [];
}

abbrev pub demo_env : Env
demo_env = record {
  config = record {
    trackers = record {
      max_revisions = 30;
      min_schedule_interval = secs 10;
      restrict_to_public_urls = false;
      max_script_size = 4096;
    };
    smtp = none;
    scheduler = record {
      tasks_run = "0/30 * * * * *";
      trackers_schedule = "10 * * * * *";
      trackers_run = "0 * * * * *";
    };
  };
  now_utc = λ m. 1000000 * (m + 1);
  now_v7 = λ m. 100 + m;
  same_text = str_eq;
  trim_to_lowercase = λ t. t;
  is_mailbox = λ t. true;
  parse_cron = λ t. if str_eq t "@hourly" then some hourly else none;
  parse_url = λ t. none;
  scheme = λ u. "https";
  host = λ u. some (ip (v4 1 1 1 1));
  lookup_ip = λ m d. none;
  json_to_string = λ j. j;
  json_to_vec = λ j. some (1 ∷ []);
  json_from_slice = λ b. some "{}";
  json_of_responses = λ bs. "[]";
  send = λ m r. none;
  fetch_text = λ m u. none;
  scrape = λ m r. some (record { status = success; body = some "new" });
  run_configurator = λ m s a. none;
  run_extractor = λ m s a. none;
  media_type = λ m. record { ty = "text"; subty = "csv" };
  same_name = str_eq;
  open_xlsx = λ b. none;
  open_xls = λ b. none;
  csv_records = λ b. some ("a" ∷ []) ∷ none ∷ some ("b" ∷ []) ∷ [];
  sheets_to_vec = λ s. none;
  rows_to_vec = λ r. some (length r ∷ []);
  add_job = λ m j rows. some (
    7,
    record {
      id = 7;
      stopped = some false;
      schedule = some j.pattern;
      extra = some (metadata (record { job_type = j.job_type; retry = none }));
    }
        ∷ rows,
  );
  remove_job = λ id rows. some (keep (λ j. not (is_job id j)) rows);
  resume_job = λ m job rows. some (update_job (restored job) job.id rows);
  open_scheduler = λ m. true;
  start_scheduler = λ m. true;
  error_text = λ e. "Unknown error";
}

-- 1, 2 and 4 minutes, three times at most
abbrev pub doubling : SchedulerJobRetryStrategy
doubling = exponential (secs 60) 2 (secs 600) 3

abbrev pub stuck : SchedulerJobRetryStrategy
stuck = exponential (secs 60) 0 (secs 600) 3

abbrev pub demo_config : TrackerConfig
demo_config = record {
  revisions = 2;
  timeout = none;
  job = some (record { schedule = "@hourly"; retry_strategy = some doubling });
}

abbrev pub demo_actions : List TrackerAction
demo_actions = email (record { to = "dev@retrack.dev" ∷ [] }) ∷ server_log ∷ []

abbrev pub demo_tracker : Tracker
demo_tracker = record {
  id = 1;
  name = "page";
  enabled = true;
  target = page (record {
    extractor = "return 1;";
    params = none;
    user_agent = none;
    ignore_https_errors = false;
  });
  job_id = some 7;
  config = demo_config;
  tags = "news" ∷ [];
  actions = demo_actions;
  created_at = 5;
  updated_at = 5;
}

abbrev pub value_of : String → TrackerDataValue String
value_of v = record { original = v; mods = none }

abbrev pub revision : ℕ → String → ℕ → TrackerDataRevision
revision id v at = record { id = id; tracker_id = 1; value = value_of v; created_at = at }

-- a revision of another tracker between two of the first
abbrev pub demo_revisions : List TrackerDataRevision
demo_revisions =
    revision 11 "a" 10 ∷ record (revision 12 "x" 11) { tracker_id = 2 } ∷ revision 13 "b" 12 ∷ []

abbrev pub fetched : TrackerDataRevision
fetched = revision 14 "c" 20

abbrev pub demo_meta : SchedulerJobMetadata
demo_meta = record { job_type = trackers_trigger; retry = none }

abbrev pub demo_job : RawSchedulerJobStoredData
demo_job = record {
  id = 7;
  stopped = some true;
  schedule = some "0 0 * * * *";
  extra = some (metadata demo_meta);
}

abbrev pub demo_world : World
demo_world = record {
  tables = record {
    trackers = record { tracker = demo_tracker; job_needed = true } ∷ [];
    trackers_data = demo_revisions;
    scheduler_jobs = demo_job ∷ [];
    tasks = [];
  };
  moment = 0;
}

abbrev pub demo_params : TrackerCreateParams
demo_params = record {
  name = "another";
  enabled = true;
  target = demo_tracker.target;
  config = demo_config;
  tags = "news" ∷ "News" ∷ "news" ∷ [];
  actions = [];
}

-- switches the tracker off
abbrev pub disable : TrackerUpdateParams
disable = record {
  name = none;
  enabled = some false;
  target = none;
  config = none;
  tags = none;
  actions = none;
}

-- the tracker has lost its job
abbrev pub unscheduled_world : World
unscheduled_world = record demo_world {
  tables = record demo_world.tables {
    trackers = record { tracker = record demo_tracker { job_id = none }; job_needed = true } ∷ [];
    scheduler_jobs = [];
  };
}

-- every text is its own JSON value, and all differences look alike
abbrev pub demo_printing : Printing
demo_printing = record {
  to_string = λ j. j;
  from_str = λ t. some t;
  is_nested = λ j. false;
  to_string_pretty = λ j. some j;
  render = λ j. j;
  unified_diff = λ a b. "changed";
  json_string = λ t. t;
}

-- every schedule is a pattern, and two jobs of one type are stored beside one that cannot be read
abbrev pub starting_env : Env
starting_env = record demo_env { parse_cron = λ t. some (record hourly { pattern = t }) }

abbrev tasks_job : ℕ → RawSchedulerJobStoredData
tasks_job id = record {
  id = id;
  stopped = some false;
  schedule = some "0/30 * * * * *";
  extra = some (metadata (record { job_type = tasks_run; retry = none }));
}

abbrev pub starting_world : World
starting_world = record demo_world {
  tables = record demo_world.tables {
    scheduler_jobs =
        tasks_job 3 ∷ tasks_job 2 ∷ record (tasks_job 4) { extra = some undecodable } ∷ [];
  };
}

-- every mail is sent, and no request is answered
abbrev pub demo_delivery : Delivery
demo_delivery = record {
  templates = record {
    public_url = "http://localhost:1234/";
    render = λ name fields. some name;
    retrack_logo_bytes = 137 ∷ [];
  };
  is_content_type = λ t. true;
  send = λ m message. true;
  request = λ m r. none;
}

-- the next attempt of the job is due later
abbrev pub retrying_meta : SchedulerJobMetadata
retrying_meta = record demo_meta { retry = some (record { attempts = 1; next_at = 2000000 }) }

abbrev pub retrying_world : World
retrying_world = record demo_world {
  tables = record demo_world.tables {
    scheduler_jobs = record demo_job { extra = some (metadata retrying_meta) } ∷ [];
  };
}

-- URLs have to be public, and every text but one is a URL
abbrev pub restricted_env : Env
restricted_env = record demo_env {
  config = record demo_env.config {
    trackers = record demo_env.config.trackers { restrict_to_public_urls = true };
  };
  parse_url = λ t. if str_eq t "return 1;" then none else some t;
  host = λ u. some (domain u);
  lookup_ip = λ m d. some (v4 1 1 1 1 ∷ v4 8 8 8 8 ∷ []);
  fetch_text = λ m u. some "return 2;";
}

-- a request to an API, with a configurator at a URL
abbrev pub api_tracker : Tracker
api_tracker = record demo_tracker {
  target = api (record {
    requests =
        record {
          url = "https://retrack.dev";
          method = none;
          headers = none;
          media_type = none;
          body = none;
        }
        ∷ [];
    configurator = some "https://retrack.dev/configurator.js";
    extractor = some "return 1;";
  });
}

-- the extractor of a page at a URL
abbrev pub remote_target : PageTarget
remote_target = record {
  extractor = "https://retrack.dev/extractor.js";
  params = none;
  user_agent = none;
  ignore_https_errors = false;
}
