-- ===== src/Tests/Samples.antt =====
-- A source with its city, its schedule and its rows.
use web_scraping_event_appli.Prelude.{
  ℕ, ◌*◌, ◌==◌, if◌then◌else◌, String, true, false, Option, none, some, [], ◌∷◌,
}
use web_scraping_event_appli.Json.{Json, obj, str, num, field, end}
use web_scraping_event_appli.Onboarding.{active, needs_review}
use web_scraping_event_appli.Website.{City, Website}
use web_scraping_event_appli.Schedule.{ScheduleConfig}
use web_scraping_event_appli.Scheduler.{JobState, new_state, Table, second, success, failed}
use web_scraping_event_appli.Scheduler.Eligibility.{Parsed, valid}
use web_scraping_event_appli.Scheduler.Runner.{RunResult, Surroundings}
use web_scraping_event_appli.Lifecycle.{PreviewRun, Site}
use web_scraping_event_appli.Lifecycle.Acts.{Services}

abbrev pub town : City
town = record { id = 3; is_active = true }

abbrev pub daily : ScheduleConfig
daily = record {
  enabled = true;
  interval_minutes = 1440;
  jitter_seconds = 0;
  max_retries = 2;
  retry_backoff_seconds = 5;
  retry_backoff_max_seconds = 60;
}

abbrev pub configuration : Json
configuration = obj (field "pattern_name" (str "json_ld_events") end)

abbrev pub venue_site : Website
venue_site = record {
  id = 7;
  city_id = some 3;
  city = some town;
  base_url = "https://venue.example";
  event_listing_url = some "https://venue.example/events";
  is_active = true;
  onboarding_status = active;
  proposed_pattern = none;
  approved_pattern = some configuration;
  configuration = some configuration;
  configuration_origin = some "deterministic_structured";
  schedule_config = some (obj (field "enabled" (num 1) end));
  approved_at = some 5;
  approved_by_user_id = none;
  configuration_version = 2;
  active_configuration_version = some 2;
  last_success_at = none;
  last_failure_at = none;
  consecutive_failure_count = 0;
  archived_at = none;
}

-- The site before its approval, with a preview of its draft.
abbrev pub draft_site : Website
draft_site = record venue_site {
  is_active = false;
  onboarding_status = needs_review;
  approved_pattern = none;
  schedule_config = none;
  approved_at = none;
  active_configuration_version = none;
}

abbrev pub good_preview : PreviewRun
good_preview = record {
  id = 11;
  configuration_version = some 2;
  status = success;
  events_valid = 12;
}

abbrev pub previewed_site : Site
previewed_site = record {
  website = draft_site;
  jobs = new_state 7 ∷ [];
  latest_preview = some good_preview;
}

abbrev pub services : Services
services = record {
  registry = λ name. some false;
  build = λ name at. some configuration;
  pattern_of = λ draft. some "json_ld_events";
  default_schedule = obj (field "enabled" (num 1) end);
}

-- The schema accepts every configuration, and every schedule is the daily one.
abbrev pub accept : Json → Option String
accept j = none

abbrev pub parse_daily : Json → Parsed
parse_daily j = valid daily

-- A run that fails once and then succeeds.
abbrev pub second_time_lucky : ℕ → Option RunResult
second_time_lucky n =
    if n == 1
    then some (record { status = failed; events_found = 0 })
    else some (record { status = success; events_found = 4 })

abbrev pub quiet : Surroundings
quiet = record {
  before_count = λ s. s;
  before_release = λ s. record s { cancel_requested = true };
  interference = λ n s. s;
  extraction = second_time_lucky;
  beat_at = λ n. n * second;
  release_at = 9 * second;
  reonboard = some true;
}

abbrev pub held_row : JobState
held_row = record (new_state 7) {
  running = true;
  lock_holder = some "worker-1";
  lock_heartbeat_at = some second;
}

abbrev pub held_table : Table
held_table = held_row ∷ new_state 8 ∷ []
