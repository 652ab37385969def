-- ===== src/Tests/Records.antt =====
-- Events, reports, attempts and accounts.
use web_scraping_event_appli.Prelude.{
  ◌+◌, ◌≤◌, String, str_eq, true, false, Option, none, some, List, [], ◌∷◌, ◌≡◌, ◌⊎◌, refl, arith,
  length, select, if◌then◌else◌, ltb, inr,
}
use web_scraping_event_appli.Events.{
  Text, EventCandidate, Event, not_reviewed, possible_duplicate, confirmed_duplicate,
  candidate_fingerprint,
}
use web_scraping_event_appli.Events.Upsert.{update_event, new_event}
use web_scraping_event_appli.Events.Dedup.{IsCollapsed, dedupe_within_run, dedupe-IsCollapsed}
use web_scraping_event_appli.Events.Duplicates.{AllOnlyFlagged, update_event_keeps}
use web_scraping_event_appli.RateLimit.{Attempts, is_recent, allow, count}
use web_scraping_event_appli.RateLimit.Window.{
  call_all, last_time, admitted_within_limit, allow-count,
}
use web_scraping_event_appli.Reports
use web_scraping_event_appli.Reports.{
  Report, new_report, resolved, dismissed, opened, should_create_new_report, observe,
}
use web_scraping_event_appli.Reports.Stamps
use web_scraping_event_appli.Reports.Stamps.{Edit, IsStamped, apply_all, apply_all-IsStamped}
use web_scraping_event_appli.Reports.Observations.{sightings, observe_counts}
use web_scraping_event_appli.Access.{
  Roles, User, Request, deactivate, delete_account, user_has_role,
}
use web_scraping_event_appli.Access.LastAdmin.{is_administered, answer_all, answer_all-administered}

abbrev plain : Option String → String
plain none = ""
plain (some s) = s

abbrev text : Text
text = record {
  normalize_text = plain;
  normalize_url = plain;
  title_key = plain;
  strip = λ s. s;
  digits = λ n. "7";
  date_iso = λ n. "2025-05-01";
  time_iso = λ n. "19:00:00";
  sha256 = λ s. s;
}

abbrev pub concert : EventCandidate
concert = record {
  title = some "Concert";
  canonical_url = some "https://venue.example/concert";
  description = none;
  start_date = some 20209;
  start_time = some 68400;
  end_date = none;
  end_time = none;
  timezone = none;
  venue = some "Hall";
  address = none;
  image_url = none;
  latitude = none;
  longitude = none;
  source_category = none;
  external_source_id = none;
  occurrence_id = none;
  recurrence_parent_id = none;
  is_recurrence_parent = false;
  is_cancelled = false;
}

abbrev talk : EventCandidate
talk = record concert { title = some "Talk"; canonical_url = some "https://venue.example/talk" }

dedupe-IsCollapsed_example :
    IsCollapsed
      (λ c. candidate_fingerprint text c 7 (some 3))
      (concert ∷ talk ∷ concert ∷ [])
      (dedupe_within_run text (concert ∷ talk ∷ concert ∷ []) 7 (some 3))
dedupe-IsCollapsed_example = dedupe-IsCollapsed text (concert ∷ talk ∷ concert ∷ []) 7 (some 3)

dropped_once :
    (dedupe_within_run text (concert ∷ talk ∷ concert ∷ []) 7 (some 3)).duplicates_skipped ≡ 1
unfolding dedupe_within_run candidate_fingerprint
dropped_once = refl

abbrev stored : Event
stored = record (new_event 5 talk 7 (some 3) "Venue" 10) { duplicate_status = confirmed_duplicate }

abbrev scheduled : Event
scheduled = new_event 6 concert 7 (some 3) "Venue" 20

abbrev rescraped : Event × List Event
rescraped = update_event text scheduled concert 30 (stored ∷ [])

update_event_keeps_example :
    AllOnlyFlagged (stored ∷ []) rescraped.1
    × (rescraped.0.website_id ≡ scheduled.website_id)
    × (rescraped.0.city_id ≡ scheduled.city_id)
    × (rescraped.0.source ≡ scheduled.source)
    × ((rescraped.0.duplicate_status ≡ scheduled.duplicate_status)
        ⊎ (scheduled.duplicate_status ≡ not_reviewed)
          × (rescraped.0.duplicate_status ≡ possible_duplicate))
    × (scheduled.is_active ≡ false → rescraped.0.is_active ≡ false)
update_event_keeps_example = update_event_keeps text scheduled concert 30 (stored ∷ [])

admitted_within_limit_example :
    length (
      select
        (is_recent 10 (last_time 0 (1 ∷ 2 ∷ 3 ∷ 13 ∷ [])))
        (call_all 2 10 (1 ∷ 2 ∷ 3 ∷ 13 ∷ []) ([], [])).1)
    ≤ 2
admitted_within_limit_example =
    admitted_within_limit 2 10 (1 ∷ 2 ∷ 3 ∷ 13 ∷ []) (omega arith)
      (omega arith, (omega arith, (omega arith, (omega arith, tt))))

abbrev attempts : Attempts
attempts key = 4 ∷ 5 ∷ []

allow-count_example :
    ((allow 3 10 6 "a" attempts).0 ≡ ltb (count 10 6 "a" attempts) 3)
    × (count 10 6 "a" (allow 3 10 6 "a" attempts).1
        ≡ count 10 6 "a" attempts + (if (allow 3 10 6 "a" attempts).0 then 1 else 0))
    × ((other : String)
        → str_eq other "a" ≡ false
        → (allow 3 10 6 "a" attempts).1 other ≡ attempts other)
allow-count_example = allow-count 3 10 6 "a" attempts (omega arith)

abbrev report : Report
report = new_report 7 "f1" (some 2) 100

abbrev note_text : Reports.Text
note_text = record { len = λ s. 3; strip = λ s. s; join_stripped = λ old new. new }

abbrev edits : List Edit
edits =
    Stamps.note "seen"
    ∷ Stamps.move resolved 4 110
    ∷ Stamps.move dismissed 4 120
    ∷ Stamps.delete_account 4
    ∷ Stamps.move opened 5 130
    ∷ []

apply_all-IsStamped_example : IsStamped true (apply_all note_text edits report)
apply_all-IsStamped_example =
    apply_all-IsStamped false note_text edits report
      (record { time = refl; unsigned = inr refl; signed = inr refl })

observe_counts_example :
    sightings 7 (observe (report ∷ []) 7 "f1" none 140) ≡ 1 + sightings 7 (report ∷ [])
observe_counts_example = observe_counts (report ∷ []) 7 7 "f1" none 140

abbrev roles : Roles
roles id =
    some
      (record { name = "Super Administrator"; is_active = true; permissions = "users.update" ∷ [] })

abbrev chief : User
chief = record { id = 1; is_active = true; role_ids = 1 ∷ [] }

abbrev deputy : User
deputy = record { id = 2; is_active = true; role_ids = 1 ∷ [] }

abbrev requests : List (User × Request)
requests = (chief, deactivate 2) ∷ (chief, deactivate 1) ∷ (chief, delete_account 1) ∷ []

chief_administers : is_administered roles (chief ∷ deputy ∷ []) ≡ true
unfolding user_has_role
chief_administers = refl

answer_all-administered_example :
    is_administered roles (answer_all roles requests (chief ∷ deputy ∷ [])) ≡ true
answer_all-administered_example =
    answer_all-administered roles requests (chief ∷ deputy ∷ []) chief_administers
