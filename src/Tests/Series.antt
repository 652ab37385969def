-- ===== src/Tests/Series.antt =====
-- A weekly event.
use web_scraping_event_appli.Prelude.{false, none, some, [], ◌∷◌}
use web_scraping_event_appli.Recurrence.{
  Engine, Parent, RecurrenceSpec, RecurrenceBounds, at_time, on_day, bounded_expand,
}
use web_scraping_event_appli.Recurrence.Run.{Candidate}
use web_scraping_event_appli.Tests.Records.{concert}

abbrev engine : Engine
engine = record {
  from_iso = λ s. some (on_day 20216);
  len = λ s. 11;
  iso = λ day. "2025-05-01";
  source_key = λ id. id;
  parent_key = λ parent id. id;
  fingerprint_key = λ fingerprint day. fingerprint;
  is_subdaily = λ rule. false;
  rrulestr =
      λ rule start. some (record { day = 20209; time = 5 } ∷ record { day = 20216; time = 5 } ∷ []);
  is_over_time = λ n. false;
}

abbrev parent : Parent
parent = record { start = at_time 20209 5 false; ends = none; fingerprint = "f" }

abbrev weekly : RecurrenceSpec
weekly = record {
  mode = bounded_expand;
  source_parent_id = none;
  rrule = some "FREQ=WEEKLY";
  rdate = [];
  exdate = "2025-05-08" ∷ [];
  all_day = false;
  occurrences = [];
}

abbrev bounds : RecurrenceBounds
bounds = record {
  max_occurrences_per_parent = 50;
  max_occurrences_per_run = 200;
  horizon_days = 180;
  max_rule_length = 500;
}

abbrev series : Candidate
series = record {
  event = concert;
  raw_record_hash = "h";
  recurrence = none;
  occurrence_dates = "2025-05-08" ∷ [];
  start_is_aware = false;
  end_is_aware = false;
}
