-- ===== src/Scheduler/Eligible.antt =====
-- services/scheduler.py: the reasons are complete. A source is eligible exactly when each of the
-- conditions holds, stated here one by one.
use web_scraping_event_appli.Prelude.{
  String, true, not, Option, none, some, List, ◌++◌, is_empty, is_empty-append, append-is_empty,
  ◌≡◌, ◌↔◌, refl, ap, arith,
}
use web_scraping_event_appli.Json.{Json, present, is_some}
use web_scraping_event_appli.Onboarding.{same, same_iff, active}
use web_scraping_event_appli.Website.{Website, City}
use web_scraping_event_appli.Schedule.{ScheduleConfig}
use web_scraping_event_appli.Scheduler.Eligibility.{
  Parsed, invalid, valid, Reason, status_not_active, website_not_active, website_archived,
  reason_if, city_reasons, approved_config_dict, source_eligibility_reasons, parse_schedule_config,
  schedule_of, schedule_reasons, evaluate_eligibility, evaluate_manual_import_eligibility,
}

schedule_enabled :
    (p : Option Parsed)
    → is_empty (schedule_reasons p) ≡ true
    → (c : ScheduleConfig) × (p ≡ some (valid c)) × (c.enabled ≡ true)
schedule_enabled none h = cc
schedule_enabled (some (invalid x)) h = cc
schedule_enabled (some (valid c)) h = (c, refl, ground arith)

city_found :
    (c : Option City)
    → is_empty (city_reasons c) ≡ true
    → (city : City) × (c ≡ some city) × (city.is_active ≡ true)
city_found none h = cc
city_found (some c) h = (c, refl, ground arith)

module _ (validate : Json → Option String) (parse : Json → Parsed) where
  -- What makes a source importable, whatever its schedule is.
  pub record IsImportable (w : Website) : Type 0 where
    pub lifecycle : w.onboarding_status ≡ active
    pub flag : w.is_active ≡ true
    pub not_archived : w.archived_at ≡ none
    pub city : City
    pub in_city : w.city ≡ some city
    pub city_active : city.is_active ≡ true
    pub approved : present w.approved_pattern ≡ true
    pub accepted : validate (approved_config_dict w) ≡ none

  no_reasons→IsImportable :
      (w : Website) → is_empty (source_eligibility_reasons validate parse w) ≡ true → IsImportable w
  unfolding source_eligibility_reasons
  no_reasons→IsImportable w h =
      let (status, h1) =
        is_empty-append
          (reason_if (not (same w.onboarding_status active))
            (status_not_active w.onboarding_status))
          _ h in
      let (flag, h2) = is_empty-append (reason_if (not w.is_active) website_not_active) _ h1 in
      let (kept, h3) = is_empty-append (reason_if (is_some w.archived_at) website_archived) _ h2 in
      let (town, config) = is_empty-append (city_reasons w.city) _ h3 in
      let (city, at, on) = city_found w.city town in
      record {
        lifecycle = (same_iff w.onboarding_status active).0 (ground arith);
        flag = ground arith;
        not_archived = ground arith;
        city = city;
        in_city = at;
        city_active = on;
        approved = ground arith;
        accepted = ground arith;
      }

  IsImportable→no_reasons :
      (w : Website) → IsImportable w → is_empty (source_eligibility_reasons validate parse w) ≡ true
  unfolding source_eligibility_reasons
  IsImportable→no_reasons w h = ground (arith, same_iff w.onboarding_status active)

  -- A source may be imported by an administrator exactly when it is an active, unarchived website
  -- of an active city with an approved configuration that the schema accepts.
  pub manual_eligible_iff :
      (w : Website)
      → ((evaluate_manual_import_eligibility validate parse w).eligible ≡ true) ↔ IsImportable w
  unfolding evaluate_manual_import_eligibility
  manual_eligible_iff w = (no_reasons→IsImportable w, IsImportable→no_reasons w)

  -- The stored schedule is valid and enabled.
  abbrev pub IsScheduled : Website → Type 0
  IsScheduled w =
      (c : ScheduleConfig) × (parse_schedule_config parse w.schedule_config ≡ some (valid c))
      × (c.enabled ≡ true)

  -- A source runs on a schedule exactly when it is importable and its stored schedule is valid and
  -- enabled.
  pub eligible_iff :
      (w : Website)
      → ((evaluate_eligibility validate parse w).eligible ≡ true) ↔ (IsImportable w × IsScheduled w)
  unfolding evaluate_eligibility
  eligible_iff w = (only, enough)
    where
      sources : List Reason
      sources = source_eligibility_reasons validate parse w

      only :
          is_empty (sources ++ schedule_reasons (parse_schedule_config parse w.schedule_config))
            ≡ true
          → IsImportable w × IsScheduled w
      only h =
          let (source, schedule) =
            is_empty-append sources
              (schedule_reasons (parse_schedule_config parse w.schedule_config)) h in
          (no_reasons→IsImportable w source, schedule_enabled _ schedule)

      enough :
          IsImportable w × IsScheduled w
          → is_empty (sources ++ schedule_reasons (parse_schedule_config parse w.schedule_config))
            ≡ true
      enough (source, (c, e, on)) =
          append-is_empty sources _ (IsImportable→no_reasons w source) (ground (arith, e, on))

  pub eligible-schedule :
      (w : Website)
      → (evaluate_eligibility validate parse w).eligible ≡ true
      → (c : ScheduleConfig) × ((evaluate_eligibility validate parse w).schedule ≡ some c)
        × (c.enabled ≡ true)
  unfolding evaluate_eligibility
  eligible-schedule w h = let (c, e, on) = ((eligible_iff w).0 h).1 in (c, ap schedule_of e, on)
