-- ===== src/Scheduler/Eligibility.antt =====
-- backend/app/services/scheduler.py: which sources may be imported, and which are scheduled.
-- Each failing check is a reason; the constructors stand for the message texts.
use web_scraping_event_appli.Prelude.{
  String, str_eq, Bool, true, false, not, Option, none, some, List, [], ◌∷◌, ◌++◌, if◌then◌else◌,
  is_empty,
}
use web_scraping_event_appli.Json.{Json, obj, str, end, present, truthy, get_field, is_some}
use web_scraping_event_appli.Onboarding.{Status, same, active}
use web_scraping_event_appli.Website.{Website, City}
use web_scraping_event_appli.Schedule.{ScheduleConfig}

pub data Reason : Type 0 where
  status_not_active : Status → Reason
  website_not_active website_archived no_city city_not_active : Reason
  no_approved_configuration : Reason
  invalid_configuration : String → Reason
  invalid_schedule : String → Reason
  no_schedule schedule_disabled : Reason

-- `if failed: reasons.append(reason)`.
abbrev pub reason_if : Bool → Reason → List Reason
reason_if true r = r ∷ []
reason_if false r = []

pub data Parsed : Type 0 where
  invalid : String → Parsed
  valid : ScheduleConfig → Parsed

pub data Strategy : Type 0 where
  http browser : Strategy

pub record ScheduleEligibility : Type 0 where
  pub eligible : Bool
  pub reasons : List Reason
  pub schedule : Option ScheduleConfig

pub record ManualImportEligibility : Type 0 where
  pub eligible : Bool
  pub reasons : List Reason
  pub execution_strategy : Strategy

abbrev pub snapshot_of : Json → Json
snapshot_of (obj fields) = elim (get_field "configuration" fields) [
  | some c ↦ c
  | none ↦ obj fields
]
snapshot_of j = j

unfoldable pub approved_config_dict : Website → Json
approved_config_dict w = elim w.approved_pattern [
  | none ↦ obj end
  | some j ↦ if truthy j then snapshot_of j else obj end
]

abbrev pub strategy_of : Option Json → Strategy
strategy_of (some (str s)) = if str_eq s "browser" then browser else http
strategy_of _ = http

abbrev pub config_strategy : Json → Strategy
config_strategy (obj fields) = strategy_of (get_field "execution_strategy" fields)
config_strategy j = http

unfoldable pub approved_execution_strategy : Website → Strategy
unfolding approved_config_dict
approved_execution_strategy w = config_strategy (approved_config_dict w)

abbrev pub city_reasons : Option City → List Reason
city_reasons none = no_city ∷ []
city_reasons (some c) = reason_if (not c.is_active) city_not_active

abbrev pub invalid_reasons : Option String → List Reason
invalid_reasons none = []
invalid_reasons (some exception) = invalid_configuration exception ∷ []

abbrev pub schedule_of : Option Parsed → Option ScheduleConfig
schedule_of (some (valid c)) = some c
schedule_of _ = none

abbrev pub schedule_reasons : Option Parsed → List Reason
schedule_reasons none = no_schedule ∷ []
schedule_reasons (some (invalid exception)) = invalid_schedule exception ∷ no_schedule ∷ []
schedule_reasons (some (valid c)) = reason_if (not c.enabled) schedule_disabled

-- backend/app/schemas/schedule.py: no stored schedule, an invalid one, or a validated one.
unfoldable pub parse_schedule_config : (Json → Parsed) → Option Json → Option Parsed
parse_schedule_config parse none = none
parse_schedule_config parse (some raw) = if truthy raw then some (parse raw) else none

-- `SiteConfiguration.model_validate` and `ScheduleConfig.model_validate` are pydantic's: the first
-- gives the name of the exception it raises, if it raises one.
module _ (validate : Json → Option String) (parse : Json → Parsed) where
  unfoldable pub source_eligibility_reasons : Website → List Reason
  source_eligibility_reasons w =
      reason_if (not (same w.onboarding_status active)) (status_not_active w.onboarding_status)
      ++ (reason_if (not w.is_active) website_not_active
          ++ (reason_if (is_some w.archived_at) website_archived
              ++ (city_reasons w.city
                  ++ (if present w.approved_pattern
                      then invalid_reasons (validate (approved_config_dict w))
                      else no_approved_configuration ∷ []))))

  unfoldable pub evaluate_eligibility : Website → ScheduleEligibility
  unfolding source_eligibility_reasons parse_schedule_config
  evaluate_eligibility w =
      let parsed = parse_schedule_config parse w.schedule_config in
      let reasons = source_eligibility_reasons w ++ schedule_reasons parsed in
      record { eligible = is_empty reasons; reasons = reasons; schedule = schedule_of parsed }

  unfoldable pub evaluate_manual_import_eligibility : Website → ManualImportEligibility
  unfolding source_eligibility_reasons approved_execution_strategy
  evaluate_manual_import_eligibility w =
      let reasons = source_eligibility_reasons w in
      record {
        eligible = is_empty reasons;
        reasons = reasons;
        execution_strategy = approved_execution_strategy w;
      }
