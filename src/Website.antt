-- ===== src/Website.antt =====
-- backend/app/models/website.py and models/city.py: the columns that the modelled code reads.
use web_scraping_event_appli.Prelude.{ℕ, String, Bool, Option}
use web_scraping_event_appli.Json.{Json}
use web_scraping_event_appli.Onboarding.{Status}

pub record City : Type 0 where
  pub id : ℕ
  pub is_active : Bool

-- A time is a number of microseconds since the epoch, in UTC.
pub record Website : Type 0 where
  pub id : ℕ
  pub city_id : Option ℕ
  pub city : Option City
  pub base_url : String
  pub event_listing_url : Option String
  pub is_active : Bool
  pub onboarding_status : Status
  pub proposed_pattern : Option Json
  pub approved_pattern : Option Json
  pub configuration : Option Json
  pub configuration_origin : Option String
  pub schedule_config : Option Json
  pub approved_at : Option ℕ
  pub approved_by_user_id : Option ℕ
  pub configuration_version : ℕ
  pub active_configuration_version : Option ℕ
  pub last_success_at : Option ℕ
  pub last_failure_at : Option ℕ
  pub consecutive_failure_count : ℕ
  pub archived_at : Option ℕ
