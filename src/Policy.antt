-- ===== src/Policy.antt =====
-- backend/app/models/auto_onboarding_policy.py, and the snapshot of a policy that
-- backend/app/services/auto_onboarding_decision.py takes. F is the type of the floats.
use web_scraping_event_appli.Prelude.{ℕ, String, Bool, Option, none, some, List, []}

-- The columns that the snapshot reads.
pub record AutoOnboardingPolicy (F : Type 0) : Type 0 where
  pub id : ℕ
  pub name : String
  pub version : ℕ
  pub active : Bool
  pub automatic_configuration_enabled : Bool
  pub automatic_preview_enabled : Bool
  pub automatic_approval_enabled : Bool
  pub automatic_activation_enabled : Bool
  pub allowed_pattern_names : Option (List String)
  pub allow_generic_html_cards : Bool
  pub allow_browser_required : Bool
  pub allow_ai_origin : Bool
  pub allow_administrator_manual_origin : Bool
  pub allow_imported_configuration : Bool
  pub allow_detail_page_enrichment : Bool
  pub minimum_detector_confidence : F
  pub minimum_events_found : ℕ
  pub minimum_valid_events : ℕ
  pub minimum_valid_percentage : F
  pub maximum_rejected_percentage : F
  pub minimum_canonical_url_coverage : F
  pub minimum_start_date_coverage : F
  pub minimum_start_date_parse_success : F
  pub maximum_duplicate_rate : F
  pub maximum_warning_count : ℕ
  pub maximum_critical_warning_count : ℕ
  pub minimum_distinct_events : ℕ
  pub require_absolute_public_urls : Bool
  pub require_zero_critical_warnings : Bool
  pub require_distinct_events : Bool
  pub generic_html_minimum_detector_confidence : F
  pub generic_html_minimum_events_found : ℕ
  pub generic_html_minimum_valid_events : ℕ
  pub generic_html_minimum_valid_percentage : F
  pub generic_html_maximum_rejected_percentage : F
  pub generic_html_minimum_required_field_confidence : F
  pub generic_html_minimum_required_field_coverage : F
  pub generic_html_minimum_date_format_confidence : F
  pub generic_html_minimum_distinct_event_count : ℕ
  pub generic_html_reject_broad_canonical_selector : Bool
  pub generic_html_reject_unstable_required_selectors : Bool
  pub require_date_range_parse_success : Bool
  pub minimum_date_range_parse_success : F
  pub require_geographic_filter : Bool
  pub minimum_geographic_inclusion_rate : F

pub record PolicySnapshot (F : Type 0) : Type 0 where
  pub policy_id : ℕ
  pub name : String
  pub version : ℕ
  pub active : Bool
  pub automatic_configuration_enabled : Bool
  pub automatic_preview_enabled : Bool
  pub automatic_approval_enabled : Bool
  pub automatic_activation_enabled : Bool
  pub allowed_pattern_names : List String
  pub allow_generic_html_cards : Bool
  pub allow_browser_required : Bool
  pub allow_ai_origin : Bool
  pub allow_administrator_manual_origin : Bool
  pub allow_imported_configuration : Bool
  pub allow_detail_page_enrichment : Bool
  pub minimum_detector_confidence : F
  pub minimum_events_found : ℕ
  pub minimum_valid_events : ℕ
  pub minimum_valid_percentage : F
  pub maximum_rejected_percentage : F
  pub minimum_canonical_url_coverage : F
  pub minimum_start_date_coverage : F
  pub minimum_start_date_parse_success : F
  pub maximum_duplicate_rate : F
  pub maximum_warning_count : ℕ
  pub maximum_critical_warning_count : ℕ
  pub minimum_distinct_events : ℕ
  pub require_absolute_public_urls : Bool
  pub require_zero_critical_warnings : Bool
  pub require_distinct_events : Bool
  pub generic_html_minimum_detector_confidence : F
  pub generic_html_minimum_events_found : ℕ
  pub generic_html_minimum_valid_events : ℕ
  pub generic_html_minimum_valid_percentage : F
  pub generic_html_maximum_rejected_percentage : F
  pub generic_html_minimum_required_field_confidence : F
  pub generic_html_minimum_required_field_coverage : F
  pub generic_html_minimum_date_format_confidence : F
  pub generic_html_minimum_distinct_event_count : ℕ
  pub generic_html_reject_broad_canonical_selector : Bool
  pub generic_html_reject_unstable_required_selectors : Bool
  pub city_ids : List ℕ
  pub role_ids : List ℕ
  pub require_date_range_parse_success : Bool
  pub minimum_date_range_parse_success : F
  pub require_geographic_filter : Bool
  pub minimum_geographic_inclusion_rate : F

abbrev pub names_of : Option (List String) → List String
names_of none = []
names_of (some names) = names

unfoldable pub snapshot_policy :
    {F : Type 0} → AutoOnboardingPolicy F → (city_ids role_ids : List ℕ) → PolicySnapshot F
snapshot_policy policy city_ids role_ids = record {
  policy_id = policy.id;
  name = policy.name;
  version = policy.version;
  active = policy.active;
  automatic_configuration_enabled = policy.automatic_configuration_enabled;
  automatic_preview_enabled = policy.automatic_preview_enabled;
  automatic_approval_enabled = policy.automatic_approval_enabled;
  automatic_activation_enabled = policy.automatic_activation_enabled;
  allowed_pattern_names = names_of policy.allowed_pattern_names;
  allow_generic_html_cards = policy.allow_generic_html_cards;
  allow_browser_required = policy.allow_browser_required;
  allow_ai_origin = policy.allow_ai_origin;
  allow_administrator_manual_origin = policy.allow_administrator_manual_origin;
  allow_imported_configuration = policy.allow_imported_configuration;
  allow_detail_page_enrichment = policy.allow_detail_page_enrichment;
  minimum_detector_confidence = policy.minimum_detector_confidence;
  minimum_events_found = policy.minimum_events_found;
  minimum_valid_events = policy.minimum_valid_events;
  minimum_valid_percentage = policy.minimum_valid_percentage;
  maximum_rejected_percentage = policy.maximum_rejected_percentage;
  minimum_canonical_url_coverage = policy.minimum_canonical_url_coverage;
  minimum_start_date_coverage = policy.minimum_start_date_coverage;
  minimum_start_date_parse_success = policy.minimum_start_date_parse_success;
  maximum_duplicate_rate = policy.maximum_duplicate_rate;
  maximum_warning_count = policy.maximum_warning_count;
  maximum_critical_warning_count = policy.maximum_critical_warning_count;
  minimum_distinct_events = policy.minimum_distinct_events;
  require_absolute_public_urls = policy.require_absolute_public_urls;
  require_zero_critical_warnings = policy.require_zero_critical_warnings;
  require_distinct_events = policy.require_distinct_events;
  generic_html_minimum_detector_confidence = policy.generic_html_minimum_detector_confidence;
  generic_html_minimum_events_found = policy.generic_html_minimum_events_found;
  generic_html_minimum_valid_events = policy.generic_html_minimum_valid_events;
  generic_html_minimum_valid_percentage = policy.generic_html_minimum_valid_percentage;
  generic_html_maximum_rejected_percentage = policy.generic_html_maximum_rejected_percentage;
  generic_html_minimum_required_field_confidence =
      policy.generic_html_minimum_required_field_confidence;
  generic_html_minimum_required_field_coverage =
      policy.generic_html_minimum_required_field_coverage;
  generic_html_minimum_date_format_confidence = policy.generic_html_minimum_date_format_confidence;
  generic_html_minimum_distinct_event_count = policy.generic_html_minimum_distinct_event_count;
  generic_html_reject_broad_canonical_selector =
      policy.generic_html_reject_broad_canonical_selector;
  generic_html_reject_unstable_required_selectors =
      policy.generic_html_reject_unstable_required_selectors;
  city_ids = city_ids;
  role_ids = role_ids;
  require_date_range_parse_success = policy.require_date_range_parse_success;
  minimum_date_range_parse_success = policy.minimum_date_range_parse_success;
  require_geographic_filter = policy.require_geographic_filter;
  minimum_geographic_inclusion_rate = policy.minimum_geographic_inclusion_rate;
}
