-- ===== src/Tests/Policies.antt =====
-- The policy gate on a source whose pages were read with inferred selectors. Rates are percents.
use web_scraping_event_appli.Prelude.{
  ℕ, ◌*◌, ◌-◌, ◌/◌, String, str_eq, true, false, none, some, [], ◌∷◌, ◌≡◌, ◌↔◌, refl, leb, ltb,
}
use web_scraping_event_appli.Onboarding.{same, can_transition, allowed_transitions}
use web_scraping_event_appli.Policy.{AutoOnboardingPolicy, PolicySnapshot, snapshot_policy}
use web_scraping_event_appli.Lifecycle.{
  approve_configuration, check_pattern as check_draft_pattern, require_current_preview,
}
use web_scraping_event_appli.Execution.{succeeded_in, execute_decision, attempt_approval}
use web_scraping_event_appli.Decision.{
  Library, SiteConfiguration, PreviewQualityResult, FieldCandidate, DecisionContext, given, check,
  measured,
}
use web_scraping_event_appli.Decision.Gates.{
  check_policy_scope, check_pattern, check_detection, check_website_and_city, check_configured,
  check_configuration, is_allowed_origin, are_urls_safe, critical_count,
}
use web_scraping_event_appli.Decision.Preview.{check_previewed, check_preview}
use web_scraping_event_appli.Decision.Generic.{
  is_selector_stable, check_fields, best_date_rate, check_selectors, check_inferred,
  check_generic_html,
}
use web_scraping_event_appli.Decision.Evaluate.{
  is_on, all_rules, concluded, evaluate_under, evaluate, record_decision,
}
use web_scraping_event_appli.Decision.Qualifies.{Qualifies}
use web_scraping_event_appli.Decision.Eligible.{eligible_iff_Qualifies}
use web_scraping_event_appli.Decision.Verdicts.{
  IsCoherent, evaluate-IsCoherent, approved_only_Qualifies,
}
use web_scraping_event_appli.Tests.Samples.{previewed_site, services}
use web_scraping_event_appli.Tests.Moves.{policy_row}

abbrev percents : Library ℕ
percents = record {
  le = leb;
  lt = ltb;
  zero = 0;
  distinct_events = λ n rate. n * (100 - rate) / 100;
  lower = λ s. s;
  strip = λ s. s;
  contains = str_eq;
  is_positional = λ s. false;
  selector_parts = λ s. 1;
  class_tokens = λ s. s ∷ [];
  is_stable_class_token = λ s. true;
  is_public_url = λ url. true;
}

abbrev policy_columns : AutoOnboardingPolicy ℕ
policy_columns = record {
  id = 4;
  name = "default";
  version = 1;
  active = true;
  automatic_configuration_enabled = true;
  automatic_preview_enabled = true;
  automatic_approval_enabled = true;
  automatic_activation_enabled = true;
  allowed_pattern_names = some ("generic_html_cards" ∷ []);
  allow_generic_html_cards = true;
  allow_browser_required = false;
  allow_ai_origin = false;
  allow_administrator_manual_origin = false;
  allow_imported_configuration = false;
  allow_detail_page_enrichment = false;
  minimum_detector_confidence = 75;
  minimum_events_found = 3;
  minimum_valid_events = 3;
  minimum_valid_percentage = 75;
  maximum_rejected_percentage = 10;
  minimum_canonical_url_coverage = 75;
  minimum_start_date_coverage = 75;
  minimum_start_date_parse_success = 75;
  maximum_duplicate_rate = 20;
  maximum_warning_count = 10;
  maximum_critical_warning_count = 0;
  minimum_distinct_events = 3;
  require_absolute_public_urls = true;
  require_zero_critical_warnings = true;
  require_distinct_events = true;
  generic_html_minimum_detector_confidence = 75;
  generic_html_minimum_events_found = 3;
  generic_html_minimum_valid_events = 3;
  generic_html_minimum_valid_percentage = 75;
  generic_html_maximum_rejected_percentage = 10;
  generic_html_minimum_required_field_confidence = 75;
  generic_html_minimum_required_field_coverage = 75;
  generic_html_minimum_date_format_confidence = 75;
  generic_html_minimum_distinct_event_count = 3;
  generic_html_reject_broad_canonical_selector = true;
  generic_html_reject_unstable_required_selectors = true;
  require_date_range_parse_success = false;
  minimum_date_range_parse_success = 75;
  require_geographic_filter = false;
  minimum_geographic_inclusion_rate = 0;
}

abbrev policy : PolicySnapshot ℕ
policy = snapshot_policy policy_columns (3 ∷ []) []

abbrev configuration : SiteConfiguration
configuration = record {
  pattern_name = "generic_html_cards";
  listing_url = some "https://venue.example/events";
  api_endpoint = none;
  fetch_headers = [];
  field_selectors = ("title", ".event-title") ∷ ("canonical_url", ".event-link") ∷ [];
  geographic_filters = none;
}

abbrev quality : PreviewQualityResult ℕ
quality = record {
  candidates_found = 12;
  valid_count = 12;
  valid_percentage = 100;
  rejected_percentage = 0;
  required_field_coverage = ("canonical_url", 100) ∷ ("start_date", 90) ∷ [];
  date_parse_success_rate = 95;
  url_validity_rate = 100;
  duplicate_rate = 0;
  warning_count = 1;
  range_parse_success_rate = 100;
  geographic_inclusion_rate = 100;
}

abbrev candidate : String → FieldCandidate ℕ
candidate name = record {
  field = some name;
  accepted = true;
  confidence = given 90;
  coverage = given 100;
}

abbrev context : DecisionContext ℕ
context = record {
  policy = some policy;
  website_is_archived = false;
  city_id = some 3;
  city_is_active = true;
  detected_pattern = some "generic_html_cards";
  detector_confidence = 85;
  detection_status = some "success";
  browser_required = false;
  blocked = false;
  registered_patterns = "generic_html_cards" ∷ "json_ld_events" ∷ [];
  configuration = some configuration;
  configuration_origin = some "deterministic_generic_html";
  configuration_version = some 2;
  preview_run_id = some 11;
  preview_status = some "success";
  preview_configuration_version = some 2;
  quality = some quality;
  warnings = "one image was not found" ∷ [];
  events_persisted_during_preview = 0;
  missing_required_fields = [];
  field_candidates =
      candidate "title" ∷ candidate "canonical_url" ∷ candidate "start_datetime" ∷ [];
  date_format_candidates = record { accepted = true; match_rate = some 95 } ∷ [];
  detail_enrichment_used = false;
  submitter_role_ids = 2 ∷ [];
}

eligible_iff_Qualifies_example :
    ((evaluate percents context).eligible_for_automatic_approval ≡ true)
    ↔ ((p : PolicySnapshot ℕ) × (context.policy ≡ some p) × Qualifies percents context p)
eligible_iff_Qualifies_example = eligible_iff_Qualifies percents context

evaluate-IsCoherent_example : IsCoherent (evaluate percents context)
evaluate-IsCoherent_example = evaluate-IsCoherent percents context

approved :
    succeeded_in
      (execute_decision services policy_row
        (λ s. s)
        (record_decision (evaluate percents context))
        previewed_site
        20).1.approval
    ≡ true
unfolding execute_decision attempt_approval approve_configuration same check_draft_pattern
    require_current_preview can_transition allowed_transitions record_decision evaluate
    evaluate_under is_on concluded all_rules check measured snapshot_policy check_policy_scope
    check_pattern check_detection check_website_and_city check_configured check_configuration
    is_allowed_origin are_urls_safe critical_count check_previewed check_preview is_selector_stable
    check_fields best_date_rate check_selectors check_inferred check_generic_html
approved = refl

approved_only_Qualifies_example :
    (p : PolicySnapshot ℕ) × (context.policy ≡ some p) × Qualifies percents context p
approved_only_Qualifies_example =
    approved_only_Qualifies percents context services policy_row (λ s. s) previewed_site 20 approved
