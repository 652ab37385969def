-- ===== src/Decision/Preview.antt =====
-- `_check_preview`: what the last preview run must have shown.
use web_scraping_event_appli.Prelude.{
  Bool, true, false, Option, none, some, if◌then◌else◌, ltb, ◌==◌,
}
use web_scraping_event_appli.Json.{is_some}
use web_scraping_event_appli.Policy.{PolicySnapshot}
use web_scraping_event_appli.Execution.{same_option}
use web_scraping_event_appli.Decision
use web_scraping_event_appli.Decision.{
  Library, PreviewQualityResult, DecisionContext, Rules, check, at_least, at_most, rate_at_least,
  rate_at_most, when, ◌▷◌,
}
use web_scraping_event_appli.Decision.Gates.{
  bar, is_acceptable, coverage_of, has_geographic_filter, critical_count,
}

unfoldable pub check_previewed :
    {F : Type 0}
    → Library F
    → DecisionContext F
    → PolicySnapshot F
    → PreviewQualityResult F
    → Rules F
    → Rules F
check_previewed l c p q rs =
    rs
    ▷ check (is_acceptable c.preview_status) Decision.preview_acceptable
    ▷ check (same_option c.preview_configuration_version c.configuration_version)
        Decision.preview_current
    ▷ check (c.events_persisted_during_preview == 0) Decision.nothing_persisted
    ▷ at_least "events_found" q.candidates_found
        (bar c p.generic_html_minimum_events_found p.minimum_events_found)
    ▷ at_least "valid_events" q.valid_count
        (bar c p.generic_html_minimum_valid_events p.minimum_valid_events)
    ▷ rate_at_least l "valid_percentage" (some q.valid_percentage)
        (bar c p.generic_html_minimum_valid_percentage p.minimum_valid_percentage)
    ▷ rate_at_most l "rejected_percentage" (some q.rejected_percentage)
        (bar c p.generic_html_maximum_rejected_percentage p.maximum_rejected_percentage)
    ▷ check (ltb 0 q.valid_count) Decision.some_valid_event
    ▷ rate_at_least l "canonical_url_coverage"
        (some (coverage_of l "canonical_url" q.required_field_coverage))
        p.minimum_canonical_url_coverage
    ▷ rate_at_least l "start_date_coverage"
        (some (coverage_of l "start_date" q.required_field_coverage)) p.minimum_start_date_coverage
    ▷ rate_at_least l "start_date_parse_success" (some q.date_parse_success_rate)
        p.minimum_start_date_parse_success
    ▷ rate_at_least l "url_validity" (some q.url_validity_rate) p.minimum_canonical_url_coverage
    ▷ rate_at_most l "duplicate_rate" (some q.duplicate_rate) p.maximum_duplicate_rate
    ▷ at_most "warning_count" q.warning_count p.maximum_warning_count
    ▷ when p.require_date_range_parse_success (
        rate_at_least l "date_range_parse_success" (some q.range_parse_success_rate)
          p.minimum_date_range_parse_success)
    ▷ when p.require_geographic_filter
        (check (has_geographic_filter c.configuration) Decision.geographic_filter_configured)
    ▷ when (l.lt l.zero p.minimum_geographic_inclusion_rate) (
        rate_at_least l "geographic_inclusion_rate" (some q.geographic_inclusion_rate)
          p.minimum_geographic_inclusion_rate)
    ▷ at_most "critical_warning_count" (critical_count l c.warnings)
        (if p.require_zero_critical_warnings then 0 else p.maximum_critical_warning_count)
    ▷ when p.require_distinct_events (
        at_least "distinct_events" (l.distinct_events q.valid_count q.duplicate_rate)
          (bar c p.generic_html_minimum_distinct_event_count p.minimum_distinct_events))

abbrev pub check_quality :
    {F : Type 0}
    → Library F
    → DecisionContext F
    → PolicySnapshot F
    → (quality : Option (PreviewQualityResult F)) → (has_run : Bool) → Rules F
    → Rules F
check_quality l c p (some q) true rs = check_previewed l c p q rs
check_quality l c p (some q) false rs = check false Decision.preview_available rs
check_quality l c p none has_run rs = check false Decision.preview_available rs

unfoldable pub check_preview :
    {F : Type 0} → Library F → DecisionContext F → PolicySnapshot F → Rules F → Rules F
check_preview l c p rs = check_quality l c p c.quality (is_some c.preview_run_id) rs
