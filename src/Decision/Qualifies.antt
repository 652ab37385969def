-- ===== src/Decision/Qualifies.antt =====
-- What a source must satisfy to be approved without a human, stated apart from the bookkeeping.
use web_scraping_event_appli.Prelude.{
  ◌≤◌, ◌<◌, String, Bool, true, not, Option, none, some, is_empty, any, ◌≡◌, if◌then◌else◌, List,
  [], ◌∷◌,
}
use web_scraping_event_appli.Json.{is_some}
use web_scraping_event_appli.Policy.{PolicySnapshot}
use web_scraping_event_appli.Execution.{same_option}
use web_scraping_event_appli.Decision.{
  Library, SiteConfiguration, PreviewQualityResult, DecisionContext, FieldCandidate, holds_for,
  get_key,
}
use web_scraping_event_appli.Decision.Asks.{◌and◌}
use web_scraping_event_appli.Decision.Gates.{
  is_generic, has_id, named_in, is_text, is_allowed_origin, are_urls_safe, is_acceptable,
  coverage_of, has_geographic_filter, critical_count, bar, required_selector_fields, one_of,
  broad_anchor_selectors,
}
use web_scraping_event_appli.Decision.Generic.{
  is_selector_stable, get_rate, candidate_of, best_date_rate,
}

abbrev pub Holds : Bool → Type 0
Holds b = b ≡ true

module _ {F : Type 0} (l : Library F) (c : DecisionContext F) (p : PolicySnapshot F) where
  -- An empty scope is every city, and every role.
  abbrev pub InScope : Type 0
  InScope =
      (Holds (not (is_empty p.city_ids)) → Holds (has_id c.city_id p.city_ids))
      and (Holds (not (is_empty p.role_ids))
          → Holds (any (λ r. has_id (some r) p.role_ids) c.submitter_role_ids))

  abbrev pub PatternAllowed : Type 0
  PatternAllowed =
      Holds (named_in c.detected_pattern c.registered_patterns)
      and Holds (named_in c.detected_pattern p.allowed_pattern_names)
      and (Holds (is_generic c) → Holds p.allow_generic_html_cards)
      and (Holds c.browser_required → Holds p.allow_browser_required)

  abbrev pub Detected : Type 0
  Detected =
      Holds (
        l.le (bar c p.generic_html_minimum_detector_confidence p.minimum_detector_confidence)
          c.detector_confidence)
      and Holds (not c.blocked)
      and Holds (not (is_text "unsupported" c.detection_status))

  abbrev pub Placed : Type 0
  Placed =
      Holds (not c.website_is_archived) and Holds (is_some c.city_id) and Holds c.city_is_active

  abbrev pub Configured : SiteConfiguration → Type 0
  Configured config =
      Holds (is_text config.pattern_name c.detected_pattern)
      and Holds (is_allowed_origin c.configuration_origin p)
      and Holds (is_empty c.missing_required_fields)
      and (Holds p.require_absolute_public_urls → Holds (are_urls_safe l config))
      and Holds (is_empty config.fetch_headers)
      and (Holds c.detail_enrichment_used → Holds p.allow_detail_page_enrichment)

  -- In the order of the code: the preview's status and version, the counts and the rates, then
  -- what the policy adds.
  abbrev pub Previewed : PreviewQualityResult F → Type 0
  Previewed q =
      Holds (is_acceptable c.preview_status)
      and Holds (same_option c.preview_configuration_version c.configuration_version)
      and (c.events_persisted_during_preview ≡ 0)
      and (bar c p.generic_html_minimum_events_found p.minimum_events_found ≤ q.candidates_found)
      and (bar c p.generic_html_minimum_valid_events p.minimum_valid_events ≤ q.valid_count)
      and Holds (
          l.le (bar c p.generic_html_minimum_valid_percentage p.minimum_valid_percentage)
            q.valid_percentage)
      and Holds (
          l.le q.rejected_percentage
            (bar c p.generic_html_maximum_rejected_percentage p.maximum_rejected_percentage))
      and (0 < q.valid_count)
      and Holds (
          l.le p.minimum_canonical_url_coverage
            (coverage_of l "canonical_url" q.required_field_coverage))
      and Holds (
          l.le p.minimum_start_date_coverage (coverage_of l "start_date" q.required_field_coverage))
      and Holds (l.le p.minimum_start_date_parse_success q.date_parse_success_rate)
      and Holds (l.le p.minimum_canonical_url_coverage q.url_validity_rate)
      and Holds (l.le q.duplicate_rate p.maximum_duplicate_rate)
      and (q.warning_count ≤ p.maximum_warning_count)
      and (Holds p.require_date_range_parse_success
          → Holds (l.le p.minimum_date_range_parse_success q.range_parse_success_rate))
      and (Holds p.require_geographic_filter → Holds (has_geographic_filter c.configuration))
      and (Holds (l.lt l.zero p.minimum_geographic_inclusion_rate)
          → Holds (l.le p.minimum_geographic_inclusion_rate q.geographic_inclusion_rate))
      and (critical_count l c.warnings
          ≤ (if p.require_zero_critical_warnings then 0 else p.maximum_critical_warning_count))
      and (Holds p.require_distinct_events
          → bar c p.generic_html_minimum_distinct_event_count p.minimum_distinct_events
            ≤ l.distinct_events q.valid_count q.duplicate_rate)

  -- A required field that is judged was proposed with enough confidence and coverage.
  abbrev pub Proposed : Option (FieldCandidate F) → Type 0
  Proposed none = Unit
  Proposed (some candidate) =
      Holds (
        holds_for (λ v. l.le p.generic_html_minimum_required_field_confidence v)
          (get_rate l candidate.confidence))
      and Holds (
          holds_for (λ v. l.le p.generic_html_minimum_required_field_coverage v)
            (get_rate l candidate.coverage))

  abbrev pub AllProposed : SiteConfiguration → List String → Type 0
  AllProposed config [] = Unit
  AllProposed config (name ∷ names) =
      Proposed (candidate_of c config name) and AllProposed config names

  abbrev pub Specific : Option String → Type 0
  Specific none = Unit
  Specific (some selector) = Holds (not (one_of (l.strip selector) broad_anchor_selectors))

  abbrev pub Stable : Option String → Type 0
  Stable none = Unit
  Stable (some selector) = Holds (is_selector_stable l selector)

  abbrev pub AllStable : SiteConfiguration → List String → Type 0
  AllStable config [] = Unit
  AllStable config (name ∷ names) =
      Stable (get_key name config.field_selectors) and AllStable config names

  abbrev pub Inferred : SiteConfiguration → Type 0
  Inferred config =
      AllProposed config required_selector_fields
      and Holds (
          l.le p.generic_html_minimum_date_format_confidence
            (best_date_rate l c.date_format_candidates))
      and (Holds p.generic_html_reject_broad_canonical_selector
          → Specific (get_key "canonical_url" config.field_selectors))
      and (Holds p.generic_html_reject_unstable_required_selectors
          → AllStable config required_selector_fields)

  -- There is a configuration, and there is a preview of it.
  pub record Qualifies : Type 0 where
    pub on : Holds p.active
    pub configuring : Holds p.automatic_configuration_enabled
    pub previewing : Holds p.automatic_preview_enabled
    pub approving : Holds p.automatic_approval_enabled
    pub in_scope : InScope
    pub pattern_allowed : PatternAllowed
    pub detected : Detected
    pub placed : Placed
    pub configured : (config : _) × (c.configuration ≡ some config) × Configured config
    pub previewed : (q : _) × (c.quality ≡ some q) × Holds (is_some c.preview_run_id) × Previewed q
    pub inferred :
        Holds (is_generic c)
        → (config : SiteConfiguration) → c.configuration ≡ some config
        → Inferred config
