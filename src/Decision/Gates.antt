-- ===== src/Decision/Gates.antt =====
-- The groups of rules of AutoOnboardingDecisionService, `_check_policy_scope` to
-- `_check_generic_html`.
use web_scraping_event_appli.Prelude.{
  ℕ, String, str_eq, Bool, true, false, not, ◌&&◌, ◌||◌, Option, none, some, List, [], ◌∷◌,
  if◌then◌else◌, is_empty, any, select, length, ◌==◌,
}
use web_scraping_event_appli.Json.{is_some}
use web_scraping_event_appli.Policy.{PolicySnapshot}
use web_scraping_event_appli.Decision
use web_scraping_event_appli.Decision.{Library, SiteConfiguration, PreviewQualityResult}
use web_scraping_event_appli.Decision.{DecisionContext, FieldCandidate, DateFormatCandidate}
use web_scraping_event_appli.Decision.{Entry, missing, null, given, Rule, Rules, get_key}
use web_scraping_event_appli.Decision.{check, at_least, at_most, rate_at_least, rate_at_most}
use web_scraping_event_appli.Decision.{when, ◌▷◌}

abbrev pub generic_html_pattern : String
generic_html_pattern = "generic_html_cards"

abbrev pub required_selector_fields : List String
required_selector_fields = "title" ∷ "canonical_url" ∷ "start_datetime" ∷ []

abbrev pub critical_warning_markers : List String
critical_warning_markers =
    "ssrf_blocked" ∷ "blocked" ∷ "detail_page_fetch_failed" ∷ "unexpected_content_type"
    ∷ "too_many_redirects" ∷ "failed:" ∷ []

abbrev pub broad_anchor_selectors : List String
broad_anchor_selectors = "a" ∷ "a[href]" ∷ "*" ∷ []

abbrev pub one_of : String → List String → Bool
one_of s = any (str_eq s)

-- `name == text`, where the name may be None.
abbrev pub is_text : String → Option String → Bool
is_text s none = false
is_text s (some n) = str_eq n s

-- `bool(name) and name in names`.
abbrev pub named_in : Option String → List String → Bool
named_in none names = false
named_in (some n) names = not (str_eq n "") && one_of n names

abbrev pub is_generic : {F : Type 0} → DecisionContext F → Bool
is_generic c = is_text generic_html_pattern c.detected_pattern

abbrev pub has_id : Option ℕ → List ℕ → Bool
has_id none ids = false
has_id (some i) ids = any (λ j. i == j) ids

unfoldable pub check_policy_scope :
    {F : Type 0} → DecisionContext F → PolicySnapshot F → Rules F → Rules F
check_policy_scope c p rs =
    rs
    ▷ when (not (is_empty p.city_ids)) (check (has_id c.city_id p.city_ids) Decision.city_in_scope)
    ▷ when (not (is_empty p.role_ids))
        (check (any (λ r. has_id (some r) p.role_ids) c.submitter_role_ids) Decision.role_permitted)

unfoldable pub check_pattern :
    {F : Type 0} → DecisionContext F → PolicySnapshot F → Rules F → Rules F
check_pattern c p rs =
    rs
    ▷ check (named_in c.detected_pattern c.registered_patterns) Decision.pattern_registered
    ▷ check (named_in c.detected_pattern p.allowed_pattern_names) Decision.pattern_allowed
    ▷ when (is_generic c) (check p.allow_generic_html_cards Decision.generic_html_allowed)
    ▷ when c.browser_required (check p.allow_browser_required Decision.browser_allowed)

unfoldable pub check_detection :
    {F : Type 0} → Library F → DecisionContext F → PolicySnapshot F → Rules F → Rules F
check_detection l c p rs =
    let threshold =
      if is_generic c
      then p.generic_html_minimum_detector_confidence
      else p.minimum_detector_confidence in
    rs
    ▷ rate_at_least l "detector_confidence" (some c.detector_confidence) threshold
    ▷ check (not c.blocked) Decision.not_blocked
    ▷ check (not (is_text "unsupported" c.detection_status)) Decision.supported

unfoldable pub check_website_and_city : {F : Type 0} → DecisionContext F → Rules F → Rules F
check_website_and_city c rs =
    rs
    ▷ check (not c.website_is_archived) Decision.not_archived
    ▷ check (is_some c.city_id) Decision.has_city
    ▷ check c.city_is_active Decision.city_active

unfoldable pub is_allowed_origin : {F : Type 0} → Option String → PolicySnapshot F → Bool
is_allowed_origin none p = false
is_allowed_origin (some origin) p =
    if one_of origin ("deterministic_structured" ∷ "deterministic_generic_html" ∷ [])
    then true
    else if str_eq origin "administrator_manual"
    then p.allow_administrator_manual_origin
    else if str_eq origin "ai_suggested"
    then p.allow_ai_origin
    else if str_eq origin "imported_configuration"
    then p.allow_imported_configuration
    else false

abbrev pub given_url : Option String → Bool
given_url none = false
given_url (some url) = not (str_eq url "")

abbrev pub safe_if_given : {F : Type 0} → Library F → Option String → Bool
safe_if_given l none = true
safe_if_given l (some url) = str_eq url "" || l.is_public_url url

unfoldable pub are_urls_safe : {F : Type 0} → Library F → SiteConfiguration → Bool
are_urls_safe l config =
    safe_if_given l config.listing_url
    && safe_if_given l config.api_endpoint
    && (given_url config.listing_url || given_url config.api_endpoint)

unfoldable pub check_configured :
    {F : Type 0}
    → Library F
    → DecisionContext F
    → PolicySnapshot F
    → SiteConfiguration
    → Rules F
    → Rules F
check_configured l c p config rs =
    rs
    ▷ check (is_text config.pattern_name c.detected_pattern) Decision.pattern_matches
    ▷ check (is_allowed_origin c.configuration_origin p) Decision.origin_allowed
    ▷ check (is_empty c.missing_required_fields) Decision.fields_present
    ▷ when p.require_absolute_public_urls (check (are_urls_safe l config) Decision.urls_safe)
    ▷ check (is_empty config.fetch_headers) Decision.no_custom_headers
    ▷ when c.detail_enrichment_used
        (check p.allow_detail_page_enrichment Decision.detail_enrichment_allowed)

abbrev pub check_draft :
    {F : Type 0}
    → Library F
    → DecisionContext F
    → PolicySnapshot F
    → Option SiteConfiguration
    → Rules F
    → Rules F
check_draft l c p none rs = check false Decision.has_configuration rs
check_draft l c p (some config) rs = check_configured l c p config rs

unfoldable pub check_configuration :
    {F : Type 0} → Library F → DecisionContext F → PolicySnapshot F → Rules F → Rules F
check_configuration l c p rs = check_draft l c p c.configuration rs

abbrev pub is_acceptable : Option String → Bool
is_acceptable none = false
is_acceptable (some status) = one_of status ("success" ∷ "partial" ∷ [])

abbrev pub coverage_of : {F : Type 0} → Library F → String → List (String × F) → F
coverage_of l name coverage = elim (get_key name coverage) [ none ↦ l.zero | some rate ↦ rate ]

unfoldable pub has_geographic_filter : Option SiteConfiguration → Bool
has_geographic_filter none = false
has_geographic_filter (some config) = elim config.geographic_filters [
  | none ↦ false
  | some has_any_rule ↦ has_any_rule
]

unfoldable pub critical_count : {F : Type 0} → Library F → List String → ℕ
critical_count l warnings =
    length (
      select (λ w. any (λ marker. l.contains marker (l.lower w)) critical_warning_markers) warnings)

-- The general bar, or the higher one of a configuration inferred from markup.
abbrev pub bar : {F A : Type 0} → DecisionContext F → (generic general : A) → A
bar c generic general = if is_generic c then generic else general
