-- ===== src/Decision.antt =====
-- backend/app/services/auto_onboarding_decision.py: whether a source may be approved without a
-- human. The texts of the reasons are not modelled: a rule names its passed and its failed text.
pub mod Asks
pub mod Gates
pub mod Qualifies
pub mod Qualified
pub mod Eligible
pub mod Verdicts
pub mod Preview
pub mod Generic
pub mod Evaluate
use web_scraping_event_appli.Prelude.{
  ℕ, String, str_eq, Bool, true, false, Option, none, some, List, [], ◌∷◌, ◌++◌, if◌then◌else◌,
  is_empty, any, leb, ◌==◌,
}
use web_scraping_event_appli.Policy.{PolicySnapshot}

-- What the gate calls outside these modules: the floats, `re`, `str`, and the URL check.
pub record Library (F : Type 0) : Type 0 where
  pub le : F → F → Bool
  pub lt : F → F → Bool
  pub zero : F
  -- `round(valid_count * (1.0 - duplicate_rate))`.
  pub distinct_events : ℕ → F → ℕ
  pub lower : String → String
  pub strip : String → String
  pub contains : String → String → Bool
  -- `_POSITIONAL_SELECTOR_RE.search`, `selector_parts`, `re.findall` of the class tokens.
  pub is_positional : String → Bool
  pub selector_parts : String → ℕ
  pub class_tokens : String → List String
  pub is_stable_class_token : String → Bool
  -- `validate_public_url` does not raise.
  pub is_public_url : String → Bool

-- schemas/extraction.py, the fields of SiteConfiguration that the gate reads.
pub record SiteConfiguration : Type 0 where
  pub pattern_name : String
  pub listing_url : Option String
  pub api_endpoint : Option String
  pub fetch_headers : List (String × String)
  -- The selector of each field.
  pub field_selectors : List (String × String)
  -- Whether the filter has any rule, if there is a filter.
  pub geographic_filters : Option Bool

-- extraction/inference/types.py, the fields that the gate reads.
pub record PreviewQualityResult (F : Type 0) : Type 0 where
  pub candidates_found : ℕ
  pub valid_count : ℕ
  pub valid_percentage : F
  pub rejected_percentage : F
  pub required_field_coverage : List (String × F)
  pub date_parse_success_rate : F
  pub url_validity_rate : F
  pub duplicate_rate : F
  pub warning_count : ℕ
  pub range_parse_success_rate : F
  pub geographic_inclusion_rate : F

-- A value of a candidate's dictionary: no such key, None, or a float.
pub data Entry (F : Type 0) : Type 0 where
  missing null : Entry F
  given : F → Entry F

pub record FieldCandidate (F : Type 0) : Type 0 where
  pub field : Option String
  pub accepted : Bool
  pub confidence : Entry F
  pub coverage : Entry F

pub record DateFormatCandidate (F : Type 0) : Type 0 where
  pub accepted : Bool
  pub match_rate : Option F

-- The fields that the evaluation reads.
pub record DecisionContext (F : Type 0) : Type 0 where
  pub policy : Option (PolicySnapshot F)
  pub website_is_archived : Bool
  pub city_id : Option ℕ
  pub city_is_active : Bool
  pub detected_pattern : Option String
  pub detector_confidence : F
  pub detection_status : Option String
  pub browser_required : Bool
  pub blocked : Bool
  pub registered_patterns : List String
  pub configuration : Option SiteConfiguration
  pub configuration_origin : Option String
  pub configuration_version : Option ℕ
  pub preview_run_id : Option ℕ
  pub preview_status : Option String
  pub preview_configuration_version : Option ℕ
  pub quality : Option (PreviewQualityResult F)
  pub warnings : List String
  pub events_persisted_during_preview : ℕ
  pub missing_required_fields : List String
  pub field_candidates : List (FieldCandidate F)
  pub date_format_candidates : List (DateFormatCandidate F)
  pub detail_enrichment_used : Bool
  pub submitter_role_ids : List ℕ

pub data Bound : Type 0 where
  minimum maximum : Bound

pub data Rule : Type 0 where
  city_in_scope role_permitted : Rule
  pattern_registered pattern_allowed generic_html_allowed browser_allowed : Rule
  not_blocked supported not_archived has_city city_active : Rule
  has_configuration pattern_matches origin_allowed fields_present urls_safe : Rule
  no_custom_headers detail_enrichment_allowed : Rule
  preview_available preview_acceptable preview_current nothing_persisted : Rule
  some_valid_event geographic_filter_configured specific_canonical_selector : Rule
  stable_selector : String → Rule
  bound : Bound → String → Rule
  approval_enabled activation_disabled policy_applies policy_switched_on : Rule

-- An entry of the snapshots: an integer, or a float that may be None.
pub data Value (F : Type 0) : Type 0 where
  int : ℕ → Value F
  float : Option F → Value F

-- `_Rules`. A threshold's key is the bound's name and the metric's.
pub record Rules (F : Type 0) : Type 0 where
  pub passed : List Rule
  pub failed : List Rule
  pub metrics : List (String × Value F)
  pub thresholds : List ((Bound × String) × Value F)

abbrev pub no_rules : {F : Type 0} → Rules F
no_rules = record { passed = []; failed = []; metrics = []; thresholds = [] }

abbrev pub get_key : {A : Type 0} → String → List (String × A) → Option A
get_key k [] = none
get_key k ((j, v) ∷ kvs) = let rest = get_key k kvs in if str_eq j k then some v else rest

-- `d[k] = v`: a key that is there keeps its place.
abbrev pub set_key : {K A : Type 0} → (K → K → Bool) → K → A → List (K × A) → List (K × A)
set_key eq k v [] = (k, v) ∷ []
set_key eq k v ((j, u) ∷ kvs) =
    let rest = set_key eq k v kvs in if eq j k then (k, v) ∷ kvs else (j, u) ∷ rest

abbrev pub same_bound : Bound × String → Bound × String → Bool
same_bound (minimum, a) (minimum, b) = str_eq a b
same_bound (maximum, a) (maximum, b) = str_eq a b
same_bound _ _ = false

unfoldable pub check : {F : Type 0} → Bool → Rule → Rules F → Rules F
check ok rule rs =
    if ok
    then record rs { passed = rs.passed ++ rule ∷ [] }
    else record rs { failed = rs.failed ++ rule ∷ [] }

-- What `at_least` and `at_most` share: the snapshot of the metric, then the rule.
unfoldable pub measured :
    {F : Type 0} → Bound → String → (value threshold : Value F) → Bool → Rules F → Rules F
unfolding check
measured b name value threshold ok rs = check ok (bound b name) (record rs {
  metrics = set_key str_eq name value rs.metrics;
  thresholds = set_key same_bound (b, name) threshold rs.thresholds;
})

abbrev pub at_least : {F : Type 0} → String → (value threshold : ℕ) → Rules F → Rules F
at_least name value threshold =
    measured minimum name (int value) (int threshold) (leb threshold value)

abbrev pub at_most : {F : Type 0} → String → (value threshold : ℕ) → Rules F → Rules F
at_most name value threshold =
    measured maximum name (int value) (int threshold) (leb value threshold)

abbrev pub holds_for : {F : Type 0} → (F → Bool) → Option F → Bool
holds_for test none = false
holds_for test (some v) = test v

abbrev pub rate_at_least :
    {F : Type 0} → Library F → String → (value : Option F) → (threshold : F) → Rules F → Rules F
rate_at_least l name value threshold =
    measured minimum name (float value) (float (some threshold))
      (holds_for (λ v. l.le threshold v) value)

abbrev pub rate_at_most :
    {F : Type 0} → Library F → String → (value : Option F) → (threshold : F) → Rules F → Rules F
rate_at_most l name value threshold =
    measured maximum name (float value) (float (some threshold))
      (holds_for (λ v. l.le v threshold) value)

abbrev pub when : {F : Type 0} → Bool → (Rules F → Rules F) → Rules F → Rules F
when true group rs = group rs
when false group rs = rs

infixl 2 ◌▷◌
abbrev pub ◌▷◌ : {F : Type 0} → Rules F → (Rules F → Rules F) → Rules F
rs ▷ group = group rs
