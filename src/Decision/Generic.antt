-- ===== src/Decision/Generic.antt =====
-- `_check_generic_html`: the selectors of a configuration inferred from markup.
use Prim.Native.String.{◌++◌}
use web_scraping_event_appli.Prelude.{
  String, Bool, false, not, ◌&&◌, Option, none, some, List, [], ◌∷◌, all, if◌then◌else◌, leb,
}
use web_scraping_event_appli.Json.{is_some}
use web_scraping_event_appli.Policy.{PolicySnapshot}
use web_scraping_event_appli.Decision
use web_scraping_event_appli.Decision.{
  Library, SiteConfiguration, DecisionContext, FieldCandidate, DateFormatCandidate, Entry, missing,
  null, given, Rules, get_key, check, rate_at_least, when, ◌▷◌,
}
use web_scraping_event_appli.Decision.Gates.{
  required_selector_fields, broad_anchor_selectors, one_of, is_text,
}

-- `_selector_is_unstable(selector) is None`.
unfoldable pub is_selector_stable : {F : Type 0} → Library F → String → Bool
is_selector_stable l selector =
    if l.is_positional selector
    then false
    else if not (leb (l.selector_parts selector) 3)
    then false
    else all l.is_stable_class_token (l.class_tokens selector)

-- The accepted candidates by field: a later one replaces an earlier one.
abbrev pub accepted_for :
    {F : Type 0} → String → List (FieldCandidate F) → Option (FieldCandidate F)
accepted_for name [] = none
accepted_for name (c ∷ cs) = elim (accepted_for name cs) [
  | some later ↦ some later
  | none ↦ if c.accepted && is_text name c.field then some c else none
]

-- `candidate.get(key, 0.0)`.
abbrev pub get_rate : {F : Type 0} → Library F → Entry F → Option F
get_rate l missing = some l.zero
get_rate l null = none
get_rate l (given rate) = some rate

abbrev pub empty_candidate : {F : Type 0} → FieldCandidate F
empty_candidate = record {
  field = none;
  accepted = false;
  confidence = missing;
  coverage = missing;
}

-- The candidate that a required field is judged by, if it is judged at all.
abbrev pub candidate_of :
    {F : Type 0} → DecisionContext F → SiteConfiguration → String → Option (FieldCandidate F)
candidate_of c config name = elim (accepted_for name c.field_candidates) [
  | some candidate ↦ some candidate
  | none ↦
      if is_some (get_key ("detail_" ++ name) config.field_selectors)
      then some empty_candidate
      else none
]

abbrev pub check_candidate :
    {F : Type 0}
    → Library F
    → PolicySnapshot F
    → String
    → Option (FieldCandidate F)
    → Rules F
    → Rules F
check_candidate l p name none rs = rs
check_candidate l p name (some candidate) rs =
    rs
    ▷ rate_at_least l (name ++ "_confidence") (get_rate l candidate.confidence)
        p.generic_html_minimum_required_field_confidence
    ▷ rate_at_least l (name ++ "_coverage") (get_rate l candidate.coverage)
        p.generic_html_minimum_required_field_coverage

unfoldable pub check_fields :
    {F : Type 0}
    → Library F
    → DecisionContext F
    → PolicySnapshot F
    → SiteConfiguration
    → List String
    → Rules F
    → Rules F
check_fields l c p config [] rs = rs
check_fields l c p config (name ∷ names) rs =
    check_fields l c p config names (check_candidate l p name (candidate_of c config name) rs)

-- `max` keeps the first of the greatest.
abbrev pub greatest : {F : Type 0} → Library F → F → List F → F
greatest l best [] = best
greatest l best (x ∷ xs) = greatest l (if l.lt best x then x else best) xs

abbrev pub accepted_rates : {F : Type 0} → Library F → List (DateFormatCandidate F) → List F
accepted_rates l [] = []
accepted_rates l (d ∷ ds) =
    let rest = accepted_rates l ds in
    if d.accepted then (elim d.match_rate [ none ↦ l.zero | some r ↦ r ]) ∷ rest else rest

abbrev pub max_or_zero : {F : Type 0} → Library F → List F → F
max_or_zero l [] = l.zero
max_or_zero l (x ∷ xs) = greatest l x xs

unfoldable pub best_date_rate : {F : Type 0} → Library F → List (DateFormatCandidate F) → F
best_date_rate l candidates = max_or_zero l (accepted_rates l candidates)

abbrev pub check_canonical : {F : Type 0} → Library F → Option String → Rules F → Rules F
check_canonical l none rs = rs
check_canonical l (some selector) rs =
    check (not (one_of (l.strip selector) broad_anchor_selectors))
      Decision.specific_canonical_selector rs

abbrev pub check_selector : {F : Type 0} → Library F → String → Option String → Rules F → Rules F
check_selector l name none rs = rs
check_selector l name (some selector) rs =
    check (is_selector_stable l selector) (Decision.stable_selector name) rs

unfoldable pub check_selectors :
    {F : Type 0} → Library F → SiteConfiguration → List String → Rules F → Rules F
check_selectors l config [] rs = rs
check_selectors l config (name ∷ names) rs =
    check_selectors l config names (check_selector l name (get_key name config.field_selectors) rs)

unfoldable pub check_inferred :
    {F : Type 0}
    → Library F
    → DecisionContext F
    → PolicySnapshot F
    → SiteConfiguration
    → Rules F
    → Rules F
check_inferred l c p config rs =
    rs
    ▷ check_fields l c p config required_selector_fields
    ▷ rate_at_least l "date_format_confidence" (some (best_date_rate l c.date_format_candidates))
        p.generic_html_minimum_date_format_confidence
    ▷ when p.generic_html_reject_broad_canonical_selector
        (check_canonical l (get_key "canonical_url" config.field_selectors))
    ▷ when p.generic_html_reject_unstable_required_selectors
        (check_selectors l config required_selector_fields)

abbrev pub check_markup :
    {F : Type 0}
    → Library F
    → DecisionContext F
    → PolicySnapshot F
    → Option SiteConfiguration
    → Rules F
    → Rules F
check_markup l c p none rs = rs
check_markup l c p (some config) rs = check_inferred l c p config rs

unfoldable pub check_generic_html :
    {F : Type 0} → Library F → DecisionContext F → PolicySnapshot F → Rules F → Rules F
check_generic_html l c p rs = check_markup l c p c.configuration rs
