-- ===== src/Decision/Qualified.antt =====
-- The rules ask for exactly what `Qualifies` says.
use web_scraping_event_appli.Prelude.{
  String, Option, none, some, if◌then◌else◌, List, [], ◌∷◌, ==_iff, lt→ltb, ltb→lt,
}
use web_scraping_event_appli.Policy.{PolicySnapshot}
use web_scraping_event_appli.Decision.{
  Library, SiteConfiguration, PreviewQualityResult, DecisionContext, FieldCandidate,
}
use web_scraping_event_appli.Decision.Asks.{
  Asks, asks-check, asks-measured, asks-map, asks-at_least, asks-at_most, asks-when, ◌then◌,
}
use web_scraping_event_appli.Decision.Gates.{
  check_policy_scope, check_pattern, check_detection, check_website_and_city, check_configured,
}
use web_scraping_event_appli.Decision.Preview.{check_previewed}
use web_scraping_event_appli.Decision.Generic.{
  check_fields, check_candidate, check_selectors, check_selector, check_canonical, check_inferred,
}
use web_scraping_event_appli.Decision.Qualifies

module _ {F : Type 0} (l : Library F) (c : DecisionContext F) (p : PolicySnapshot F) where
  pub asks-check_policy_scope : Asks (check_policy_scope c p) (Qualifies.InScope l c p)
  unfolding check_policy_scope
  asks-check_policy_scope = asks-when _ (asks-check _ _) then asks-when _ (asks-check _ _)

  pub asks-check_pattern : Asks (check_pattern c p) (Qualifies.PatternAllowed l c p)
  unfolding check_pattern
  asks-check_pattern =
      asks-check _ _
      then asks-check _ _
      then asks-when _ (asks-check _ _)
      then asks-when _ (asks-check _ _)

  pub asks-check_detection : Asks (check_detection l c p) (Qualifies.Detected l c p)
  unfolding check_detection
  asks-check_detection = asks-measured _ _ _ _ _ then asks-check _ _ then asks-check _ _

  pub asks-check_website_and_city : Asks (check_website_and_city c) (Qualifies.Placed l c p)
  unfolding check_website_and_city
  asks-check_website_and_city = asks-check _ _ then asks-check _ _ then asks-check _ _

  pub asks-check_configured :
      (config : SiteConfiguration)
      → Asks (check_configured l c p config) (Qualifies.Configured l c p config)
  unfolding check_configured
  asks-check_configured config =
      asks-check _ _
      then asks-check _ _
      then asks-check _ _
      then asks-when _ (asks-check _ _)
      then asks-check _ _
      then asks-when _ (asks-check _ _)

  pub asks-check_previewed :
      (q : PreviewQualityResult F) → Asks (check_previewed l c p q) (Qualifies.Previewed l c p q)
  unfolding check_previewed
  asks-check_previewed q =
      asks-check _ _
      then asks-check _ _
      then asks-map (==_iff _ _).0 (==_iff _ _).1 (asks-check _ _)
      then asks-at_least _ _ _
      then asks-at_least _ _ _
      then asks-measured _ _ _ _ _
      then asks-measured _ _ _ _ _
      then asks-map (ltb→lt 0 _) (lt→ltb 0 _) (asks-check _ _)
      then asks-measured _ _ _ _ _
      then asks-measured _ _ _ _ _
      then asks-measured _ _ _ _ _
      then asks-measured _ _ _ _ _
      then asks-measured _ _ _ _ _
      then asks-at_most _ _ _
      then asks-when _ (asks-measured _ _ _ _ _)
      then asks-when _ (asks-check _ _)
      then asks-when _ (asks-measured _ _ _ _ _)
      then asks-at_most _ _ _
      then asks-when _ (asks-at_least _ _ _)

  asks-nothing : Asks {F = F} (λ rs. rs) Unit
  asks-nothing = record {
    needed = λ rs h. record { former = tt; latter = h };
    enough = λ rs u k. k;
  }

  asks-check_candidate :
      (name : String) (candidate : Option (FieldCandidate F))
      → Asks (check_candidate l p name candidate) (Qualifies.Proposed l c p candidate)
  asks-check_candidate name none = asks-nothing
  asks-check_candidate name (some candidate) = asks-measured _ _ _ _ _ then asks-measured _ _ _ _ _

  asks-check_fields :
      (config : SiteConfiguration) (names : List String)
      → Asks (check_fields l c p config names) (Qualifies.AllProposed l c p config names)
  unfolding check_fields
  asks-check_fields config [] = asks-nothing
  asks-check_fields config (name ∷ names) =
      asks-check_candidate name _ then asks-check_fields config names

  asks-check_selector :
      (name : String) (selector : Option String)
      → Asks (check_selector l name selector) (Qualifies.Stable l c p selector)
  asks-check_selector name none = asks-nothing
  asks-check_selector name (some selector) = asks-check _ _

  asks-check_selectors :
      (config : SiteConfiguration) (names : List String)
      → Asks (check_selectors l config names) (Qualifies.AllStable l c p config names)
  unfolding check_selectors
  asks-check_selectors config [] = asks-nothing
  asks-check_selectors config (name ∷ names) =
      asks-check_selector name _ then asks-check_selectors config names

  asks-check_canonical :
      (selector : Option String)
      → Asks (check_canonical l selector) (Qualifies.Specific l c p selector)
  asks-check_canonical none = asks-nothing
  asks-check_canonical (some selector) = asks-check _ _

  pub asks-check_inferred :
      (config : SiteConfiguration)
      → Asks (check_inferred l c p config) (Qualifies.Inferred l c p config)
  unfolding check_inferred
  asks-check_inferred config =
      asks-check_fields config _
      then asks-measured _ _ _ _ _
      then asks-when _ (asks-check_canonical _)
      then asks-when _ (asks-check_selectors config _)
