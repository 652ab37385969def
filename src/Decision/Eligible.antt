-- ===== src/Decision/Eligible.antt =====
-- `evaluate` and what qualifies: exactly the sources that qualify are eligible.
use web_scraping_event_appli.Prelude.{
  Bool, true, false, not, ◌&&◌, Option, none, some, ◌≡◌, ◌↔◌, refl, sym, subst, ◌∙◌, if◌then◌else◌,
}
use web_scraping_event_appli.Json.{is_some}
use web_scraping_event_appli.Policy.{PolicySnapshot}
use web_scraping_event_appli.Decision
use web_scraping_event_appli.Decision.{
  Library, SiteConfiguration, PreviewQualityResult, DecisionContext, Rule, Rules, check, no_rules,
  when, ◌▷◌,
}
use web_scraping_event_appli.Decision.Asks.{
  Asks, ◌and◌, ◌both◌, clean, asks-check, asks-map, asks-when, ◌then◌,
}
use web_scraping_event_appli.Decision.Gates.{
  is_generic, check_draft, check_configuration, check_policy_scope, check_pattern, check_detection,
  check_website_and_city,
}
use web_scraping_event_appli.Decision.Preview.{check_quality, check_preview}
use web_scraping_event_appli.Decision.Generic.{check_markup, check_generic_html}
use web_scraping_event_appli.Decision.Evaluate.{
  is_on, all_rules, concluded, evaluate_under, evaluate, AutoOnboardingDecisionResult,
}
use web_scraping_event_appli.Decision.Qualifies
use web_scraping_event_appli.Decision.Qualifies.{Holds, Qualifies}
use web_scraping_event_appli.Decision.Qualified.{
  asks-check_policy_scope, asks-check_pattern, asks-check_detection, asks-check_website_and_city,
  asks-check_configured, asks-check_previewed, asks-check_inferred,
}

module _ {F : Type 0} (l : Library F) (c : DecisionContext F) (p : PolicySnapshot F) where
  -- The groups that need an optional part of the context, for each value of that part.
  abbrev pub IsConfigured : Option SiteConfiguration → Type 0
  IsConfigured o = (config : _) × (o ≡ some config) × Qualifies.Configured l c p config

  abbrev pub IsPreviewed : Option (PreviewQualityResult F) → Bool → Type 0
  IsPreviewed o has_run = (q : _) × (o ≡ some q) × Holds has_run × Qualifies.Previewed l c p q

  abbrev pub IsInferred : Option SiteConfiguration → Type 0
  IsInferred o = (config : SiteConfiguration) → o ≡ some config → Qualifies.Inferred l c p config

  some_injective : {A : Type 0} {a b : A} → some a ≡ some b → a ≡ b
  some_injective h = cc

  asks-refusal : {P : Type 0} (rule : Rule) → ¬ P → Asks {F = F} (check false rule) P
  asks-refusal rule never = asks-map (λ h. absurd cc) (λ h. absurd (never h)) (asks-check _ _)

  asks-check_draft : (o : Option SiteConfiguration) → Asks (check_draft l c p o) (IsConfigured o)
  asks-check_draft none = asks-refusal _ (λ h. cc (h.1))
  asks-check_draft (some config) =
      asks-map (λ h. (config, refl, h))
        (λ h. subst (Qualifies.Configured l c p) (sym (some_injective h.1)) h.2)
        (asks-check_configured l c p config)

  asks-check_quality :
      (o : Option (PreviewQualityResult F)) (has_run : Bool)
      → Asks (check_quality l c p o has_run) (IsPreviewed o has_run)
  asks-check_quality none has_run = asks-refusal _ (λ h. cc (h.1))
  asks-check_quality (some q) false = asks-refusal _ (λ h. cc (h.2))
  asks-check_quality (some q) true =
      asks-map (λ h. (q, refl, refl, h))
        (λ h. subst (Qualifies.Previewed l c p) (sym (some_injective h.1)) h.3)
        (asks-check_previewed l c p q)

  asks-check_markup : (o : Option SiteConfiguration) → Asks (check_markup l c p o) (IsInferred o)
  asks-check_markup none = record {
    needed = λ rs h. record { former = λ config e. absurd cc; latter = h };
    enough = λ rs u k. k;
  }
  asks-check_markup (some config) =
      asks-map (λ h other e. subst (Qualifies.Inferred l c p) (some_injective e) h)
        (λ h. h config refl) (asks-check_inferred l c p config)

  abbrev pub AllAsked : Type 0
  AllAsked =
      Qualifies.InScope l c p
      and Qualifies.PatternAllowed l c p
      and Qualifies.Detected l c p
      and Qualifies.Placed l c p
      and IsConfigured c.configuration
      and IsPreviewed c.quality (is_some c.preview_run_id)
      and (Holds (is_generic c) → IsInferred c.configuration)
      and Holds p.automatic_approval_enabled

  -- The rules in their order.
  asks-groups :
      Asks
        (λ rs.
          rs
          ▷ check_policy_scope c p
          ▷ check_pattern c p
          ▷ check_detection l c p
          ▷ check_website_and_city c
          ▷ check_draft l c p c.configuration
          ▷ check_quality l c p c.quality (is_some c.preview_run_id)
          ▷ when (is_generic c) (check_markup l c p c.configuration)
          ▷ check p.automatic_approval_enabled Decision.approval_enabled)
        AllAsked
  asks-groups =
      asks-check_policy_scope l c p
      then asks-check_pattern l c p
      then asks-check_detection l c p
      then asks-check_website_and_city l c p
      then asks-check_draft c.configuration
      then asks-check_quality c.quality (is_some c.preview_run_id)
      then asks-when (is_generic c) (asks-check_markup c.configuration)
      then asks-check p.automatic_approval_enabled Decision.approval_enabled

  pub asks-all_rules : (clean (all_rules l c p) ≡ true) ↔ AllAsked
  unfolding all_rules check_configuration check_preview check_generic_html
  asks-all_rules =
      (λ h. (asks-groups.needed no_rules h).former, λ h. asks-groups.enough no_rules h refl)

  and_both : (a b : Bool) → (a && b) ≡ true → (a ≡ true) and (b ≡ true)
  and_both true b h = refl both h
  and_both false b h = absurd cc

  is_on_parts :
      is_on p ≡ true
      → Holds p.active
        and Holds p.automatic_configuration_enabled
        and Holds p.automatic_preview_enabled
  unfolding is_on
  is_on_parts h =
      let outer = and_both (p.active && p.automatic_configuration_enabled) _ h in
      and_both p.active _ outer.former both outer.latter

  eligible_Qualifies : is_on p ≡ true → clean (all_rules l c p) ≡ true → Qualifies l c p
  eligible_Qualifies on clean_rules =
      let asked = asks-all_rules.0 clean_rules in
      let switches = is_on_parts on in
      record {
        on = switches.former.former;
        configuring = switches.former.latter;
        previewing = switches.latter;
        approving = asked.latter;
        inferred = asked.former.latter;
        previewed = asked.former.former.latter;
        configured = asked.former.former.former.latter;
        placed = asked.former.former.former.former.latter;
        detected = asked.former.former.former.former.former.latter;
        pattern_allowed = asked.former.former.former.former.former.former.latter;
        in_scope = asked.former.former.former.former.former.former.former;
      }

  Qualifies_is_on : Qualifies l c p → is_on p ≡ true
  unfolding is_on
  Qualifies_is_on q = cc (q.on, q.configuring, q.previewing)

  Qualifies_clean : Qualifies l c p → clean (all_rules l c p) ≡ true
  Qualifies_clean q = asks-all_rules.1 (
      q.in_scope both q.pattern_allowed both q.detected both q.placed both q.configured
      both q.previewed both q.inferred both q.approving)

  -- The rules include that on the approval switch.
  pub clean_approves : clean (all_rules l c p) ≡ true → p.automatic_approval_enabled ≡ true
  clean_approves h = (asks-all_rules.0 h).latter

  judged :
      (on : Bool) (rs : Rules F) (off : AutoOnboardingDecisionResult F)
      → off.eligible_for_automatic_approval ≡ false
      → (if not on then off else concluded c p rs).eligible_for_automatic_approval
        ≡ (on && (p.automatic_approval_enabled && clean rs))
  unfolding concluded
  judged true rs off h = refl
  judged false rs off h = h

  pub eligible_under :
      (evaluate_under l c (some p)).eligible_for_automatic_approval
      ≡ (is_on p && (p.automatic_approval_enabled && clean (all_rules l c p)))
  unfolding evaluate_under
  eligible_under = judged (is_on p) (all_rules l c p) _ refl

  Qualifies→eligible :
      Qualifies l c p → (evaluate_under l c (some p)).eligible_for_automatic_approval ≡ true
  Qualifies→eligible q = cc (eligible_under, Qualifies_is_on q, q.approving, Qualifies_clean q)

  eligible→Qualifies :
      (evaluate_under l c (some p)).eligible_for_automatic_approval ≡ true → Qualifies l c p
  eligible→Qualifies h =
      let parts = and_both (is_on p) _ (sym eligible_under ∙ h) in
      eligible_Qualifies parts.former (and_both _ _ parts.latter).latter

module _ {F : Type 0} (l : Library F) (c : DecisionContext F) where
  abbrev QualifiesUnder : Option (PolicySnapshot F) → Type 0
  QualifiesUnder o = (p : _) × (o ≡ some p) × Qualifies l c p

  eligible_iff_under :
      (o : Option (PolicySnapshot F))
      → ((evaluate_under l c o).eligible_for_automatic_approval ≡ true) ↔ QualifiesUnder o
  unfolding evaluate_under
  eligible_iff_under none = (λ h. absurd cc, λ q. absurd (cc (q.1)))
  eligible_iff_under (some p) = (
    λ h. (p, refl, eligible→Qualifies l c p h),
    λ q. Qualifies→eligible l c p (subst (Qualifies l c) (sym (some_injective l c p q.1)) q.2),
  )

  -- A source is eligible for automatic approval exactly if a policy applies to it, and the source
  -- qualifies under that policy: the policy's switches are on, and every condition holds on the
  -- scope, the pattern, the detection, the website, the draft, its preview and, for a
  -- configuration inferred from markup, its selectors.
  pub eligible_iff_Qualifies :
      ((evaluate l c).eligible_for_automatic_approval ≡ true)
      ↔ ((p : _) × (c.policy ≡ some p) × Qualifies l c p)
  unfolding evaluate
  eligible_iff_Qualifies = eligible_iff_under c.policy
