-- ===== src/Decision/Evaluate.antt =====
-- `AutoOnboardingDecisionService.evaluate`, and services/auto_onboarding_persistence.py: the
-- columns of the stored decision.
use web_scraping_event_appli.Prelude.{
  ℕ, String, Bool, false, not, ◌&&◌, Option, none, some, List, [], ◌∷◌, ◌++◌, is_empty, leb,
  if◌then◌else◌,
}
use web_scraping_event_appli.Policy.{PolicySnapshot}
use web_scraping_event_appli.Execution
use web_scraping_event_appli.Execution.{FinalDecision}
use web_scraping_event_appli.Decision
use web_scraping_event_appli.Decision.{
  Library, DecisionContext, Rule, Rules, Value, Bound, no_rules, check, when, ◌▷◌,
}
use web_scraping_event_appli.Decision.Gates.{
  is_generic, check_policy_scope, check_pattern, check_detection, check_website_and_city,
  check_configuration,
}
use web_scraping_event_appli.Decision.Preview.{check_preview}
use web_scraping_event_appli.Decision.Generic.{check_generic_html}

pub record AutoOnboardingDecisionResult (F : Type 0) : Type 0 where
  pub final_decision : FinalDecision
  pub eligible_for_automatic_approval : Bool
  pub eligible_for_automatic_activation : Bool
  pub activation_policy_enabled : Bool
  pub reasons_passed : List Rule
  pub reasons_failed : List Rule
  pub metrics_snapshot : List (String × Value F)
  pub thresholds_snapshot : List ((Bound × String) × Value F)
  pub policy_id : Option ℕ
  pub policy_version : Option ℕ
  pub policy_name : Option String
  pub detected_pattern : Option String
  pub detector_confidence : F
  pub configuration_origin : Option String
  pub configuration_version : Option ℕ
  pub preview_run_id : Option ℕ
  pub preview_status : Option String
  pub evaluated_roles : List ℕ

abbrev pub insert : ℕ → List ℕ → List ℕ
insert r [] = r ∷ []
insert r (s ∷ ss) = let rest = insert r ss in if leb r s then r ∷ s ∷ ss else s ∷ rest

abbrev pub sorted : List ℕ → List ℕ
sorted [] = []
sorted (r ∷ rs) = insert r (sorted rs)

-- `common`, on a result that says no.
abbrev pub unqualified :
    {F : Type 0} → DecisionContext F → FinalDecision → Rule → AutoOnboardingDecisionResult F
unqualified c decision rule = record {
  final_decision = decision;
  eligible_for_automatic_approval = false;
  eligible_for_automatic_activation = false;
  activation_policy_enabled = false;
  reasons_passed = [];
  reasons_failed = rule ∷ [];
  metrics_snapshot = [];
  thresholds_snapshot = [];
  policy_id = none;
  policy_version = none;
  policy_name = none;
  detected_pattern = c.detected_pattern;
  detector_confidence = c.detector_confidence;
  configuration_origin = c.configuration_origin;
  configuration_version = c.configuration_version;
  preview_run_id = c.preview_run_id;
  preview_status = c.preview_status;
  evaluated_roles = sorted c.submitter_role_ids;
}

-- `policy_fields`.
abbrev pub under :
    {F : Type 0}
    → PolicySnapshot F
    → AutoOnboardingDecisionResult F
    → AutoOnboardingDecisionResult F
under p r = record r {
  activation_policy_enabled = p.automatic_activation_enabled;
  policy_id = some p.policy_id;
  policy_version = some p.version;
  policy_name = some p.name;
}

unfoldable pub is_on : {F : Type 0} → PolicySnapshot F → Bool
is_on p = p.active && p.automatic_configuration_enabled && p.automatic_preview_enabled

unfoldable pub all_rules : {F : Type 0} → Library F → DecisionContext F → PolicySnapshot F → Rules F
all_rules l c p =
    no_rules
    ▷ check_policy_scope c p
    ▷ check_pattern c p
    ▷ check_detection l c p
    ▷ check_website_and_city c
    ▷ check_configuration l c p
    ▷ check_preview l c p
    ▷ when (is_generic c) (check_generic_html l c p)
    ▷ check p.automatic_approval_enabled Decision.approval_enabled

-- The result of the rules that were run.
unfoldable pub concluded :
    {F : Type 0} → DecisionContext F → PolicySnapshot F → Rules F → AutoOnboardingDecisionResult F
concluded c p rs =
    let eligible = p.automatic_approval_enabled && is_empty rs.failed in
    record (under p (unqualified c Execution.automatic_approval_denied Decision.policy_applies)) {
      final_decision =
          if eligible
          then Execution.automatic_approval_allowed
          else Execution.automatic_approval_denied;
      eligible_for_automatic_approval = eligible;
      eligible_for_automatic_activation = eligible && p.automatic_activation_enabled;
      reasons_passed =
          if eligible && not p.automatic_activation_enabled
          then rs.passed ++ Decision.activation_disabled ∷ []
          else rs.passed;
      reasons_failed = rs.failed;
      metrics_snapshot = rs.metrics;
      thresholds_snapshot = rs.thresholds;
    }

unfoldable pub evaluate_under :
    {F : Type 0}
    → Library F
    → DecisionContext F
    → Option (PolicySnapshot F)
    → AutoOnboardingDecisionResult F
evaluate_under l c none = unqualified c Execution.no_applicable_policy Decision.policy_applies
evaluate_under l c (some p) =
    if not (is_on p)
    then under p (unqualified c Execution.policy_disabled Decision.policy_switched_on)
    else concluded c p (all_rules l c p)

unfoldable pub evaluate :
    {F : Type 0} → Library F → DecisionContext F → AutoOnboardingDecisionResult F
evaluate l c = evaluate_under l c c.policy

-- `record_decision`: the columns that acting on the decision reads.
unfoldable pub record_decision : {F : Type 0} → AutoOnboardingDecisionResult F → Execution.Decision
record_decision result = record {
  eligible_for_automatic_approval = result.eligible_for_automatic_approval;
  activation_policy_enabled = result.activation_policy_enabled;
  final_decision = result.final_decision;
  policy_id = result.policy_id;
  policy_version = result.policy_version;
  configuration_version = result.configuration_version;
}
