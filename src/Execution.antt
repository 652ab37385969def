-- ===== src/Execution.antt =====
-- backend/app/services/auto_onboarding_execution.py: acting on a decision. Audit entries and
-- notifications are not modelled: nothing here reads them back.
pub mod Outcomes
use web_scraping_event_appli.Prelude.{
  ℕ, String, Bool, true, false, not, ◌&&◌, ◌||◌, Option, none, some, List, [], ◌∷◌, ◌++◌,
  if◌then◌else◌, is_empty, ◌==◌,
}
use web_scraping_event_appli.Json.{present, is_some}
use web_scraping_event_appli.Onboarding.{Status, active, can_transition}
use web_scraping_event_appli.Website.{Website}
use web_scraping_event_appli.Result.{Result, ok, err, Refusal}
use web_scraping_event_appli.Lifecycle.{
  Site, city_active, transition_website, approve_configuration,
}
use web_scraping_event_appli.Lifecycle.Acts.{Services}

-- core/auto_onboarding.py, the final decisions.
pub data FinalDecision : Type 0 where
  no_applicable_policy policy_disabled automatic_approval_denied : FinalDecision
  automatic_approval_allowed automatically_approved automatic_activation_denied : FinalDecision
  automatic_activation_allowed automatically_activated manual_review_required : FinalDecision
  action_failed : FinalDecision

-- The columns of AutoOnboardingDecision that acting on it reads.
pub record Decision : Type 0 where
  pub eligible_for_automatic_approval : Bool
  pub activation_policy_enabled : Bool
  pub final_decision : FinalDecision
  pub policy_id : Option ℕ
  pub policy_version : Option ℕ
  pub configuration_version : Option ℕ

pub data Blocker : Type 0 where
  was_archived no_approved_configuration city_not_active other_version : Blocker
  not_a_transition policy_inactive activation_disabled policy_changed : Blocker

pub data Error : Type 0 where
  refused : Refusal → Error
  blocked : List Blocker → Error

pub data ActionType : Type 0 where
  approval activation : ActionType

pub record ActionResult : Type 0 where
  pub action_type : ActionType
  pub attempted : Bool
  pub succeeded : Bool
  pub error : Option Error
  pub configuration_version : Option ℕ

-- The policy row as it stands when the activation is tried.
pub record PolicyRow : Type 0 where
  pub active : Bool
  pub automatic_activation_enabled : Bool
  pub version : ℕ

abbrev pub block_if : Bool → Blocker → List Blocker
block_if true b = b ∷ []
block_if false b = []

abbrev pub same_option : Option ℕ → Option ℕ → Bool
same_option none none = true
same_option (some a) (some b) = a == b
same_option _ _ = false

abbrev pub policy_blockers : Option PolicyRow → Option ℕ → List Blocker
policy_blockers none version = policy_inactive ∷ []
policy_blockers (some p) version =
    if not p.active
    then policy_inactive ∷ []
    else if not p.automatic_activation_enabled
    then activation_disabled ∷ []
    else block_if (not (same_option (some p.version) version)) policy_changed

-- `get_policy(db, decision.policy_id) if decision.policy_id else None`: id 0 is no id.
abbrev pub lookup_policy : (ℕ → Option PolicyRow) → Option ℕ → Option PolicyRow
lookup_policy get none = none
lookup_policy get (some id) = if id == 0 then none else get id

unfoldable pub activation_blockers : (ℕ → Option PolicyRow) → Decision → Website → List Blocker
activation_blockers get_policy d w =
    block_if (is_some w.archived_at) was_archived
    ++ (block_if (not (present w.approved_pattern)) no_approved_configuration
        ++ (block_if (not (city_active w)) city_not_active
            ++ (block_if
                  (is_some d.configuration_version
                    && not (same_option w.active_configuration_version d.configuration_version))
                  other_version
                ++ (block_if (not (can_transition w.onboarding_status active)) not_a_transition
                    ++ policy_blockers (lookup_policy get_policy d.policy_id) d.policy_version))))

abbrev pub approval_failed : Decision → Refusal → ActionResult
approval_failed d e = record {
  action_type = approval;
  attempted = true;
  succeeded = false;
  error = some (refused e);
  configuration_version = d.configuration_version;
}

abbrev pub action_done : ActionType → Site → ActionResult
action_done t s = record {
  action_type = t;
  attempted = true;
  succeeded = true;
  error = none;
  configuration_version = s.website.active_configuration_version;
}

-- A raise rolls the session back: the site is as it was.
unfoldable pub attempt_approval : Services → Decision → Site → (now : ℕ) → Site × ActionResult
attempt_approval v d s now = elim (approve_configuration v.registry v.pattern_of s none now) [
  | ok s' ↦ (s', action_done approval s')
  | err code e ↦ (s, approval_failed d e)
]

abbrev pub activation_refused : Site → Bool → Error → ActionResult
activation_refused s attempted e = record {
  action_type = activation;
  attempted = attempted;
  succeeded = false;
  error = some e;
  configuration_version = s.website.active_configuration_version;
}

unfoldable pub attempt_activation :
    Services → (ℕ → Option PolicyRow) → Decision → Site → (now : ℕ) → Site × ActionResult
attempt_activation v get_policy d s now =
    let blockers = activation_blockers get_policy d s.website in
    if is_empty blockers
    then (elim (transition_website v.default_schedule s active now) [
      | ok s' ↦ (s', action_done activation s')
      | err code e ↦ (s, activation_refused s true (refused e))
    ])
    else (s, activation_refused s false (blocked blockers))

pub record ExecutionOutcome : Type 0 where
  pub decision : Decision
  pub approval : Option ActionResult
  pub activation : Option ActionResult

abbrev pub succeeded_in : Option ActionResult → Bool
succeeded_in none = false
succeeded_in (some r) = r.succeeded

-- `ExecutionOutcome.final_decision`.
unfoldable pub outcome_decision : ExecutionOutcome → FinalDecision
outcome_decision o =
    if succeeded_in o.activation
    then automatically_activated
    else if succeeded_in o.approval
    then automatically_approved
    else if is_some o.approval && not (succeeded_in o.approval)
    then action_failed
    else o.decision.final_decision

-- `{r.action_type: r for r in results}.get(t)`: the last result of the type.
abbrev pub is_type : ActionType → ActionType → Bool
is_type approval approval = true
is_type activation activation = true
is_type _ _ = false

abbrev pub last_of : ActionType → List ActionResult → Option ActionResult
last_of t [] = none
last_of t (r ∷ rs) = elim (last_of t rs) [
  | some later ↦ some later
  | none ↦ if is_type r.action_type t then some r else none
]

unfoldable pub effective_decision : FinalDecision → List ActionResult → FinalDecision
effective_decision final_decision results =
    let activated = last_of activation results in
    let approved = last_of approval results in
    if succeeded_in activated
    then automatically_activated
    else if succeeded_in approved
    then automatically_approved
    else if is_some approved
    then action_failed
    else final_decision

-- What other sessions make of the site between the approval and the activation.
abbrev pub Meanwhile : Type 0
Meanwhile = Site → Site

unfoldable pub execute_decision :
    Services
    → (ℕ → Option PolicyRow)
    → Meanwhile
    → Decision
    → Site
    → (now : ℕ) → Site × ExecutionOutcome
execute_decision v get_policy meanwhile d s now =
    if not d.eligible_for_automatic_approval
    then (s, record { decision = d; approval = none; activation = none })
    else (let (s1, approved) = attempt_approval v d s now in
        if not approved.succeeded
        then (s1, record { decision = d; approval = some approved; activation = none })
        else if not d.activation_policy_enabled
        then (s1, record { decision = d; approval = some approved; activation = none })
        else (let (s2, activated) = attempt_activation v get_policy d (meanwhile s1) now in
            (s2, record { decision = d; approval = some approved; activation = some activated })))
