-- ===== src/Tests/Moves.antt =====
-- The lifecycle of the sample site, and decisions carried out on it.
use web_scraping_event_appli.Prelude.{
  ℕ, true, false, Option, none, some, List, [], ◌∷◌, ◌≡◌, ◌↔◌, refl, In,
}
use web_scraping_event_appli.Onboarding.{
  Status, same, can_transition, allowed_transitions, draft, needs_review, approved, active,
  archived,
}
use web_scraping_event_appli.Onboarding.Walks.{Walk, stay, move, active_needs_approved}
use web_scraping_event_appli.Result.{ok}
use web_scraping_event_appli.Lifecycle.{
  Site, approve_configuration, transition_website, moved, check_pattern, require_current_preview,
}
use web_scraping_event_appli.Lifecycle.Acts.{Action, transition, approve, save_draft, act_all}
use web_scraping_event_appli.Lifecycle.Sync.{InSync}
use web_scraping_event_appli.Lifecycle.Actions.{act_all-InSync}
use web_scraping_event_appli.Lifecycle.Activation.{Activates, activation_only}
use web_scraping_event_appli.Lifecycle.Approval.{
  Approvable, after_approval, approve_configuration_iff,
}
use web_scraping_event_appli.Execution.{
  Decision, PolicyRow, automatic_approval_allowed, execute_decision, attempt_approval,
  attempt_activation, activation_blockers, outcome_decision, effective_decision, succeeded_in,
}
use web_scraping_event_appli.Execution.Outcomes.{
  rows_of, PolicyStands, SiteStands, outcome_read_back, activated_only,
}
use web_scraping_event_appli.Tests.Samples.{configuration, draft_site, previewed_site, services}

reviewed-Walk : Walk draft (needs_review ∷ approved ∷ active ∷ []) active
unfolding can_transition allowed_transitions same
reviewed-Walk = move refl (move refl (move refl stay))

active_needs_approved_example : In approved (needs_review ∷ approved ∷ active ∷ [])
active_needs_approved_example = active_needs_approved refl reviewed-Walk

abbrev no_states : List Status
no_states = []

in_sync : InSync draft_site
unfolding same
in_sync = record {
  flag = refl;
  frozen = λ h. absurd cc;
  versioned = λ h. absurd cc;
  dated = λ h. absurd cc;
}

abbrev actions : List Action
actions =
    approve none 20 ∷ transition active 30 ∷ save_draft configuration ∷ transition archived 40 ∷ []

act_all-InSync_example : InSync (act_all services actions previewed_site).website
act_all-InSync_example = act_all-InSync services actions previewed_site in_sync

-- The site once it is approved.
abbrev approved_site : Site
approved_site = after_approval previewed_site none 20

activation_only_example : Activates approved_site.website (transition active 30)
unfolding transition_website moved can_transition allowed_transitions same
activation_only_example = activation_only services (transition active 30) approved_site refl refl

approve_configuration_iff_example :
    (approve_configuration services.registry services.pattern_of previewed_site none 20
      ≡ ok approved_site)
    ↔ (Approvable services previewed_site × (approved_site ≡ after_approval previewed_site none 20))
approve_configuration_iff_example =
    approve_configuration_iff services previewed_site approved_site none 20

abbrev pub decision : Decision
decision = record {
  eligible_for_automatic_approval = true;
  activation_policy_enabled = true;
  final_decision = automatic_approval_allowed;
  policy_id = some 4;
  policy_version = some 1;
  configuration_version = some 2;
}

abbrev pub policy_row : ℕ → Option PolicyRow
policy_row id = some (record { active = true; automatic_activation_enabled = true; version = 1 })

outcome_read_back_example :
    outcome_decision (execute_decision services policy_row (λ s. s) decision previewed_site 20).1
    ≡ effective_decision automatic_approval_allowed
        (rows_of (execute_decision services policy_row (λ s. s) decision previewed_site 20).1)
outcome_read_back_example =
    outcome_read_back services policy_row (λ s. s) decision previewed_site 20

-- An archived site is refused its approval.
abbrev archived_site : Site
archived_site = record previewed_site {
  website = record draft_site { onboarding_status = archived; archived_at = some 3 };
}

unapproved :
    succeeded_in
      (execute_decision services policy_row (λ s. s) decision archived_site 20).1.approval
    ≡ false
unfolding execute_decision attempt_approval approve_configuration same
unapproved = refl

carried_out :
    succeeded_in
      (execute_decision services policy_row (λ s. s) decision previewed_site 20).1.activation
    ≡ true
unfolding execute_decision attempt_approval approve_configuration same check_pattern
    require_current_preview can_transition attempt_activation activation_blockers transition_website
carried_out = refl

activated_only_example :
    (true ≡ true)
    × (true ≡ true)
    × (succeeded_in
          (execute_decision services policy_row (λ s. s) decision previewed_site 20).1.approval
        ≡ true)
    × PolicyStands policy_row decision
    × SiteStands decision (attempt_approval services decision previewed_site 20).0.website
activated_only_example =
    activated_only services policy_row (λ s. s) decision previewed_site 20 carried_out
