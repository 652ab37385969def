-- ===== src/Decision/Verdicts.antt =====
-- What a result says, and what carrying it out can do to a site.
use web_scraping_event_appli.Prelude.{
  ℕ, Bool, true, false, not, ◌&&◌, Option, none, some, is_empty, ◌≡◌, refl, if◌then◌else◌, arith,
}
use web_scraping_event_appli.Policy.{PolicySnapshot}
use web_scraping_event_appli.Lifecycle.{Site}
use web_scraping_event_appli.Lifecycle.Acts.{Services}
use web_scraping_event_appli.Execution
use web_scraping_event_appli.Execution.{
  FinalDecision, PolicyRow, Meanwhile, succeeded_in, execute_decision, attempt_approval,
}
use web_scraping_event_appli.Decision
use web_scraping_event_appli.Decision.{Library, DecisionContext, Rules}
use web_scraping_event_appli.Decision.Evaluate.{
  AutoOnboardingDecisionResult, is_on, all_rules, concluded, evaluate_under, evaluate,
  record_decision, under, unqualified,
}
use web_scraping_event_appli.Decision.Qualifies.{Qualifies}
use web_scraping_event_appli.Decision.Eligible.{clean_approves, eligible_iff_Qualifies}

abbrev pub is_allowed : FinalDecision → Bool
is_allowed Execution.automatic_approval_allowed = true
is_allowed _ = false

-- The parts of a result agree.
pub record IsCoherent {F : Type 0} (r : AutoOnboardingDecisionResult F) : Type 0 where
  pub without_failure : r.eligible_for_automatic_approval ≡ is_empty r.reasons_failed
  pub allowed : r.eligible_for_automatic_approval ≡ is_allowed r.final_decision
  pub activation :
      r.eligible_for_automatic_activation
      ≡ (r.eligible_for_automatic_approval && r.activation_policy_enabled)

module _ {F : Type 0} (l : Library F) (c : DecisionContext F) where
  absorbed :
      (approves no_failure : Bool)
      → (no_failure ≡ true → approves ≡ true)
      → (approves && no_failure) ≡ no_failure
  absorbed true b h = refl
  absorbed false true h = h refl
  absorbed false false h = refl

  is_allowed_if :
      (b : Bool)
      → b
        ≡ is_allowed (
            if b then Execution.automatic_approval_allowed else Execution.automatic_approval_denied)
  is_allowed_if true = refl
  is_allowed_if false = refl

  concluded-IsCoherent : (p : PolicySnapshot F) → IsCoherent (concluded c p (all_rules l c p))
  unfolding concluded
  concluded-IsCoherent p = record {
    without_failure = absorbed _ _ (clean_approves l c p);
    allowed = is_allowed_if _;
    activation = refl;
  }

  either_IsCoherent :
      (b : Bool) (x y : AutoOnboardingDecisionResult F)
      → IsCoherent x
      → IsCoherent y
      → IsCoherent (if b then x else y)
  either_IsCoherent true x y h k = h
  either_IsCoherent false x y h k = k

  under-IsCoherent : (o : Option (PolicySnapshot F)) → IsCoherent (evaluate_under l c o)
  unfolding evaluate_under
  under-IsCoherent none = record { without_failure = refl; allowed = refl; activation = refl }
  under-IsCoherent (some p) =
      either_IsCoherent (not (is_on p))
        (under p (unqualified c Execution.policy_disabled Decision.policy_switched_on)) _
        (record { without_failure = refl; allowed = refl; activation = refl })
        (concluded-IsCoherent p)

  -- Every result is coherent: the source is eligible exactly if no reason against it was recorded,
  -- so a refusal always names one; exactly then the decision is that approval is allowed; and
  -- activation is open exactly if approval is and the policy enables activation.
  pub evaluate-IsCoherent : IsCoherent (evaluate l c)
  unfolding evaluate
  evaluate-IsCoherent = under-IsCoherent c.policy

  approval_needs_eligible :
      (v : Services) (get_policy : ℕ → Option PolicyRow) (meanwhile : Meanwhile)
      (d : Execution.Decision) (s : Site) (now : ℕ)
      → succeeded_in (execute_decision v get_policy meanwhile d s now).1.approval ≡ true
      → d.eligible_for_automatic_approval ≡ true
  unfolding execute_decision
  approval_needs_eligible v get_policy meanwhile d s now h = ground arith

  -- Carrying out the stored decision of an evaluation approves the site only if a policy applied to
  -- the source and the source qualified under it.
  pub approved_only_Qualifies :
      (v : Services) (get_policy : ℕ → Option PolicyRow) (meanwhile : Meanwhile) (s : Site)
      (now : ℕ)
      → let d = record_decision (evaluate l c) in
        succeeded_in (execute_decision v get_policy meanwhile d s now).1.approval ≡ true
        → (p : _) × (c.policy ≡ some p) × Qualifies l c p
  unfolding record_decision
  approved_only_Qualifies v get_policy meanwhile s now h =
      (eligible_iff_Qualifies l c).0
        (approval_needs_eligible v get_policy meanwhile (record_decision (evaluate l c)) s now h)
