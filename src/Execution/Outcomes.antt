-- ===== src/Execution/Outcomes.antt =====
-- services/auto_onboarding_execution.py: what carrying out a decision can and cannot do.
use web_scraping_event_appli.Prelude.{
  ℕ, true, false, not, Option, none, some, List, [], ◌∷◌, is_empty, is_empty-append, ◌≡◌, ◌≢◌, refl,
  arith, ◌&&◌,
}
use web_scraping_event_appli.Json.{present, is_some}
use web_scraping_event_appli.Onboarding.{active, can_transition}
use web_scraping_event_appli.Website.{Website}
use web_scraping_event_appli.Lifecycle.{Site, city_active}
use web_scraping_event_appli.Lifecycle.Acts.{Services}
use web_scraping_event_appli.Execution.{
  Decision, was_archived, no_approved_configuration, city_not_active, other_version,
  not_a_transition, ActionResult, PolicyRow, block_if, same_option, policy_blockers, lookup_policy,
  activation_blockers, attempt_approval, attempt_activation, ExecutionOutcome, succeeded_in,
  outcome_decision, effective_decision, Meanwhile, execute_decision,
}

-- The rows that an execution stores, in order.
abbrev pub rows_of : ExecutionOutcome → List ActionResult
rows_of o = elim o.approval [
  | none ↦ elim o.activation [ none ↦ [] | some b ↦ b ∷ [] ]
  | some a ↦ a ∷ (elim o.activation [ none ↦ [] | some b ↦ b ∷ [] ])
]

module _ (v : Services) (get_policy : ℕ → Option PolicyRow) (meanwhile : Meanwhile) where
  -- The outcome that the execution reports is the one that is later read back from the stored rows.
  pub outcome_read_back :
      (d : Decision) (s : Site) (now : ℕ)
      → let o = (execute_decision v get_policy meanwhile d s now).1 in
        outcome_decision o ≡ effective_decision d.final_decision (rows_of o)
  unfolding execute_decision attempt_approval attempt_activation outcome_decision effective_decision
  outcome_read_back d s now = ground arith

  -- Unless an approval succeeded the site is as it was, and no activation was tried. A decision
  -- that is not eligible tries nothing at all.
  pub unapproved_unchanged :
      (d : Decision) (s : Site) (now : ℕ)
      → let (s', o) = execute_decision v get_policy meanwhile d s now in
        succeeded_in o.approval ≡ false
        → (s' ≡ s)
          × (o.activation ≡ none)
          × (d.eligible_for_automatic_approval ≡ false → o.approval ≡ none)
  unfolding execute_decision attempt_approval
  unapproved_unchanged d s now h = ground arith

-- What must hold of the policy when an activation goes through: it exists, is active, still
-- enables activation, and has the version that the decision was made under.
pub record PolicyStands (get_policy : ℕ → Option PolicyRow) (d : Decision) : Type 0 where
  pub policy : PolicyRow
  pub stored : lookup_policy get_policy d.policy_id ≡ some policy
  pub is_active : policy.active ≡ true
  pub enables : policy.automatic_activation_enabled ≡ true
  pub same_version : d.policy_version ≡ some policy.version

stands :
    (p : Option PolicyRow) (version : Option ℕ)
    → is_empty (policy_blockers p version) ≡ true
    → (policy : PolicyRow) × (p ≡ some policy)
      × (policy.active ≡ true)
      × (policy.automatic_activation_enabled ≡ true)
      × (version ≡ some policy.version)
stands none version h = cc
stands (some p) version h = (p, refl, ground arith, ground arith, ground arith)

-- What the re-check found on the site.
pub record SiteStands (d : Decision) (w : Website) : Type 0 where
  pub unarchived : w.archived_at ≡ none
  pub configured : present w.approved_pattern ≡ true
  pub in_active_city : city_active w ≡ true
  pub evaluated_version :
      d.configuration_version ≢ none → w.active_configuration_version ≡ d.configuration_version
  pub legal : can_transition w.onboarding_status active ≡ true

evaluated :
    (d u : Option ℕ)
    → is_empty (block_if (is_some d && not (same_option u d)) other_version) ≡ true
    → d ≢ none
    → u ≡ d
evaluated none u h ne = absurd (ne refl)
evaluated (some a) none h ne = cc
evaluated (some a) (some b) h ne = ground arith

unblocked :
    (get_policy : ℕ → Option PolicyRow) (d : Decision) (w : Website)
    → is_empty (activation_blockers get_policy d w) ≡ true
    → PolicyStands get_policy d × SiteStands d w
unfolding activation_blockers
unblocked get_policy d w h =
    let (a, h1) = is_empty-append (block_if (is_some w.archived_at) was_archived) _ h in
    let (b, h2) =
      is_empty-append (block_if (not (present w.approved_pattern)) no_approved_configuration) _
        h1 in
    let (c, h3) = is_empty-append (block_if (not (city_active w)) city_not_active) _ h2 in
    let (e, h4) =
      is_empty-append
        (block_if
          (is_some d.configuration_version
            && not (same_option w.active_configuration_version d.configuration_version))
          other_version)
        _ h3 in
    let (f, g) =
      is_empty-append (block_if (not (can_transition w.onboarding_status active)) not_a_transition)
        _ h4 in
    let (p, stored, on, enabled, same) =
      stands (lookup_policy get_policy d.policy_id) d.policy_version g in
    (
      record {
        policy = p;
        stored = stored;
        is_active = on;
        enables = enabled;
        same_version = same;
      },
      record {
        unarchived = ground arith;
        configured = ground arith;
        in_active_city = ground arith;
        evaluated_version = evaluated d.configuration_version w.active_configuration_version e;
        legal = ground arith;
      },
    )

gate :
    (v : Services) (get_policy : ℕ → Option PolicyRow) (d : Decision) (s : Site) (now : ℕ)
    → (attempt_activation v get_policy d s now).1.succeeded ≡ true
    → is_empty (activation_blockers get_policy d s.website) ≡ true
unfolding attempt_activation
gate v get_policy d s now h = ground arith

steps_taken :
    (v : Services) (get_policy : ℕ → Option PolicyRow) (meanwhile : Meanwhile) (d : Decision)
    (s : Site) (now : ℕ)
    → succeeded_in (execute_decision v get_policy meanwhile d s now).1.activation ≡ true
    → (d.eligible_for_automatic_approval ≡ true)
      × (d.activation_policy_enabled ≡ true)
      × (succeeded_in (execute_decision v get_policy meanwhile d s now).1.approval ≡ true)
      × ((attempt_activation v get_policy d
            (meanwhile (attempt_approval v d s now).0)
            now).1.succeeded
          ≡ true)
unfolding execute_decision
steps_taken v get_policy meanwhile d s now h = ground arith

-- An automatic activation went through only if the decision was eligible under a policy that
-- enabled activation, the approval succeeded, the policy still stands unchanged, and the site as
-- it was read again is unarchived, configured with the evaluated version, and in an active city.
pub activated_only :
    (v : Services) (get_policy : ℕ → Option PolicyRow) (meanwhile : Meanwhile) (d : Decision)
    (s : Site) (now : ℕ)
    → let o = (execute_decision v get_policy meanwhile d s now).1 in
      succeeded_in o.activation ≡ true
      → (d.eligible_for_automatic_approval ≡ true)
        × (d.activation_policy_enabled ≡ true)
        × (succeeded_in o.approval ≡ true)
        × PolicyStands get_policy d
        × SiteStands d (meanwhile (attempt_approval v d s now).0).website
activated_only v get_policy meanwhile d s now h =
    let again = meanwhile (attempt_approval v d s now).0 in
    let (eligible, enabled, approved, done) = steps_taken v get_policy meanwhile d s now h in
    let (policy, site) =
      unblocked get_policy d again.website (gate v get_policy d again now done) in
    (eligible, enabled, approved, policy, site)
