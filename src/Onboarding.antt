-- ===== src/Onboarding.antt =====
-- backend/app/core/onboarding.py: the lifecycle states of a website and the table of allowed moves.
pub mod Walks
use web_scraping_event_appli.Prelude.{Bool, true, false, List, [], ◌∷◌, any, ◌≡◌, refl, ◌↔◌}

pub data Status : Type 0 where
  draft detecting detected needs_review approved active inactive unsupported failing archived :
      Status

pub Status-discrete : Discrete Status
Status-discrete = hlevel

-- `a == b` on the storage strings.
unfoldable pub same : Status → Status → Bool
unfolding Status-discrete
same a b = elim (Status-discrete a b) [ yes _ ↦ true | no _ ↦ false ]

pub same_iff : (a b : Status) → (same a b ≡ true) ↔ (a ≡ b)
unfolding same
same_iff a b =
    elim (Status-discrete a b)
      as (λ d. ((elim d [ yes _ ↦ true | no _ ↦ false ]) ≡ true) ↔ (a ≡ b)) [
        | yes e ↦ ((λ _. e), (λ _. refl))
        | no n ↦ ((λ f. cc), (λ e. absurd (n e)))
      ]

unfoldable pub allowed_transitions : Status → List Status
allowed_transitions draft = detecting ∷ needs_review ∷ approved ∷ archived ∷ []
allowed_transitions detecting = detected ∷ needs_review ∷ unsupported ∷ approved ∷ archived ∷ []
allowed_transitions detected = needs_review ∷ unsupported ∷ approved ∷ archived ∷ []
allowed_transitions needs_review = approved ∷ unsupported ∷ archived ∷ []
allowed_transitions approved = active ∷ archived ∷ []
allowed_transitions active = inactive ∷ failing ∷ archived ∷ []
allowed_transitions inactive = active ∷ archived ∷ []
allowed_transitions unsupported = draft ∷ needs_review ∷ archived ∷ []
allowed_transitions failing = active ∷ inactive ∷ archived ∷ []
allowed_transitions archived = []

unfoldable pub can_transition : Status → Status → Bool
unfolding allowed_transitions same
can_transition current target = any (same target) (allowed_transitions current)
