-- ===== src/Lifecycle/Actions.antt =====
-- services/websites.py and website_configuration.py: the lifecycle columns stay in step under any
-- sequence of actions, and only an activation makes a website active.
use web_scraping_event_appli.Prelude.{
  ℕ, String, Bool, true, false, Option, none, some, List, [], ◌∷◌, ◌≡◌, ◌≢◌, ◌⊎◌, refl, sym, ap,
  subst, ◌∙◌, arith, Bool-cases, inl, inr, if◌then◌else◌,
}
use web_scraping_event_appli.Json.{Json, present, is_some}
use web_scraping_event_appli.Onboarding.{
  Status, same, can_transition, needs_review, approved, active, unsupported, archived,
}
use web_scraping_event_appli.Website.{Website}
use web_scraping_event_appli.Result.{Result, ok, err}
use web_scraping_event_appli.Lifecycle.{
  Site, Registry, Endpoint, transition_website, save_draft_configuration, select_pattern,
  select_with, scaffold_endpoint, approve_configuration, reject_configuration, set_status, freeze,
  is_approved_or_beyond,
}
use web_scraping_event_appli.Lifecycle.Acts.{
  Services, Action, transition, save_draft, select, approve, reject, preview, act, act_all,
  result_or,
}
use web_scraping_event_appli.Lifecycle.Sync.{
  InSync, was_activated, transition_website_ok, moved-InSync, set_status-InSync,
}

-- A result, if there is one, is in step.
abbrev Good : Site → Result Site → Type 0
Good s r = InSync (result_or s r).website

abbrev is_active_state : Status → Bool
is_active_state t = same t active

abbrev pub kept_or_approved : Website → Website
kept_or_approved w = if is_approved_or_beyond w.onboarding_status then w else set_status approved w

kept-InSync : (w : Website) → InSync w → InSync (kept_or_approved w)
kept-InSync w v = elim (Bool-cases (is_approved_or_beyond w.onboarding_status)) [
  | inl e ↦ rw e v
  | inr e ↦ rw e (set_status-InSync approved w refl (λ k. cc))
]

freeze-InSync :
    (user : Option ℕ) (now : ℕ) (w : Website)
    → present w.configuration ≡ true
    → InSync w
    → InSync (freeze user now w)
freeze-InSync user now w p v = record {
  flag = v.flag;
  frozen = λ k. p;
  versioned = λ k. refl;
  dated = v.dated;
}

kept_configuration :
    (w : Website) → present (kept_or_approved w).configuration ≡ present w.configuration
kept_configuration w = elim (Bool-cases (is_approved_or_beyond w.onboarding_status)) [
  | inl e ↦ rw e
  | inr e ↦ rw e
]

pub approve_ok :
    (registry : Registry) (pattern_of : Option Json → Option String) (s s' : Site) (user : Option ℕ)
    (now : ℕ)
    → approve_configuration registry pattern_of s user now ≡ ok s'
    → (present s.website.configuration ≡ true)
      × (s' ≡ record s { website = freeze user now (kept_or_approved s.website) })
unfolding approve_configuration
approve_ok registry pattern_of s s' user now h = ground arith

-- The lifecycle columns are those of the other row.
pub record SameColumns (w w' : Website) : Type 0 where
  pub same_flag : w'.is_active ≡ w.is_active
  pub same_status : w'.onboarding_status ≡ w.onboarding_status
  pub same_pattern : w'.approved_pattern ≡ w.approved_pattern
  pub same_version : w'.active_configuration_version ≡ w.active_configuration_version
  pub same_time : w'.archived_at ≡ w.archived_at

SameColumns-InSync : (w w' : Website) → SameColumns w w' → InSync w → InSync w'
SameColumns-InSync w w' c v = record {
  flag = c.same_flag ∙ v.flag ∙ ap (λ t. same t active) (sym c.same_status);
  frozen = λ k. ap present c.same_pattern ∙ v.frozen (ap was_activated (sym c.same_status) ∙ k);
  versioned =
      λ k. ap is_some c.same_version ∙ v.versioned (ap was_activated (sym c.same_status) ∙ k);
  dated = λ k e. v.dated (sym c.same_status ∙ k) (sym c.same_time ∙ e);
}

-- The website was moved to a state that no website activates from.
pub record Demoted (w' : Website) : Type 0 where
  pub off : w'.is_active ≡ false
  pub demoted : (w'.onboarding_status ≡ needs_review) ⊎ (w'.onboarding_status ≡ unsupported)

Demoted-InSync : (w' : Website) → Demoted w' → InSync w'
unfolding same
Demoted-InSync w' d = elim d.demoted [
  | inl e ↦ at needs_review e refl refl (λ k. cc)
  | inr e ↦ at unsupported e refl refl (λ k. cc)
]
  where
    at :
        (t : Status)
        → w'.onboarding_status ≡ t
        → was_activated t ≡ false
        → (is_active_state t) ≡ false
        → t ≢ archived
        → InSync w'
    at t e p q ne = record {
      flag = d.off ∙ sym (ap is_active_state e ∙ q);
      frozen = λ k. cc (ap was_activated e);
      versioned = λ k. cc (ap was_activated e);
      dated = λ k. absurd (ne (sym e ∙ k));
    }

pub reject_ok :
    (s s' : Site) (reason : String)
    → reject_configuration s reason ≡ ok s'
    → SameColumns s.website s'.website ⊎ Demoted s'.website
unfolding reject_configuration
reject_ok s s' reason h = elim (Bool-cases (present s.website.approved_pattern)) [
  | inl p ↦ inl (ground arith)
  | inr p ↦ elim (Bool-cases (can_transition s.website.onboarding_status unsupported)) [
    | inl c ↦ inr (ground arith)
    | inr c ↦ inl (ground arith)
  ]
]

select_with_ok :
    (s s' : Site) (o : Option Json)
    → select_with s o ≡ ok s'
    → SameColumns s.website s'.website ⊎ Demoted s'.website
unfolding select_with
select_with_ok s s' none h = cc
select_with_ok s s' (some j) h =
    elim (Bool-cases (can_transition s.website.onboarding_status needs_review)) [
      | inl c ↦ inr (ground arith)
      | inr c ↦ inl (ground arith)
    ]

pub select_ok :
    (registry : Registry) (build : String → Endpoint → Option Json) (s s' : Site) (name : String)
    → select_pattern registry build s name ≡ ok s'
    → SameColumns s.website s'.website ⊎ Demoted s'.website
unfolding select_pattern
select_ok registry build s s' name h =
    select_with_ok s s' (build name (scaffold_endpoint name s.website)) (ground arith)

act-InSync : (v : Services) (a : Action) (s : Site) → InSync s.website → Good s (act v a s)
act-InSync v (transition target now) s i = go (act v (transition target now) s) refl
  where
    go : (r : Result Site) → transition_website v.default_schedule s target now ≡ r → Good s r
    go (err n e) h = i
    go (ok s') h =
        let (may, e) = transition_website_ok v.default_schedule s s' target now h in
        subst (λ x. InSync x.website) (sym e)
          (moved-InSync v.default_schedule s.website target now i may)
act-InSync v (approve user now) s i = go (act v (approve user now) s) refl
  where
    go : (r : Result Site) → approve_configuration v.registry v.pattern_of s user now ≡ r → Good s r
    go (err n e) h = i
    go (ok s') h =
        let (p, e) = approve_ok v.registry v.pattern_of s s' user now h in
        subst (λ x. InSync x.website) (sym e)
          (freeze-InSync user now (kept_or_approved s.website) (kept_configuration s.website ∙ p)
            (kept-InSync s.website i))
act-InSync v (select name) s i = go (select_pattern v.registry v.build s name) refl
  where
    go : (r : Result Site) → select_pattern v.registry v.build s name ≡ r → Good s r
    go (err n e) h = i
    go (ok s') h = elim (select_ok v.registry v.build s s' name h) [
      | inl c ↦ SameColumns-InSync s.website s'.website c i
      | inr d ↦ Demoted-InSync s'.website d
    ]
act-InSync v (reject reason) s i = go (reject_configuration s reason) refl
  where
    go : (r : Result Site) → reject_configuration s reason ≡ r → Good s r
    go (err n e) h = i
    go (ok s') h = elim (reject_ok s s' reason h) [
      | inl c ↦ SameColumns-InSync s.website s'.website c i
      | inr d ↦ Demoted-InSync s'.website d
    ]
act-InSync v (save_draft configuration) s i =
    SameColumns-InSync s.website (save_draft_configuration configuration s).website
      (unfold save_draft_configuration in saved) i
  where
    saved : SameColumns s.website (save_draft_configuration configuration s).website
    saved =
        unfold save_draft_configuration in
        record {
          same_flag = refl;
          same_status = refl;
          same_pattern = refl;
          same_version = refl;
          same_time = refl;
        }
act-InSync v (preview run) s i = i

-- A website whose columns are in step stays so whatever is done to it, in any order, with or without
-- errors: `is_active` says whether its state is active, one that is active, inactive or failing has
-- an approved configuration and its version, and an archived one has the time of its archiving.
pub act_all-InSync :
    (v : Services) (actions : List Action) (s : Site)
    → InSync s.website
    → InSync (act_all v actions s).website
unfolding act_all
act_all-InSync v [] s i = i
act_all-InSync v (a ∷ as') s i = act_all-InSync v as' (result_or s (act v a s)) (act-InSync v a s i)
