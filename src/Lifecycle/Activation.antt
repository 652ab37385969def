-- ===== src/Lifecycle/Activation.antt =====
-- services/websites.py and website_configuration.py: when a website becomes active.
use web_scraping_event_appli.Prelude.{ℕ, true, false, ◌≡◌, refl, sym, ap, ◌∙◌, Bool-cases, inl, inr}
use web_scraping_event_appli.Json.{Json}
use web_scraping_event_appli.Onboarding.{same_iff, active}
use web_scraping_event_appli.Website.{Website}
use web_scraping_event_appli.Result.{Result, ok, err}
use web_scraping_event_appli.Lifecycle.{
  Site, transition_website, save_draft_configuration, select_pattern, approve_configuration,
  reject_configuration, is_approved_or_beyond,
}
use web_scraping_event_appli.Lifecycle.Acts.{
  Services, Action, transition, save_draft, select, approve, reject, preview, act, result_or,
}
use web_scraping_event_appli.Lifecycle.Sync.{MayMove, transition_website_ok, moved_columns}
use web_scraping_event_appli.Lifecycle.Actions.{kept_or_approved, approve_ok, reject_ok, select_ok}

-- What the action says if it made an inactive website active.
abbrev pub Activates : Website → Action → Type 0
Activates w a = (now : ℕ) × (a ≡ transition active now) × MayMove w active

kept_flag : (w : Website) → w.is_active ≡ false → (kept_or_approved w).is_active ≡ false
kept_flag w off = elim (Bool-cases (is_approved_or_beyond w.onboarding_status)) [
  | inl e ↦ rw e off
  | inr e ↦ rw e
]

saved_flag :
    (configuration : Json) (s : Site)
    → (save_draft_configuration configuration s).website.is_active ≡ s.website.is_active
unfolding save_draft_configuration
saved_flag configuration s = refl

-- An inactive website becomes active by one action only: a transition to active, at a time when
-- the table allows it, an approved configuration and its version exist, and the city is active.
-- Approving, selecting, saving, rejecting and previewing never activate.
pub activation_only :
    (v : Services) (a : Action) (s : Site)
    → s.website.is_active ≡ false
    → (result_or s (act v a s)).website.is_active ≡ true
    → Activates s.website a
activation_only v (transition target now) s off =
    go (transition_website v.default_schedule s target now) refl
  where
    go :
        (r : Result Site)
        → transition_website v.default_schedule s target now ≡ r
        → (result_or s r).website.is_active ≡ true
        → Activates s.website (transition target now)
    go (err n e) h on = cc
    go (ok s') h on =
        let (may, e) = transition_website_ok v.default_schedule s s' target now h in
        let flag = (moved_columns v.default_schedule s.website target now).1 in
        let t : target ≡ active =
          (same_iff target active).0 (sym flag ∙ ap (λ x. x.website.is_active) (sym e) ∙ on) in
        (now, ap (λ x. transition x now) t, rw t at may)
activation_only v (approve user now) s off =
    go (approve_configuration v.registry v.pattern_of s user now) refl
  where
    go :
        (r : Result Site)
        → approve_configuration v.registry v.pattern_of s user now ≡ r
        → (result_or s r).website.is_active ≡ true
        → Activates s.website (approve user now)
    go (err n e) h on = cc
    go (ok s') h on =
        let (p, e) = approve_ok v.registry v.pattern_of s s' user now h in
        cc (sym (ap (λ x. x.website.is_active) e) ∙ on, kept_flag s.website off)
activation_only v (select name) s off = go (select_pattern v.registry v.build s name) refl
  where
    go :
        (r : Result Site)
        → select_pattern v.registry v.build s name ≡ r
        → (result_or s r).website.is_active ≡ true
        → Activates s.website (select name)
    go (err n e) h on = cc
    go (ok s') h on = elim (select_ok v.registry v.build s s' name h) [
      | inl c ↦ cc (c.same_flag)
      | inr d ↦ cc (d.off)
    ]
activation_only v (reject reason) s off = go (reject_configuration s reason) refl
  where
    go :
        (r : Result Site)
        → reject_configuration s reason ≡ r
        → (result_or s r).website.is_active ≡ true
        → Activates s.website (reject reason)
    go (err n e) h on = cc
    go (ok s') h on = elim (reject_ok s s' reason h) [
      | inl c ↦ cc (c.same_flag)
      | inr d ↦ cc (d.off)
    ]
activation_only v (save_draft configuration) s off = λ on. cc (saved_flag configuration s)
activation_only v (preview run) s off = λ on. cc
