-- ===== src/Lifecycle/Sync.antt =====
-- services/websites.py and website_configuration.py: the columns of a website stay in step.
use web_scraping_event_appli.Prelude.{
  ℕ, Bool, true, false, not, none, ◌≡◌, ◌≢◌, sym, ap, ◌∙◌, arith, Bool-cases, inl, inr,
}
use web_scraping_event_appli.Json.{Json, present, is_some}
use web_scraping_event_appli.Onboarding.{
  Status, same, same_iff, can_transition, draft, active, inactive, failing, archived,
}
use web_scraping_event_appli.Website.{Website}
use web_scraping_event_appli.Scheduler.{set_paused}
use web_scraping_event_appli.Result.{ok}
use web_scraping_event_appli.Lifecycle.{
  Site, city_active, archive_time, ensure_default_schedule, moved, transition_website, set_status,
}

-- The states that a website can only reach through an activation.
abbrev pub was_activated : Status → Bool
was_activated active = true
was_activated inactive = true
was_activated failing = true
was_activated _ = false

-- `is_active` says the lifecycle state, a website that was activated carries the frozen
-- configuration that was approved, and an archived one the time when it was.
pub record InSync (w : Website) : Type 0 where
  pub flag : w.is_active ≡ same w.onboarding_status active
  pub frozen : was_activated w.onboarding_status ≡ true → present w.approved_pattern ≡ true
  pub versioned :
      was_activated w.onboarding_status ≡ true → is_some w.active_configuration_version ≡ true
  pub dated : w.onboarding_status ≡ archived → w.archived_at ≢ none

activation_source :
    (s t : Status)
    → can_transition s t ≡ true
    → was_activated t ≡ true
    → (same t active ≡ false)
    → was_activated s ≡ true
unfolding can_transition
activation_source draft t h k n = ground arith
activation_source _ t h k n = ground arith

-- What a move to the state needs of the website.
pub record MayMove (w : Website) (target : Status) : Type 0 where
  pub allowed : can_transition w.onboarding_status target ≡ true
  pub configured :
      same target active ≡ true
      → (present w.approved_pattern ≡ true) × (is_some w.active_configuration_version ≡ true)
  pub placed : same target active ≡ true → (is_some w.city_id ≡ true) × (city_active w ≡ true)

abbrev pub after_move : Json → Site → Status → ℕ → Site
after_move default s target now = record s {
  website = moved default target now s.website;
  jobs = set_paused s.jobs s.website.id (not (same target active));
}

pub transition_website_ok :
    (default : Json) (s s' : Site) (target : Status) (now : ℕ)
    → transition_website default s target now ≡ ok s'
    → MayMove s.website target × (s' ≡ after_move default s target now)
unfolding transition_website
transition_website_ok default s s' target now h = ground arith

pub transition_website_may :
    (default : Json) (s : Site) (target : Status) (now : ℕ)
    → MayMove s.website target
    → transition_website default s target now ≡ ok (after_move default s target now)
unfolding transition_website
transition_website_may default s target now m = ground (arith, m.configured, m.placed)

ensured :
    (default : Json) (v : Website)
    → let v' = ensure_default_schedule default v in
      (v'.onboarding_status ≡ v.onboarding_status)
      × (v'.is_active ≡ v.is_active)
      × (v'.approved_pattern ≡ v.approved_pattern)
      × (v'.active_configuration_version ≡ v.active_configuration_version)
      × (v'.archived_at ≡ v.archived_at)
unfolding ensure_default_schedule
ensured default v = ground arith

-- The default schedule is all that an activation adds beside the lifecycle columns.
pub moved_columns :
    (default : Json) (w : Website) (target : Status) (now : ℕ)
    → let w' = moved default target now w in
      (w'.onboarding_status ≡ target)
      × (w'.is_active ≡ same target active)
      × (w'.approved_pattern ≡ w.approved_pattern)
      × (w'.active_configuration_version ≡ w.active_configuration_version)
      × (w'.archived_at ≡ archive_time target now w.archived_at)
unfolding moved
moved_columns default w target now = ground arith

pub moved-InSync :
    (default : Json) (w : Website) (target : Status) (now : ℕ)
    → InSync w
    → MayMove w target
    → InSync (moved default target now w)
moved-InSync default w target now v m =
    let (status, flag, pattern, version, at) = moved_columns default w target now in
    let source = activation_source w.onboarding_status target m.allowed in
    let live : was_activated target ≡ true
        → (present w.approved_pattern ≡ true) × (is_some w.active_configuration_version ≡ true) =
      λ k. elim (Bool-cases (same target active)) [
        | inl on ↦ m.configured on
        | inr off ↦ (v.frozen (source k off), v.versioned (source k off))
      ] in
    record {
      flag = flag ∙ ap (λ t. same t active) (sym status);
      frozen = λ k. ap present pattern ∙ (live (ap was_activated (sym status) ∙ k)).0;
      versioned = λ k. ap is_some version ∙ (live (ap was_activated (sym status) ∙ k)).1;
      dated = λ k e. cc (sym at ∙ e, sym status ∙ k);
    }

pub set_status-InSync :
    (target : Status) (w : Website)
    → was_activated target ≡ false
    → target ≢ archived
    → InSync (set_status target w)
set_status-InSync target w p ne = record {
  flag = ground (arith, same_iff target active);
  frozen = λ k. cc;
  versioned = λ k. cc;
  dated = λ k. absurd (ne k);
}
