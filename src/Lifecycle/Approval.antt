-- ===== src/Lifecycle/Approval.antt =====
-- services/websites.py and website_configuration.py: when a configuration is approved.
use web_scraping_event_appli.Prelude.{
  ℕ, String, Bool, true, false, Option, none, some, ◌≡◌, ◌≢◌, ◌⊎◌, ◌↔◌, refl, sym, ap, ◌∙◌, arith,
  Option-cases, Bool-cases, inl, inr, if◌then◌else◌,
}
use web_scraping_event_appli.Json.{present, is_some}
use web_scraping_event_appli.Onboarding.{
  Status, same, same_iff, can_transition, draft, detecting, detected, needs_review, approved,
  active, inactive, failing, unsupported, archived,
}
use web_scraping_event_appli.Result.{ok}
use web_scraping_event_appli.Lifecycle.{
  Site, PreviewRun, Registry, approve_configuration, freeze, is_approved_or_beyond, check_pattern,
  require_current_preview, city_active, completed,
}
use web_scraping_event_appli.Lifecycle.Acts.{Services}
use web_scraping_event_appli.Lifecycle.Actions.{kept_or_approved, approve_ok}

-- The states of a website that was approved before, archived ones apart.
abbrev pub already_approved : Status → Bool
already_approved approved = true
already_approved active = true
already_approved inactive = true
already_approved failing = true
already_approved draft = false
already_approved detecting = false
already_approved detected = false
already_approved needs_review = false
already_approved unsupported = false
already_approved archived = false

approved_before : (t : Status) → is_approved_or_beyond t ≡ already_approved t
approved_before draft = refl
approved_before detecting = refl
approved_before detected = refl
approved_before needs_review = refl
approved_before approved = refl
approved_before active = refl
approved_before inactive = refl
approved_before failing = refl
approved_before unsupported = refl
approved_before archived = refl

-- What an approval needs: a draft of a registered pattern that runs without a browser, an active
-- city, a completed preview of this very draft version, and a state from which the table allows it.
pub record Approvable (v : Services) (s : Site) : Type 0 where
  pub drafted : present s.website.configuration ≡ true
  pub kept : s.website.onboarding_status ≢ archived
  pub pattern : String
  pub names : v.pattern_of s.website.configuration ≡ some pattern
  pub registered : v.registry pattern ≡ some false
  pub placed : is_some s.website.city_id ≡ true
  pub in_active_city : city_active s.website ≡ true
  pub run : PreviewRun
  pub previewed : s.latest_preview ≡ some run
  pub current : run.configuration_version ≡ some s.website.configuration_version
  pub succeeded : completed run.status ≡ true
  pub legal :
      (already_approved s.website.onboarding_status ≡ true)
      ⊎ (can_transition s.website.onboarding_status approved ≡ true)

-- The site after an approval, column by column; all others are kept.
abbrev pub after_approval : Site → Option ℕ → ℕ → Site
after_approval s user now =
    let before = already_approved s.website.onboarding_status in
    record s {
      website = record (s.website) {
        onboarding_status = if before then s.website.onboarding_status else approved;
        is_active = if before then s.website.is_active else false;
        approved_pattern = s.website.configuration;
        approved_at = some now;
        approved_by_user_id = user;
        active_configuration_version = some s.website.configuration_version;
      };
    }

frozen-after_approval :
    (s : Site) (user : Option ℕ) (now : ℕ)
    → record s { website = freeze user now (kept_or_approved s.website) }
      ≡ after_approval s user now
frozen-after_approval s user now =
    let agree = approved_before s.website.onboarding_status in
    elim (Bool-cases (already_approved s.website.onboarding_status)) [
      | inl e ↦ rw (agree, e) refl
      | inr e ↦ rw (agree, e) refl
    ]

check_ok :
    (registry : Registry) (o : Option String) (name : String)
    → o ≡ some name
    → registry name ≡ some false
    → check_pattern registry o ≡ ok tt
unfolding check_pattern
check_ok registry o name e r = ground arith

ok_check :
    (registry : Registry) (o : Option String)
    → check_pattern registry o ≡ ok tt
    → (name : String) × (o ≡ some name) × (registry name ≡ some false)
unfolding check_pattern
ok_check registry none h = cc
ok_check registry (some name) h = (name, refl, ground arith)

preview_ok :
    (s : Site) (run : PreviewRun)
    → s.latest_preview ≡ some run
    → run.configuration_version ≡ some s.website.configuration_version
    → completed run.status ≡ true
    → require_current_preview s ≡ ok tt
unfolding require_current_preview
preview_ok s run e c d = ground arith

ok_preview :
    (s : Site)
    → require_current_preview s ≡ ok tt
    → (run : PreviewRun) × (s.latest_preview ≡ some run)
      × (run.configuration_version ≡ some s.website.configuration_version)
      × (completed run.status ≡ true)
unfolding require_current_preview
ok_preview s h = elim (Option-cases s.latest_preview) [
  | inl e ↦ absurd (ground arith)
  | inr (run, e) ↦ (run, e, ground arith, ground arith)
]

-- Approval succeeds on an approvable site.
Approvable-ok :
    (v : Services) (s : Site) (user : Option ℕ) (now : ℕ)
    → Approvable v s
    → approve_configuration v.registry v.pattern_of s user now ≡ ok (after_approval s user now)
unfolding approve_configuration
Approvable-ok v s user now a =
    let pattern =
      check_ok v.registry (v.pattern_of s.website.configuration) a.pattern a.names a.registered in
    let run = preview_ok s a.run a.previewed a.current a.succeeded in
    let agree = approved_before s.website.onboarding_status in
    let frozen = frozen-after_approval s user now in
    ground (arith, pattern, run, agree, frozen, same_iff s.website.onboarding_status archived)

checks_passed :
    (v : Services) (s s' : Site) (user : Option ℕ) (now : ℕ)
    → approve_configuration v.registry v.pattern_of s user now ≡ ok s'
    → (same s.website.onboarding_status archived ≡ false)
      × (check_pattern v.registry (v.pattern_of s.website.configuration) ≡ ok tt)
      × (is_some s.website.city_id ≡ true)
      × (city_active s.website ≡ true)
      × (require_current_preview s ≡ ok tt)
      × ((already_approved s.website.onboarding_status ≡ true)
          ⊎ (can_transition s.website.onboarding_status approved ≡ true))
unfolding approve_configuration
checks_passed v s s' user now h =
    let agree = approved_before s.website.onboarding_status in ground (arith, agree)

-- Approval succeeds exactly on the approvable sites. It then stores the draft and its version as the
-- approved ones, with the time and the user, moves a website that was not yet approved to approved and inactive, and leaves
-- the state and the activity of one that was approved before.
pub approve_configuration_iff :
    (v : Services) (s s' : Site) (user : Option ℕ) (now : ℕ)
    → (approve_configuration v.registry v.pattern_of s user now ≡ ok s')
      ↔ (Approvable v s × (s' ≡ after_approval s user now))
approve_configuration_iff v s s' user now = (only, enough)
  where
    only :
        approve_configuration v.registry v.pattern_of s user now ≡ ok s'
        → Approvable v s × (s' ≡ after_approval s user now)
    only h =
        let (drafted, result) = approve_ok v.registry v.pattern_of s s' user now h in
        let (kept, pattern, placed, city, fresh_run, legal) = checks_passed v s s' user now h in
        let (name, names, registered) =
          ok_check v.registry (v.pattern_of s.website.configuration) pattern in
        let (run, previewed, current, succeeded) = ok_preview s fresh_run in
        (
          record {
            drafted = drafted;
            kept = λ e. cc (kept, (same_iff s.website.onboarding_status archived).1 e);
            pattern = name;
            names = names;
            registered = registered;
            placed = placed;
            in_active_city = city;
            run = run;
            previewed = previewed;
            current = current;
            succeeded = succeeded;
            legal = legal;
          },
          result ∙ frozen-after_approval s user now,
        )

    enough :
        Approvable v s × (s' ≡ after_approval s user now)
        → approve_configuration v.registry v.pattern_of s user now ≡ ok s'
    enough (a, e) = Approvable-ok v s user now a ∙ ap ok (sym e)
