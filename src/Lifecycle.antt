-- ===== src/Lifecycle.antt =====
-- backend/app/services/websites.py and website_configuration.py: the operations that move a website
-- through its lifecycle. A site is its website row, its job table and its latest preview run.
-- Notifications are not modelled: they change none of these.
pub mod Acts
pub mod Sync
pub mod Actions
pub mod Activation
pub mod Approval
use web_scraping_event_appli.Prelude.{
  ℕ, suc, ◌+◌, String, str_eq, Bool, true, false, not, ◌&&◌, ◌||◌, Option, none, some, ◌==◌,
  if◌then◌else◌, List, [], ◌∷◌,
}
use web_scraping_event_appli.Json.{Json, present, is_some}
use web_scraping_event_appli.Onboarding.{
  Status, same, can_transition, draft, needs_review, approved, active, inactive, unsupported,
  failing, archived,
}
use web_scraping_event_appli.Website.{Website, City}
use web_scraping_event_appli.Scheduler.{Table, RunStatus, success, partial, set_paused}
use web_scraping_event_appli.Result.{
  Result, ok, err, ◌>>=◌, ◌>>◌, raise_if, illegal_transition, not_approved, no_active_city,
  no_draft, archived_website, no_preview, stale_preview, preview_failed, browser_unsupported,
  empty_reason, unknown_pattern, selection_not_allowed, invalid_configuration,
}

-- The columns of ExtractionRun that approval reads.
pub record PreviewRun : Type 0 where
  pub id : ℕ
  pub configuration_version : Option ℕ
  pub status : RunStatus
  pub events_valid : ℕ

pub record Site : Type 0 where
  pub website : Website
  pub jobs : Table
  pub latest_preview : Option PreviewRun

abbrev pub city_active : Website → Bool
city_active w = elim w.city [ none ↦ false | some c ↦ c.is_active ]

-- `DEFAULT_SCHEDULE_CONFIG`, as JSON, is given by the caller.
unfoldable pub ensure_default_schedule : Json → Website → Website
ensure_default_schedule default w =
    if is_some w.schedule_config
    then w
    else if not (present w.approved_pattern) || not w.is_active
    then w
    else record w { schedule_config = some default }

abbrev pub archive_time : Status → ℕ → Option ℕ → Option ℕ
archive_time archived now before = some now
archive_time _ now before = before

unfoldable pub moved : Json → Status → ℕ → Website → Website
unfolding ensure_default_schedule
moved default target now w =
    let w' = record w {
      onboarding_status = target;
      is_active = same target active;
      archived_at = archive_time target now w.archived_at;
    } in
    if same target active then ensure_default_schedule default w' else w'

unfoldable pub transition_website : Json → Site → Status → ℕ → Result Site
transition_website default s target now = do
  raise_if (not (can_transition s.website.onboarding_status target)) 409
      (illegal_transition s.website.onboarding_status target)
  raise_if
      (same target active
        && (not (present s.website.approved_pattern)
            || not (is_some s.website.active_configuration_version)))
      409 not_approved
  raise_if (same target active && (not (is_some s.website.city_id) || not (city_active s.website)))
      409 no_active_city
  ok (record s {
    website = moved default target now s.website;
    jobs = set_paused s.jobs s.website.id (not (same target active));
  })

unfoldable pub save_draft_configuration : Json → Site → Site
save_draft_configuration configuration s = record s {
  website = record (s.website) {
    configuration = some configuration;
    configuration_version = s.website.configuration_version + 1;
  };
}

-- The states from which an administrator may pick a pattern by hand.
abbrev pub is_selectable : Status → Bool
is_selectable draft = true
is_selectable unsupported = true
is_selectable needs_review = true
is_selectable _ = false

-- `_ALREADY_APPROVED_OR_BEYOND`.
abbrev pub is_approved_or_beyond : Status → Bool
is_approved_or_beyond approved = true
is_approved_or_beyond active = true
is_approved_or_beyond inactive = true
is_approved_or_beyond failing = true
is_approved_or_beyond _ = false

-- A move without the checks of `transition_website`, to a state that is not active.
abbrev pub set_status : Status → Website → Website
set_status target w = record w { onboarding_status = target; is_active = false }

-- What the registry says of a pattern: none, or whether it needs a browser.
abbrev pub Registry : Type 0
Registry = String → Option Bool

-- Where a scaffold configuration points.
pub data Endpoint : Type 0 where
  api_endpoint listing_url : String → Endpoint

abbrev pub reads_api : String → Bool
reads_api p =
    str_eq p "wordpress_rest" || str_eq p "the_events_calendar" || str_eq p "livewhale_json"

abbrev pub filled : Option String → Option String
filled none = none
filled (some url) = if str_eq url "" then none else some url

unfoldable pub scaffold_endpoint : String → Website → Endpoint
scaffold_endpoint pattern_name w = elim (filled w.event_listing_url) [
  | none ↦ listing_url w.base_url
  | some url ↦ if reads_api pattern_name then api_endpoint url else listing_url url
]

-- The last steps of a selection, for the scaffold that the schema made, if it accepted it.
unfoldable pub select_with : Site → Option Json → Result Site
unfolding save_draft_configuration
select_with s none = err 500 invalid_configuration
select_with s (some configuration) =
    let saved = save_draft_configuration configuration s in
    ok (
      if can_transition saved.website.onboarding_status needs_review
      then record saved { website = set_status needs_review saved.website }
      else saved)

unfoldable pub select_pattern :
    Registry → (build : String → Endpoint → Option Json) → Site → String → Result Site
unfolding select_with
select_pattern registry build s pattern_name = do
  raise_if (not (is_some (registry pattern_name))) 400 (unknown_pattern pattern_name)
  raise_if (not (is_selectable s.website.onboarding_status)) 409
      (selection_not_allowed s.website.onboarding_status)
  select_with s (build pattern_name (scaffold_endpoint pattern_name s.website))

abbrev pub completed : RunStatus → Bool
completed success = true
completed partial = true
completed _ = false

abbrev pub is_version : Option ℕ → ℕ → Bool
is_version none v = false
is_version (some u) v = u == v

unfoldable pub require_current_preview : Site → Result (Unit {0})
require_current_preview s = elim s.latest_preview [
  | none ↦ err 409 no_preview
  | some run ↦
      raise_if (not (is_version run.configuration_version s.website.configuration_version)) 409
        stale_preview
      >> raise_if (not (completed run.status)) 409 preview_failed
]

-- What approval writes, once every check has passed.
abbrev pub freeze : Option ℕ → ℕ → Website → Website
freeze user now w = record w {
  approved_pattern = w.configuration;
  approved_at = some now;
  approved_by_user_id = user;
  active_configuration_version = some w.configuration_version;
}

-- The lookup of the draft's pattern: `model_validate` gives its name, or raises.
unfoldable pub check_pattern : Registry → Option String → Result (Unit {0})
check_pattern registry none = err 500 invalid_configuration
check_pattern registry (some pattern_name) = elim (registry pattern_name) [
  | none ↦ err 409 (unknown_pattern pattern_name)
  | some browser_required ↦ raise_if browser_required 409 browser_unsupported
]

unfoldable pub approve_configuration :
    Registry → (pattern_of : Option Json → Option String) → Site → Option ℕ → ℕ → Result Site
approve_configuration registry pattern_of s user now = do
  raise_if (not (present s.website.configuration)) 409 no_draft
  raise_if (same s.website.onboarding_status archived) 409 archived_website
  check_pattern registry (pattern_of s.website.configuration)
  raise_if (not (is_some s.website.city_id) || not (city_active s.website)) 409 no_active_city
  require_current_preview s
  raise_if
      (not (is_approved_or_beyond s.website.onboarding_status)
        && not (can_transition s.website.onboarding_status approved))
      409 (illegal_transition s.website.onboarding_status approved)
  let kept =
      if is_approved_or_beyond s.website.onboarding_status
      then s.website
      else set_status approved s.website
  ok (record s { website = freeze user now kept })

-- The reason comes stripped of spaces at its ends.
unfoldable pub reject_configuration : Site → (reason : String) → Result Site
reject_configuration s reason = do
  raise_if (str_eq reason "") 400 empty_reason
  let w = s.website
  ok (record s {
    website =
        if present w.approved_pattern
        then record w {
          configuration = w.approved_pattern;
          configuration_version = w.configuration_version + 1;
        }
        else if can_transition w.onboarding_status unsupported
        then record (set_status unsupported w) { configuration = none }
        else record w { configuration = none };
  })
