-- ===== src/Jobs/Process.antt =====
-- backend/app/services/bulk_onboarding.py: one onboarding job, from its URL to a terminal status.
-- An exception undoes what is not committed. Audit entries are not modelled, and the queries on
-- jobs and websites raise nothing.
use web_scraping_event_appli.Prelude.{
  ℕ, ◌+◌, String, str_eq, Bool, true, false, not, ◌||◌, Option, none, some, List, [], ◌∷◌, ◌++◌,
  is_empty, ◌==◌, if◌then◌else◌,
}
use web_scraping_event_appli.Json.{is_some}
use web_scraping_event_appli.Onboarding.{draft}
use web_scraping_event_appli.Website.{Website}
use web_scraping_event_appli.Matching.{Urls, WebsiteMatch, find_website_match}
use web_scraping_event_appli.Jobs.{
  JobStatus, Job, Store, FailureReason, validating, locating_existing, creating_website, detecting,
  configuring, previewing, needs_review, unsupported, blocked, failed, duplicate, not_fetched,
  already_queued, matched_archived, not_created, recovery_failed, configuration_failed, reported,
  blocking, save, find_active_job_for_url,
}
use web_scraping_event_appli.Jobs.World.{
  World, Attempt, returned, raised, PreflightResult, SiteMetadata, Preview, AutoOnboardingResult,
  BrowserRecoveryResult, outcome_status, recovery_job_status, or_text, fail, resolve_document,
}

-- The reason is cut to 500 characters only here and in `fail`, and is told by its constructor.
unfoldable pub link_existing : Job → WebsiteMatch → (now : ℕ) → Job
link_existing j m now = record j {
  duplicate_of_website_id = some m.website.id;
  website_id = some m.website.id;
  status = duplicate;
  completed_at = some now;
  failure_reason = if m.is_archived then some (matched_archived m.website.id) else none;
}

abbrev pub find_website : ℕ → List Website → Option Website
find_website id [] = none
find_website id (w ∷ ws) = let rest = find_website id ws in if w.id == id then some w else rest

-- repositories/website.py: a new website starts inactive, as a draft.
unfoldable pub new_website : World → (id : ℕ) → Job → SiteMetadata → Website
new_website w id j metadata = record {
  id = id;
  city_id = j.city_id;
  city = elim j.city_id [ none ↦ none | some c ↦ w.get_city c ];
  base_url = metadata.base_url;
  event_listing_url = some metadata.event_listing_url;
  is_active = false;
  onboarding_status = draft;
  proposed_pattern = none;
  approved_pattern = none;
  configuration = none;
  configuration_origin = none;
  schedule_config = none;
  approved_at = none;
  approved_by_user_id = none;
  configuration_version = 0;
  active_configuration_version = none;
  last_success_at = none;
  last_failure_at = none;
  consecutive_failure_count = 0;
  archived_at = none;
}

abbrev pub create_website : World → Store → Job → SiteMetadata → Store
create_website w s j metadata = record s {
  websites = s.websites ++ (new_website w s.next_website_id j metadata ∷ []);
  next_website_id = s.next_website_id + 1;
}

-- How a call of `process_job` ends: it returns, or an exception leaves it with the store as it was
-- last committed.
pub data Ending : Type 0 where
  done : Store → Ending
  escaped : Store → String → Ending

unfoldable pub reason_of : AutoOnboardingResult → Option FailureReason
reason_of r = elim r.error [
  | none ↦ if is_empty r.blocking_reasons then none else some (blocking r.blocking_reasons)
  | some e ↦
      if str_eq e ""
      then if is_empty r.blocking_reasons then none else some (blocking r.blocking_reasons)
      else some (reported e)
]

abbrev pub is_problem : JobStatus → Bool
is_problem failed = true
is_problem blocked = true
is_problem unsupported = true
is_problem needs_review = true
is_problem _ = false

abbrev pub with_preview : Option Preview → Job → Job
with_preview none j = j
with_preview (some p) j = record j {
  preview_run_id = p.run_id;
  events_found = p.events_found;
  events_valid = p.events_valid;
  events_rejected = p.events_rejected;
}

unfoldable pub recorded : AutoOnboardingResult → Website → Job → (now : ℕ) → Job
recorded r website j now =
    let status = outcome_status r.outcome in
    record (with_preview r.preview j) {
      current_step = some (if is_some r.preview then previewing else configuring);
      detected_pattern = r.pattern_name;
      detection_confidence = some r.detection_confidence;
      detection_run_id = r.detection_run_id;
      configuration_version = some website.configuration_version;
      quality = elim r.quality [ none ↦ j.quality | some q ↦ some q ];
      status = status;
      failure_reason = if is_problem status then reason_of r else none;
      completed_at = some now;
    }

-- `db.refresh(website)` raises if the row is gone.
abbrev pub finish_with : World → Store → Job → ℕ → AutoOnboardingResult → Ending
finish_with w s j website_id r = elim (find_website website_id s.websites) [
  | none ↦ escaped s "Could not refresh instance"
  | some website ↦ done (save (recorded r website j (w.ended j.id)) s)
]

abbrev pub recovered_with : World → Store → Job → ℕ → Attempt BrowserRecoveryResult → Ending
recovered_with w s j website_id (raised e) =
    done (save (fail j (configuration_failed e) (w.ended j.id)) s)
recovered_with w s j website_id (returned recovery) = elim recovery.onboarding [
  | some r ↦ finish_with w s j website_id r
  | none ↦ done (
      save
        (record j {
          status = recovery_job_status recovery.status;
          failure_reason = some recovery_failed;
          completed_at = some (w.ended j.id);
        })
        s)
]

abbrev pub detected_with : World → Store → Job → ℕ → Attempt AutoOnboardingResult → Ending
detected_with w s j website_id (raised e) =
    done (save (fail j (configuration_failed e) (w.ended j.id)) s)
detected_with w s j website_id (returned r) = finish_with w s j website_id r

-- From the commit of `DETECTING` on.
unfoldable pub configure : World → Store → Job → Website → (browser_required : Bool) → Ending
configure w s j website browser_required =
    let j' = record j { current_step = some detecting } in
    let s' = save j' s in
    if browser_required
    then (let (websites, attempt) = w.browser_retry_recovery s'.websites website j' in
        recovered_with w (record s' { websites = websites }) j' website.id attempt)
    else (let (websites, attempt) = w.detect_and_configure s'.websites website j' in
        detected_with w (record s' { websites = websites }) j' website.id attempt)

-- `s` has the job as it was last committed.
unfoldable pub locate :
    World
    → Store
    → (committed job : Job) → PreflightResult
    → (redetect_existing : Bool) → Option WebsiteMatch
    → Ending
locate w s committed j p redetect none =
    let j' = record j { current_step = some creating_website } in
    let metadata = w.infer_site_metadata p.document (or_text p.final_url j.submitted_url) j' in
    elim (w.website_error j' metadata) [
      | some e ↦ done (save (fail committed (not_created e) (w.ended committed.id)) s)
      | none ↦
          configure w (create_website w s j' metadata)
            (record j' {
              inferred_metadata = some metadata.as_dict;
              website_id = some s.next_website_id;
            })
            (new_website w s.next_website_id j' metadata) p.browser_required
    ]
locate w s committed j p redetect (some m) =
    if m.is_archived || not redetect
    then done (save (link_existing j m (w.ended j.id)) s)
    else configure w s
        (record j { website_id = some m.website.id; duplicate_of_website_id = some m.website.id })
        m.website p.browser_required

-- The submitted URL, then the destination of its redirects.
unfoldable pub match_urls : Urls → List Website → String → Option String → Option WebsiteMatch
match_urls u websites submitted_url final_url = elim (find_website_match u websites submitted_url) [
  | some m ↦ some m
  | none ↦ elim final_url [
    | none ↦ none
    | some url ↦ if str_eq url "" then none else find_website_match u websites url
  ]
]

abbrev pub check_duplicates :
    World → Store → (committed job : Job) → PreflightResult → Bool → Option Job → Ending
check_duplicates w s committed j p redetect (some existing_open) = done (
    save
      (record j {
        status = duplicate;
        failure_reason = some (already_queued existing_open.id);
        completed_at = some (w.ended j.id);
      })
      s)
check_duplicates w s committed j p redetect none =
    locate w s committed j p redetect (match_urls w.urls s.websites j.submitted_url p.final_url)

unfoldable pub after_preflight :
    World → Store → (committed job : Job) → PreflightResult → Bool → Ending
after_preflight w s committed j p redetect = elim p.blocked_reason [
  | some reason ↦ done (
      save
        (record j {
          status = blocked;
          failure_reason = some (not_fetched reason);
          completed_at = some (w.ended j.id);
        })
        s)
  | none ↦ elim p.failure_reason [
    | some reason ↦ done (save (fail j reason (w.ended j.id)) s)
    | none ↦
        check_duplicates w s committed j p redetect
          (find_active_job_for_url s j.normalized_url j.id)
  ]
]

-- The job as it is committed first.
abbrev pub validated : World → Job → Job
validated w j = record j {
  started_at = elim j.started_at [ none ↦ some (w.begun j.id) | some t ↦ some t ];
  status = validating;
  current_step = some validating;
}

abbrev pub process_with : World → Store → Job → Bool → Attempt PreflightResult → Ending
process_with w s j redetect (raised e) = escaped s e
process_with w s j redetect (returned p) =
    after_preflight w s j
      (record j { current_step = some locating_existing; final_url = p.final_url }) p redetect

unfoldable pub process_job : World → Store → Job → (redetect_existing : Bool) → Ending
process_job w s j redetect =
    process_with w (save (validated w j) s) (validated w j) redetect
      (resolve_document w j.submitted_url)
