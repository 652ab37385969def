-- ===== src/Jobs/World.antt =====
-- backend/app/services/bulk_onboarding.py: what a job asks of the rest of the program, and the fetch
-- before it. Fetching, rendering, the inference of metadata and detection are given by the `World`,
-- with the time at which a job begins and ends.
use web_scraping_event_appli.Prelude.{
  ℕ, String, str_eq, Bool, true, false, not, ◌||◌, Option, none, some, List, if◌then◌else◌, leb,
}
use web_scraping_event_appli.Json.{Json, is_some}
use web_scraping_event_appli.Website.{Website, City}
use web_scraping_event_appli.Matching.{Urls}
use web_scraping_event_appli.Jobs.{
  JobStatus, Job, FailureReason, ready_for_approval, automatically_approved,
  automatically_activated, needs_review, unsupported, blocked, failed, http_status,
}

pub record Response : Type 0 where
  pub final_url : Option String
  pub text : String
  pub status_code : ℕ
  pub blocked_reason : Option String

pub record Rendered : Type 0 where
  pub final_url : Option String
  pub rendered_html : Option String
  pub blocked_reason : Option String

pub record SiteMetadata : Type 0 where
  pub name : String
  pub source_display_name : String
  pub base_url : String
  pub event_listing_url : String
  pub as_dict : Json

-- `AutoOnboardingResult.outcome`, a text.
pub data Outcome : Type 0 where
  approved_outcome activated_outcome ready_outcome review_outcome unsupported_outcome : Outcome
  browser_outcome blocked_outcome failed_outcome : Outcome
  other_outcome : String → Outcome

pub record Preview : Type 0 where
  pub run_id : Option ℕ
  pub events_found : ℕ
  pub events_valid : ℕ
  pub events_rejected : ℕ

pub record AutoOnboardingResult : Type 0 where
  pub outcome : Outcome
  pub pattern_name : Option String
  pub detection_confidence : String
  pub detection_run_id : Option ℕ
  pub preview : Option Preview
  pub quality : Option Json
  pub error : Option String
  pub blocking_reasons : List String

pub data RecoveryStatus : Type 0 where
  recovery_blocked recovery_unsupported recovery_structured_pattern_needed : RecoveryStatus
  recovery_other : String → RecoveryStatus

pub record BrowserRecoveryResult : Type 0 where
  pub status : RecoveryStatus
  pub onboarding : Option AutoOnboardingResult

-- A call returns, or raises with a message.
pub data Attempt (A : Type 0) : Type 0 where
  returned : A → Attempt A
  raised : String → Attempt A

-- Detection and recovery write websites and commit them as they go, whether they return or raise.
pub record World : Type 0 where
  pub urls : Urls
  pub fetch : String → Attempt Response
  pub browser_extraction_enabled : Bool
  pub render : String → Attempt Rendered
  pub infer_site_metadata : (document : Option String) (final_url : String) → Job → SiteMetadata
  -- `WebsiteCreate(...)` accepts the fields and the row can be written; else the message.
  pub website_error : Job → SiteMetadata → Option String
  pub get_city : ℕ → Option City
  pub detect_and_configure :
      List Website → Website → Job → List Website × Attempt AutoOnboardingResult
  pub browser_retry_recovery :
      List Website → Website → Job → List Website × Attempt BrowserRecoveryResult
  pub begun : ℕ → ℕ
  pub ended : ℕ → ℕ

unfoldable pub outcome_status : Outcome → JobStatus
outcome_status approved_outcome = automatically_approved
outcome_status activated_outcome = automatically_activated
outcome_status ready_outcome = ready_for_approval
outcome_status review_outcome = needs_review
outcome_status unsupported_outcome = unsupported
outcome_status browser_outcome = unsupported
outcome_status blocked_outcome = blocked
outcome_status failed_outcome = failed
outcome_status (other_outcome text) = needs_review

unfoldable pub recovery_job_status : RecoveryStatus → JobStatus
recovery_job_status recovery_blocked = blocked
recovery_job_status recovery_unsupported = unsupported
recovery_job_status recovery_structured_pattern_needed = needs_review
recovery_job_status (recovery_other text) = needs_review

-- `a or b` for an optional text: an empty one is false.
abbrev pub truthy_text : Option String → Bool
truthy_text none = false
truthy_text (some s) = not (str_eq s "")

abbrev pub or_text : Option String → String → String
or_text none default = default
or_text (some s) default = if str_eq s "" then default else s

unfoldable pub fail : Job → FailureReason → (now : ℕ) → Job
fail j reason now = record j {
  status = failed;
  failure_reason = some reason;
  completed_at = some now;
}

pub record PreflightResult : Type 0 where
  pub final_url : Option String
  pub document : Option String
  pub blocked_reason : Option String
  pub failure_reason : Option FailureReason
  pub browser_required : Bool

-- The render result if the browser could read the page.
abbrev pub readable : Rendered → Option Rendered
readable r = if is_some r.blocked_reason || not (truthy_text r.rendered_html) then none else some r

unfoldable pub browser_preflight : World → String → Attempt (Option Rendered)
browser_preflight w url =
    if not w.browser_extraction_enabled
    then returned none
    else elim (w.render url) [ raised e ↦ raised e | returned r ↦ returned (readable r) ]

abbrev pub resolved_blocked :
    String → Response → String → Attempt (Option Rendered) → Attempt PreflightResult
resolved_blocked url response reason (raised e) = raised e
resolved_blocked url response reason (returned (some rendered)) = returned record {
  final_url = some (or_text rendered.final_url url);
  document = rendered.rendered_html;
  blocked_reason = none;
  failure_reason = none;
  browser_required = true;
}
resolved_blocked url response reason (returned none) = returned record {
  final_url = some (or_text response.final_url url);
  document = none;
  blocked_reason = some reason;
  failure_reason = none;
  browser_required = false;
}

abbrev pub resolved : World → String → Attempt Response → Attempt PreflightResult
resolved w url (raised e) = raised e
resolved w url (returned response) = elim response.blocked_reason [
  | some reason ↦ resolved_blocked url response reason (browser_preflight w url)
  | none ↦
      if leb 400 response.status_code
      then returned record {
        final_url = response.final_url;
        document = none;
        blocked_reason = none;
        failure_reason = some (http_status response.status_code);
        browser_required = false;
      }
      else returned record {
        final_url = response.final_url;
        document = some response.text;
        blocked_reason = none;
        failure_reason = none;
        browser_required = false;
      }
]

unfoldable pub resolve_document : World → String → Attempt PreflightResult
resolve_document w url = resolved w url (w.fetch url)
