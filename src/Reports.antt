-- ===== src/Reports.antt =====
-- backend/app/core/report_status.py, repositories/unsupported_site_report.py,
-- services/unsupported_reports.py: reports of sites that no detector matched. Notifications are
-- not modelled.
pub mod Stamps
pub mod Observations
use web_scraping_event_appli.Prelude.{
  ℕ, suc, ◌+◌, String, str_eq, Bool, true, false, not, ◌&&◌, ◌||◌, Option, none, some, List, [],
  ◌∷◌, ◌++◌, any, if◌then◌else◌, ◌==◌, leb, ltb,
}
use web_scraping_event_appli.Json.{is_some}

pub data ReportStatus : Type 0 where
  opened investigating waiting_for_browser_support configuration_created : ReportStatus
  resolved dismissed : ReportStatus

abbrev pub same : ReportStatus → ReportStatus → Bool
same opened opened = true
same investigating investigating = true
same waiting_for_browser_support waiting_for_browser_support = true
same configuration_created configuration_created = true
same resolved resolved = true
same dismissed dismissed = true
same _ _ = false

unfoldable pub allowed_report_transitions : ReportStatus → List ReportStatus
allowed_report_transitions opened =
    investigating ∷ waiting_for_browser_support ∷ resolved ∷ dismissed ∷ []
allowed_report_transitions investigating =
    opened ∷ waiting_for_browser_support ∷ configuration_created ∷ resolved ∷ dismissed ∷ []
allowed_report_transitions waiting_for_browser_support =
    opened ∷ investigating ∷ resolved ∷ dismissed ∷ []
allowed_report_transitions configuration_created =
    opened ∷ investigating ∷ resolved ∷ dismissed ∷ []
allowed_report_transitions resolved = opened ∷ []
allowed_report_transitions dismissed = opened ∷ []

unfoldable pub can_transition_report : ReportStatus → ReportStatus → Bool
unfolding allowed_report_transitions
can_transition_report current target = any (same target) (allowed_report_transitions current)

abbrev pub is_closed : ReportStatus → Bool
is_closed resolved = true
is_closed dismissed = true
is_closed _ = false

-- The columns that the operations write.
pub record Report : Type 0 where
  pub website_id : ℕ
  pub fingerprint : String
  pub status : ReportStatus
  pub created_at : ℕ
  pub assigned_user_id : Option ℕ
  pub admin_notes : Option String
  pub last_seen_at : ℕ
  pub occurrence_count : ℕ
  pub latest_extraction_run_id : Option ℕ
  pub resolved_at : Option ℕ
  pub resolved_by_user_id : Option ℕ

pub data Refusal : Type 0 where
  empty_note long_note : Refusal
  illegal_move : (from to : ReportStatus) → Refusal

pub data Outcome : Type 0 where
  done : Report → Outcome
  raised : (status_code : ℕ) → Refusal → Outcome

unfoldable pub change_report_status : Report → ReportStatus → Option ℕ → (now : ℕ) → Report
change_report_status r status user now =
    if is_closed status
    then record r { status = status; resolved_at = some now; resolved_by_user_id = user }
    else record r { status = status; resolved_at = none; resolved_by_user_id = none }

unfoldable pub change_status : Report → (target : ReportStatus) → (user : ℕ) → (now : ℕ) → Outcome
change_status r target user now =
    if not (can_transition_report r.status target)
    then raised 409 (illegal_move r.status target)
    else done (change_report_status r target (some user) now)

abbrev pub resolve : Report → (user : ℕ) → (now : ℕ) → Outcome
resolve r user now = change_status r resolved user now

abbrev pub dismiss : Report → (user : ℕ) → (now : ℕ) → Outcome
dismiss r user now = change_status r dismissed user now

abbrev pub reopen : Report → (user : ℕ) → (now : ℕ) → Outcome
reopen r user now = change_status r opened user now

abbrev pub assign_report : Report → Option ℕ → Report
assign_report r user = record r { assigned_user_id = user }

-- `ON DELETE SET NULL` of a column that refers to the account.
abbrev pub unless_user : (user : ℕ) → Option ℕ → Option ℕ
unless_user user none = none
unless_user user (some id) = if id == user then none else some id

-- What the deletion of an account leaves of the row.
unfoldable pub account_deleted : (user : ℕ) → Report → Report
account_deleted user r = record r {
  assigned_user_id = unless_user user r.assigned_user_id;
  resolved_by_user_id = unless_user user r.resolved_by_user_id;
}

-- `str`: the length, and the join of the old notes with the new one, stripped.
pub record Text : Type 0 where
  pub len : String → ℕ
  pub strip : String → String
  pub join_stripped : (existing note : String) → String

abbrev pub noted : Text → Option String → String → String
noted t none note = note
noted t (some existing) note = if str_eq existing "" then note else t.join_stripped existing note

unfoldable pub add_note : Text → Report → String → Outcome
add_note t r raw =
    let note = t.strip raw in
    if str_eq note ""
    then raised 400 empty_note
    else if ltb 2000 (t.len note)
    then raised 400 long_note
    else done (record r { admin_notes = some (noted t r.admin_notes note) })

-- The table, newest report first.
abbrev pub latest_for : ℕ → List Report → Option Report
latest_for id [] = none
latest_for id (r ∷ rs) = let rest = latest_for id rs in if r.website_id == id then some r else rest

unfoldable pub should_create_new_report : List Report → (website_id : ℕ) → String → Bool
should_create_new_report rs id fingerprint = elim (latest_for id rs) [
  | none ↦ true
  | some latest ↦ not (str_eq latest.fingerprint fingerprint)
]

-- The column defaults of a new row.
abbrev pub new_report : (website_id : ℕ) → String → Option ℕ → (now : ℕ) → Report
new_report id fingerprint run now = record {
  website_id = id;
  fingerprint = fingerprint;
  status = opened;
  created_at = now;
  assigned_user_id = none;
  admin_notes = none;
  last_seen_at = now;
  occurrence_count = 1;
  latest_extraction_run_id = run;
  resolved_at = none;
  resolved_by_user_id = none;
}

abbrev pub seen_again : Option ℕ → (now : ℕ) → Report → Report
seen_again run now r = record r {
  occurrence_count = r.occurrence_count + 1;
  last_seen_at = now;
  latest_extraction_run_id = if is_some run then run else r.latest_extraction_run_id;
}

-- Writes to the latest report of the website, if it has the fingerprint.
unfoldable pub record_report_occurrence :
    List Report → (website_id : ℕ) → String → Option ℕ → (now : ℕ) → List Report
record_report_occurrence [] id fingerprint run now = []
record_report_occurrence (r ∷ rs) id fingerprint run now =
    let rest = record_report_occurrence rs id fingerprint run now in
    if not (r.website_id == id)
    then r ∷ rest
    else if str_eq r.fingerprint fingerprint
    then seen_again run now r ∷ rs
    else r ∷ rs

-- services/extraction_runs.py, after a detection that ended unsupported.
unfoldable pub observe :
    List Report → (website_id : ℕ) → String → Option ℕ → (now : ℕ) → List Report
observe rs id fingerprint run now =
    if should_create_new_report rs id fingerprint
    then new_report id fingerprint run now ∷ rs
    else record_report_occurrence rs id fingerprint run now
