-- ===== src/Jobs/Creation.antt =====
-- backend/app/services/bulk_onboarding.py: the batch and the jobs of a submission. Audit entries
-- are not modelled.
use web_scraping_event_appli.Prelude.{
  ℕ, ◌+◌, String, str_eq, Bool, Option, none, some, List, [], ◌∷◌, ◌++◌, length, if◌then◌else◌,
}
use web_scraping_event_appli.Submission.{
  SubmittedRow, RejectedRow, ParsedSubmission, submitted_count,
}
use web_scraping_event_appli.Jobs.{
  Job, Batch, Store, queued, batch_open, save_batch_into, list_jobs_for_batch,
}
use web_scraping_event_appli.Jobs.World.{truthy_text}

-- The arguments of the call.
pub record Submitted : Type 0 where
  pub submitted_by_user_id : Option ℕ
  pub default_city_id : Option ℕ
  pub default_timezone : Option String
  pub redetect_existing : Bool
  pub selected_policy_id : Option ℕ

-- `get_city_by_slug`, as an id, and `is_fixed_offset_abbreviation`.
pub record Places : Type 0 where
  pub get_city_by_slug : String → Option ℕ
  pub is_fixed_offset_abbreviation : String → Bool

pub data BatchRejection : Type 0 where
  rejected_before : RejectedRow → BatchRejection
  unknown_city : (row : ℕ) (value city_slug : String) → BatchRejection

-- `[row.as_dict() for row in parsed.rejected]`.
abbrev pub all_before : List RejectedRow → List BatchRejection
all_before [] = []
all_before (row ∷ rows) = rejected_before row ∷ all_before rows

abbrev pub or_option : Option String → Option String → Option String
or_option a b = if truthy_text a then a else b

abbrev pub onboarding_timezone : Places → Option String → Option String
onboarding_timezone p none = none
onboarding_timezone p (some zone) =
    if str_eq zone "" then none else if p.is_fixed_offset_abbreviation zone then none else some zone

abbrev pub new_batch : Submitted → ℕ → Batch
new_batch a id = record {
  id = id;
  submitted_by_user_id = a.submitted_by_user_id;
  default_city_id = a.default_city_id;
  default_timezone = a.default_timezone;
  redetect_existing = a.redetect_existing;
  selected_policy_id = a.selected_policy_id;
  submitted_count = 0;
  valid_count = 0;
  invalid_count = 0;
  completed_count = 0;
  status = batch_open;
  completed_at = none;
}

abbrev pub create_batch : Submitted → Store → Store
create_batch a s = record s {
  batches = s.batches ++ (new_batch a s.next_batch_id ∷ []);
  next_batch_id = s.next_batch_id + 1;
}

abbrev pub new_job : Submitted → Places → (batch_id id : ℕ) → SubmittedRow → Option ℕ → Job
new_job a p batch_id id row city_id = record {
  id = id;
  batch_id = some batch_id;
  row_number = row.row_number;
  submitted_url = row.url;
  normalized_url = row.normalized_url;
  final_url = none;
  city_id = city_id;
  timezone_override = onboarding_timezone p (or_option row.timezone a.default_timezone);
  submitted_by_user_id = a.submitted_by_user_id;
  submitted_name = row.name;
  submitted_source_display_name = row.source_display_name;
  status = queued;
  current_step = none;
  website_id = none;
  duplicate_of_website_id = none;
  detected_pattern = none;
  detection_confidence = none;
  detection_run_id = none;
  preview_run_id = none;
  configuration_version = none;
  events_found = 0;
  events_valid = 0;
  events_rejected = 0;
  quality = none;
  inferred_metadata = none;
  failure_reason = none;
  retry_count = 0;
  started_at = none;
  completed_at = none;
}

abbrev pub create_job : Submitted → Places → ℕ → SubmittedRow → Option ℕ → Store → Store
create_job a p batch_id row city_id s = record s {
  jobs = s.jobs ++ (new_job a p batch_id s.next_job_id row city_id ∷ []);
  next_job_id = s.next_job_id + 1;
}

abbrev pub add_in_city :
    Submitted
    → Places
    → ℕ
    → SubmittedRow
    → String
    → Option ℕ
    → Store × List BatchRejection
    → Store × List BatchRejection
add_in_city a p batch_id row slug none (s, rejected) =
    (s, rejected ++ (unknown_city row.row_number row.url slug ∷ []))
add_in_city a p batch_id row slug (some city_id) (s, rejected) =
    (create_job a p batch_id row (some city_id) s, rejected)

abbrev pub add_slug :
    Submitted
    → Places
    → ℕ
    → SubmittedRow
    → Option String
    → Store × List BatchRejection
    → Store × List BatchRejection
add_slug a p batch_id row none (s, rejected) =
    (create_job a p batch_id row a.default_city_id s, rejected)
add_slug a p batch_id row (some slug) x =
    if str_eq slug ""
    then (create_job a p batch_id row a.default_city_id x.0, x.1)
    else add_in_city a p batch_id row slug (p.get_city_by_slug slug) x

-- The loop over the accepted rows.
unfoldable pub add_rows :
    Submitted
    → Places
    → ℕ
    → List SubmittedRow
    → Store × List BatchRejection
    → Store × List BatchRejection
add_rows a p batch_id [] x = x
add_rows a p batch_id (row ∷ rows) x =
    add_rows a p batch_id rows (add_slug a p batch_id row row.city_slug x)

unfoldable pub create_batch_from_submission :
    Submitted → Places → ParsedSubmission → Store → Store × Batch
create_batch_from_submission a p parsed s =
    let (s1, rejected) =
      add_rows a p s.next_batch_id parsed.rows (create_batch a s, all_before parsed.rejected) in
    let batch = record (new_batch a s.next_batch_id) {
      submitted_count = submitted_count parsed;
      valid_count = length (list_jobs_for_batch s1 s.next_batch_id);
      invalid_count = length rejected;
    } in
    (record s1 { batches = save_batch_into batch s1.batches }, batch)
