-- ===== src/Jobs.antt =====
-- backend/app/core/onboarding_jobs.py, models/onboarding_job.py, models/onboarding_batch.py and
-- repositories/onboarding.py: the onboarding jobs, their batches and the queries on them.
pub mod World
pub mod Process
pub mod Batches
pub mod Rows
pub mod Endings
pub mod Settled
pub mod Progress
pub mod Completion
pub mod Calls
pub mod Requests
pub mod Draining
pub mod Creation
pub mod Submitting
use web_scraping_event_appli.Prelude.{
  ℕ, suc, ◌+◌, String, str_eq, Bool, true, false, not, ◌&&◌, ◌||◌, Option, none, some, List, [],
  ◌∷◌, ◌++◌, map, any, all, select, length, is_empty, ◌==◌, ltb, if◌then◌else◌, sort, take, first,
}
use web_scraping_event_appli.Json.{Json}
use web_scraping_event_appli.Website.{Website}

pub data JobStatus : Type 0 where
  queued validating locating_existing creating_website detecting configuring previewing : JobStatus
  ready_for_approval automatically_approved automatically_activated needs_review : JobStatus
  unsupported blocked failed duplicate cancelled : JobStatus

-- `status in TERMINAL_STATUSES`.
unfoldable pub is_terminal : JobStatus → Bool
is_terminal ready_for_approval = true
is_terminal automatically_approved = true
is_terminal automatically_activated = true
is_terminal needs_review = true
is_terminal unsupported = true
is_terminal blocked = true
is_terminal failed = true
is_terminal duplicate = true
is_terminal cancelled = true
is_terminal _ = false

-- `status in ACTIVE_STATUSES`, the processing statuses.
unfoldable pub is_processing : JobStatus → Bool
is_processing queued = true
is_processing validating = true
is_processing locating_existing = true
is_processing creating_website = true
is_processing detecting = true
is_processing configuring = true
is_processing previewing = true
is_processing _ = false

-- `status in RETRYABLE_STATUSES`.
unfoldable pub is_retryable : JobStatus → Bool
is_retryable failed = true
is_retryable needs_review = true
is_retryable unsupported = true
is_retryable _ = false

abbrev pub is_queued : JobStatus → Bool
is_queued queued = true
is_queued _ = false

-- `failure_reason`: the texts told apart by constructor, before they are cut to 500 characters.
pub data FailureReason : Type 0 where
  not_fetched : String → FailureReason
  http_status : (status_code : ℕ) → FailureReason
  already_queued : (job_id : ℕ) → FailureReason
  matched_archived : (website_id : ℕ) → FailureReason
  not_created : String → FailureReason
  recovery_failed : FailureReason
  configuration_failed : String → FailureReason
  unexpected : String → FailureReason
  reported : String → FailureReason
  blocking : List String → FailureReason

-- A float keeps the text it is stored as.
pub record Job : Type 0 where
  pub id : ℕ
  pub batch_id : Option ℕ
  pub row_number : ℕ
  pub submitted_url : String
  pub normalized_url : String
  pub final_url : Option String
  pub city_id : Option ℕ
  pub timezone_override : Option String
  pub submitted_by_user_id : Option ℕ
  pub submitted_name : Option String
  pub submitted_source_display_name : Option String
  pub status : JobStatus
  pub current_step : Option JobStatus
  pub website_id : Option ℕ
  pub duplicate_of_website_id : Option ℕ
  pub detected_pattern : Option String
  pub detection_confidence : Option String
  pub detection_run_id : Option ℕ
  pub preview_run_id : Option ℕ
  pub configuration_version : Option ℕ
  pub events_found : ℕ
  pub events_valid : ℕ
  pub events_rejected : ℕ
  pub quality : Option Json
  pub inferred_metadata : Option Json
  pub failure_reason : Option FailureReason
  pub retry_count : ℕ
  pub started_at : Option ℕ
  pub completed_at : Option ℕ

pub data BatchStatus : Type 0 where
  batch_open batch_completed batch_cancelled : BatchStatus

abbrev pub is_completed : BatchStatus → Bool
is_completed batch_completed = true
is_completed _ = false

pub record Batch : Type 0 where
  pub id : ℕ
  pub submitted_by_user_id : Option ℕ
  pub default_city_id : Option ℕ
  pub default_timezone : Option String
  pub redetect_existing : Bool
  pub selected_policy_id : Option ℕ
  pub submitted_count : ℕ
  pub valid_count : ℕ
  pub invalid_count : ℕ
  pub completed_count : ℕ
  pub status : BatchStatus
  pub completed_at : Option ℕ

-- The tables. The database numbers the new rows of a table.
pub record Store : Type 0 where
  pub jobs : List Job
  pub batches : List Batch
  pub websites : List Website
  pub next_job_id : ℕ
  pub next_batch_id : ℕ
  pub next_website_id : ℕ

-- `db.commit()` of one changed row.
abbrev pub save_into : Job → List Job → List Job
save_into j [] = []
save_into j (k ∷ ks) = (if k.id == j.id then j else k) ∷ save_into j ks

abbrev pub save : Job → Store → Store
save j s = record s { jobs = save_into j s.jobs }

abbrev pub save_batch_into : Batch → List Batch → List Batch
save_batch_into b [] = []
save_batch_into b (c ∷ cs) = (if c.id == b.id then b else c) ∷ save_batch_into b cs

abbrev pub find_job : ℕ → List Job → Option Job
find_job id [] = none
find_job id (j ∷ js) = let rest = find_job id js in if j.id == id then some j else rest

unfoldable pub get_batch : ℕ → List Batch → Option Batch
get_batch id [] = none
get_batch id (b ∷ bs) = let rest = get_batch id bs in if b.id == id then some b else rest

-- `OnboardingJob.batch_id == batch_id`.
abbrev pub is_of_batch : ℕ → Job → Bool
is_of_batch id j = elim j.batch_id [ none ↦ false | some b ↦ b == id ]

-- `order_by(row_number, id)`.
abbrev pub by_row : Job → Job → Bool
by_row a b = ltb a.row_number b.row_number || ((a.row_number == b.row_number) && ltb a.id b.id)

unfoldable pub list_jobs_for_batch : Store → ℕ → List Job
list_jobs_for_batch s id = sort by_row (select (is_of_batch id) s.jobs)

abbrev pub is_outstanding : ℕ → Job → Bool
is_outstanding id j = is_of_batch id j && is_processing j.status

unfoldable pub next_queued_jobs : Store → ℕ → (limit : ℕ) → List Job
next_queued_jobs s id limit = take limit (sort by_row (select (is_outstanding id) s.jobs))

abbrev pub is_same_open : String → ℕ → Job → Bool
is_same_open normalized_url exclude j =
    str_eq j.normalized_url normalized_url && (is_processing j.status && not (j.id == exclude))

abbrev pub by_job_id : Job → Job → Bool
by_job_id a b = ltb a.id b.id

unfoldable pub find_active_job_for_url : Store → String → (exclude_job_id : ℕ) → Option Job
find_active_job_for_url s normalized_url exclude =
    first (sort by_job_id (select (is_same_open normalized_url exclude) s.jobs))
