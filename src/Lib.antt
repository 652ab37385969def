-- ===== src/Lib.antt =====
-- Verification of the Bulletin events site: a web application that finds the events of a city by
-- scraping the sites of its venues. An administrator adds a website; detection proposes an
-- extraction pattern; a preview of the draft configuration shows its quality; approval freezes the
-- draft; activation puts the website on the schedule. A policy may approve and activate without a
-- human.
--
-- The files, and the code that they model (paths from the repository's root):
--
-- Onboarding: backend/app/core/onboarding.py, the states of a website and the table of moves;
--   Onboarding/Walks is about sequences of moves.
-- Website, Schedule, Json: the rows of backend/app/models/website.py and
--   backend/app/models/city.py, the schedule of backend/app/schemas/schedule.py with its back-off,
--   and JSON columns as Python reads them.
-- Scheduler: backend/app/services/scheduler.py. Scheduler.antt has the job rows and the operations
--   on them (try_acquire, heartbeat, release_lock, request_cancel, set_paused,
--   reclaim_stale_locks), Scheduler/Eligibility the eligibility checks, Scheduler/Leader the
--   leader row and the health summary, Scheduler/Reconcile the reconciling pass, and
--   Scheduler/Runner the scheduled run of backend/app/services/scheduler_runner.py. The other
--   files below it hold the proofs.
-- Lifecycle: backend/app/services/websites.py, backend/app/services/website_configuration.py and
--   ensure_default_schedule of backend/app/services/schedule_admin.py: transition, draft,
--   selection, approval and rejection. Lifecycle/Acts collects them as actions. Result is
--   backend/app/core/exceptions.py: an operation gives a value or raises.
-- Policy, Decision: the policy row and backend/app/services/auto_onboarding_decision.py.
--   Decision/Gates, Decision/Preview and Decision/Generic are the groups of rules,
--   Decision/Evaluate runs them and stores the result
--   (backend/app/services/auto_onboarding_persistence.py). Decision/Qualifies states apart from
--   the code what a source must satisfy; Decision/Asks relates groups of rules to such conditions.
-- Execution: backend/app/services/auto_onboarding_execution.py, which acts on a stored decision
--   through the operations of Lifecycle.
-- Matching: backend/app/repositories/onboarding.py and backend/app/core/url_canonical.py, which
--   website a submitted URL belongs to; Matching/Best has the ranking as a specification.
-- Submission: backend/app/services/onboarding_submission.py, the rows of a submission as lines or
--   as CSV.
-- Jobs: backend/app/core/onboarding_jobs.py and the job and batch rows with their queries.
--   Jobs/World is what a job asks of the rest of the program and the fetch before it, Jobs/Process
--   is process_job of backend/app/services/bulk_onboarding.py, Jobs/Batches the batches, the
--   queue, retry_job and cancel_job, and Jobs/Creation the batch of a submission. The other files
--   below it hold the proofs.
-- Pagination: backend/app/extraction/pagination.py: Pagination.antt has what a page and a
--   configuration hold, Pagination/Strategies one function for each strategy class by which a page
--   leads to the next one, Pagination/Walk is the page loop of
--   backend/app/services/extraction_runs.py that uses them, and Pagination/Recipe that of a
--   captured request recipe.
-- Recurrence: backend/app/extraction/recurrence.py, occurrences with their identity;
--   Recurrence/Expand is the expansion of one event, with the TypeError that datetimes with and
--   without a time zone raise, and Recurrence/Run that of a run.
-- Events: backend/app/services/fingerprints.py, backend/app/extraction/dedup.py, and creating,
--   finding and overwriting events in backend/app/repositories/event.py (Events/Upsert).
-- Reports: backend/app/core/report_status.py, backend/app/services/unsupported_reports.py and
--   backend/app/repositories/unsupported_site_report.py, with the columns of
--   backend/app/models/unsupported_site_report.py that the deletion of an account blanks.
-- RateLimit: the in-memory backend of backend/app/services/rate_limit.py and the limit on sign-in
--   starts.
-- Access: backend/app/services/rbac.py and the account and role requests of
--   backend/app/routers/admin.py and backend/app/services/account_deletion.py.
-- Prelude: shared names, tests on numbers, and lists. Tests: runs on concrete data.
--
-- State and time. A table is the list of its rows; an operation takes the rows it reads and gives
-- them back as it leaves them. Times are natural numbers: microseconds for the scheduler, ticks of
-- the clock for the rate limit. Each operation is one step; the commits inside it are told apart
-- only in the processing of an onboarding job, where an exception undoes what is not committed.
-- What other sessions do in between is an argument (the changes to a row before each time that a
-- run reads it, the changes to a site between approval and activation) or a sequence of
-- operations.
--
-- Parameters. The pydantic validators, floats with their comparisons, regular expressions, text
-- and URL normalisation, hashing, the pattern registry, the verdict of the URL check and the
-- result of an extraction are arguments of the definitions that use them; so are fetching,
-- rendering and detection for an onboarding job, the parsing of URLs, HTML and JSON texts, the CSV
-- reader and the rule engine of a recurrence. Nothing is assumed of the floats and their
-- comparisons, so the model covers a NaN. Texts of reasons and errors are constructors.
--
-- Bounds. The retry loop runs on a bound on its rounds; two more than max_retries are enough,
-- which is proved. The page loops run on a bound on their requests; max_pages are enough, which is
-- proved. A batch is continued by calls of process_batch, as many as its jobs need at the limit.
-- All other loops are over lists.
--
-- Not modelled: page fetching and parsing, browser rendering, date ranges, geographic rules,
--   re-evaluation, the Redis rate limit, audit entries, notifications, routers beyond the account
--   requests, templates, migrations.
pub mod Prelude
pub mod Json
pub mod Onboarding
pub mod Website
pub mod Schedule
pub mod Scheduler
pub mod Result
pub mod Lifecycle
pub mod Matching
pub mod Jobs
pub mod Submission
pub mod Pagination
pub mod Recurrence
pub mod Execution
pub mod Policy
pub mod Decision
pub mod Reports
pub mod Events
pub mod RateLimit
pub mod Access
mod Tests
