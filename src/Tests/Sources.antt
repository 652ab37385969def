-- ===== src/Tests/Sources.antt =====
-- Submitted URLs, their jobs and batches, matches and pages.
use web_scraping_event_appli.Prelude.{
  ◌+◌, ◌≤◌, ◌<◌, String, true, false, none, some, List, [], ◌∷◌, ◌≡◌, refl, arith, inl,
}
use web_scraping_event_appli.Json.{null}
use web_scraping_event_appli.Onboarding.{archived}
use web_scraping_event_appli.Website.{Website}
use web_scraping_event_appli.Matching.{Urls, find_website_match}
use web_scraping_event_appli.Matching.Best.{IsBest, find_website_match-IsBest}
use web_scraping_event_appli.Submission.{
  Texts, SubmissionLimits, Upload, ParsedSubmission, public_url, parse_csv, no_cells, SubmittedRow,
  empty_value, accept_rows, accept, validate_url,
}
use web_scraping_event_appli.Submission.Tally.{IsAccounted}
use web_scraping_event_appli.Submission.Csv.{parse_csv-IsAccounted}
use web_scraping_event_appli.Jobs.{
  Job, Batch, Store, failed, validating, queued, batch_open, get_batch, list_jobs_for_batch,
}
use web_scraping_event_appli.Jobs.World.{World, returned, raised, review_outcome}
use web_scraping_event_appli.Jobs.Batches.{process_batch, retry_job}
use web_scraping_event_appli.Jobs.Creation.{
  Submitted, Places, add_rows, create_batch_from_submission,
}
use web_scraping_event_appli.Jobs.Calls.{
  IsBatchRun, IsComplete, run_calls, process_batch-IsBatchRun,
}
use web_scraping_event_appli.Jobs.Requests.{IsRetried, retry_job-IsRetried}
use web_scraping_event_appli.Jobs.Submitting.{
  IsNumbered, IsSubmitted, create_batch-IsSubmitted, submission_completes,
}
use web_scraping_event_appli.Pagination.{
  Web, PaginationConfig, FetchResponse, query_param, stop_conditions_met,
}
use web_scraping_event_appli.Pagination.Walk.{fetch_legacy_pages}
use web_scraping_event_appli.Pagination.Recipe.{
  RecipePagination, by_offset, IsRecipeWalked, fetch_recipe_pages, no_recipe_pages,
  fetch_recipe_pages-IsRecipeWalked,
}
use web_scraping_event_appli.Pagination.Bounds.{IsWalked, fetch_legacy_pages-IsWalked}
use web_scraping_event_appli.Pagination.Strategies.{
  next_request, build_pagination_strategy, query_param_request,
}
use web_scraping_event_appli.Pagination.Requests.{IsSafeNew, next_request_lem}
use web_scraping_event_appli.Tests.Samples.{venue_site}

abbrev plain_urls : Urls
plain_urls = record { canonical_url = λ url. url; origin = λ url. url; path = λ url. "/events" }

-- The archived predecessor of the venue's site, with a lower id.
abbrev old_site : Website
old_site = record venue_site {
  id = 2;
  onboarding_status = archived;
  archived_at = some 4;
  is_active = false;
}

find_website_match-IsBest_example :
    IsBest plain_urls
      (old_site ∷ venue_site ∷ [])
      "https://venue.example/events"
      (find_website_match plain_urls (old_site ∷ venue_site ∷ []) "https://venue.example/events")
find_website_match-IsBest_example =
    find_website_match-IsBest plain_urls (old_site ∷ venue_site ∷ []) "https://venue.example/events"

abbrev texts : Texts
texts = record {
  strip = λ s. s;
  len = λ s. 9;
  has_scheme = λ s. true;
  with_https = λ s. s;
  validate_public_url = λ s. public_url s;
  canonical_url = λ s. s;
  clean_text = λ s. s;
  is_timezone = λ s. true;
}

abbrev limits : SubmissionLimits
limits = record { max_urls = 3; max_csv_rows = 3; max_csv_bytes = 900; max_url_length = 90 }

abbrev lines : List String
lines = "https://a.example" ∷ "" ∷ "https://a.example" ∷ "https://b.example" ∷ []

abbrev upload : Upload
upload = record {
  size = 60;
  has_nul = false;
  is_utf8 = true;
  has_header = true;
  has_url_column = true;
  unknown_columns = [];
  rows =
      record { url = some "https://a.example"; cells = no_cells }
      ∷ record { url = none; cells = no_cells }
      ∷ [];
  is_broken = false;
}

parse_csv-IsAccounted_example :
    IsAccounted (parse_csv texts limits upload) 2 × (2 ≤ 3) × (0 < 2) × (false ≡ false)
unfolding parse_csv accept_rows accept validate_url
parse_csv-IsAccounted_example = parse_csv-IsAccounted texts limits upload refl

abbrev waiting_job : Job
waiting_job = record {
  id = 0;
  batch_id = some 0;
  row_number = 1;
  submitted_url = "https://a.example";
  normalized_url = "https://a.example";
  final_url = none;
  city_id = none;
  timezone_override = none;
  submitted_by_user_id = none;
  submitted_name = none;
  submitted_source_display_name = none;
  status = queued;
  current_step = none;
  website_id = none;
  duplicate_of_website_id = none;
  detected_pattern = none;
  detection_confidence = none;
  detection_run_id = none;
  preview_run_id = none;
  configuration_version = none;
  events_found = 0;
  events_valid = 0;
  events_rejected = 0;
  quality = none;
  inferred_metadata = none;
  failure_reason = none;
  retry_count = 0;
  started_at = none;
  completed_at = none;
}

abbrev first_batch : Batch
first_batch = record {
  id = 0;
  submitted_by_user_id = none;
  default_city_id = none;
  default_timezone = none;
  redetect_existing = false;
  selected_policy_id = none;
  submitted_count = 1;
  valid_count = 1;
  invalid_count = 0;
  completed_count = 0;
  status = batch_open;
  completed_at = none;
}

abbrev stored : Job → Store
stored j = record {
  jobs = j ∷ [];
  batches = first_batch ∷ [];
  websites = [];
  next_job_id = 1;
  next_batch_id = 1;
  next_website_id = 1;
}

-- Pages can be read, and detection leaves every site for a review.
abbrev world : World
world = record {
  urls = plain_urls;
  fetch = λ url.
      returned
        record { final_url = some url; text = "<html>"; status_code = 200; blocked_reason = none };
  browser_extraction_enabled = false;
  render = λ url. raised "no browser";
  infer_site_metadata = λ document url j. record {
    name = "Venue";
    source_display_name = "Venue";
    base_url = url;
    event_listing_url = url;
    as_dict = null;
  };
  website_error = λ j metadata. none;
  get_city = λ id. none;
  detect_and_configure = λ sites site j. (
    sites,
    returned record {
      outcome = review_outcome;
      pattern_name = none;
      detection_confidence = "0.4";
      detection_run_id = some 5;
      preview = none;
      quality = none;
      error = some "no pattern";
      blocking_reasons = [];
    },
  );
  browser_retry_recovery = λ sites site j. (sites, raised "no browser");
  begun = λ id. 10;
  ended = λ id. 20;
}

process_batch-IsBatchRun_example :
    IsBatchRun world
      (stored waiting_job)
      first_batch
      5
      30
      (process_batch world (stored waiting_job) first_batch 5 30).0
      (process_batch world (stored waiting_job) first_batch 5 30).1
process_batch-IsBatchRun_example =
    process_batch-IsBatchRun world (stored waiting_job) first_batch 5 30 (tt, tt)
      (unfold get_batch in refl)

abbrev failed_job : Job
failed_job = record waiting_job { status = failed; completed_at = some 3 }

retry_job-IsRetried_example :
    IsRetried world
      (stored failed_job)
      failed_job
      (retry_job world (stored failed_job) failed_job 30)
retry_job-IsRetried_example = retry_job-IsRetried world (stored failed_job) failed_job 30 (inl refl)

abbrev stuck_job : Job
stuck_job = record waiting_job { status = validating; started_at = some 3 }

abbrev submitted : Submitted
submitted = record {
  submitted_by_user_id = some 1;
  default_city_id = none;
  default_timezone = none;
  redetect_existing = false;
  selected_policy_id = none;
}

abbrev places : Places
places = record { get_city_by_slug = λ slug. none; is_fixed_offset_abbreviation = λ zone. false }

abbrev row : SubmittedRow
row = record {
  row_number = 1;
  url = "https://b.example";
  normalized_url = "https://b.example";
  name = none;
  source_display_name = none;
  city_slug = none;
  timezone = none;
}

abbrev parsed : ParsedSubmission
parsed = record {
  rows = row ∷ record row { row_number = 2; city_slug = some "nowhere" } ∷ [];
  rejected = record { row_number = 3; value = ""; reason = empty_value } ∷ [];
  warnings = [];
  error = none;
}

stored-IsNumbered : IsNumbered (stored waiting_job)
stored-IsNumbered = record {
  keyed = (tt, tt);
  jobs = (omega arith, tt);
  fresh = refl;
  batch_fresh = unfold get_batch in refl;
}

create_batch-IsSubmitted_example :
    IsSubmitted
      (create_batch_from_submission submitted places parsed (stored waiting_job)).0
      (create_batch_from_submission submitted places parsed (stored waiting_job)).1
create_batch-IsSubmitted_example =
    create_batch-IsSubmitted submitted places parsed (stored waiting_job) stored-IsNumbered

submission_completes_example : IsComplete 1 1 (
    run_calls world 1 1 5 30
      (create_batch_from_submission submitted places parsed (stored waiting_job)).0)
unfolding create_batch_from_submission list_jobs_for_batch add_rows
submission_completes_example =
    submission_completes world submitted places parsed (stored waiting_job) 0 5 30 stored-IsNumbered
      (omega arith) (omega arith)

abbrev web : Web
web = record {
  safe_or_none = λ url. some url;
  next_url_with_param = λ url param page. "https://venue.example/events?page=2";
  fill_template = λ template page. template;
  select_href = λ page selector. none;
  urljoin = λ base url. url;
  query_value = λ url param. none;
  int = λ s. none;
  json_loads = λ s. none;
  norm_key = λ k. k;
}

abbrev paging : PaginationConfig
paging = record {
  strategy = query_param;
  page_param = none;
  next_page_selector = none;
  page_path_template = none;
  max_pages = 3;
  max_events = 50;
  events_root = none;
}

abbrev page : FetchResponse
page = record {
  final_url = "https://venue.example/events";
  body_hash = "h";
  text = "<html>";
  total_pages_header = none;
  content_type = none;
  blocked_reason = none;
}

abbrev one_event : FetchResponse → List String
one_event r = "Concert" ∷ []

fetch_legacy_pages-IsWalked_example :
    IsWalked web
      (λ n request. page)
      (λ t. true)
      one_event
      paging
      (fetch_legacy_pages web
        (λ n request. page)
        (λ t. true)
        one_event
        3
        paging
        "https://venue.example/events")
fetch_legacy_pages-IsWalked_example =
    fetch_legacy_pages-IsWalked web (λ n request. page) (λ t. true) one_event paging
      "https://venue.example/events" (omega arith)

abbrev recipe : RecipePagination
recipe = record { kind = by_offset; limit = 1; max_pages = 3 }

fetch_recipe_pages-IsRecipeWalked_example :
    IsRecipeWalked
      (λ offset number. page)
      (λ t. true)
      one_event
      (λ c. c)
      (λ r. none)
      recipe
      50
      (fetch_recipe_pages
        (λ offset number. page)
        (λ t. true)
        one_event
        (λ c. c)
        (λ r. none)
        recipe
        50
        3
        (no_recipe_pages
          (λ offset number. page)
          (λ t. true)
          one_event
          (λ c. c)
          (λ r. none)
          recipe
          50))
fetch_recipe_pages-IsRecipeWalked_example =
    fetch_recipe_pages-IsRecipeWalked (λ offset number. page) (λ t. true) one_event (λ c. c)
      (λ r. none) recipe 50 (omega arith)

next_request_lem_example :
    IsSafeNew web [] "https://venue.example/events?page=2"
    × (0 + 1 < 3)
    × (false ≡ false)
    × (false ≡ false)
unfolding next_request build_pagination_strategy query_param_request stop_conditions_met
next_request_lem_example =
    next_request_lem web paging page 0 [] [] "https://venue.example/events?page=2" refl
