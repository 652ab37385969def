-- ===== src/Submission.antt =====
-- backend/app/services/onboarding_submission.py: the rows of a bulk submission, as lines or as CSV.
-- Python's text functions, its CSV reader and the check that a URL is public are given.
pub mod Tally
pub mod Csv
use web_scraping_event_appli.Prelude.{
  ℕ, zero, suc, ◌+◌, ◌≤◌, String, str_eq, Bool, true, false, not, ◌&&◌, ◌||◌, Option, none, some,
  List, [], ◌∷◌, ◌++◌, any, length, is_empty, ltb, if◌then◌else◌,
}
use web_scraping_event_appli.Json.{is_some}

pub data RejectionReason : Type 0 where
  empty_value too_long not_normalized repeated missing_url : RejectionReason
  unsafe : String → RejectionReason
  no_timezone : String → RejectionReason

pub record SubmittedRow : Type 0 where
  pub row_number : ℕ
  pub url : String
  pub normalized_url : String
  pub name : Option String
  pub source_display_name : Option String
  pub city_slug : Option String
  pub timezone : Option String

pub record RejectedRow : Type 0 where
  pub row_number : ℕ
  pub value : String
  pub reason : RejectionReason

pub data SubmissionError : Type 0 where
  too_many_urls too_many_bytes not_text not_utf8 not_csv no_url_column too_many_rows no_rows :
      SubmissionError

pub record ParsedSubmission : Type 0 where
  pub rows : List SubmittedRow
  pub rejected : List RejectedRow
  pub warnings : List (List String)
  pub error : Option SubmissionError

abbrev pub empty_submission : ParsedSubmission
empty_submission = record { rows = []; rejected = []; warnings = []; error = none }

unfoldable pub submitted_count : ParsedSubmission → ℕ
submitted_count p = length p.rows + length p.rejected

pub record SubmissionLimits : Type 0 where
  pub max_urls : ℕ
  pub max_csv_rows : ℕ
  pub max_csv_bytes : ℕ
  pub max_url_length : ℕ

pub data Validated : Type 0 where
  public_url : String → Validated
  unsafe_url : String → Validated

-- `str.strip`, `len`, `"://" in url`, `f"https://{url}"`, `validate_public_url`, `canonical_url`, the
-- cleaning of a cell and the timezones of the zone database.
pub record Texts : Type 0 where
  pub strip : String → String
  pub len : String → ℕ
  pub has_scheme : String → Bool
  pub with_https : String → String
  pub validate_public_url : String → Validated
  pub canonical_url : String → String
  pub clean_text : Option String → Option String
  pub is_timezone : String → Bool

pub data UrlOutcome : Type 0 where
  valid_url : (url normalized : String) → UrlOutcome
  invalid_url : RejectionReason → UrlOutcome

abbrev pub normalized_outcome : Texts → Validated → UrlOutcome
normalized_outcome t (unsafe_url e) = invalid_url (unsafe e)
normalized_outcome t (public_url url) =
    if str_eq (t.canonical_url url) ""
    then invalid_url not_normalized
    else valid_url url (t.canonical_url url)

unfoldable pub validate_url : Texts → SubmissionLimits → String → UrlOutcome
validate_url t limits raw =
    let url = t.strip raw in
    if str_eq url ""
    then invalid_url empty_value
    else if ltb limits.max_url_length (t.len url)
    then invalid_url too_long
    else normalized_outcome t
        (t.validate_public_url (if t.has_scheme url then url else t.with_https url))

-- The cells of a row, blank for lines.
pub record Cells : Type 0 where
  pub name : Option String
  pub source_display_name : Option String
  pub city_slug : Option String
  pub timezone : Option String

abbrev pub no_cells : Cells
no_cells = record { name = none; source_display_name = none; city_slug = none; timezone = none }

-- The submission so far, and `seen`.
pub record Parsing : Type 0 where
  pub parsed : ParsedSubmission
  pub seen : List String

abbrev pub reject : Parsing → ℕ → String → RejectionReason → Parsing
reject p n value reason = record p {
  parsed = record (p.parsed) {
    rejected =
        p.parsed.rejected ++ (record { row_number = n; value = value; reason = reason } ∷ []);
  };
}

abbrev pub unknown_timezone : Texts → Option String → Option String
unknown_timezone t none = none
unknown_timezone t (some zone) = if t.is_timezone zone then none else some zone

abbrev pub add_row : Parsing → SubmittedRow → Parsing
add_row p row = record {
  parsed = record (p.parsed) { rows = p.parsed.rows ++ (row ∷ []) };
  seen = row.normalized_url ∷ p.seen;
}

abbrev pub accept_zone : Parsing → SubmittedRow → Option String → Parsing
accept_zone p row (some zone) = reject p row.row_number row.url (no_timezone zone)
accept_zone p row none = add_row p row

abbrev pub accept_url : Texts → Parsing → ℕ → String → Cells → UrlOutcome → Parsing
accept_url t p n raw cells (invalid_url reason) = reject p n (t.strip raw) reason
accept_url t p n raw cells (valid_url url normalized) =
    if any (str_eq normalized) p.seen
    then reject p n url repeated
    else accept_zone p
        (record {
          row_number = n;
          url = url;
          normalized_url = normalized;
          name = cells.name;
          source_display_name = cells.source_display_name;
          city_slug = cells.city_slug;
          timezone = cells.timezone;
        })
        (unknown_timezone t cells.timezone)

unfoldable pub accept : Texts → SubmissionLimits → Parsing → ℕ → String → Cells → Parsing
accept t limits p n raw cells = accept_url t p n raw cells (validate_url t limits raw)

-- The numbered lines that are not blank.
abbrev pub non_empty : Texts → ℕ → List String → List (ℕ × String)
non_empty t n [] = []
non_empty t n (line ∷ lines) =
    let rest = non_empty t (suc n) lines in
    if str_eq (t.strip line) "" then rest else (suc n, line) ∷ rest

unfoldable pub accept_lines : Texts → SubmissionLimits → List (ℕ × String) → Parsing → Parsing
accept_lines t limits [] p = p
accept_lines t limits ((n, line) ∷ lines) p =
    accept_lines t limits lines (accept t limits p n line no_cells)

abbrev pub start : Parsing
start = record { parsed = empty_submission; seen = [] }

-- `text.splitlines()` is given.
unfoldable pub parse_url_lines : Texts → SubmissionLimits → (lines : List String) → ParsedSubmission
parse_url_lines t limits lines =
    let numbered = non_empty t 0 lines in
    if ltb limits.max_urls (length numbered)
    then record empty_submission { error = some too_many_urls }
    else (accept_lines t limits numbered start).parsed

-- A row of the CSV reader: the values under the stripped and case-folded column names.
pub record RawRow : Type 0 where
  pub url : Option String
  pub cells : Cells

-- The uploaded bytes, as they are read: the CSV reader gives rows, and perhaps then an error.
pub record Upload : Type 0 where
  pub size : ℕ
  pub has_nul : Bool
  pub is_utf8 : Bool
  pub has_header : Bool
  pub has_url_column : Bool
  pub unknown_columns : List String
  pub rows : List RawRow
  pub is_broken : Bool

abbrev pub clean : Texts → Cells → Cells
clean t c = record {
  name = t.clean_text c.name;
  source_display_name = t.clean_text c.source_display_name;
  city_slug = t.clean_text c.city_slug;
  timezone = t.clean_text c.timezone;
}

abbrev pub raw_url : Texts → Option String → String
raw_url t none = t.strip ""
raw_url t (some url) = t.strip url

abbrev pub accept_row : Texts → SubmissionLimits → Parsing → ℕ → RawRow → Parsing
accept_row t limits p n row =
    let raw = raw_url t row.url in
    if str_eq raw "" then reject p n "" missing_url else accept t limits p n raw (clean t row.cells)

abbrev pub failed_with : SubmissionError → ParsedSubmission → ParsedSubmission
failed_with e p = record p { error = some e }

-- The row numbers start after `n`.
unfoldable pub accept_rows :
    Texts → SubmissionLimits → (is_broken : Bool) → ℕ → List RawRow → Parsing → ParsedSubmission
accept_rows t limits is_broken n [] p =
    if is_broken
    then failed_with not_csv p.parsed
    else if is_empty p.parsed.rows && is_empty p.parsed.rejected
    then failed_with no_rows p.parsed
    else p.parsed
accept_rows t limits is_broken n (row ∷ rows) p =
    let rest = accept_rows t limits is_broken (suc n) rows (accept_row t limits p (suc n) row) in
    if ltb limits.max_csv_rows (suc n) then failed_with too_many_rows p.parsed else rest

unfoldable pub parse_csv : Texts → SubmissionLimits → Upload → ParsedSubmission
parse_csv t limits u =
    if ltb limits.max_csv_bytes u.size
    then failed_with too_many_bytes empty_submission
    else if u.has_nul
    then failed_with not_text empty_submission
    else if not u.is_utf8
    then failed_with not_utf8 empty_submission
    else if not u.has_header
    then failed_with not_csv empty_submission
    else if not u.has_url_column
    then failed_with no_url_column empty_submission
    else accept_rows t limits u.is_broken 0 u.rows (record start {
      parsed = record empty_submission {
        warnings = if is_empty u.unknown_columns then [] else u.unknown_columns ∷ [];
      };
    })
