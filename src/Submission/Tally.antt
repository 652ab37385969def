-- ===== src/Submission/Tally.antt =====
-- Every row of a submission is counted once, and no two accepted rows name the same source.
use web_scraping_event_appli.Prelude.{
  ℕ, suc, String, str_eq, true, false, Option, none, some, List, [], ◌∷◌, ◌++◌, any, length,
  length-append, All, All-weaken, DistinctBy, ltb, if◌then◌else◌, ◌≡◌, ◌≢◌, sym, arith, Bool-cases,
  inl, inr, eq_refl,
}
use web_scraping_event_appli.Json.{is_some}
use web_scraping_event_appli.Submission.{
  Texts, SubmissionLimits, Parsing, ParsedSubmission, SubmittedRow, RejectionReason, Cells,
  UrlOutcome, valid_url, invalid_url, submitted_count, reject, add_row, accept_zone, accept_url,
  accept, non_empty, unknown_timezone, validate_url,
}

-- The accepted rows have different canonical URLs, all of them seen.
pub record IsTallied (p : Parsing) (n : ℕ) : Type 0 where
  pub distinct : DistinctBy (λ (r : SubmittedRow). r.normalized_url) p.parsed.rows
  pub seen : All (λ (r : SubmittedRow). any (str_eq r.normalized_url) p.seen ≡ true) p.parsed.rows
  pub count : submitted_count (p.parsed) ≡ n
  pub no_error : p.parsed.error ≡ none

All-append :
    {A : Type 0} (P : A → Type 0) (xs : List A) (x : A) → All P xs → P x → All P (xs ++ (x ∷ []))
All-append P [] x h p = (p, tt)
All-append P (y ∷ ys) x h p = (h.0, All-append P ys x h.1 p)

DistinctBy-append :
    (rows : List SubmittedRow) (row : SubmittedRow)
    → DistinctBy (λ (r : SubmittedRow). r.normalized_url) rows
    → All (λ (r : SubmittedRow). r.normalized_url ≢ row.normalized_url) rows
    → DistinctBy (λ (r : SubmittedRow). r.normalized_url) (rows ++ (row ∷ []))
DistinctBy-append [] row d a = (tt, tt)
DistinctBy-append (r ∷ rs) row d a = (
  All-append (λ (y : SubmittedRow). r.normalized_url ≢ y.normalized_url) rs row d.0 a.0,
  DistinctBy-append rs row d.1 a.1,
)

pub reject-IsTallied :
    (p : Parsing) (n row : ℕ) (value : String) (reason : RejectionReason)
    → IsTallied p n
    → IsTallied (reject p row value reason) (suc n)
unfolding submitted_count
reject-IsTallied p n row value reason h = record {
  distinct = h.distinct;
  seen = h.seen;
  no_error = h.no_error;
  count = ground (
    arith,
    length-append p.parsed.rejected
        (record { row_number = row; value = value; reason = reason } ∷ []),
    h.count,
  );
}

unseen :
    (seen : List String) (rows : List SubmittedRow) (url : String)
    → any (str_eq url) seen ≡ false
    → All (λ (r : SubmittedRow). any (str_eq r.normalized_url) seen ≡ true) rows
    → All (λ (r : SubmittedRow). r.normalized_url ≢ url) rows
unseen seen rows url f =
    All-weaken _ _ (λ r h e. let k : any (str_eq url) seen ≡ true = rw (sym e) h in cc) rows

add-IsTallied :
    (p : Parsing) (n : ℕ) (row : SubmittedRow)
    → any (str_eq row.normalized_url) p.seen ≡ false
    → IsTallied p n
    → IsTallied (add_row p row) (suc n)
unfolding submitted_count
add-IsTallied p n row f h = record {
  distinct =
      DistinctBy-append p.parsed.rows row h.distinct
        (unseen p.seen p.parsed.rows row.normalized_url f h.seen);
  seen =
      All-append _ p.parsed.rows row
        (All-weaken _ _ (λ r e. ground (arith, e)) p.parsed.rows h.seen)
        (ground (arith, eq_refl row.normalized_url));
  no_error = h.no_error;
  count = ground (arith, length-append p.parsed.rows (row ∷ []), h.count);
}

zone-IsTallied :
    (p : Parsing) (n : ℕ) (row : SubmittedRow) (zone : Option String)
    → any (str_eq row.normalized_url) p.seen ≡ false
    → IsTallied p n
    → IsTallied (accept_zone p row zone) (suc n)
zone-IsTallied p n row none f h = add-IsTallied p n row f h
zone-IsTallied p n row (some zone) f h = reject-IsTallied p n row.row_number row.url _ h

-- A row is accepted or rejected.
url-IsTallied :
    (t : Texts) (p : Parsing) (n row : ℕ) (raw : String) (cells : Cells) (o : UrlOutcome)
    → IsTallied p n
    → IsTallied (accept_url t p row raw cells o) (suc n)
url-IsTallied t p n row raw cells (invalid_url reason) h = reject-IsTallied p n row _ reason h
url-IsTallied t p n row raw cells (valid_url url normalized) h =
    elim (Bool-cases (any (str_eq normalized) p.seen)) [
      | inl e ↦ rw e (reject-IsTallied p n row url _ h)
      | inr e ↦ rw e (zone-IsTallied p n _ (unknown_timezone t cells.timezone) e h)
    ]

pub accept-IsTallied :
    (t : Texts) (limits : SubmissionLimits) (p : Parsing) (n row : ℕ) (raw : String) (cells : Cells)
    → IsTallied p n
    → IsTallied (accept t limits p row raw cells) (suc n)
unfolding accept
accept-IsTallied t limits p n row raw cells h =
    url-IsTallied t p n row raw cells (validate_url t limits raw) h

-- The rows of a submission name different sources, and the rows accepted and rejected are as many
-- as counted.
pub record IsAccounted (p : ParsedSubmission) (n : ℕ) : Type 0 where
  pub distinct : DistinctBy (λ (r : SubmittedRow). r.normalized_url) p.rows
  pub count : submitted_count p ≡ n

abbrev pub LinesResult : Texts → SubmissionLimits → List String → ParsedSubmission → Type 0
LinesResult t limits lines p =
    if ltb limits.max_urls (length (non_empty t 0 lines))
    then IsAccounted p 0 × (is_some p.error ≡ true)
    else IsAccounted p (length (non_empty t 0 lines)) × (is_some p.error ≡ false)
