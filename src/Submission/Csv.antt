-- ===== src/Submission/Csv.antt =====
-- A CSV submission is read to its end, each of its rows accepted or rejected once.
use web_scraping_event_appli.Prelude.{
  ℕ, suc, ◌+◌, ◌≤◌, ◌<◌, str_eq, Bool, true, false, ◌&&◌, none, List, [], ◌∷◌, length, is_empty,
  ltb, if◌then◌else◌, ◌≡◌, refl, sym, ap, ◌∙◌, subst, arith, Bool-cases, inl, inr,
}
use web_scraping_event_appli.Submission.{
  Texts, SubmissionLimits, Parsing, ParsedSubmission, SubmittedRow, RawRow, Upload, submitted_count,
  accept_row, accept_rows, start, parse_csv, empty_submission, clean, missing_url, raw_url,
  RejectedRow,
}
use web_scraping_event_appli.Submission.Tally.{
  IsTallied, IsAccounted, reject-IsTallied, accept-IsTallied,
}

some_rows :
    (p : ParsedSubmission)
    → (is_empty p.rows && is_empty p.rejected) ≡ false
    → 0 < submitted_count p
unfolding submitted_count
some_rows p h = go p.rows p.rejected h
  where
    go :
        (xs : List SubmittedRow) (ys : List RejectedRow)
        → (is_empty xs && is_empty ys) ≡ false
        → 0 < length xs + length ys
    go [] [] f = cc
    go [] (y ∷ ys) f = omega arith
    go (x ∷ xs) ys f = omega arith

row-IsTallied :
    (t : Texts) (limits : SubmissionLimits) (p : Parsing) (n number : ℕ) (row : RawRow)
    → IsTallied p n
    → IsTallied (accept_row t limits p number row) (suc n)
row-IsTallied t limits p n number row h = elim (Bool-cases (str_eq (raw_url t row.url) "")) [
  | inl e ↦ rw e (reject-IsTallied p n number "" missing_url h)
  | inr e ↦ rw e (accept-IsTallied t limits p n number (raw_url t row.url) (clean t row.cells) h)
]

rows-IsAccounted :
    (t : Texts) (limits : SubmissionLimits) (broken : Bool) (n : ℕ) (rows : List RawRow)
    (p : Parsing)
    → IsTallied p n
    → n ≤ limits.max_csv_rows
    → (accept_rows t limits broken n rows p).error ≡ none
    → IsAccounted (accept_rows t limits broken n rows p) (n + length rows)
      × (n + length rows ≤ limits.max_csv_rows)
      × (0 < n + length rows)
      × (broken ≡ false)
unfolding accept_rows
rows-IsAccounted t limits true n [] p h le = λ e. cc
rows-IsAccounted t limits false n [] p h le =
    elim (Bool-cases (is_empty p.parsed.rows && is_empty p.parsed.rejected)) [
      | inl empty ↦ rw empty λ e. cc
      | inr full ↦ rw full λ e. (
        record { distinct = h.distinct; count = omega (arith, h.count) },
        omega (arith, le),
        omega (arith, h.count, some_rows p.parsed full),
        refl,
      )
    ]
rows-IsAccounted t limits broken n (row ∷ rows) p h le =
    elim (Bool-cases (ltb limits.max_csv_rows (suc n))) [
      | inl over ↦ rw over λ e. cc
      | inr within ↦ rw within λ e.
          (let (a, b, c, d) =
              rows-IsAccounted t limits broken (suc n) rows (accept_row t limits p (suc n) row)
                (row-IsTallied t limits p n (suc n) row h) (ground arith) e in
            (subst (IsAccounted _) (omega arith) a, omega (arith, b), omega (arith, c), d))
    ]

abbrev read : Upload → Parsing
read u = record start {
  parsed = record empty_submission {
    warnings = if is_empty u.unknown_columns then [] else u.unknown_columns ∷ [];
  };
}

-- A CSV without an error has been read to its end.
read_through :
    (t : Texts) (limits : SubmissionLimits) (u : Upload)
    → (parse_csv t limits u).error ≡ none
    → parse_csv t limits u ≡ accept_rows t limits u.is_broken 0 u.rows (read u)
unfolding parse_csv
read_through t limits u e = ground (arith, e)

read-IsTallied : (u : Upload) → IsTallied (read u) 0
unfolding submitted_count
read-IsTallied u = record { distinct = tt; seen = tt; count = refl; no_error = refl }

-- A CSV that is taken has at most the allowed number of rows and at least one, each of them
-- accepted or rejected once, with no two accepted for one source.
pub parse_csv-IsAccounted :
    (t : Texts) (limits : SubmissionLimits) (u : Upload)
    → (parse_csv t limits u).error ≡ none
    → IsAccounted (parse_csv t limits u) (length u.rows)
      × (length u.rows ≤ limits.max_csv_rows)
      × (0 < length u.rows)
      × (u.is_broken ≡ false)
parse_csv-IsAccounted t limits u e =
    let through = read_through t limits u e in
    let (a, b, c, d) =
      rows-IsAccounted t limits u.is_broken 0 u.rows (read u) (read-IsTallied u) (omega arith)
        (ap (λ p. p.error) (sym through) ∙ e) in
    (rw through (subst (IsAccounted _) (omega arith) a), omega (arith, b), omega (arith, c), d)
