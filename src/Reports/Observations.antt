-- ===== src/Reports/Observations.antt =====
-- Observations of unsupported sites: reports are neither lost nor repeated.
use web_scraping_event_appli.Prelude.{
  ℕ, ◌+◌, String, false, Option, List, [], ◌∷◌, ◌≡◌, arith, if◌then◌else◌, ◌==◌, Bool-cases, inl,
  inr, eq_refl,
}
use web_scraping_event_appli.Reports.{
  Report, should_create_new_report, record_report_occurrence, observe, new_report,
}

-- How often a site was seen, over all its reports.
unfoldable pub sightings : ℕ → List Report → ℕ
sightings id [] = 0
sightings id (r ∷ rs) =
    let rest = sightings id rs in if r.website_id == id then r.occurrence_count + rest else rest

recorded :
    (rs : List Report) (id other : ℕ) (fingerprint : String) (run : Option ℕ) (now : ℕ)
    → should_create_new_report rs id fingerprint ≡ false
    → sightings other (record_report_occurrence rs id fingerprint run now)
      ≡ (if id == other then 1 else 0) + sightings other rs
unfolding should_create_new_report record_report_occurrence sightings
recorded [] id other fingerprint run now h = absurd cc
recorded (r ∷ rs) id other fingerprint run now h =
    ground (arith, recorded rs id other fingerprint run now)

-- Every observation counts once, for the site observed and for no other, whether it makes a new
-- report or is counted on the latest one.
pub observe_counts :
    (rs : List Report) (id other : ℕ) (fingerprint : String) (run : Option ℕ) (now : ℕ)
    → sightings other (observe rs id fingerprint run now)
      ≡ (if id == other then 1 else 0) + sightings other rs
unfolding observe sightings
observe_counts rs id other fingerprint run now =
    elim (Bool-cases (should_create_new_report rs id fingerprint)) [
      | inl new ↦ ground (arith, new)
      | inr old ↦ ground (arith, old, recorded rs id other fingerprint run now old)
    ]

recorded_again :
    (rs : List Report) (id : ℕ) (fingerprint : String) (run : Option ℕ) (now : ℕ)
    → should_create_new_report rs id fingerprint ≡ false
    → should_create_new_report (record_report_occurrence rs id fingerprint run now) id fingerprint
      ≡ false
unfolding should_create_new_report record_report_occurrence
recorded_again [] id fingerprint run now h = absurd cc
recorded_again (r ∷ rs) id fingerprint run now h =
    ground (arith, recorded_again rs id fingerprint run now)

new_again :
    (rs : List Report) (id : ℕ) (fingerprint : String) (run : Option ℕ) (now : ℕ)
    → should_create_new_report (new_report id fingerprint run now ∷ rs) id fingerprint ≡ false
unfolding should_create_new_report
new_again rs id fingerprint run now = ground (arith, eq_refl fingerprint)

-- After an observation the latest report of the site has the observed fingerprint: the same
-- observation again makes no new report.
pub observe_again :
    (rs : List Report) (id : ℕ) (fingerprint : String) (run : Option ℕ) (now : ℕ)
    → should_create_new_report (observe rs id fingerprint run now) id fingerprint ≡ false
unfolding observe
observe_again rs id fingerprint run now =
    elim (Bool-cases (should_create_new_report rs id fingerprint)) [
      | inl new ↦ ground (arith, new, new_again rs id fingerprint run now)
      | inr old ↦ ground (arith, old, recorded_again rs id fingerprint run now old)
    ]
