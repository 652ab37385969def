-- ===== src/Scheduler/Reconcile.antt =====
-- backend/app/services/scheduler.py, `reconcile`: the job rows are brought in line with the sites.
use web_scraping_event_appli.Prelude.{
  ℕ, String, Bool, true, false, not, Option, none, some, List, [], ◌∷◌, if◌then◌else◌,
}
use web_scraping_event_appli.Json.{Json}
use web_scraping_event_appli.Schedule.{ScheduleConfig}
use web_scraping_event_appli.Website.{Website}
use web_scraping_event_appli.Scheduler.{
  Table, JobState, update, get_or_create_state, compute_next_run_at, reclaim_stale_locks,
}
use web_scraping_event_appli.Scheduler.Eligibility.{
  Parsed, ScheduleEligibility, evaluate_eligibility,
}

pub record Reconciliation : Type 0 where
  pub eligible_website_ids : List ℕ
  pub paused_website_ids : List ℕ
  pub reclaimed_website_ids : List ℕ

abbrev pub first_run : Option ScheduleConfig → ℕ → Option ℕ → Option ℕ
first_run schedule now (some at) = some at
first_run none now none = none
first_run (some c) now none = some (compute_next_run_at c now)

-- What the loop body writes to the row of one website.
abbrev pub settle : ScheduleEligibility → ℕ → JobState → JobState
settle e now s =
    if e.eligible
    then record s { paused = false; next_run_at = first_run e.schedule now s.next_run_at }
    else record s { paused = true }

abbrev pub cons_if : Bool → ℕ → List ℕ → List ℕ
cons_if true id ids = id ∷ ids
cons_if false id ids = ids

module _ (validate : Json → Option String) (parse : Json → Parsed) (now : ℕ) where
  -- The body of the loop over the websites.
  unfoldable pub settle_site : Website → Table → Table
  settle_site w table =
      update w.id (settle (evaluate_eligibility validate parse w) now)
        (get_or_create_state table w.id).0

  unfoldable pub settle_all : List Website → Table → Table × List ℕ × List ℕ
  unfolding settle_site
  settle_all [] table = (table, [], [])
  settle_all (w ∷ ws) table =
      let eligible = (evaluate_eligibility validate parse w).eligible in
      let (end, on, off) = settle_all ws (settle_site w table) in
      (end, cons_if eligible w.id on, cons_if (not eligible) w.id off)

  unfoldable pub reconcile : List Website → Table → Table × Reconciliation
  unfolding settle_all
  reconcile ws table =
      let (table', reclaimed) = reclaim_stale_locks table now in
      let (end, eligible, paused) = settle_all ws table' in
      (
        end,
        record {
          eligible_website_ids = eligible;
          paused_website_ids = paused;
          reclaimed_website_ids = reclaimed;
        },
      )
