-- ===== src/Scheduler/Settled.antt =====
-- services/scheduler.py, `reconcile`: the rows that it leaves.
use web_scraping_event_appli.Prelude.{
  ℕ, String, true, false, not, Option, none, some, List, [], ◌∷◌, All, In, DistinctBy, All-In, ◌≡◌,
  ◌≢◌, refl, sym, arith, Bool-cases, Option-cases, inl, inr, ◌∙◌, ap, subst,
}
use web_scraping_event_appli.Json.{Json}
use web_scraping_event_appli.Website.{Website}
use web_scraping_event_appli.Scheduler.{
  Table, JobState, find, new_state, get_or_create_state, reclaim_stale_locks, recovered,
  lock_is_stale, stale_lock_seconds,
}
use web_scraping_event_appli.Scheduler.Rows.{
  find-update, find-get_or_create, find-get_or_create_ne, find-reclaim, reclaim_row,
}
use web_scraping_event_appli.Scheduler.Eligibility.{
  Parsed, ScheduleEligibility, evaluate_eligibility,
}
use web_scraping_event_appli.Scheduler.Eligible.{eligible-schedule}
use web_scraping_event_appli.Scheduler.Reconcile.{settle, settle_site, settle_all, reconcile}

settle-website_id :
    (e : ScheduleEligibility) (now : ℕ) (s : JobState) → (settle e now s).website_id ≡ s.website_id
settle-website_id e now s = ground arith

get_or_create_cong :
    (t u : Table) (id : ℕ)
    → find id t ≡ find id u
    → (get_or_create_state t id).1 ≡ (get_or_create_state u id).1
unfolding get_or_create_state
get_or_create_cong t u id e = ground arith

module _ (validate : Json → Option String) (parse : Json → Parsed) (now : ℕ) where
  abbrev verdict : Website → ScheduleEligibility
  verdict w = evaluate_eligibility validate parse w

  abbrev site : Website → Table → Table
  site = settle_site validate parse now

  -- A pass over one website changes the rows of no other, and settles its own.
  settle_site_other :
      (w : Website) (id : ℕ) (table : Table) → w.id ≢ id → find id (site w table) ≡ find id table
  unfolding settle_site
  settle_site_other w id table other = ground (
    arith,
    find-get_or_create_ne table w.id id,
    find-update w.id id (settle (verdict w) now) (get_or_create_state table w.id).0
        (settle-website_id (verdict w) now),
  )

  own_row :
      (w : Website) (table : Table)
      → find w.id (site w table) ≡ some (settle (verdict w) now (get_or_create_state table w.id).1)
  unfolding settle_site
  own_row w table = ground (
    arith,
    find-get_or_create table w.id,
    find-update w.id w.id (settle (verdict w) now) (get_or_create_state table w.id).0
        (settle-website_id (verdict w) now),
  )

  settle_all_other :
      (ws : List Website) (id : ℕ) (table : Table)
      → All (λ w. id ≢ w.id) ws
      → find id (settle_all validate parse now ws table).0 ≡ find id table
  unfolding settle_all
  settle_all_other [] id table h = refl
  settle_all_other (w ∷ ws) id table (other, h) =
      settle_all_other ws id (site w table) h ∙ settle_site_other w id table (λ e. other (sym e))

  settle_all_row :
      (ws : List Website) (w : Website) (table : Table)
      → DistinctBy (λ v. v.id) ws
      → In w ws
      → find w.id (settle_all validate parse now ws table).0
        ≡ some (settle (verdict w) now (get_or_create_state table w.id).1)
  unfolding settle_all
  settle_all_row [] w table d i = absurd i
  settle_all_row (v ∷ vs) w table (first, rest) (inl e) =
      subst
        (λ x.
          find x.id (settle_all validate parse now vs (site v table)).0
          ≡ some (settle (verdict x) now (get_or_create_state table x.id).1))
        (sym e) (settle_all_other vs v.id (site v table) first ∙ own_row v table)
  settle_all_row (v ∷ vs) w table (first, rest) (inr i) =
      settle_all_row vs w (site v table) rest i
      ∙ ap (λ s. some (settle (verdict w) now s))
          (get_or_create_cong (site v table) table w.id
            (settle_site_other v w.id table (All-In (λ x. v.id ≢ x.id) w vs first i)))

  -- The row that a site has when the reclaiming pass is over.
  abbrev base : Table → ℕ → JobState
  base table id = (get_or_create_state (reclaim_stale_locks table now).0 id).1

  reclaim_row_fresh :
      (s : JobState) → lock_is_stale (reclaim_row now s) now stale_lock_seconds ≡ false
  unfolding lock_is_stale recovered
  reclaim_row_fresh s = ground arith

  base_found :
      (table : Table) (id : ℕ) (s : JobState)
      → find id table ≡ some s
      → base table id ≡ reclaim_row now s
  unfolding get_or_create_state
  base_found table id s e = ground (arith, find-reclaim id table now)

  base_new : (table : Table) (id : ℕ) → find id table ≡ none → base table id ≡ new_state id
  unfolding get_or_create_state
  base_new table id e = ground (arith, find-reclaim id table now)

  base_fresh :
      (table : Table) (id : ℕ) → lock_is_stale (base table id) now stale_lock_seconds ≡ false
  base_fresh table id = elim (Option-cases (find id table)) [
    | inl e ↦
        ap (λ s. lock_is_stale s now stale_lock_seconds) (base_new table id e)
        ∙ unfold lock_is_stale in refl
    | inr (s, e) ↦
        ap (λ r. lock_is_stale r now stale_lock_seconds) (base_found table id s e)
        ∙ reclaim_row_fresh s
  ]

  -- What `reconcile` makes of the row of a site.
  pub record InLine (w : Website) (row : JobState) : Type 0 where
    pub paused_iff : row.paused ≡ not (verdict w).eligible
    pub scheduled : (verdict w).eligible ≡ true → row.next_run_at ≢ none
    pub no_dead_lock : lock_is_stale row now stale_lock_seconds ≡ false

  settle-InLine :
      (w : Website) (s : JobState)
      → lock_is_stale s now stale_lock_seconds ≡ false
      → InLine w (settle (verdict w) now s)
  unfolding lock_is_stale
  settle-InLine w s live = elim (Bool-cases (verdict w).eligible) [
    | inr off ↦
        rw off (record { paused_iff = ground arith; scheduled = λ on. cc; no_dead_lock = live })
    | inl on ↦
        let (c, e, _) = eligible-schedule validate parse w on in
        record {
          paused_iff = ground arith;
          scheduled = λ _. ground (arith, e);
          no_dead_lock = ground arith;
        }
  ]

  -- After a reconciling pass over the websites, which have distinct ids, each has a row. It is
  -- paused exactly when the site is not eligible, an eligible site has a next run, and no row is
  -- left with a dead lock.
  pub reconcile-InLine :
      (ws : List Website) (w : Website) (table : Table)
      → DistinctBy (λ v. v.id) ws
      → In w ws
      → (row : JobState) × (find w.id (reconcile validate parse now ws table).0 ≡ some row)
        × InLine w row
  unfolding reconcile
  reconcile-InLine ws w table distinct i = (
    settle (verdict w) now (base table w.id),
    settle_all_row ws w (reclaim_stale_locks table now).0 distinct i,
    settle-InLine w (base table w.id) (base_fresh table w.id),
  )

  settle_idem :
      (e : ScheduleEligibility) (s : JobState) → settle e now (settle e now s) ≡ settle e now s
  settle_idem e s = ground arith

  reclaim_row_live :
      (s : JobState) → lock_is_stale s now stale_lock_seconds ≡ false → reclaim_row now s ≡ s
  reclaim_row_live s live = ground arith

  -- For websites with distinct ids a second pass at the same time changes nothing more: every site's
  -- row is what it was after the first.
  pub reconcile_idem :
      (ws : List Website) (w : Website) (table : Table)
      → DistinctBy (λ v. v.id) ws
      → In w ws
      → let once = (reconcile validate parse now ws table).0 in
        find w.id (reconcile validate parse now ws once).0 ≡ find w.id once
  unfolding reconcile
  reconcile_idem ws w table distinct i =
      let s = base table w.id in
      let t = reclaim_stale_locks table now in
      let first = settle_all_row ws w t.0 distinct i in
      let once = (settle_all validate parse now ws t.0).0 in
      let live = settle-InLine w s (base_fresh table w.id) in
      let again : base once w.id ≡ settle (verdict w) now s =
        base_found once w.id (settle (verdict w) now s) first
        ∙ reclaim_row_live (settle (verdict w) now s) live.no_dead_lock in
      settle_all_row ws w (reclaim_stale_locks once now).0 distinct i
      ∙ ap (λ r. some (settle (verdict w) now r)) again
      ∙ ap some (settle_idem (verdict w) s)
      ∙ sym first
