-- ===== src/Scheduler/Rows.antt =====
-- The job table as a map from website ids to rows.
use web_scraping_event_appli.Prelude.{
  ℕ, some, ◌==◌, if◌then◌else◌, ◌≡◌, refl, arith, [], ◌∷◌, false, ◌&&◌,
}
use mathlib.Core.Option
use web_scraping_event_appli.Scheduler.{
  Table, JobState, find, update, get_or_create_state, recovered, reclaim_stale_locks, lock_is_stale,
  stale_lock_seconds,
}

-- A row found under an id carries it.
pub find-website_id :
    (id : ℕ) (table : Table) (s : JobState) → find id table ≡ some s → s.website_id ≡ id
unfolding find
find-website_id id [] s h = ground arith
find-website_id id (r ∷ rows) s h = ground (arith, find-website_id id rows s)

-- An update that keeps the ids changes what is found under its own id only.
pub find-update :
    (id j : ℕ) (f : JobState → JobState) (table : Table)
    → ((s : JobState) → (f s).website_id ≡ s.website_id)
    → find j (update id f table) ≡ (if id == j then Option.map f (find j table) else find j table)
unfolding find update
find-update id j f [] keeps = ground arith
find-update id j f (r ∷ rows) keeps = ground (arith, keeps r, find-update id j f rows keeps)

pub find-get_or_create :
    (table : Table) (id : ℕ)
    → find id (get_or_create_state table id).0 ≡ some (get_or_create_state table id).1
unfolding find get_or_create_state
find-get_or_create table id = ground arith

pub get_or_create_found :
    (table : Table) (id : ℕ) (s : JobState)
    → find id table ≡ some s
    → get_or_create_state table id ≡ (table, s)
unfolding get_or_create_state
get_or_create_found table id s h = ground arith

-- Rows of other websites are not touched by the creation of one.
pub find-get_or_create_ne :
    (table : Table) (id j : ℕ)
    → (id == j) ≡ false
    → find j (get_or_create_state table id).0 ≡ find j table
unfolding find get_or_create_state
find-get_or_create_ne table id j h = ground arith

-- What a reclaiming pass does to a row.
abbrev pub reclaim_row : ℕ → JobState → JobState
reclaim_row now s = if s.running && lock_is_stale s now stale_lock_seconds then recovered s else s

pub find-reclaim :
    (id : ℕ) (table : Table) (now : ℕ)
    → find id (reclaim_stale_locks table now).0 ≡ Option.map (reclaim_row now) (find id table)
unfolding find reclaim_stale_locks recovered
find-reclaim id [] now = refl
find-reclaim id (r ∷ rows) now = ground (arith, find-reclaim id rows now)

-- A row that is written back is found under its id.
pub find-write_back :
    (id : ℕ) (row old : JobState) (table : Table)
    → row.website_id ≡ id
    → find id table ≡ some old
    → find id (update id (λ _. row) table) ≡ some row
unfolding find update
find-write_back id row old [] e h = ground arith
find-write_back id row old (r ∷ rows) e h = ground (arith, find-write_back id row old rows e)
