-- ===== src/Scheduler.antt =====
-- backend/app/services/scheduler.py: durable job rows, per-site locks and the leader row.
-- A table is the list of its rows, unique by website id; a write touches the columns it names.
pub mod Eligibility
pub mod Eligible
pub mod Rows
pub mod Acquire
pub mod Locks
pub mod Recovery
pub mod Leader
pub mod Runner
pub mod Runs
pub mod Unlock
pub mod Reconcile
pub mod Settled
use web_scraping_event_appli.Prelude.{
  ℕ, ◌+◌, ◌-◌, ◌*◌, String, Bool, true, false, not, ◌&&◌, Option, none, some, List, [], ◌∷◌, ltb,
  ◌==◌, if◌then◌else◌,
}
use web_scraping_event_appli.Schedule.{ScheduleConfig}

-- The strings that end up in `last_run_status`; the code tells the named ones apart.
pub data RunStatus : Type 0 where
  success partial failed blocked cancelled recovered_stale : RunStatus
  other : String → RunStatus

pub record JobState : Type 0 where
  pub website_id : ℕ
  pub paused : Bool
  pub next_run_at : Option ℕ
  pub last_run_started_at : Option ℕ
  pub last_run_finished_at : Option ℕ
  pub last_run_status : Option RunStatus
  pub running : Bool
  pub lock_holder : Option String
  pub lock_heartbeat_at : Option ℕ
  pub run_correlation_id : Option String
  pub cancel_requested : Bool
  pub consecutive_structure_failures : ℕ

-- `SchedulerJobState(website_id=...)` with the column defaults.
abbrev pub new_state : ℕ → JobState
new_state id = record {
  website_id = id;
  paused = false;
  next_run_at = none;
  last_run_started_at = none;
  last_run_finished_at = none;
  last_run_status = none;
  running = false;
  lock_holder = none;
  lock_heartbeat_at = none;
  run_correlation_id = none;
  cancel_requested = false;
  consecutive_structure_failures = 0;
}

abbrev pub Table : Type 0
Table = List JobState

abbrev pub second : ℕ
second = 1000000

abbrev pub stale_lock_seconds : ℕ
stale_lock_seconds = 600

abbrev pub stale_leader_seconds : ℕ
stale_leader_seconds = 90

abbrev pub structure_failure_threshold : ℕ
structure_failure_threshold = 3

unfoldable pub compute_next_run_at : ScheduleConfig → ℕ → ℕ
compute_next_run_at schedule now = now + schedule.interval_minutes * (60 * second)

-- `-` stops at 0, where Python's difference is negative and not past the threshold either.
abbrev pub older_than : ℕ → ℕ → ℕ → Bool
older_than threshold_seconds now heartbeat = ltb (threshold_seconds * second) (now - heartbeat)

unfoldable pub lock_is_stale : JobState → ℕ → ℕ → Bool
lock_is_stale state now threshold_seconds = state.running && (elim state.lock_heartbeat_at [
  | none ↦ true
  | some heartbeat ↦ older_than threshold_seconds now heartbeat
])

-- `db.scalar(select(SchedulerJobState).where(website_id == id))`.
unfoldable pub find : ℕ → Table → Option JobState
find id [] = none
find id (s ∷ rows) = if s.website_id == id then some s else find id rows

-- An update of the columns of one row.
unfoldable pub update : ℕ → (JobState → JobState) → Table → Table
update id f [] = []
update id f (s ∷ rows) = if s.website_id == id then f s ∷ rows else s ∷ update id f rows

unfoldable pub get_or_create_state : Table → ℕ → Table × JobState
get_or_create_state table id = elim (find id table) [
  | some s ↦ (table, s)
  | none ↦ (new_state id ∷ table, new_state id)
]

abbrev pub claim : String → ℕ → JobState → JobState
claim holder now s = record s {
  running = true;
  lock_holder = some holder;
  lock_heartbeat_at = some now;
  last_run_started_at = some now;
  cancel_requested = false;
}

unfoldable pub try_acquire : Table → ℕ → String → ℕ → Table × Option JobState
try_acquire table id holder now =
    let (table', state) = get_or_create_state table id in
    if state.paused
    then (table', none)
    else if state.running && not (lock_is_stale state now stale_lock_seconds)
    then (table', none)
    else (update id (claim holder now) table', some (claim holder now state))

unfoldable pub heartbeat : Table → ℕ → ℕ → Table
heartbeat table id now = update id (λ s. record s { lock_heartbeat_at = some now }) table

abbrev pub next_run : Option ScheduleConfig → ℕ → Option ℕ → Option ℕ
next_run none now before = before
next_run (some schedule) now before = some (compute_next_run_at schedule now)

unfoldable pub released : RunStatus → Option ScheduleConfig → ℕ → JobState → JobState
unfolding compute_next_run_at
released status schedule now s = record s {
  running = false;
  lock_holder = none;
  lock_heartbeat_at = none;
  run_correlation_id = none;
  last_run_finished_at = some now;
  last_run_status = some status;
  next_run_at = next_run schedule now s.next_run_at;
}

unfoldable pub release_lock : Table → ℕ → RunStatus → Option ScheduleConfig → ℕ → Table
release_lock table id status schedule now = update id (released status schedule now) table

unfoldable pub request_cancel : Table → ℕ → Table × Bool
request_cancel table id = elim (find id table) [
  | none ↦ (table, false)
  | some s ↦ (update id (λ s. record s { cancel_requested = true }) table, true)
]

unfoldable pub set_paused : Table → ℕ → Bool → Table
set_paused table id paused =
    update id (λ s. record s { paused = paused }) (get_or_create_state table id).0

-- The loop of `pause_city_sites` over the website ids of the city.
unfoldable pub pause_city_sites : Table → List ℕ → Bool → Table × ℕ
pause_city_sites table [] paused = (table, 0)
pause_city_sites table (id ∷ ids) paused =
    let (table', count) = pause_city_sites (set_paused table id paused) ids paused in
    (table', count + 1)

unfoldable pub recovered : JobState → JobState
recovered s = record s {
  running = false;
  lock_holder = none;
  lock_heartbeat_at = none;
  last_run_status = some recovered_stale;
}

-- The loop over the running rows; the ids of the reclaimed ones come back in row order.
unfoldable pub reclaim_stale_locks : Table → ℕ → Table × List ℕ
reclaim_stale_locks [] now = ([], [])
reclaim_stale_locks (s ∷ rows) now =
    let (rows', reclaimed) = reclaim_stale_locks rows now in
    if s.running && lock_is_stale s now stale_lock_seconds
    then (recovered s ∷ rows', s.website_id ∷ reclaimed)
    else (s ∷ rows', reclaimed)
