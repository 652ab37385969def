-- ===== src/Scheduler/Recovery.antt =====
-- services/scheduler.py: how a lock whose holder stopped beating is freed, and the next run starts.
use web_scraping_event_appli.Prelude.{
  ℕ, ◌+◌, ◌*◌, ◌<◌, String, true, false, none, some, ◌≡◌, arith, refl,
}
use web_scraping_event_appli.Scheduler.{
  Table, JobState, second, stale_lock_seconds, find, claim, lock_is_stale, get_or_create_state,
  try_acquire, recovered, recovered_stale, reclaim_stale_locks,
}
use web_scraping_event_appli.Scheduler.Rows.{
  find-update, get_or_create_found, find-get_or_create, find-reclaim,
}
use web_scraping_event_appli.Scheduler.Locks.{Held}

-- The row of a reclaimed lock: idle, free and marked as recovered, and otherwise as it was.
abbrev pub freed_row : JobState → JobState
freed_row s = record s {
  running = false;
  lock_holder = none;
  lock_heartbeat_at = none;
  last_run_status = some recovered_stale;
}

-- The row of a run that has just started.
abbrev pub started_row : (holder : String) (now : ℕ) → JobState → JobState
started_row holder now s = record s {
  running = true;
  lock_holder = some holder;
  lock_heartbeat_at = some now;
  last_run_started_at = some now;
  cancel_requested = false;
}

-- A holder that stops beating loses the lock: once the stale limit has passed, a reclaiming pass
-- makes the row idle, without holder and heartbeat, records the recovery in it and keeps its other columns. If the site is not paused, the next run of any process then
-- starts: its name and time are in the row, where a request to cancel is cleared.
pub crash_recovery :
    (id beat_at now : ℕ) (holder : String) (t : Table) (h : Held id holder beat_at t)
    → beat_at + stale_lock_seconds * second < now
    → h.row.paused ≡ false
    → let t' = (reclaim_stale_locks t now).0 in
      (find id t' ≡ some (freed_row h.row))
      × ((next : String) (later : ℕ)
          → ((try_acquire t' id next later).1 ≡ some (started_row next later (freed_row h.row)))
            × (find id (try_acquire t' id next later).0
                ≡ some (started_row next later (freed_row h.row))))
unfolding lock_is_stale recovered try_acquire
crash_recovery id beat_at now holder t h late unpaused = (freed, restart)
  where
    stale : lock_is_stale h.row now stale_lock_seconds ≡ true
    stale = ground (arith, h.beaten, h.is_running)

    t' : Table
    t' = (reclaim_stale_locks t now).0

    freed : find id (reclaim_stale_locks t now).0 ≡ some (freed_row h.row)
    freed = ground (arith, find-reclaim id t now, stale, h.found, h.is_running)

    restart :
        (next : String) (later : ℕ)
        → ((try_acquire (reclaim_stale_locks t now).0 id next later).1
            ≡ some (started_row next later (freed_row h.row)))
          × (find id (try_acquire (reclaim_stale_locks t now).0 id next later).0
              ≡ some (started_row next later (freed_row h.row)))
    restart next later =
        let found = get_or_create_found (reclaim_stale_locks t now).0 id (freed_row h.row) freed in
        let same =
          find-update id id (claim next later)
            (get_or_create_state (reclaim_stale_locks t now).0 id).0 (λ s. refl) in
        (
          ground (arith, found, unpaused),
          ground (
            arith,
            found,
            unpaused,
            same,
            freed,
            find-get_or_create (reclaim_stale_locks t now).0 id,
          ),
        )
