-- ===== src/Tests/Scheduling.antt =====
-- The scheduler on the sample source.
use web_scraping_event_appli.Prelude.{
  ℕ, ◌*◌, ◌≤◌, String, true, false, none, some, List, [], ◌∷◌, ◌≡◌, ◌≢◌, ◌↔◌, inl, refl, arith, All,
  eq_iff, ◌⊎◌,
}
use web_scraping_event_appli.Onboarding.{same}
use web_scraping_event_appli.Schedule.{ScheduleConfig, InBounds, smaller, backoff_for_attempt}
use web_scraping_event_appli.Schedule.Backoff.{backoff_bounds}
use web_scraping_event_appli.Scheduler.{
  JobState, new_state, second, find, success, try_acquire, get_or_create_state, reclaim_stale_locks,
}
use web_scraping_event_appli.Scheduler.Eligibility.{evaluate_eligibility}
use web_scraping_event_appli.Scheduler.Eligible.{IsImportable, IsScheduled, eligible_iff}
use web_scraping_event_appli.Scheduler.Acquire.{Free}
use web_scraping_event_appli.Scheduler.Locks
use web_scraping_event_appli.Scheduler.Locks.{Held, Operation, no_overlap}
use web_scraping_event_appli.Scheduler.Recovery.{freed_row, started_row, crash_recovery}
use web_scraping_event_appli.Scheduler.Leader
use web_scraping_event_appli.Scheduler.Leader.{
  Leader, Call, try_become_leader, leader_heartbeat, scheduler_health, leader_exclusive,
  health_fresh_iff,
}
use web_scraping_event_appli.Scheduler.Runner.{LoopState, retry_loop, run_scheduled_extraction}
use web_scraping_event_appli.Scheduler.Runs.{Ended, begin, retry_loop_total}
use web_scraping_event_appli.Scheduler.Unlock.{Finished, run_unlocks}
use web_scraping_event_appli.Scheduler.Reconcile.{reconcile}
use web_scraping_event_appli.Scheduler.Settled.{InLine, reconcile-InLine}
use web_scraping_event_appli.Tests.Samples.{
  venue_site, accept, parse_daily, daily, quiet, held_row, held_table,
}

venue_eligible : (evaluate_eligibility accept parse_daily venue_site).eligible ≡ true
unfolding evaluate_eligibility same
venue_eligible = refl

eligible_iff_example :
    ((evaluate_eligibility accept parse_daily venue_site).eligible ≡ true)
    ↔ (IsImportable accept parse_daily venue_site × IsScheduled accept parse_daily venue_site)
eligible_iff_example = eligible_iff accept parse_daily venue_site

idle : Free second (get_or_create_state (new_state 8 ∷ []) 7).1
unfolding get_or_create_state find
idle = (refl, inl refl)

held : Held 7 "worker-1" second held_table
unfolding find
held = record { row = held_row; found = refl; is_running = refl; held_by = refl; beaten = refl }

abbrev rivals : List Operation
rivals =
    Locks.acquire 7 "worker-2" (2 * second)
    ∷ Locks.pause 7 true
    ∷ Locks.beat 7 (500 * second)
    ∷ Locks.acquire 7 "worker-3" (900 * second)
    ∷ Locks.release 8 success none (901 * second)
    ∷ Locks.reclaim (1000 * second)
    ∷ []

no_overlap_example :
    (Locks.ends_holding_any 7 second rivals ≡ true)
    ⊎ (Held 7 "worker-1"
          (Locks.beat_after_all 7 second rivals)
          (Locks.perform_all rivals held_table)
        × (Locks.takes_any 7 rivals held_table ≡ false))
no_overlap_example = no_overlap 7 second "worker-1" rivals held_table held

crash_recovery_example :
    (find 7 (reclaim_stale_locks held_table (700 * second)).0 ≡ some (freed_row held_row))
    × ((next : String) (later : ℕ)
        → ((try_acquire (reclaim_stale_locks held_table (700 * second)).0 7 next later).1
            ≡ some (started_row next later (freed_row held_row)))
          × (find 7 (try_acquire (reclaim_stale_locks held_table (700 * second)).0 7 next later).0
              ≡ some (started_row next later (freed_row held_row))))
unfolding held
crash_recovery_example =
    crash_recovery 7 second (700 * second) "worker-1" held_table held (omega arith) refl

abbrev leader : Leader
leader = record { holder = "scheduler-1"; heartbeat_at = second }

abbrev rival_calls : List Call
rival_calls = Leader.claim "scheduler-2" (2 * second) ∷ Leader.beat "scheduler-2" (3 * second) ∷ []

abbrev first : String
first = "scheduler-1"

abbrev second_one : String
second_one = "scheduler-2"

other_holder : first ≢ second_one
other_holder e = absurd (cc ((eq_iff first second_one).1 e))

leader_exclusive_example :
    ((Leader.perform_all rival_calls (some leader)).0 ≡ some leader)
    × All (λ ok. ok ≡ false) (Leader.perform_all rival_calls (some leader)).1
leader_exclusive_example =
    leader_exclusive leader rival_calls
      ((other_holder, omega arith), ((other_holder, omega arith), tt))

retry_loop_total_example :
    (end : LoopState) × (retry_loop 4 daily quiet (begin held_row) ≡ some end)
    × Ended daily quiet end
retry_loop_total_example = retry_loop_total daily quiet held_row

run_unlocks_example :
    (c : ScheduleConfig) × (l : LoopState) × (row : JobState) × ((evaluate_eligibility accept
        parse_daily venue_site).schedule
      ≡ some c)
    × (find 7
          (run_scheduled_extraction accept parse_daily
            (new_state 8 ∷ [])
            (some venue_site)
            7
            "worker-1"
            second
            quiet).0
        ≡ some row)
    × Ended c quiet l
    × Finished c quiet l row
        (run_scheduled_extraction accept parse_daily
          (new_state 8 ∷ [])
          (some venue_site)
          7
          "worker-1"
          second
          quiet).1
run_unlocks_example =
    run_unlocks accept parse_daily (new_state 8 ∷ []) venue_site "worker-1" second quiet
      (record { in_loop = λ n s. refl; at_count = λ s. refl; at_release = λ s. refl })
      venue_eligible idle

reconcile-InLine_example :
    (row : JobState) × (find 7 (reconcile accept parse_daily second (venue_site ∷ []) held_table).0
      ≡ some row)
    × InLine accept parse_daily second venue_site row
reconcile-InLine_example =
    reconcile-InLine accept parse_daily second (venue_site ∷ []) venue_site held_table (tt, tt)
      (inl refl)

daily-InBounds : InBounds daily
daily-InBounds = record {
  interval_floor = omega arith;
  interval_ceiling = omega arith;
  jitter_ceiling = omega arith;
  retries_ceiling = omega arith;
  backoff_floor = omega arith;
  backoff_ceiling = omega arith;
  backoff_max_floor = omega arith;
  backoff_max_ceiling = omega arith;
}

backoff_bounds_example :
    (1 ≤ backoff_for_attempt daily 4)
    × (backoff_for_attempt daily 4 ≤ 60)
    × (backoff_for_attempt daily 6 ≡ smaller (2 * backoff_for_attempt daily 5) 60)
backoff_bounds_example = backoff_bounds daily 4 daily-InBounds
