-- ===== src/Scheduler/Runner.antt =====
-- backend/app/services/scheduler_runner.py: one scheduled run under the lock, with its retries.
use web_scraping_event_appli.Prelude.{
  ℕ, zero, suc, ◌+◌, String, Bool, true, false, ◌&&◌, ◌||◌, Option, none, some, List, ◌==◌,
  if◌then◌else◌, ltb, leb,
}
use web_scraping_event_appli.Json.{Json}
use web_scraping_event_appli.Schedule.{ScheduleConfig}
use web_scraping_event_appli.Website.{Website}
use web_scraping_event_appli.Scheduler.{
  Table, JobState, RunStatus, success, partial, failed, blocked, cancelled,
  structure_failure_threshold, update, released, set_paused, try_acquire,
}
use web_scraping_event_appli.Scheduler.Eligibility.{Parsed, Reason, evaluate_eligibility}

-- What `extraction_fn` returns; a call that raises gives no result.
pub record RunResult : Type 0 where
  pub status : RunStatus
  pub events_found : ℕ

-- What happens around one run: the changes of other sessions to the row before each reading of it
-- (the refresh of each round, and the reloads after the commits that precede the failure count and
-- the release), what the extraction does at each attempt, the clock at each heartbeat and at the release, and what
-- `reonboard_fn` returns (nothing if it raises).
pub record Surroundings : Type 0 where
  pub interference : ℕ → JobState → JobState
  pub before_count : JobState → JobState
  pub before_release : JobState → JobState
  pub extraction : ℕ → Option RunResult
  pub beat_at : ℕ → ℕ
  pub release_at : ℕ
  pub reonboard : Option Bool

abbrev pub is_good : RunStatus → Bool
is_good success = true
is_good partial = true
is_good _ = false

abbrev pub status_of : Option RunResult → RunStatus
status_of none = failed
status_of (some r) = r.status

pub record LoopState : Type 0 where
  pub attempts : ℕ
  pub result : Option RunResult
  pub status : RunStatus
  pub state : JobState

-- The body of `while True` after the cancellation test: one attempt, and its heartbeat.
unfoldable pub attempt : Surroundings → LoopState → LoopState
attempt around l =
    let n = l.attempts + 1 in
    let result = around.extraction n in
    record {
      attempts = n;
      result = result;
      status = status_of result;
      state = record (l.state) { lock_heartbeat_at = some (around.beat_at n) };
    }

abbrev pub stops : ScheduleConfig → LoopState → Bool
stops schedule l = is_good l.status || ltb schedule.max_retries l.attempts

-- The retry loop. The bound is on its rounds; `none` means that the bound was too small.
unfoldable pub retry_loop : ℕ → ScheduleConfig → Surroundings → LoopState → Option LoopState
unfolding attempt
retry_loop zero schedule around l = none
retry_loop (suc bound) schedule around l =
    let refreshed = record l { state = around.interference l.attempts l.state } in
    let tried = attempt around refreshed in
    let next = retry_loop bound schedule around tried in
    if refreshed.state.cancel_requested
    then some (record refreshed { status = cancelled })
    else if stops schedule tried
    then some tried
    else next

unfoldable pub is_structural_failure : Option RunResult → RunStatus → Bool
is_structural_failure result cancelled = false
is_structural_failure none status = true
is_structural_failure (some r) failed = true
is_structural_failure (some r) blocked = false
is_structural_failure (some r) status = r.events_found == 0

abbrev pub events_of : Option RunResult → ℕ
events_of none = 0
events_of (some r) = r.events_found

unfoldable pub update_structure_failures : Option RunResult → RunStatus → JobState → JobState
unfolding is_structural_failure
update_structure_failures result status s =
    if is_good status && ltb 0 (events_of result)
    then record s { consecutive_structure_failures = 0 }
    else if is_structural_failure result status
    then record s { consecutive_structure_failures = s.consecutive_structure_failures + 1 }
    else s

pub data Skip : Type 0 where
  not_found locked : Skip
  ineligible : List Reason → Skip

-- `raised` is an exception that leaves `run_scheduled_extraction`.
pub data Outcome : Type 0 where
  skipped : Skip → Outcome
  ran : RunStatus → (attempts : ℕ) → (reonboarding_triggered : Bool) → Outcome
  raised : Outcome

-- `reonboard_fn` has raised, or has returned and the counter starts again.
abbrev pub reonboarded : Option Bool → LoopState → JobState → JobState × Outcome
reonboarded none l row = (row, raised)
reonboarded (some triggered) l row =
    (record row { consecutive_structure_failures = 0 }, ran l.status l.attempts triggered)

-- What follows the loop and the failure count: the release, and the re-onboarding.
unfoldable pub close : ScheduleConfig → Surroundings → LoopState → JobState → JobState × Outcome
unfolding released
close schedule around l counted =
    let row = released l.status (some schedule) around.release_at counted in
    if leb structure_failure_threshold counted.consecutive_structure_failures
    then reonboarded around.reonboard l row
    else (row, ran l.status l.attempts false)

unfoldable pub finish : ScheduleConfig → Surroundings → LoopState → JobState × Outcome
finish schedule around l =
    let counted = update_structure_failures l.result l.status (around.before_count l.state) in
    close schedule around l (around.before_release counted)

unfoldable pub run_locked : ScheduleConfig → Surroundings → JobState → Option (JobState × Outcome)
unfolding retry_loop finish
run_locked schedule around s =
    let start : LoopState = record { attempts = 0; result = none; status = failed; state = s } in
    elim (retry_loop (suc (suc schedule.max_retries)) schedule around start) [
      | none ↦ none
      | some l ↦ some (finish schedule around l)
    ]

module _ (validate : Json → Option String) (parse : Json → Parsed) where
  -- The row that the run holds is written back where the run ends.
  unfoldable pub run_scheduled_extraction :
      Table → Option Website → ℕ → String → ℕ → Surroundings → Table × Outcome
  run_scheduled_extraction table none website_id holder now around = (table, skipped not_found)
  run_scheduled_extraction table (some website) website_id holder now around =
      let eligibility = evaluate_eligibility validate parse website in
      if eligibility.eligible
      then (let (table', acquired) = try_acquire table website_id holder now in
          elim acquired [
            | none ↦ (table', skipped locked)
            | some state ↦ elim eligibility.schedule [
              | none ↦ (table', raised)
              | some schedule ↦ elim (run_locked schedule around state) [
                | none ↦ (table', raised)
                | some (row, outcome) ↦ (update website_id (λ _. row) table', outcome)
              ]
            ]
          ])
      else (set_paused table website_id true, skipped (ineligible eligibility.reasons))
