-- ===== src/Scheduler/Unlock.antt =====
-- services/scheduler_runner.py: a run that starts leaves its site unlocked, and counts failures.
use web_scraping_event_appli.Prelude.{
  ℕ, zero, suc, String, Bool, true, false, Option, none, some, leb, ◌≡◌, ◌⊎◌, inl, inr, refl, arith,
  Bool-cases, ◌∙◌, ap,
}
use web_scraping_event_appli.Json.{Json}
use web_scraping_event_appli.Schedule.{ScheduleConfig}
use web_scraping_event_appli.Website.{Website}
use web_scraping_event_appli.Scheduler.{
  Table, JobState, RunStatus, failed, released, find, try_acquire, claim, get_or_create_state,
  update, structure_failure_threshold, compute_next_run_at,
}
use web_scraping_event_appli.Scheduler.Rows.{find-write_back, find-website_id}
use web_scraping_event_appli.Scheduler.Acquire.{Free, try_acquire-Free}
use web_scraping_event_appli.Scheduler.Eligibility.{Parsed, evaluate_eligibility}
use web_scraping_event_appli.Scheduler.Eligible.{eligible-schedule}
use web_scraping_event_appli.Scheduler.Runner.{
  Surroundings, RunResult, LoopState, Outcome, ran, raised, attempt, retry_loop, finish, close,
  reonboarded, run_locked, update_structure_failures, run_scheduled_extraction,
}
use web_scraping_event_appli.Scheduler.Runs.{retry_loop_total, Ended}

-- Other sessions write columns of the row, but not its website id.
pub record KeepsIds (around : Surroundings) : Type 0 where
  pub in_loop : (n : ℕ) (s : JobState) → (around.interference n s).website_id ≡ s.website_id
  pub at_count : (s : JobState) → (around.before_count s).website_id ≡ s.website_id
  pub at_release : (s : JobState) → (around.before_release s).website_id ≡ s.website_id

retry_loop-website_id :
    (bound : ℕ) (schedule : ScheduleConfig) (around : Surroundings) (l end : LoopState)
    → KeepsIds around
    → retry_loop bound schedule around l ≡ some end
    → end.state.website_id ≡ l.state.website_id
unfolding retry_loop attempt
retry_loop-website_id zero schedule around l end keeps h = ground arith
retry_loop-website_id (suc bound) schedule around l end keeps h = ground (
  arith,
  keeps.in_loop l.attempts l.state,
  retry_loop-website_id bound schedule around
      (attempt around (record l { state = around.interference l.attempts l.state })) end keeps,
)

-- What the end of a run writes to the row and reports.
pub record Finished (schedule : ScheduleConfig) (around : Surroundings) (l : LoopState)
    (row : JobState) (out : Outcome) : Type 0 where
  pub idle : row.running ≡ false
  pub no_holder : row.lock_holder ≡ none
  pub no_heartbeat : row.lock_heartbeat_at ≡ none
  pub status : row.last_run_status ≡ some l.status
  pub rescheduled : row.next_run_at ≡ some (compute_next_run_at schedule around.release_at)
  pub same_id : row.website_id ≡ l.state.website_id
  pub reported :
      ((out ≡ raised) × (around.reonboard ≡ none))
      ⊎ ((triggered : Bool) × (out ≡ ran l.status l.attempts triggered))

reonboarded-Finished :
    (schedule : ScheduleConfig) (around : Surroundings) (l : LoopState) (counted : JobState)
    (o : Option Bool)
    → around.reonboard ≡ o
    → counted.website_id ≡ l.state.website_id
    → let row = released l.status (some schedule) around.release_at counted in
      Finished schedule around l (reonboarded o l row).0 (reonboarded o l row).1
unfolding released
reonboarded-Finished schedule around l counted none o e = record {
  idle = refl;
  no_holder = refl;
  no_heartbeat = refl;
  status = refl;
  rescheduled = refl;
  same_id = e;
  reported = inl (refl, o);
}
reonboarded-Finished schedule around l counted (some b) o e = record {
  idle = refl;
  no_holder = refl;
  no_heartbeat = refl;
  status = refl;
  rescheduled = refl;
  same_id = e;
  reported = inr (b, refl);
}

close-Finished :
    (schedule : ScheduleConfig) (around : Surroundings) (l : LoopState) (counted : JobState)
    → counted.website_id ≡ l.state.website_id
    → Finished schedule around l
        (close schedule around l counted).0
        (close schedule around l counted).1
unfolding close
close-Finished schedule around l counted e =
    elim (Bool-cases (leb structure_failure_threshold counted.consecutive_structure_failures)) [
      | inr few ↦ rw few (record {
        idle = refl;
        no_holder = refl;
        no_heartbeat = refl;
        status = refl;
        rescheduled = refl;
        same_id = e;
        reported = inr (false, refl);
      })
      | inl many ↦ rw many (reonboarded-Finished schedule around l counted around.reonboard refl e)
    ]

count-website_id :
    (result : Option RunResult) (status : RunStatus) (s : JobState)
    → (update_structure_failures result status s).website_id ≡ s.website_id
unfolding update_structure_failures
count-website_id result status s = ground arith

run_locked-Finished :
    (schedule : ScheduleConfig) (around : Surroundings) (s : JobState)
    → KeepsIds around
    → (l : LoopState) × (row : JobState) × (out : Outcome) × (run_locked schedule around s
        ≡ some (row, out))
      × Ended schedule around l
      × Finished schedule around l row out
      × (row.website_id ≡ s.website_id)
unfolding run_locked finish
run_locked-Finished schedule around s keeps =
    let (l, e, ended) = retry_loop_total schedule around s in
    let same =
      retry_loop-website_id (suc (suc schedule.max_retries)) schedule around
        (record { attempts = 0; result = none; status = failed; state = s }) l keeps e in
    let done =
      let counted = update_structure_failures l.result l.status (around.before_count l.state) in
      close-Finished schedule around l (around.before_release counted) (
        keeps.at_release counted
        ∙ count-website_id l.result l.status (around.before_count l.state)
        ∙ keeps.at_count l.state) in
    (
      l,
      (finish schedule around l).0,
      (finish schedule around l).1,
      rw (e, run_locked) refl,
      ended,
      done,
      done.same_id ∙ same,
    )

-- A scheduled run of an eligible site whose row is free always comes to its end: its row is then
-- idle, with no holder and no heartbeat, the status of the loop's last round, and a next run one
-- interval after the release. The run reports that status and its attempts, unless re-onboarding
-- raised. Before each refresh of the row and each reload of it, up to the one that the release
-- follows, other sessions may have written any of its columns but the website id.
pub run_unlocks :
    (validate : Json → Option String) (parse : Json → Parsed) (table : Table) (w : Website)
    (holder : String) (now : ℕ) (around : Surroundings)
    → KeepsIds around
    → (evaluate_eligibility validate parse w).eligible ≡ true
    → Free now (get_or_create_state table w.id).1
    → let after = run_scheduled_extraction validate parse table (some w) w.id holder now around in
      (c : ScheduleConfig) × (l : LoopState) × (row : JobState) × ((evaluate_eligibility validate
          parse w).schedule
        ≡ some c)
      × (find w.id after.0 ≡ some row)
      × Ended c around l
      × Finished c around l row after.1
unfolding run_scheduled_extraction
run_unlocks validate parse table w holder now around keeps eligible free =
    let (c, scheduled, on) = eligible-schedule validate parse w eligible in
    let s = claim holder now (get_or_create_state table w.id).1 in
    let (acquired, stored) = try_acquire-Free table w.id holder now free in
    let (l, row, out, e, ended, done, same) = run_locked-Finished c around s keeps in
    let id_of = find-website_id w.id (try_acquire table w.id holder now).0 s stored in
    let ran : run_scheduled_extraction validate parse table (some w) w.id holder now around
        ≡ (update w.id (λ _. row) (try_acquire table w.id holder now).0, out) =
      ground (arith, eligible, acquired, scheduled, e) in
    let written =
      find-write_back w.id row s (try_acquire table w.id holder now).0 (same ∙ id_of) stored in
    (c, l, row, scheduled, ap (λ r. find w.id r.0) ran ∙ written, ended, rw ran done)
