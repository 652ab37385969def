-- ===== src/Scheduler/Runs.antt =====
-- services/scheduler_runner.py: the retry loop ends, stops where it should, and frees the lock.
use web_scraping_event_appli.Prelude.{
  ℕ, zero, suc, ◌+◌, ◌≤◌, ◌<◌, true, false, none, some, ◌≡◌, ◌⊎◌, inl, inr, refl, arith, Bool-cases,
}
use web_scraping_event_appli.Schedule.{ScheduleConfig}
use web_scraping_event_appli.Scheduler.{JobState, cancelled, failed}
use web_scraping_event_appli.Scheduler.Runner.{
  Surroundings, LoopState, is_good, status_of, stops, attempt, retry_loop,
}

-- How the retry loop may end.
pub record Ended (schedule : ScheduleConfig) (around : Surroundings) (l : LoopState) : Type 0 where
  pub bounded : l.attempts ≤ schedule.max_retries + 1
  -- Every attempt but the last one failed to succeed.
  pub earlier_bad :
      (i : ℕ) → 0 < i → i < l.attempts → is_good (status_of (around.extraction i)) ≡ false
  -- Either a cancellation was pending, or the last attempt decided.
  pub reason :
      ((l.state.cancel_requested ≡ true) × (l.status ≡ cancelled))
      ⊎ ((0 < l.attempts)
          × (l.result ≡ around.extraction l.attempts)
          × (l.status ≡ status_of (around.extraction l.attempts))
          × ((is_good l.status ≡ true) ⊎ (l.attempts ≡ schedule.max_retries + 1)))

-- What holds at the head of the loop.
record Going (schedule : ScheduleConfig) (around : Surroundings) (l : LoopState) : Type 0 where
  below : l.attempts ≤ schedule.max_retries
  all_bad : (i : ℕ) → 0 < i → i ≤ l.attempts → is_good (status_of (around.extraction i)) ≡ false

abbrev refreshed : Surroundings → LoopState → LoopState
refreshed around l = record l { state = around.interference l.attempts l.state }

abbrev next : Surroundings → LoopState → LoopState
next around l = attempt around (refreshed around l)

cancel_ends :
    (schedule : ScheduleConfig) (around : Surroundings) (l : LoopState)
    → Going schedule around l
    → (refreshed around l).state.cancel_requested ≡ true
    → Ended schedule around (record (refreshed around l) { status = cancelled })
cancel_ends schedule around l g c = record {
  bounded = omega (arith, g.below);
  earlier_bad = λ i pos h. g.all_bad i pos (omega arith);
  reason = inl (c, refl);
}

attempt_ends :
    (schedule : ScheduleConfig) (around : Surroundings) (l : LoopState)
    → Going schedule around l
    → stops schedule (next around l) ≡ true
    → Ended schedule around (next around l)
unfolding attempt
attempt_ends schedule around l g s = record {
  bounded = omega (arith, g.below);
  earlier_bad = λ i pos h. g.all_bad i pos (omega arith);
  reason = inr (omega arith, refl, refl, ground (arith, g.below));
}

le_suc_cases : (i n : ℕ) → i ≤ n + 1 → (i ≤ n) ⊎ (i ≡ n + 1)
le_suc_cases i n h = grind arith

attempt-Going :
    (schedule : ScheduleConfig) (around : Surroundings) (l : LoopState)
    → Going schedule around l
    → stops schedule (next around l) ≡ false
    → Going schedule around (next around l)
unfolding attempt
attempt-Going schedule around l g s = record { below = ground arith; all_bad = bad }
  where
    bad : (i : ℕ) → 0 < i → i ≤ l.attempts + 1 → is_good (status_of (around.extraction i)) ≡ false
    bad i pos h = elim (le_suc_cases i l.attempts h) [
      | inl old ↦ g.all_bad i pos old
      | inr last ↦ rw last (ground arith)
    ]

retry_loop_ends :
    (bound : ℕ) (schedule : ScheduleConfig) (around : Surroundings) (l : LoopState)
    → Going schedule around l
    → schedule.max_retries < bound + l.attempts
    → (end : LoopState) × (retry_loop bound schedule around l ≡ some end)
      × Ended schedule around end
unfolding retry_loop
retry_loop_ends zero schedule around l g h = absurd (omega (arith, g.below))
retry_loop_ends (suc bound) schedule around l g h =
    elim (Bool-cases (refreshed around l).state.cancel_requested) [
      | inl c ↦ (
        record (refreshed around l) { status = cancelled },
        rw c,
        cancel_ends schedule around l g c,
      )
      | inr go ↦ elim (Bool-cases (stops schedule (next around l))) [
        | inl s ↦ (next around l, ground arith, attempt_ends schedule around l g s)
        | inr more ↦
            let (end, e, ended) =
              retry_loop_ends bound schedule around (next around l)
                (attempt-Going schedule around l g more) (unfold attempt in omega arith) in
            (end, ground arith, ended)
      ]
    ]

abbrev pub begin : JobState → LoopState
begin s = record { attempts = 0; result = none; status = failed; state = s }

-- The retry loop of a scheduled run always ends, whatever the extraction does and whatever other
-- sessions write to the row. It makes at most `max_retries + 1` attempts, goes on only after an
-- attempt without success, and ends on a pending cancellation, on the first success, or when the
-- retries are used up, with the status and the result of its last attempt.
pub retry_loop_total :
    (schedule : ScheduleConfig) (around : Surroundings) (s : JobState)
    → (end : LoopState) × (retry_loop (suc (suc schedule.max_retries)) schedule around (begin s)
        ≡ some end)
      × Ended schedule around end
retry_loop_total schedule around s =
    retry_loop_ends (suc (suc schedule.max_retries)) schedule around (begin s)
      (record { below = omega arith; all_bad = λ i pos h. absurd (omega arith) }) (omega arith)
