-- ===== src/Jobs/Calls.antt =====
-- One call of `process_batch` of services/bulk_onboarding.py, and as many as the batch needs.
use web_scraping_event_appli.Prelude.{
  ℕ, zero, suc, ◌+◌, ◌*◌, ◌≤◌, ◌<◌, none, some, List, [], ◌∷◌, All, ◌≡◌, ◌≢◌, refl, ap, ◌∙◌, subst,
  arith, if◌then◌else◌, leb,
}
use web_scraping_event_appli.Jobs.{
  Job, Batch, Store, find_job, next_queued_jobs, save_batch_into, get_batch, batch_completed,
}
use web_scraping_event_appli.Jobs.World.{World}
use web_scraping_event_appli.Jobs.Batches.{
  BatchProgress, process_each, process_batch, refresh_batch_progress, refreshed,
}
use web_scraping_event_appli.Jobs.Progress.{
  IsKeyed, outstanding, all_jobs, IsFinishedIn, IsProcessed, process_each-IsProcessed,
  next_queued_jobs_lem, length-next_queued_jobs,
}
use web_scraping_event_appli.Jobs.Completion.{IsRefreshed, refreshed-IsRefreshed}

pub get_batch-save :
    (id : ℕ) (b' : Batch) (bs : List Batch) (b : Batch)
    → b'.id ≡ id
    → get_batch id bs ≡ some b
    → get_batch id (save_batch_into b' bs) ≡ some b'
unfolding get_batch
get_batch-save id b' [] b e g = ground arith
get_batch-save id b' (c ∷ cs) b e g = ground (arith, e, g, get_batch-save id b' cs b e)

-- What a call of `process_batch` leaves: the jobs it took are finished, at most as many as the limit
-- and all if they are fewer, other jobs are as before, and the batch's progress is written.
pub record IsBatchRun (w : World) (s : Store) (b : Batch) (limit now : ℕ) (s' : Store)
    (progress : BatchProgress) : Type 0 where
  pub keyed : IsKeyed s'
  pub total : all_jobs b.id s' ≡ all_jobs b.id s
  pub finished : All (IsFinishedIn w s') (next_queued_jobs s b.id limit)
  pub others :
      (id : ℕ)
      → All (λ (j : Job). j.id ≢ id) (next_queued_jobs s b.id limit)
      → find_job id s'.jobs ≡ find_job id s.jobs
  pub processed :
      progress.processed ≡ (if leb limit (outstanding b.id s) then limit else outstanding b.id s)
  pub left : outstanding b.id s' + progress.processed ≡ outstanding b.id s
  pub remaining :
      progress.remaining
      ≡ (if leb (limit + 1) (outstanding b.id s') then limit + 1 else outstanding b.id s')
  pub row : Batch
  pub found : get_batch b.id s'.batches ≡ some row
  pub refreshed : IsRefreshed s' now b row

-- Whatever the sources answer, a call finishes the jobs it takes, as many as the limit and the
-- outstanding jobs allow, leaves every other job, counts what it did and what is left, and writes
-- the progress of the batch: the number of its finished jobs, and the completion, with its first
-- time, if it has jobs and none is outstanding. The ids of the jobs differ, and the batch is the
-- stored one.
pub process_batch-IsBatchRun :
    (w : World) (s : Store) (b : Batch) (limit now : ℕ)
    → IsKeyed s
    → get_batch b.id s.batches ≡ some b
    → let (s', progress) = process_batch w s b limit now in IsBatchRun w s b limit now s' progress
unfolding process_batch refresh_batch_progress
process_batch-IsBatchRun w s b limit now k g = record {
  keyed = run.keyed;
  total = run.total;
  finished = run.finished;
  others = run.others;
  processed = length-next_queued_jobs s b.id limit;
  left = run.count;
  remaining = length-next_queued_jobs s2 b.id (limit + 1);
  row = refreshed s1 now b;
  found =
      get_batch-save b.id (refreshed s1 now b) s1.batches b (written.id)
        (ap (get_batch b.id) run.batches ∙ g);
  refreshed = record {
    id = written.id;
    count = written.count;
    status = written.status;
    completed_at = written.completed_at;
  };
}
  where
    taken : List Job
    taken = next_queued_jobs s b.id limit

    s1 : Store
    s1 = process_each w b.redetect_existing taken s

    s2 : Store
    s2 = (refresh_batch_progress s1 now b).0

    run : IsProcessed w b.id taken s s1
    run =
        let (d, i, o) = next_queued_jobs_lem s b.id limit k in
        process_each-IsProcessed w b.redetect_existing b.id taken s k d i o

    written : IsRefreshed s1 now b (refreshed s1 now b)
    written = refreshed-IsRefreshed s1 now b

-- An administrator continues the batch, each time with the batch as it is stored.
unfoldable pub run_calls : World → (calls : ℕ) → (id limit now : ℕ) → Store → Store
run_calls w zero id limit now s = s
run_calls w (suc n) id limit now s = elim (get_batch id s.batches) [
  | none ↦ s
  | some b ↦ run_calls w n id limit now (process_batch w s b limit now).0
]

-- The batch is stored as complete, all its jobs counted as finished.
pub record IsComplete (id jobs : ℕ) (s : Store) : Type 0 where
  pub row : Batch
  pub found : get_batch id s.batches ≡ some row
  pub status : row.status ≡ batch_completed
  pub count : row.completed_count ≡ jobs
  pub none_left : outstanding id s ≡ 0

one_call :
    (w : World) (s : Store) (b : Batch) (limit now : ℕ)
    → IsKeyed s
    → get_batch b.id s.batches ≡ some b
    → 0 < all_jobs b.id s
    → outstanding b.id s ≤ limit
    → IsComplete b.id (all_jobs b.id s) (process_batch w s b limit now).0
one_call w s b limit now k g some_jobs few =
    let (s', progress) = process_batch w s b limit now in
    let r : IsBatchRun w s b limit now s' progress = process_batch-IsBatchRun w s b limit now k g in
    let none_left : outstanding b.id s' ≡ 0 = ground (arith, r.left, r.processed) in
    record {
      row = r.row;
      found = r.found;
      status = ground (arith, (r.refreshed).status, none_left, r.total);
      count = omega (arith, (r.refreshed).count, none_left, r.total);
      none_left = none_left;
    }

times_suc : (n m : ℕ) → suc (suc n) * m ≡ m + suc n * m
times_suc n m = grind arith

run_calls_found :
    (w : World) (n limit now id : ℕ) (s : Store) (b : Batch)
    → get_batch id s.batches ≡ some b
    → run_calls w (suc n) id limit now s
      ≡ run_calls w n id limit now (process_batch w s b limit now).0
unfolding run_calls
run_calls_found w n limit now id s b g = ground (arith, g)

calls-IsComplete :
    (w : World) (n limit now id : ℕ) (s : Store) (b : Batch)
    → IsKeyed s
    → b.id ≡ id
    → get_batch id s.batches ≡ some b
    → 0 < all_jobs id s
    → outstanding id s ≤ suc n * limit
    → IsComplete id (all_jobs id s) (run_calls w (suc n) id limit now s)
calls-IsComplete w zero limit now id s b k e =
    subst
      (λ (i : ℕ).
        get_batch i s.batches ≡ some b
        → 0 < all_jobs i s
        → outstanding i s ≤ suc zero * limit
        → IsComplete i (all_jobs i s) (run_calls w (suc zero) i limit now s))
      e
      (λ g some_jobs few.
        rw (run_calls_found w zero limit now b.id s b g)
          (unfold run_calls in one_call w s b limit now k g some_jobs (omega (arith, few))))
calls-IsComplete w (suc n) limit now id s b k e =
    subst
      (λ (i : ℕ).
        get_batch i s.batches ≡ some b
        → 0 < all_jobs i s
        → outstanding i s ≤ suc (suc n) * limit
        → IsComplete i (all_jobs i s) (run_calls w (suc (suc n)) i limit now s))
      e
      (λ g some_jobs few.
        let (s', progress) = process_batch w s b limit now in
        let r : IsBatchRun w s b limit now s' progress =
          process_batch-IsBatchRun w s b limit now k g in
        let rest : IsComplete b.id (all_jobs b.id s') (run_calls w (suc n) b.id limit now s') =
          calls-IsComplete w n limit now b.id s' r.row r.keyed (r.refreshed).id r.found
            (omega (arith, some_jobs, r.total))
            (ground (arith, r.left, r.processed, few, times_suc n limit)) in
        rw (run_calls_found w (suc n) limit now b.id s b g) (
          subst (λ (m : ℕ). IsComplete b.id m (run_calls w (suc n) b.id limit now s')) r.total
            rest))

-- A batch of the table with jobs is complete after as many calls as its outstanding jobs need at
-- the limit, whatever the sources answer.
pub batch_completes :
    (w : World) (n limit now : ℕ) (s : Store) (b : Batch)
    → IsKeyed s
    → get_batch b.id s.batches ≡ some b
    → 0 < all_jobs b.id s
    → outstanding b.id s ≤ suc n * limit
    → IsComplete b.id (all_jobs b.id s) (run_calls w (suc n) b.id limit now s)
batch_completes w n limit now s b k g some_jobs few =
    calls-IsComplete w n limit now b.id s b k refl g some_jobs few
