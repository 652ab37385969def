-- ===== src/Jobs/Requests.antt =====
-- What services/bulk_onboarding.py answers to the retrying and the cancelling of a job.
use web_scraping_event_appli.Prelude.{
  ℕ, ◌+◌, Bool, true, false, ◌||◌, Option, none, some, In, ◌≡◌, ◌≢◌, refl, sym, ◌∙◌, Bool-cases,
  inl, inr,
}
use web_scraping_event_appli.Json.{is_some}
use web_scraping_event_appli.Jobs.{
  Job, Batch, Store, cancelled, is_terminal, is_processing, is_retryable, save, save_into, find_job,
}
use web_scraping_event_appli.Jobs.World.{World}
use web_scraping_event_appli.Jobs.Process.{Ending, done, escaped}
use web_scraping_event_appli.Jobs.Batches.{
  JobAnswer, accepted, refused, crashed, batch_of, refresh_own, refresh_batch_progress, redetects,
  requeued, retried, retry_job,
}
use web_scraping_event_appli.Jobs.Rows.{save-save, find-save, find-save_ne}
use web_scraping_event_appli.Jobs.Endings.{IsWritten, IsFinished, EndsWell}
use web_scraping_event_appli.Jobs.Settled.{process_job_well}

-- The table has the row, and every other job as before.
pub record IsRow (s : Store) (j row : Job) (s' : Store) : Type 0 where
  pub found : find_job j.id s'.jobs ≡ some row
  pub others : (id : ℕ) → j.id ≢ id → find_job id s'.jobs ≡ find_job id s.jobs

-- A retry is refused, or the job is finished once more with one more retry counted, or an
-- exception leaves it in processing.
abbrev pub IsRetried : World → Store → Job → JobAnswer → Type 0
IsRetried w s j (refused code) = (is_retryable j.status ≡ false) × (code ≡ 409)
IsRetried w s j (accepted s') =
    (is_retryable j.status ≡ true)
    × ((row : Job) × IsRow s j row s'
        × IsFinished (w.ended j.id) row
        × (row.retry_count ≡ j.retry_count + 1))
IsRetried w s j (crashed s') =
    (is_retryable j.status ≡ true)
    × ((row : Job) × IsRow s j row s'
        × (is_processing row.status ≡ true)
        × (row.retry_count ≡ j.retry_count + 1))

written-IsRow :
    (s s' : Store) (j row : Job)
    → In j s.jobs
    → row.id ≡ j.id
    → s'.jobs ≡ save_into row s.jobs
    → IsRow s j row s'
written-IsRow s s' j row i e w = record {
  found = rw (w, sym e) (find-save row s.jobs j i (sym e));
  others = λ id n. rw w (find-save_ne row id s.jobs (λ q. n (sym e ∙ q)));
}

refresh_own-jobs : (s : Store) (now : ℕ) (b : Option Batch) → (refresh_own s now b).jobs ≡ s.jobs
unfolding refresh_batch_progress
refresh_own-jobs s now none = refl
refresh_own-jobs s now (some b) = refl

-- A retry of a job of the table is refused with 409 exactly from the statuses that allow none; else
-- it is counted, a call that returns leaves the job finished, one that raises leaves it in
-- processing, and no other job is changed.
pub retry_job-IsRetried :
    (w : World) (s : Store) (j : Job) (now : ℕ)
    → In j s.jobs
    → IsRetried w s j (retry_job w s j now)
unfolding retry_job requeued
retry_job-IsRetried w s j now i = elim (Bool-cases (is_retryable j.status)) [
  | inl e ↦ rw e (go e _ (process_job_well w (save j1 s) j1 redetect))
  | inr e ↦ rw e (e, refl)
]
  where
    j1 : Job
    j1 = requeued j

    redetect : Bool
    redetect = redetects (batch_of s j) || is_some j.website_id

    over :
        (row : Job) (s' : Store) → IsWritten (save j1 s) j1 row s' → s'.jobs ≡ save_into row s.jobs
    over row s' a = a.jobs ∙ save-save row j1 s.jobs (a.same).0

    go :
        (e : is_retryable j.status ≡ true) (x : Ending)
        → EndsWell w (save j1 s) j1 x
        → IsRetried w s j (retried (batch_of s j) now x)
    go e (done s') (row, a, f) = (
      e,
      (
        row,
        written-IsRow s (refresh_own s' now (batch_of s j)) j row i (a.same).0
            (refresh_own-jobs s' now (batch_of s j) ∙ over row s' a),
        f,
        (a.same).5,
      ),
    )
    go e (escaped s' m) (row, a, p) =
        (e, (row, written-IsRow s s' j row i (a.same).0 (over row s' a), p, (a.same).5))

-- The row of a job that an administrator has cancelled: dated, without a current step, and otherwise
-- as it was.
abbrev pub cancelled_row : Job → (now : ℕ) → Job
cancelled_row j now = record j { status = cancelled; completed_at = some now; current_step = none }

-- A cancel is refused of a job that has ended; else the row is cancelled, and no other.
abbrev pub IsCancelled : Store → Job → (now : ℕ) → JobAnswer → Type 0
IsCancelled s j now (refused code) = (is_terminal j.status ≡ true) × (code ≡ 409)
IsCancelled s j now (accepted s') =
    (is_terminal j.status ≡ false) × IsRow s j (cancelled_row j now) s'
IsCancelled s j now (crashed s') = ⊥
