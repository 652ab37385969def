-- ===== src/Jobs/Batches.antt =====
-- backend/app/services/bulk_onboarding.py: batches of onboarding jobs, and the retrying and
-- cancelling of one job. A notification of a completed batch is modelled by the fact of it.
use web_scraping_event_appli.Prelude.{
  ℕ, ◌+◌, ◌-◌, String, Bool, false, not, ◌&&◌, ◌||◌, Option, none, some, List, [], ◌∷◌, is_empty,
  length, select, any, ◌==◌, leb, if◌then◌else◌,
}
use web_scraping_event_appli.Json.{is_some}
use web_scraping_event_appli.Jobs.{
  Job, Batch, Store, queued, cancelled, batch_completed, is_terminal, is_retryable, is_queued,
  is_completed, unexpected, save, save_batch_into, find_job, get_batch, list_jobs_for_batch,
  next_queued_jobs,
}
use web_scraping_event_appli.Jobs.World.{World, fail}
use web_scraping_event_appli.Jobs.Process.{Ending, done, escaped, process_job}

-- `db.rollback()`, then `_fail` on the row as it stands in the database.
abbrev pub fail_row : World → ℕ → String → Store → Option Job → Store
fail_row w id e s none = s
fail_row w id e s (some row) = save (fail row (unexpected e) (w.ended id)) s

-- The body of the loop of `process_batch`.
abbrev pub guarded : World → ℕ → Ending → Store
guarded w id (done s) = s
guarded w id (escaped s e) = fail_row w id e s (find_job id s.jobs)

unfoldable pub process_one : World → Bool → Job → Store → Store
process_one w redetect j s = guarded w j.id (process_job w s j redetect)

unfoldable pub process_each : World → Bool → List Job → Store → Store
process_each w redetect [] s = s
process_each w redetect (j ∷ js) s = process_each w redetect js (process_one w redetect j s)

abbrev pub is_finished : Job → Bool
is_finished j = is_terminal j.status

unfoldable pub refreshed : Store → (now : ℕ) → Batch → Batch
refreshed s now b =
    let jobs = list_jobs_for_batch s b.id in
    let completed = length (select is_finished jobs) in
    if not (is_empty jobs) && (completed == length jobs)
    then record b {
      completed_count = completed;
      status = batch_completed;
      completed_at = elim b.completed_at [ none ↦ some now | some t ↦ some t ];
    }
    else record b { completed_count = completed }

-- The store, and whether the completion is announced.
unfoldable pub refresh_batch_progress : Store → (now : ℕ) → Batch → Store × Bool
refresh_batch_progress s now b =
    let b' = refreshed s now b in
    (
      record s { batches = save_batch_into b' s.batches },
      not (is_completed b.status) && is_completed b'.status,
    )

pub record BatchProgress : Type 0 where
  pub processed : ℕ
  pub remaining : ℕ

unfoldable pub process_batch : World → Store → Batch → (limit now : ℕ) → Store × BatchProgress
process_batch w s b limit now =
    let jobs = next_queued_jobs s b.id limit in
    let s1 = process_each w b.redetect_existing jobs s in
    let s2 = (refresh_batch_progress s1 now b).0 in
    (
      s2,
      record { processed = length jobs; remaining = length (next_queued_jobs s2 b.id (limit + 1)) },
    )

-- The batches with a queued job, each once.
abbrev pub add_batch_id : Job → List ℕ → List ℕ
add_batch_id j ids = elim j.batch_id [
  | none ↦ ids
  | some id ↦ if any (λ k. k == id) ids then ids else id ∷ ids
]

abbrev pub queued_batch_ids : List Job → List ℕ
queued_batch_ids [] = []
queued_batch_ids (j ∷ js) =
    let rest = queued_batch_ids js in if is_queued j.status then add_batch_id j rest else rest

abbrev pub drain_one : World → Store → Option Batch → (limit now : ℕ) → Store × ℕ
drain_one w s none limit now = (s, 0)
drain_one w s (some b) limit now =
    let (s', progress) = process_batch w s b limit now in (s', progress.processed)

unfoldable pub drain : World → (max_jobs now : ℕ) → List ℕ → (processed : ℕ) → Store → Store × ℕ
drain w max_jobs now [] processed s = (s, processed)
drain w max_jobs now (id ∷ ids) processed s =
    let (s', n) = drain_one w s (get_batch id s.batches) (max_jobs - processed) now in
    let rest = drain w max_jobs now ids (processed + n) s' in
    if leb max_jobs processed then (s, processed) else rest

unfoldable pub drain_onboarding_queue : World → Store → (max_jobs now : ℕ) → Store × ℕ
drain_onboarding_queue w s max_jobs now = drain w max_jobs now (queued_batch_ids s.jobs) 0 s

-- `retry_job` and `cancel_job` raise an `AppError` of this status code, let an exception pass, or
-- return.
pub data JobAnswer : Type 0 where
  accepted : Store → JobAnswer
  refused : (status_code : ℕ) → JobAnswer
  crashed : Store → JobAnswer

abbrev pub batch_of : Store → Job → Option Batch
batch_of s j = elim j.batch_id [ none ↦ none | some id ↦ get_batch id s.batches ]

abbrev pub refresh_own : Store → (now : ℕ) → Option Batch → Store
refresh_own s now none = s
refresh_own s now (some b) = (refresh_batch_progress s now b).0

abbrev pub redetects : Option Batch → Bool
redetects none = false
redetects (some b) = b.redetect_existing

unfoldable pub requeued : Job → Job
requeued j = record j {
  retry_count = j.retry_count + 1;
  status = queued;
  current_step = none;
  failure_reason = none;
  started_at = none;
  completed_at = none;
}

abbrev pub retried : Option Batch → (now : ℕ) → Ending → JobAnswer
retried b now (done s) = accepted (refresh_own s now b)
retried b now (escaped s e) = crashed s

unfoldable pub retry_job : World → Store → Job → (now : ℕ) → JobAnswer
retry_job w s j now =
    if not (is_retryable j.status)
    then refused 409
    else (let j' = requeued j in
        let b = batch_of s j in
        retried b now (process_job w (save j' s) j' (redetects b || is_some j.website_id)))

unfoldable pub withdrawn : Job → (now : ℕ) → Job
withdrawn j now = record j { status = cancelled; current_step = none; completed_at = some now }

unfoldable pub cancel_job : Store → Job → (now : ℕ) → JobAnswer
cancel_job s j now =
    if is_terminal j.status
    then refused 409
    else accepted (refresh_own (save (withdrawn j now) s) now (batch_of s j))
