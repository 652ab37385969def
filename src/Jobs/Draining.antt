-- ===== src/Jobs/Draining.antt =====
-- How many jobs `drain_onboarding_queue` of services/bulk_onboarding.py processes.
use web_scraping_event_appli.Prelude.{ℕ, ◌+◌, ◌-◌, ◌≤◌, Option, none, some, List, [], ◌∷◌, arith}
use web_scraping_event_appli.Jobs.{Batch, Store, get_batch}
use web_scraping_event_appli.Jobs.World.{World}
use web_scraping_event_appli.Jobs.Batches.{
  process_batch, drain_one, drain, drain_onboarding_queue, queued_batch_ids,
}
use web_scraping_event_appli.Jobs.Progress.{length-next_queued_jobs}

drain_one-le :
    (w : World) (s : Store) (o : Option Batch) (limit now : ℕ)
    → (drain_one w s o limit now).1 ≤ limit
unfolding process_batch
drain_one-le w s none limit now = omega arith
drain_one-le w s (some b) limit now = ground (arith, length-next_queued_jobs s b.id limit)

drain-le :
    (w : World) (max_jobs now : ℕ) (ids : List ℕ) (processed : ℕ) (s : Store)
    → processed ≤ max_jobs
    → (drain w max_jobs now ids processed s).1 ≤ max_jobs
unfolding drain
drain-le w max_jobs now [] processed s h = h
drain-le w max_jobs now (id ∷ ids) processed s h = ground (
  arith,
  drain_one-le w s (get_batch id s.batches) (max_jobs - processed) now,
  drain-le w max_jobs now ids
      (processed + (drain_one w s (get_batch id s.batches) (max_jobs - processed) now).1)
      (drain_one w s (get_batch id s.batches) (max_jobs - processed) now).0,
  h,
)

-- A pass over the queue processes no more jobs than it may, over all batches together.
pub drain_onboarding_queue-le :
    (w : World) (s : Store) (max_jobs now : ℕ)
    → (drain_onboarding_queue w s max_jobs now).1 ≤ max_jobs
unfolding drain_onboarding_queue
drain_onboarding_queue-le w s max_jobs now =
    drain-le w max_jobs now (queued_batch_ids s.jobs) 0 s (omega arith)
