-- ===== src/Jobs/Completion.antt =====
-- When a batch of services/bulk_onboarding.py is complete, and that it comes to be.
use web_scraping_event_appli.Prelude.{
  ℕ, ◌+◌, Bool, not, ◌&&◌, Option, none, some, List, [], ◌∷◌, length, is_empty, select, length-sort,
  length-select-sort, ◌≡◌, refl, ◌∙◌, arith, Bool-cases, inl, inr, if◌then◌else◌, ◌==◌,
}
use web_scraping_event_appli.Json.{is_some}
use web_scraping_event_appli.Jobs.{
  Job, Batch, Store, is_terminal, is_processing, is_of_batch, is_outstanding, by_row,
  list_jobs_for_batch, batch_completed,
}
use web_scraping_event_appli.Jobs.Batches.{is_finished, refreshed}
use web_scraping_event_appli.Jobs.Progress.{outstanding, all_jobs}

terminal_or_processing :
    (j : Job) (b : ℕ) → is_outstanding b j ≡ (is_of_batch b j && not (is_terminal j.status))
unfolding is_terminal is_processing
terminal_or_processing j b = ground arith

split_count :
    (b : ℕ) (js : List Job)
    → length (select is_finished (select (is_of_batch b) js))
        + length (select (is_outstanding b) js)
      ≡ length (select (is_of_batch b) js)
split_count b [] = omega arith
split_count b (j ∷ js) = ground (arith, terminal_or_processing j b, split_count b js)

pub finished_count :
    (s : Store) (b : ℕ)
    → length (select is_finished (list_jobs_for_batch s b)) + outstanding b s ≡ all_jobs b s
unfolding list_jobs_for_batch
finished_count s b =
    rw (length-select-sort by_row is_finished (select (is_of_batch b) s.jobs))
      (split_count b s.jobs)

pub jobs_count : (s : Store) (b : ℕ) → length (list_jobs_for_batch s b) ≡ all_jobs b s
unfolding list_jobs_for_batch
jobs_count s b = length-sort by_row (select (is_of_batch b) s.jobs)

empty_iff : {A : Type 0} (xs : List A) → is_empty xs ≡ (length xs == 0)
empty_iff [] = refl
empty_iff (x ∷ xs) = ground arith

abbrev pub is_all_done : Store → ℕ → Bool
is_all_done s b = not (all_jobs b s == 0) && (outstanding b s == 0)

done_test :
    (s : Store) (b : ℕ)
    → (not (is_empty (list_jobs_for_batch s b))
        && (length (select is_finished (list_jobs_for_batch s b))
            == length (list_jobs_for_batch s b)))
      ≡ is_all_done s b
done_test s b =
    rw (empty_iff (list_jobs_for_batch s b), jobs_count s b) (ground (arith, finished_count s b))

kept_time :
    (t : Option ℕ) (now : ℕ)
    → (elim t as (λ x. Option ℕ) [ none ↦ some now | some u ↦ some u ])
      ≡ (if not (is_some t) then some now else t)
kept_time none now = refl
kept_time (some u) now = refl

-- What a refresh writes: the number of the finished jobs, and the completion, with its first time,
-- exactly if the batch has jobs and none is outstanding.
pub record IsRefreshed (s : Store) (now : ℕ) (b b' : Batch) : Type 0 where
  pub id : b'.id ≡ b.id
  pub count : b'.completed_count + outstanding b.id s ≡ all_jobs b.id s
  pub status : b'.status ≡ (if is_all_done s b.id then batch_completed else b.status)
  pub completed_at :
      b'.completed_at
      ≡ (if is_all_done s b.id && not (is_some b.completed_at) then some now else b.completed_at)

pub refreshed-IsRefreshed :
    (s : Store) (now : ℕ) (b : Batch) → IsRefreshed s now b (refreshed s now b)
unfolding refreshed
refreshed-IsRefreshed s now b = elim (Bool-cases (is_all_done s b.id)) [
  | inl e ↦ rw (done_test s b.id ∙ e) record {
    id = refl;
    count = finished_count s b.id;
    status = rw e refl;
    completed_at = rw e (kept_time b.completed_at now);
  }
  | inr e ↦ rw (done_test s b.id ∙ e) record {
    id = refl;
    count = finished_count s b.id;
    status = rw e refl;
    completed_at = rw e refl;
  }
]
