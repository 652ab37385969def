-- ===== src/Jobs/Submitting.antt =====
-- A submission to services/bulk_onboarding.py, from its rows to the completion of its batch.
use web_scraping_event_appli.Prelude.{
  ℕ, suc, ◌+◌, ◌*◌, ◌≤◌, ◌<◌, String, str_eq, Bool, Option, none, some, List, [], ◌∷◌, ◌++◌, length,
  length-append, select, All, DistinctBy, All-weaken, ◌≡◌, ◌≢◌, refl, sym, ap, ◌∙◌, subst, arith,
  Bool-cases, inl, inr, if◌then◌else◌,
}
use web_scraping_event_appli.Submission.{
  SubmittedRow, RejectedRow, ParsedSubmission, submitted_count,
}
use web_scraping_event_appli.Jobs.{
  Job, Batch, Store, is_of_batch, is_outstanding, is_processing, get_batch,
}
use web_scraping_event_appli.Jobs.World.{World}
use web_scraping_event_appli.Jobs.Creation.{
  Submitted, Places, BatchRejection, all_before, new_batch, create_batch, new_job, create_job,
  add_in_city, add_slug, add_rows, create_batch_from_submission,
}
use web_scraping_event_appli.Jobs.Progress.{IsKeyed, outstanding, all_jobs}
use web_scraping_event_appli.Jobs.Completion.{jobs_count, finished_count}
use web_scraping_event_appli.Jobs.Calls.{get_batch-save, IsComplete, run_calls, batch_completes}

-- The rows of the tables have the numbers given out so far, each once, and jobs belong to batches
-- made before.
pub record IsNumbered (s : Store) : Type 0 where
  pub keyed : IsKeyed s
  pub jobs : All (λ (j : Job). j.id < s.next_job_id) s.jobs
  pub fresh : all_jobs s.next_batch_id s ≡ 0
  pub batch_fresh : get_batch s.next_batch_id s.batches ≡ none

-- The rows so far, as jobs of the batch that wait, or as rejections.
record IsAdded (b n : ℕ) (x : Store × List BatchRejection) : Type 0 where
  keyed : IsKeyed x.0
  jobs : All (λ (j : Job). j.id < (x.0).next_job_id) (x.0).jobs
  waiting : outstanding b x.0 ≡ all_jobs b x.0
  count : all_jobs b x.0 + length x.1 ≡ n

select-append :
    (p : Job → Bool) (js : List Job) (j : Job)
    → length (select p (js ++ (j ∷ []))) ≡ length (select p js) + (if p j then 1 else 0)
select-append p [] j = ground arith
select-append p (k ∷ ks) j = ground (arith, select-append p ks j)

All-append : (P : Job → Type 0) (js : List Job) (j : Job) → All P js → P j → All P (js ++ (j ∷ []))
All-append P [] j h p = (p, tt)
All-append P (k ∷ ks) j h p = (h.0, All-append P ks j h.1 p)

DistinctBy-append :
    (js : List Job) (j : Job)
    → DistinctBy (λ (k : Job). k.id) js
    → All (λ (k : Job). k.id < j.id) js
    → DistinctBy (λ (k : Job). k.id) (js ++ (j ∷ []))
DistinctBy-append [] j d a = (tt, tt)
DistinctBy-append (k ∷ ks) j d a = (
  All-append (λ (y : Job). k.id ≢ y.id) ks j d.0 (λ e. absurd (omega (arith, a.0, e))),
  DistinctBy-append ks j d.1 a.1,
)

module _ (a : Submitted) (p : Places) (b : ℕ) where
  create_job-IsAdded :
      (row : SubmittedRow) (city : Option ℕ) (n : ℕ) (s : Store) (rejected : List BatchRejection)
      → IsAdded b n (s, rejected)
      → IsAdded b (suc n) (create_job a p b row city s, rejected)
  unfolding is_processing
  create_job-IsAdded row city n s rejected h =
      let j = new_job a p b s.next_job_id row city in
      record {
        keyed = DistinctBy-append s.jobs j h.keyed h.jobs;
        jobs =
            All-append _ s.jobs j (All-weaken _ _ (λ k lt. omega (arith, lt)) s.jobs h.jobs)
              (omega arith);
        waiting = ground (
          arith,
          select-append (is_outstanding b) s.jobs j,
          select-append (is_of_batch b) s.jobs j,
          h.waiting,
        );
        count = ground (arith, select-append (is_of_batch b) s.jobs j, h.count);
      }

  reject-IsAdded :
      (r : BatchRejection) (n : ℕ) (s : Store) (rejected : List BatchRejection)
      → IsAdded b n (s, rejected)
      → IsAdded b (suc n) (s, rejected ++ (r ∷ []))
  reject-IsAdded r n s rejected h = record {
    keyed = h.keyed;
    jobs = h.jobs;
    waiting = h.waiting;
    count = omega (arith, length-append {0} rejected (r ∷ []), h.count);
  }

  city-IsAdded :
      (row : SubmittedRow) (slug : String) (city : Option ℕ) (n : ℕ)
      (x : Store × List BatchRejection)
      → IsAdded b n x
      → IsAdded b (suc n) (add_in_city a p b row slug city x)
  city-IsAdded row slug none n (s, rejected) h = reject-IsAdded _ n s rejected h
  city-IsAdded row slug (some city) n (s, rejected) h =
      create_job-IsAdded row (some city) n s rejected h

  slug-IsAdded :
      (row : SubmittedRow) (slug : Option String) (n : ℕ) (x : Store × List BatchRejection)
      → IsAdded b n x
      → IsAdded b (suc n) (add_slug a p b row slug x)
  slug-IsAdded row none n (s, rejected) h = create_job-IsAdded row a.default_city_id n s rejected h
  slug-IsAdded row (some slug) n x h = elim (Bool-cases (str_eq slug "")) [
    | inl e ↦ rw e (create_job-IsAdded row a.default_city_id n x.0 x.1 h)
    | inr e ↦ rw e (city-IsAdded row slug (p.get_city_by_slug slug) n x h)
  ]

  rows-IsAdded :
      (rows : List SubmittedRow) (n : ℕ) (x : Store × List BatchRejection)
      → IsAdded b n x
      → IsAdded b (n + length rows) (add_rows a p b rows x)
  unfolding add_rows
  rows-IsAdded [] n x h = subst (λ (k : ℕ). IsAdded b k x) (omega arith) h
  rows-IsAdded (row ∷ rows) n x h =
      let x1 = add_slug a p b row row.city_slug x in
      subst (λ (k : ℕ). IsAdded b k (add_rows a p b rows x1)) (omega arith)
        (rows-IsAdded rows (suc n) x1 (slug-IsAdded row row.city_slug n x h))

  -- The rows touch no batch.
  slug-batches :
      (row : SubmittedRow) (slug : Option String) (x : Store × List BatchRejection)
      → (add_slug a p b row slug x).0.batches ≡ x.0.batches
  slug-batches row none (s, rejected) = refl
  slug-batches row (some slug) x = elim (Bool-cases (str_eq slug "")) [
    | inl e ↦ rw e refl
    | inr e ↦ rw e (go (p.get_city_by_slug slug) x)
  ]
    where
      go :
          (c : Option ℕ) (x : Store × List BatchRejection)
          → (add_in_city a p b row slug c x).0.batches ≡ x.0.batches
      go none (s, rejected) = refl
      go (some c) (s, rejected) = refl

  rows-batches :
      (rows : List SubmittedRow) (x : Store × List BatchRejection)
      → (add_rows a p b rows x).0.batches ≡ x.0.batches
  unfolding add_rows
  rows-batches [] x = refl
  rows-batches (row ∷ rows) x =
      rows-batches rows (add_slug a p b row row.city_slug x) ∙ slug-batches row row.city_slug x

length-all_before : (rows : List RejectedRow) → length (all_before rows) ≡ length rows
length-all_before [] = refl
length-all_before (row ∷ rows) = ap suc (length-all_before rows)

get_batch-last :
    (id : ℕ) (b : Batch) (bs : List Batch)
    → b.id ≡ id
    → get_batch id bs ≡ none
    → get_batch id (bs ++ (b ∷ [])) ≡ some b
unfolding get_batch
get_batch-last id b [] e n = ground (arith, e)
get_batch-last id b (c ∷ cs) e n = ground (arith, e, n, get_batch-last id b cs e)

-- The new batch is stored with its counts, and its jobs wait.
pub record IsSubmitted (s : Store) (b : Batch) : Type 0 where
  pub keyed : IsKeyed s
  pub found : get_batch b.id s.batches ≡ some b
  pub counts : b.valid_count + b.invalid_count ≡ b.submitted_count
  pub valid : all_jobs b.id s ≡ b.valid_count
  pub waiting : outstanding b.id s ≡ b.valid_count

-- Of a submission to tables with the ids given out so far every row is counted once, as a job of the
-- new batch that waits or as invalid; the batch is stored with its counts, and the ids of the jobs
-- still differ.
pub create_batch-IsSubmitted :
    (a : Submitted) (p : Places) (parsed : ParsedSubmission) (s : Store)
    → IsNumbered s
    → let (s', b) = create_batch_from_submission a p parsed s in IsSubmitted s' b
unfolding create_batch_from_submission submitted_count
create_batch-IsSubmitted a p parsed s n = record {
  keyed = added.keyed;
  found = get_batch-save s.next_batch_id _ _ (new_batch a s.next_batch_id) refl (
      ap (get_batch s.next_batch_id) (rows-batches a p s.next_batch_id parsed.rows start)
      ∙ get_batch-last s.next_batch_id (new_batch a s.next_batch_id) s.batches refl n.batch_fresh);
  counts =
      omega
        (arith, added.count, jobs_count after s.next_batch_id, length-all_before parsed.rejected);
  valid = sym (jobs_count after s.next_batch_id);
  waiting = added.waiting ∙ sym (jobs_count after s.next_batch_id);
}
  where
    start : Store × List BatchRejection
    start = (create_batch a s, all_before parsed.rejected)

    begun : IsAdded s.next_batch_id (length (all_before parsed.rejected)) start
    begun = record {
      keyed = n.keyed;
      jobs = n.jobs;
      waiting = omega (arith, n.fresh, finished_count (create_batch a s) s.next_batch_id);
      count = omega (arith, n.fresh);
    }

    after : Store
    after = (add_rows a p s.next_batch_id parsed.rows start).0

    added :
        IsAdded s.next_batch_id
          (length (all_before parsed.rejected) + length parsed.rows)
          (add_rows a p s.next_batch_id parsed.rows start)
    added = rows-IsAdded a p s.next_batch_id parsed.rows _ start begun

-- The batch of a submission with a valid row, to tables with the ids given out so far, is stored as
-- complete with none of its jobs outstanding after as many calls as the valid rows need at the
-- limit, whatever the sources answer.
pub submission_completes :
    (w : World) (a : Submitted) (p : Places) (parsed : ParsedSubmission) (s : Store)
    (n limit now : ℕ)
    → IsNumbered s
    → 0 < (create_batch_from_submission a p parsed s).1.valid_count
    → (create_batch_from_submission a p parsed s).1.valid_count ≤ suc n * limit
    → let (s', b) = create_batch_from_submission a p parsed s in
      IsComplete b.id b.valid_count (run_calls w (suc n) b.id limit now s')
submission_completes w a p parsed s n limit now numbered some_rows few =
    let (s', b) = create_batch_from_submission a p parsed s in
    let made : IsSubmitted s' b = create_batch-IsSubmitted a p parsed s numbered in
    subst (λ (k : ℕ). IsComplete b.id k (run_calls w (suc n) b.id limit now s')) made.valid
      (batch_completes w n limit now s' b made.keyed made.found
        (omega (arith, made.valid, some_rows)) (omega (arith, made.waiting, few)))
