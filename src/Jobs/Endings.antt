-- ===== src/Jobs/Endings.antt =====
-- How services/bulk_onboarding.py ends the processing of one job, whatever the sources answer.
use web_scraping_event_appli.Prelude.{
  ℕ, String, Bool, true, false, Option, none, some, List, [], ◌∷◌, ◌++◌, ◌≡◌, refl, sym, ap, ◌∙◌,
  arith,
}
use web_scraping_event_appli.Website.{Website}
use web_scraping_event_appli.Jobs.{
  Job, Store, FailureReason, detecting, is_terminal, is_processing, save, save_into,
}
use web_scraping_event_appli.Jobs.World.{
  World, Attempt, returned, raised, AutoOnboardingResult, BrowserRecoveryResult, RecoveryStatus,
  Outcome, outcome_status, recovery_job_status, fail, Preview,
}
use web_scraping_event_appli.Jobs.Process.{
  Ending, done, escaped, find_website, recorded, with_preview, finish_with, recovered_with,
  detected_with, configure,
}
use web_scraping_event_appli.Jobs.Rows.{save-save}

-- The row is the same job: its id, batch, place, URLs and number of retries.
abbrev pub IsSame : (j row : Job) → Type 0
IsSame j row =
    (row.id ≡ j.id)
    × (row.batch_id ≡ j.batch_id)
    × (row.row_number ≡ j.row_number)
    × (row.submitted_url ≡ j.submitted_url)
    × (row.normalized_url ≡ j.normalized_url)
    × (row.retry_count ≡ j.retry_count)

-- The store has the row in the place of the job, and other jobs and batches as before.
pub record IsWritten (s : Store) (j row : Job) (s' : Store) : Type 0 where
  pub same : IsSame j row
  pub jobs : s'.jobs ≡ save_into row s.jobs
  pub batches : s'.batches ≡ s.batches
  pub next_job_id : s'.next_job_id ≡ s.next_job_id
  pub next_batch_id : s'.next_batch_id ≡ s.next_batch_id

-- A job is finished: its status is terminal and its completion is dated.
pub record IsFinished (now : ℕ) (row : Job) : Type 0 where
  pub terminal : is_terminal row.status ≡ true
  pub dated : row.completed_at ≡ some now

-- A call that returns has finished the job; one that raises has left it in processing.
abbrev pub EndsWell : World → Store → Job → Ending → Type 0
EndsWell w s j (done s') = (row : Job) × IsWritten s j row s' × IsFinished (w.ended j.id) row
EndsWell w s j (escaped s' e) =
    (row : Job) × IsWritten s j row s' × (is_processing row.status ≡ true)

pub outcome_status-is_terminal : (o : Outcome) → is_terminal (outcome_status o) ≡ true
unfolding is_terminal outcome_status
outcome_status-is_terminal o = ground arith

recovery_status-is_terminal : (r : RecoveryStatus) → is_terminal (recovery_job_status r) ≡ true
unfolding is_terminal recovery_job_status
recovery_status-is_terminal r = ground arith

module _ (w : World) (s : Store) where
  -- Saving the finished row ends the call well.
  pub saved :
      (j row : Job)
      → IsSame j row
      → is_terminal row.status ≡ true
      → row.completed_at ≡ some (w.ended j.id)
      → EndsWell w s j (done (save row s))
  saved j row same t c = (
    row,
    record { same = same; jobs = refl; batches = refl; next_job_id = refl; next_batch_id = refl },
    record { terminal = t; dated = c },
  )

  pub failed_well :
      (j : Job) (r : FailureReason) → EndsWell w s j (done (save (fail j r (w.ended j.id)) s))
  unfolding fail is_terminal
  failed_well j r = saved j (fail j r (w.ended j.id)) (refl, refl, refl, refl, refl, refl) refl refl

  preview-IsSame : (p : Option Preview) (j : Job) → IsSame j (with_preview p j)
  preview-IsSame none j = (refl, refl, refl, refl, refl, refl)
  preview-IsSame (some p) j = (refl, refl, refl, refl, refl, refl)

  recorded-IsSame :
      (r : AutoOnboardingResult) (site : Website) (j : Job) (now : ℕ)
      → IsSame j (recorded r site j now)
  unfolding recorded
  recorded-IsSame r site j now = preview-IsSame r.preview j

  recorded_well :
      (r : AutoOnboardingResult) (site : Website) (j : Job)
      → EndsWell w s j (done (save (recorded r site j (w.ended j.id)) s))
  recorded_well r site j =
      saved j (recorded r site j (w.ended j.id)) (recorded-IsSame r site j (w.ended j.id))
        (unfold recorded in outcome_status-is_terminal r.outcome) (unfold recorded in refl)

-- With the job as last saved in the store, in processing.
abbrev IsKept : Store → Job → Type 0
IsKept s j = (save_into j s.jobs ≡ s.jobs) × (is_processing j.status ≡ true)

module _ (w : World) (s : Store) (j : Job) (kept : IsKept s j) where
  left : (e : String) → EndsWell w s j (escaped s e)
  left e = (
    j,
    record {
      same = (refl, refl, refl, refl, refl, refl);
      jobs = sym kept.0;
      batches = refl;
      next_job_id = refl;
      next_batch_id = refl;
    },
    kept.1,
  )

  finish_well : (id : ℕ) (r : AutoOnboardingResult) → EndsWell w s j (finish_with w s j id r)
  finish_well id r = go (find_website id s.websites)
    where
      go :
          (o : Option Website)
          → EndsWell w s j (elim o [
            | none ↦ escaped s "Could not refresh instance"
            | some website ↦ done (save (recorded r website j (w.ended j.id)) s)
          ])
      go none = left "Could not refresh instance"
      go (some site) = recorded_well w s r site j

  detected_well :
      (id : ℕ) (a : Attempt AutoOnboardingResult) → EndsWell w s j (detected_with w s j id a)
  detected_well id (raised e) = failed_well w s j _
  detected_well id (returned r) = finish_well id r

  recovery_well :
      (id : ℕ) (status : RecoveryStatus) (o : Option AutoOnboardingResult)
      → EndsWell w s j
          (recovered_with w s j id (returned record { status = status; onboarding = o }))
  recovery_well id status none =
      saved w s j _ (refl, refl, refl, refl, refl, refl) (recovery_status-is_terminal status) refl
  recovery_well id status (some r) = finish_well id r

  recovered_well :
      (id : ℕ) (a : Attempt BrowserRecoveryResult) → EndsWell w s j (recovered_with w s j id a)
  recovered_well id (raised e) = failed_well w s j _
  recovered_well id (returned r) = recovery_well id r.status r.onboarding

trans-IsSame : (i j k : Job) → IsSame i j → IsSame j k → IsSame i k
trans-IsSame i j k (a0, a1, a2, a3, a4, a5) (b0, b1, b2, b3, b4, b5) =
    (b0 ∙ a0, b1 ∙ a1, b2 ∙ a2, b3 ∙ a3, b4 ∙ a4, b5 ∙ a5)

-- What is written over the saved job is written over the job before.
pub rewritten :
    (s s1 s' : Store) (j j1 row : Job)
    → IsWritten s j j1 s1
    → IsWritten s1 j1 row s'
    → IsWritten s j row s'
rewritten s s1 s' j j1 row a b = record {
  same = trans-IsSame j j1 row a.same b.same;
  jobs = b.jobs ∙ (ap (save_into row) a.jobs ∙ save-save row j1 s.jobs (b.same).0);
  batches = b.batches ∙ a.batches;
  next_job_id = b.next_job_id ∙ a.next_job_id;
  next_batch_id = b.next_batch_id ∙ a.next_batch_id;
}

pub rebased :
    (w : World) (s s1 : Store) (j j1 : Job) (e : Ending)
    → IsWritten s j j1 s1
    → EndsWell w s1 j1 e
    → EndsWell w s j e
rebased w s s1 j j1 (done s') a (row, b, f) = (
  row,
  rewritten s s1 s' j j1 row a b,
  record { terminal = f.terminal; dated = f.dated ∙ ap (λ n. some (w.ended n)) (a.same).0 },
)
rebased w s s1 j j1 (escaped s' e) a (row, b, p) = (row, rewritten s s1 s' j j1 row a b, p)

renamed-IsWritten :
    (s s' : Store) (j j1 row : Job) → IsSame j j1 → IsWritten s j1 row s' → IsWritten s j row s'
renamed-IsWritten s s' j j1 row a b = record {
  same = trans-IsSame j j1 row a b.same;
  jobs = b.jobs;
  batches = b.batches;
  next_job_id = b.next_job_id;
  next_batch_id = b.next_batch_id;
}

-- The job may be named by any row that is the same job.
pub renamed :
    (w : World) (s : Store) (j j1 : Job) (e : Ending)
    → IsSame j j1
    → EndsWell w s j1 e
    → EndsWell w s j e
renamed w s j j1 (done s') a (row, b, f) = (
  row,
  renamed-IsWritten s s' j j1 row a b,
  record { terminal = f.terminal; dated = f.dated ∙ ap (λ n. some (w.ended n)) a.0 },
)
renamed w s j j1 (escaped s' e) a (row, b, p) = (row, renamed-IsWritten s s' j j1 row a b, p)

pub written :
    (s : Store) (j row : Job) (websites : List Website)
    → IsSame j row
    → IsWritten s j row (record s { jobs = save_into row s.jobs; websites = websites })
written s j row websites same = record {
  same = same;
  jobs = refl;
  batches = refl;
  next_job_id = refl;
  next_batch_id = refl;
}

module _ (w : World) where
  pub configure_well :
      (s : Store) (j : Job) (site : Website) (b : Bool)
      → is_processing j.status ≡ true
      → EndsWell w s j (configure w s j site b)
  unfolding configure
  configure_well s j site b p = elim b as (λ b. EndsWell w s j (configure w s j site b)) [
    | true ↦
        let (websites, attempt) = w.browser_retry_recovery s.websites site j1 in
        rebased w s _ j j1 _ (written s j j1 websites (refl, refl, refl, refl, refl, refl))
          (recovered_well w (after websites) j1 (again, p) site.id attempt)
    | false ↦
        let (websites, attempt) = w.detect_and_configure s.websites site j1 in
        rebased w s _ j j1 _ (written s j j1 websites (refl, refl, refl, refl, refl, refl))
          (detected_well w (after websites) j1 (again, p) site.id attempt)
  ]
    where
      j1 : Job
      j1 = record j { current_step = some detecting }

      after : List Website → Store
      after websites = record s { jobs = save_into j1 s.jobs; websites = websites }

      again : save_into j1 (save_into j1 s.jobs) ≡ save_into j1 s.jobs
      again = save-save j1 j1 s.jobs refl

-- A new website changes no job.
created-IsWritten :
    (s s' : Store) (j row : Job) (site : Website) (n : ℕ)
    → IsWritten (record s { websites = s.websites ++ (site ∷ []); next_website_id = n }) j row s'
    → IsWritten s j row s'
created-IsWritten s s' j row site n q = record {
  same = q.same;
  jobs = q.jobs;
  batches = q.batches;
  next_job_id = q.next_job_id;
  next_batch_id = q.next_batch_id;
}

pub created_well :
    (w : World) (s : Store) (j : Job) (site : Website) (n : ℕ) (e : Ending)
    → EndsWell w (record s { websites = s.websites ++ (site ∷ []); next_website_id = n }) j e
    → EndsWell w s j e
created_well w s j site n (done s') (row, q, f) = (row, created-IsWritten s s' j row site n q, f)
created_well w s j site n (escaped s' e) (row, q, p) =
    (row, created-IsWritten s s' j row site n q, p)
