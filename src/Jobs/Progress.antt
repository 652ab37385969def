-- ===== src/Jobs/Progress.antt =====
-- What a call of `process_batch` of services/bulk_onboarding.py does to the jobs of its batch.
use web_scraping_event_appli.Prelude.{
  ℕ, ◌+◌, ◌≤◌, Bool, true, false, some, List, [], ◌∷◌, length, select, sort, All, In, DistinctBy,
  All-select, All-sort, All-take, All-self, All-weaken, select-passes, DistinctBy-select,
  DistinctBy-sort, DistinctBy-take, length-sort, length-take-le, length-take-ge, ◌≡◌, ◌≢◌, refl,
  sym, ◌∙◌, subst, arith, Bool-cases, inl, inr, if◌then◌else◌, leb,
}
use web_scraping_event_appli.Jobs.{
  Job, Store, is_terminal, is_processing, save_into, find_job, is_outstanding, is_of_batch, by_row,
  next_queued_jobs,
}
use web_scraping_event_appli.Jobs.World.{World}
use web_scraping_event_appli.Jobs.Batches.{process_one, process_each}
use web_scraping_event_appli.Jobs.Rows.{
  find-save, find-save_ne, In-save_ne, count-save, count-save_same, DistinctBy-save,
}
use web_scraping_event_appli.Jobs.Endings.{IsSame, IsFinished}
use web_scraping_event_appli.Jobs.Settled.{IsSettled, process_one-IsSettled}

-- The ids of the jobs differ.
abbrev pub IsKeyed : Store → Type 0
IsKeyed s = DistinctBy (λ (j : Job). j.id) s.jobs

-- The number of the jobs of a batch that are still to be processed.
abbrev pub outstanding : ℕ → Store → ℕ
outstanding b s = length (select (is_outstanding b) s.jobs)

-- The number of the jobs of a batch.
abbrev pub all_jobs : ℕ → Store → ℕ
all_jobs b s = length (select (is_of_batch b) s.jobs)

-- A job that the table has as a finished row.
abbrev pub IsFinishedIn : World → Store → Job → Type 0
IsFinishedIn w s j =
    (row : Job) × (find_job j.id s.jobs ≡ some row) × IsSame j row × IsFinished (w.ended j.id) row

-- The jobs are finished, each other job is as before, and so are the batches.
pub record IsProcessed (w : World) (b : ℕ) (js : List Job) (s s' : Store) : Type 0 where
  pub keyed : IsKeyed s'
  pub total : all_jobs b s' ≡ all_jobs b s
  pub count : outstanding b s' + length js ≡ outstanding b s
  pub finished : All (IsFinishedIn w s') js
  pub others : (id : ℕ) → All (λ (j : Job). j.id ≢ id) js → find_job id s'.jobs ≡ find_job id s.jobs
  pub batches : s'.batches ≡ s.batches

terminal_not_outstanding :
    (b : ℕ) (j : Job) → is_terminal j.status ≡ true → is_outstanding b j ≡ false
unfolding is_terminal is_processing
terminal_not_outstanding b j t = ground arith

-- The jobs after the first are still in the table.
still :
    (j row : Job) (js l : List Job)
    → row.id ≡ j.id
    → All (λ (k : Job). j.id ≢ k.id) js
    → All (λ k. In k l) js
    → All (λ k. In k (save_into row l)) js
still j row [] l e d i = tt
still j row (k ∷ ks) l e d i =
    (In-save_ne row k l (λ q. d.0 (sym e ∙ sym q)) i.0, still j row ks l e d.1 i.1)

-- One settled job.
step :
    (w : World) (b : ℕ) (j : Job) (s s' : Store)
    → IsKeyed s
    → In j s.jobs
    → is_outstanding b j ≡ true
    → IsSettled w s j s'
    → IsProcessed w b (j ∷ []) s s'
step w b j s s' k i o (row, a, f) = record {
  keyed = rw a.jobs (DistinctBy-save row s.jobs k);
  total = rw a.jobs (
      count-save_same (is_of_batch b) row j s.jobs k i (sym (a.same).0)
        (ground (arith, (a.same).1)));
  count = rw a.jobs (
      count-save (is_outstanding b) row j s.jobs k i (sym (a.same).0) o
        (terminal_not_outstanding b row f.terminal));
  finished = (
    (row, rw (a.jobs, sym (a.same).0) (find-save row s.jobs j i (sym (a.same).0)), a.same, f),
    tt,
  );
  others = λ id n. rw a.jobs (find-save_ne row id s.jobs (λ q. n.0 (sym (a.same).0 ∙ q)));
  batches = a.batches;
}

-- A finished row stays as the others are processed.
together :
    (w : World) (b : ℕ) (j : Job) (js : List Job) (s s1 s2 : Store)
    → All (λ (k : Job). j.id ≢ k.id) js
    → IsProcessed w b (j ∷ []) s s1
    → IsProcessed w b js s1 s2
    → IsProcessed w b (j ∷ js) s s2
together w b j js s s1 s2 d p q = record {
  keyed = q.keyed;
  total = q.total ∙ p.total;
  count = omega (arith, p.count, q.count);
  finished = (
    (
      (p.finished).0.0,
      q.others j.id (All-weaken (λ k. j.id ≢ k.id) (λ k. k.id ≢ j.id) (λ k n e. n (sym e)) js d)
          ∙ (p.finished).0.1,
      (p.finished).0.2,
      (p.finished).0.3,
    ),
    q.finished,
  );
  others = λ id n. q.others id n.1 ∙ p.others id (n.0, tt);
  batches = q.batches ∙ p.batches;
}

pub process_each-IsProcessed :
    (w : World) (redetect : Bool) (b : ℕ) (js : List Job) (s : Store)
    → IsKeyed s
    → DistinctBy (λ (j : Job). j.id) js
    → All (λ j. In j s.jobs) js
    → All (λ j. is_outstanding b j ≡ true) js
    → IsProcessed w b js s (process_each w redetect js s)
unfolding process_each
process_each-IsProcessed w redetect b [] s k d i o = record {
  keyed = k;
  total = refl;
  count = omega arith;
  finished = tt;
  others = λ id a. refl;
  batches = refl;
}
process_each-IsProcessed w redetect b (j ∷ js) s k d i o =
    let s1 = process_one w redetect j s in
    let settled : IsSettled w s j s1 = process_one-IsSettled w redetect j s i.0 in
    let p : IsProcessed w b (j ∷ []) s s1 = step w b j s s1 k i.0 o.0 settled in
    let here : All (λ k. In k s1.jobs) js =
      rw (settled.1).jobs (still j settled.0 js s.jobs (settled.1).same.0 d.0 i.1) in
    together w b j js s s1 (process_each w redetect js s1) d.0 p
      (process_each-IsProcessed w redetect b js s1 p.keyed d.1 here o.1)

-- The jobs that a call takes: outstanding ones of the batch, each once.
pub next_queued_jobs_lem :
    (s : Store) (b limit : ℕ)
    → IsKeyed s
    → let js = next_queued_jobs s b limit in
      DistinctBy (λ (j : Job). j.id) js
      × All (λ j. In j s.jobs) js
      × All (λ j. is_outstanding b j ≡ true) js
unfolding next_queued_jobs
next_queued_jobs_lem s b limit k = (
  DistinctBy-take _ limit _
      (DistinctBy-sort by_row _ _ (DistinctBy-select _ (is_outstanding b) s.jobs k)),
  All-take _ limit _
      (All-sort by_row _ _ (All-select _ (is_outstanding b) s.jobs (All-self s.jobs))),
  All-take _ limit _ (All-sort by_row _ _ (select-passes (is_outstanding b) s.jobs)),
)

-- As many as the limit allows.
pub length-next_queued_jobs :
    (s : Store) (b limit : ℕ)
    → length (next_queued_jobs s b limit)
      ≡ (if leb limit (outstanding b s) then limit else outstanding b s)
unfolding next_queued_jobs
length-next_queued_jobs s b limit = elim (Bool-cases (leb limit (outstanding b s))) [
  | inl e ↦ rw e (length-take-le limit _ (subst (λ (n : ℕ). limit ≤ n) (sym sorted) (ground arith)))
  | inr e ↦
      rw e
        (length-take-ge limit _ (subst (λ (n : ℕ). n ≤ limit) (sym sorted) (ground arith)) ∙ sorted)
]
  where
    sorted : length (sort by_row (select (is_outstanding b) s.jobs)) ≡ outstanding b s
    sorted = length-sort by_row (select (is_outstanding b) s.jobs)
