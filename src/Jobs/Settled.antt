-- ===== src/Jobs/Settled.antt =====
-- Every job that services/bulk_onboarding.py processes comes to a terminal status.
use web_scraping_event_appli.Prelude.{
  ◌+◌, String, Bool, true, not, ◌||◌, Option, none, some, In, ◌≡◌, refl, sym, Bool-cases, inl, inr,
}
use web_scraping_event_appli.Matching.{WebsiteMatch}
use web_scraping_event_appli.Jobs.{
  Job, Store, FailureReason, is_terminal, is_processing, save, find_job, unexpected,
  find_active_job_for_url, duplicate, blocked, already_queued, not_fetched, creating_website,
  not_created,
}
use web_scraping_event_appli.Jobs.World.{
  World, Attempt, returned, raised, PreflightResult, fail, resolve_document, or_text, SiteMetadata,
}
use web_scraping_event_appli.Jobs.Process.{
  Ending, done, escaped, configure, locate, link_existing, check_duplicates, after_preflight,
  validated, process_with, process_job, create_website, new_website, match_urls,
}
use web_scraping_event_appli.Jobs.Batches.{process_one, guarded, fail_row}
use web_scraping_event_appli.Jobs.Rows.{find-save}
use web_scraping_event_appli.Jobs.Endings.{
  IsSame, IsWritten, IsFinished, EndsWell, saved, failed_well, rebased, renamed, rewritten, written,
  configure_well, created_well,
}

-- `c` is the job as it was last committed, `j` the row at hand.
module _ (w : World) (s : Store) (c j : Job) (same : IsSame c j)
    (active : is_processing j.status ≡ true) (p : PreflightResult) (redetect : Bool) where
  finished :
      (row : Job)
      → IsSame j row
      → is_terminal row.status ≡ true
      → row.completed_at ≡ some (w.ended j.id)
      → EndsWell w s c (done (save row s))
  finished row kept t d = renamed w s c j (done (save row s)) same (saved w s j row kept t d)

  locate_well : (m : Option WebsiteMatch) → EndsWell w s c (locate w s c j p redetect m)
  unfolding locate link_existing is_terminal
  locate_well none = go (w.website_error j1 metadata)
    where
      j1 : Job
      j1 = record j { current_step = some creating_website }

      metadata : SiteMetadata
      metadata = w.infer_site_metadata p.document (or_text p.final_url j.submitted_url) j1

      go :
          (e : Option String)
          → EndsWell w s c (elim e [
            | some e ↦ done (save (fail c (not_created e) (w.ended c.id)) s)
            | none ↦
                configure w
                  (create_website w s j1 metadata)
                  (record j1 {
                    inferred_metadata = some metadata.as_dict;
                    website_id = some s.next_website_id;
                  })
                  (new_website w s.next_website_id j1 metadata)
                  p.browser_required
          ])
      go (some e) = failed_well w s c (not_created e)
      go none =
          let j2 = record j1 {
            inferred_metadata = some metadata.as_dict;
            website_id = some s.next_website_id;
          } in
          let site = new_website w s.next_website_id j1 metadata in
          renamed w s c j2 _ same (
            created_well w s j2 site (s.next_website_id + 1) _
              (configure_well w (create_website w s j1 metadata) j2 site p.browser_required active))
  locate_well (some m) = elim (Bool-cases (m.is_archived || not redetect)) [
    | inl e ↦
        let row = link_existing j m (w.ended j.id) in
        rw e (finished row (refl, refl, refl, refl, refl, refl) refl refl)
    | inr e ↦
        let j1 = record j {
          website_id = some m.website.id;
          duplicate_of_website_id = some m.website.id;
        } in
        rw e (renamed w s c j1 _ same (configure_well w s j1 m.website p.browser_required active))
  ]

  duplicates_well : (o : Option Job) → EndsWell w s c (check_duplicates w s c j p redetect o)
  unfolding is_terminal
  duplicates_well none = locate_well (match_urls w.urls s.websites j.submitted_url p.final_url)
  duplicates_well (some k) =
      let row = record j {
        status = duplicate;
        failure_reason = some (already_queued k.id);
        completed_at = some (w.ended j.id);
      } in
      finished row (refl, refl, refl, refl, refl, refl) refl refl

  preflight_well : EndsWell w s c (after_preflight w s c j p redetect)
  unfolding after_preflight is_terminal fail
  preflight_well = go p.blocked_reason p.failure_reason
    where
      go :
          (b : Option String) (f : Option FailureReason)
          → EndsWell w s c (elim b [
            | some reason ↦ done (
                save
                  (record j {
                    status = blocked;
                    failure_reason = some (not_fetched reason);
                    completed_at = some (w.ended j.id);
                  })
                  s)
            | none ↦ elim f [
              | some reason ↦ done (save (fail j reason (w.ended j.id)) s)
              | none ↦
                  check_duplicates w s c j p redetect
                    (find_active_job_for_url s j.normalized_url j.id)
            ]
          ])
      go (some r) f =
          let row = record j {
            status = blocked;
            failure_reason = some (not_fetched r);
            completed_at = some (w.ended j.id);
          } in
          finished row (refl, refl, refl, refl, refl, refl) refl refl
      go none (some r) =
          finished (fail j r (w.ended j.id)) (refl, refl, refl, refl, refl, refl) refl refl
      go none none = duplicates_well (find_active_job_for_url s j.normalized_url j.id)

pub process_job_well :
    (w : World) (s : Store) (j : Job) (redetect : Bool)
    → EndsWell w s j (process_job w s j redetect)
unfolding process_job is_processing
process_job_well w s j redetect = go (resolve_document w j.submitted_url)
  where
    v : Job
    v = validated w j

    s1 : Store
    s1 = save v s

    first_write : IsWritten s j v s1
    first_write = written s j v s.websites (refl, refl, refl, refl, refl, refl)

    go : (a : Attempt PreflightResult) → EndsWell w s j (process_with w s1 v redetect a)
    go (raised e) = (v, first_write, refl)
    go (returned p) =
        rebased w s s1 j v _ first_write
          (preflight_well w s1 v _ (refl, refl, refl, refl, refl, refl) refl p redetect)

-- The job of the table is finished.
abbrev pub IsSettled : World → Store → Job → Store → Type 0
IsSettled w s j s' = (row : Job) × IsWritten s j row s' × IsFinished (w.ended j.id) row

-- The guard of the loop finishes the row that an exception has left.
guard_finishes :
    (w : World) (s s' : Store) (j row : Job) (e : String)
    → In j s.jobs
    → IsWritten s j row s'
    → IsSettled w s j (fail_row w j.id e s' (find_job j.id s'.jobs))
unfolding fail is_terminal
guard_finishes w s s' j row e i a =
    rw present
      (row1, rewritten s s' _ j row row1 a second, record { terminal = refl; dated = refl })
  where
    row1 : Job
    row1 = fail row (unexpected e) (w.ended j.id)

    present : find_job j.id s'.jobs ≡ some row
    present = rw (a.jobs, sym (a.same).0) (find-save row s.jobs j i (sym (a.same).0))

    second : IsWritten s' row row1 (save row1 s')
    second = written s' row row1 s'.websites (refl, refl, refl, refl, refl, refl)

-- Whatever the sources answer, and whether they raise or not, the loop's body brings a job of the
-- table to a terminal status with a completion time, and changes no other job and no batch.
pub process_one-IsSettled :
    (w : World) (redetect : Bool) (j : Job) (s : Store)
    → In j s.jobs
    → IsSettled w s j (process_one w redetect j s)
unfolding process_one fail is_terminal
process_one-IsSettled w redetect j s i =
    go (process_job w s j redetect) (process_job_well w s j redetect)
  where
    go :
        (e : Ending)
        → EndsWell w s j e
        → (row : Job) × IsWritten s j row (guarded w j.id e) × IsFinished (w.ended j.id) row
    go (done s') h = h
    go (escaped s' e) (row, a, p) = guard_finishes w s s' j row e i a
