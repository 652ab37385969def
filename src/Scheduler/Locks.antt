-- ===== src/Scheduler/Locks.antt =====
-- The per-site lock of services/scheduler.py: who may take it, and what ends a holding of it.
use web_scraping_event_appli.Prelude.{
  ℕ, ◌+◌, ◌*◌, String, Bool, true, false, ◌⊎◌, ltb, Option, none, some, List, [], ◌∷◌, ◌==◌,
  if◌then◌else◌, ◌≡◌, ◌≢◌, inl, inr, refl, arith, ◌&&◌, ◌∙◌, ap, Bool-cases, ==_iff,
}
use web_scraping_event_appli.Json.{is_some}
use web_scraping_event_appli.Schedule.{ScheduleConfig}
use web_scraping_event_appli.Scheduler.{
  Table, JobState, RunStatus, second, stale_lock_seconds, find, update, lock_is_stale,
  get_or_create_state, try_acquire, heartbeat, released, release_lock, request_cancel, set_paused,
  reclaim_stale_locks,
}
use web_scraping_event_appli.Scheduler.Acquire.{try_acquire_busy, find-try_acquire_ne}
use web_scraping_event_appli.Scheduler.Rows.{
  find-update, get_or_create_found, find-get_or_create, find-get_or_create_ne, find-reclaim,
}

-- An operation of some process on the job table, at the time it reads from its clock.
pub data Operation : Type 0 where
  acquire : (id : ℕ) (holder : String) (now : ℕ) → Operation
  beat : (id now : ℕ) → Operation
  release : (id : ℕ) → RunStatus → Option ScheduleConfig → (now : ℕ) → Operation
  cancel : (id : ℕ) → Operation
  pause : (id : ℕ) → Bool → Operation
  reclaim : (now : ℕ) → Operation

abbrev pub perform : Operation → Table → Table
perform (acquire id holder now) t = (try_acquire t id holder now).0
perform (beat id now) t = heartbeat t id now
perform (release id status schedule now) t = release_lock t id status schedule now
perform (cancel id) t = (request_cancel t id).0
perform (pause id b) t = set_paused t id b
perform (reclaim now) t = (reclaim_stale_locks t now).0

pub perform_all : List Operation → Table → Table
perform_all [] t = t
perform_all (o ∷ os) t = perform_all os (perform o t)

-- Whether the operation takes the lock of the website.
abbrev pub takes : ℕ → Operation → Table → Bool
takes id (acquire j holder now) t = (j == id) && is_some (try_acquire t j holder now).1
takes id _ t = false

pub takes_any : ℕ → List Operation → Table → Bool
takes_any id [] t = false
takes_any id (o ∷ os) t = if takes id o t then true else takes_any id os (perform o t)

-- The website's lock is held, with the given heartbeat.
pub record Held (id : ℕ) (holder : String) (beat_at : ℕ) (t : Table) : Type 0 where
  pub row : JobState
  pub found : find id t ≡ some row
  pub is_running : row.running ≡ true
  pub held_by : row.lock_holder ≡ some holder
  pub beaten : row.lock_heartbeat_at ≡ some beat_at

-- The heartbeat that the website's row has after the operation, as long as its lock is held.
abbrev pub beat_after : ℕ → ℕ → Operation → ℕ
beat_after id beat_at (beat j now) = if j == id then now else beat_at
beat_after id beat_at _ = beat_at

pub beat_after_all : ℕ → ℕ → List Operation → ℕ
beat_after_all id beat_at [] = beat_at
beat_after_all id beat_at (o ∷ os) = beat_after_all id (beat_after id beat_at o) os

-- Whether the clock that is read is past the stale limit of a heartbeat.
abbrev pub is_late : ℕ → ℕ → Bool
is_late beat_at now = ltb (beat_at + stale_lock_seconds * second) now

-- Whether the operation may end a holding of the website's lock: a release of the website, by any
-- process, for none has its holder checked; or a taking or a reclaiming past the stale limit.
abbrev pub ends_holding : ℕ → ℕ → Operation → Bool
ends_holding id beat_at (acquire j holder now) = (j == id) && is_late beat_at now
ends_holding id beat_at (beat j now) = false
ends_holding id beat_at (release j status schedule now) = j == id
ends_holding id beat_at (cancel j) = false
ends_holding id beat_at (pause j b) = false
ends_holding id beat_at (reclaim now) = is_late beat_at now

pub ends_holding_any : ℕ → ℕ → List Operation → Bool
ends_holding_any id beat_at [] = false
ends_holding_any id beat_at (o ∷ os) =
    if ends_holding id beat_at o then true else ends_holding_any id (beat_after id beat_at o) os

fresh :
    (s : JobState) (beat_at now : ℕ)
    → s.lock_heartbeat_at ≡ some beat_at
    → is_late beat_at now ≡ false
    → lock_is_stale s now stale_lock_seconds ≡ false
unfolding lock_is_stale
fresh s beat_at now e h = ground arith

-- What an operation that leaves the row leaves of a held lock.
Held-keep :
    {id beat_at : ℕ} {holder : String} {t t' : Table}
    → Held id holder beat_at t
    → find id t' ≡ find id t
    → Held id holder beat_at t'
Held-keep h e = record {
  row = h.row;
  found = e ∙ h.found;
  is_running = h.is_running;
  held_by = h.held_by;
  beaten = h.beaten;
}

Held-update :
    {id beat_at : ℕ} {holder : String} {t : Table} (j : ℕ) (f : JobState → JobState)
    → ((s : JobState) → (f s).website_id ≡ s.website_id)
    → ((s : JobState) → (f s).running ≡ s.running)
    → ((s : JobState) → (f s).lock_holder ≡ s.lock_holder)
    → ((s : JobState) → (f s).lock_heartbeat_at ≡ s.lock_heartbeat_at)
    → Held id holder beat_at t
    → Held id holder beat_at (update j f t)
Held-update {id} {t = t} j f ids same_run same_holder same_beat h = elim (Bool-cases (j == id)) [
  | inl e ↦ record {
    row = f h.row;
    found = ground (arith, find-update j id f t ids, h.found);
    is_running = same_run h.row ∙ h.is_running;
    held_by = same_holder h.row ∙ h.held_by;
    beaten = same_beat h.row ∙ h.beaten;
  }
  | inr e ↦ Held-keep h (ground (arith, find-update j id f t ids))
]

update_other :
    (id j : ℕ) (f : JobState → JobState) (t : Table)
    → j ≢ id
    → ((s : JobState) → (f s).website_id ≡ s.website_id)
    → find id (update j f t) ≡ find id t
update_other id j f t other ids = ground (arith, find-update j id f t ids)

request_cancel-Held :
    (id beat_at : ℕ) (holder : String) (t : Table) (j : ℕ)
    → Held id holder beat_at t
    → Held id holder beat_at (request_cancel t j).0
unfolding request_cancel
request_cancel-Held id beat_at holder t j h = go (find j t)
  where
    go :
        (o : Option JobState)
        → Held id holder beat_at
            (elim o as (λ _. Table × Bool) [
              | none ↦ (t, false)
              | some s ↦ (update j (λ s. record s { cancel_requested = true }) t, true)
            ]).0
    go none = h
    go (some s) = Held-update j _ (λ s. refl) (λ s. refl) (λ s. refl) (λ s. refl) h

-- A row that is found is not created again.
get_or_create-Held :
    (id beat_at : ℕ) (holder : String) (t : Table) (j : ℕ)
    → Held id holder beat_at t
    → Held id holder beat_at (get_or_create_state t j).0
get_or_create-Held id beat_at holder t j h = elim (Bool-cases (j == id)) [
  | inl e ↦
      Held-keep h (ground (arith, find-get_or_create t j, get_or_create_found t j h.row, h.found))
  | inr e ↦ Held-keep h (find-get_or_create_ne t j id e)
]

set_paused-Held :
    (id beat_at : ℕ) (holder : String) (t : Table) (j : ℕ) (b : Bool)
    → Held id holder beat_at t
    → Held id holder beat_at (set_paused t j b)
unfolding set_paused
set_paused-Held id beat_at holder t j b h =
    Held-update j _ (λ s. refl) (λ s. refl) (λ s. refl) (λ s. refl)
      (get_or_create-Held id beat_at holder t j h)

heartbeat-Held :
    (id beat_at : ℕ) (holder : String) (t : Table) (j now : ℕ)
    → Held id holder beat_at t
    → Held id holder (beat_after id beat_at (beat j now)) (heartbeat t j now)
unfolding heartbeat
heartbeat-Held id beat_at holder t j now h = elim (Bool-cases (j == id)) [
  | inl e ↦ rw e (record {
    row = record (h.row) { lock_heartbeat_at = some now };
    found = ground (
      arith,
      find-update j id (λ s. record s { lock_heartbeat_at = some now }) t (λ s. refl),
      h.found,
    );
    is_running = h.is_running;
    held_by = h.held_by;
    beaten = refl;
  })
  | inr e ↦ rw e (
      Held-keep h (
        ground
          (arith, find-update j id (λ s. record s { lock_heartbeat_at = some now }) t (λ s. refl))))
]

perform-Held :
    (id beat_at : ℕ) (holder : String) (t : Table) (o : Operation)
    → ends_holding id beat_at o ≡ false
    → Held id holder beat_at t
    → Held id holder (beat_after id beat_at o) (perform o t) × (takes id o t ≡ false)
unfolding release_lock
perform-Held id beat_at holder t (acquire j other now) f h = elim (Bool-cases (j == id)) [
  | inl e ↦
      let same_id : j ≡ id = (==_iff j id).0 e in
      let idle : try_acquire t j other now ≡ (t, none) =
        try_acquire_busy t j other now h.row (rw same_id h.found) h.is_running
          (fresh h.row beat_at now h.beaten (ground (arith, e, f))) in
      (Held-keep h (ap (λ r. find id r.0) idle), ground (arith, idle))
  | inr e ↦ (Held-keep h (find-try_acquire_ne t j id other now e), ground arith)
]
perform-Held id beat_at holder t (beat j now) f h =
    (heartbeat-Held id beat_at holder t j now h, refl)
perform-Held id beat_at holder t (release j status schedule now) f h = (
  Held-keep h (
      ground (
        arith,
        f,
        find-update j id (released status schedule now) t (λ s. unfold released in refl),
      )),
  refl,
)
perform-Held id beat_at holder t (cancel j) f h =
    (request_cancel-Held id beat_at holder t j h, refl)
perform-Held id beat_at holder t (pause j b) f h = (set_paused-Held id beat_at holder t j b h, refl)
perform-Held id beat_at holder t (reclaim now) f h =
    let not_stale : lock_is_stale h.row now stale_lock_seconds ≡ false =
      fresh h.row beat_at now h.beaten f in
    (Held-keep h (ground (arith, find-reclaim id t now, not_stale, h.found)), refl)

-- Whatever processes do to the job table from a state in which a lock is held, in any order: either
-- the website was released by some process, or a taking of it or a reclaiming pass read a clock past
-- the stale limit of its last heartbeat; or else no taking of the lock succeeded, and it is still
-- held by the same holder with the last heartbeat that was sent.
pub no_overlap :
    (id beat_at : ℕ) (holder : String) (os : List Operation) (t : Table)
    → Held id holder beat_at t
    → (ends_holding_any id beat_at os ≡ true)
      ⊎ (Held id holder (beat_after_all id beat_at os) (perform_all os t)
          × (takes_any id os t ≡ false))
unfolding perform_all takes_any ends_holding_any beat_after_all
no_overlap id beat_at holder [] t h = inr (h, refl)
no_overlap id beat_at holder (o ∷ os) t h = elim (Bool-cases (ends_holding id beat_at o)) [
  | inl e ↦ inl (rw e refl)
  | inr e ↦
      let (kept, not_taken) = perform-Held id beat_at holder t o e h in
      elim (no_overlap id (beat_after id beat_at o) holder os (perform o t) kept) [
        | inl late ↦ inl (rw e late)
        | inr (end, none_taken) ↦ inr (end, ground (arith, not_taken, none_taken))
      ]
]
