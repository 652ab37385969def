-- ===== src/Scheduler/Acquire.antt =====
-- services/scheduler.py, `try_acquire`: when an attempt on the lock of a site succeeds.
use web_scraping_event_appli.Prelude.{
  ℕ, ◌+◌, ◌*◌, ◌<◌, String, true, false, not, none, some, ◌==◌, ◌≡◌, ◌⊎◌, inl, inr, refl, arith,
  ◌&&◌, Bool-cases, Option-cases,
}
use web_scraping_event_appli.Scheduler.{
  Table, JobState, second, stale_lock_seconds, find, claim, lock_is_stale, get_or_create_state,
  try_acquire,
}
use web_scraping_event_appli.Scheduler.Rows.{find-update, find-get_or_create, find-get_or_create_ne}

-- With the lock held and fresh, an attempt changes nothing and gets nothing.
pub try_acquire_busy :
    (t : Table) (id : ℕ) (holder : String) (now : ℕ) (s : JobState)
    → find id t ≡ some s
    → s.running ≡ true
    → lock_is_stale s now stale_lock_seconds ≡ false
    → try_acquire t id holder now ≡ (t, none)
unfolding try_acquire get_or_create_state
try_acquire_busy t id holder now s found busy not_stale = ground arith

pub find-try_acquire_ne :
    (t : Table) (id j : ℕ) (holder : String) (now : ℕ)
    → (id == j) ≡ false
    → find j (try_acquire t id holder now).0 ≡ find j t
unfolding try_acquire
find-try_acquire_ne t id j holder now other = ground (
  arith,
  find-get_or_create_ne t id j other,
  find-update id j (claim holder now) (get_or_create_state t id).0 (λ s. refl),
)

-- The row of a website lets a run start: not paused, and no lock that is alive.
abbrev pub Free : ℕ → JobState → Type 0
Free now s =
    (s.paused ≡ false)
    × ((s.running ≡ false)
        ⊎ ((s.lock_heartbeat_at ≡ none)
            ⊎ ((b : ℕ) × (s.lock_heartbeat_at ≡ some b) × (b + stale_lock_seconds * second < now))))

Free→stale :
    (s : JobState) (now : ℕ)
    → Free now s
    → (s.paused ≡ false) × ((s.running && not (lock_is_stale s now stale_lock_seconds)) ≡ false)
unfolding lock_is_stale
Free→stale s now (p, inl idle) = ground arith
Free→stale s now (p, inr (inl never)) = ground arith
Free→stale s now (p, inr (inr (b, e, h))) = ground arith

-- A lock attempt succeeds when the row is free, and then the row names the new holder, is running
-- with a fresh heartbeat, and has no cancellation pending.
pub try_acquire-Free :
    (t : Table) (id : ℕ) (holder : String) (now : ℕ)
    → Free now (get_or_create_state t id).1
    → let s = claim holder now (get_or_create_state t id).1 in
      ((try_acquire t id holder now).1 ≡ some s)
      × (find id (try_acquire t id holder now).0 ≡ some s)
unfolding try_acquire
try_acquire-Free t id holder now free =
    let (unpaused, open_lock) = Free→stale (get_or_create_state t id).1 now free in
    ground (
      arith,
      unpaused,
      open_lock,
      find-get_or_create t id,
      find-update id id (claim holder now) (get_or_create_state t id).0 (λ s. refl),
    )

not-Free :
    (s : JobState) (now : ℕ)
    → (s.paused ≡ false)
    → (s.running && not (lock_is_stale s now stale_lock_seconds)) ≡ false
    → Free now s
unfolding lock_is_stale
not-Free s now p h = elim (Bool-cases s.running) [
  | inr idle ↦ (p, inl idle)
  | inl busy ↦ elim (Option-cases s.lock_heartbeat_at) [
    | inl never ↦ (p, inr (inl never))
    | inr (b, e) ↦ (p, inr (inr (b, e, ground arith)))
  ]
]

-- A lock attempt that succeeds found the row free; one that fails leaves the row as it was.
pub try_acquire_only-Free :
    (t : Table) (id : ℕ) (holder : String) (now : ℕ)
    → ((try_acquire t id holder now).1 ≡ none)
        × (find id (try_acquire t id holder now).0 ≡ some (get_or_create_state t id).1)
      ⊎ Free now (get_or_create_state t id).1
unfolding try_acquire
try_acquire_only-Free t id holder now =
    let s = (get_or_create_state t id).1 in
    elim (Bool-cases s.paused) [
      | inl p ↦ inl (rw p, rw p (find-get_or_create t id))
      | inr p ↦ elim (Bool-cases (s.running && not (lock_is_stale s now stale_lock_seconds))) [
        | inl b ↦ inl (ground arith, ground (arith, find-get_or_create t id))
        | inr b ↦ inr (not-Free s now p b)
      ]
    ]
