-- ===== src/Schedule/Backoff.antt =====
-- schemas/schedule.py: the back-off between the attempts of a run.
use native.Mathlib.Nat.{one-le-mul, one-le-pow, mul_left_comm}
use web_scraping_event_appli.Prelude.{
  ℕ, suc, ◌-◌, ◌*◌, ◌^◌, ◌≤◌, ◌≡◌, ap, ◌∙◌, arith, if◌then◌else◌, ltb,
}
use web_scraping_event_appli.Schedule.{ScheduleConfig, InBounds, smaller, backoff_for_attempt}

pow-suc : (k : ℕ) → 2 ^ suc k ≡ 2 * 2 ^ k
pow-suc k = omega arith

doubled : (a k : ℕ) → a * 2 ^ suc k ≡ 2 * (a * 2 ^ k)
doubled a k = ap (λ p. a * p) (pow-suc k) ∙ mul_left_comm a 2 (2 ^ k)

-- With a schedule within its bounds: the wait after an attempt is at least a second and at most the
-- configured maximum, and each further attempt doubles it up to that maximum.
pub backoff_bounds :
    (c : ScheduleConfig) (attempt : ℕ)
    → InBounds c
    → (1 ≤ backoff_for_attempt c attempt)
      × (backoff_for_attempt c attempt ≤ c.retry_backoff_max_seconds)
      × (backoff_for_attempt c (suc (suc attempt))
          ≡ smaller (2 * backoff_for_attempt c (suc attempt)) c.retry_backoff_max_seconds)
unfolding backoff_for_attempt
backoff_bounds c attempt b =
    let k = (if ltb attempt 1 then 1 else attempt) - 1 in
    let positive = one-le-mul b.backoff_floor (one-le-pow k 2 (omega arith)) in
    (
      ground (arith, positive, b.backoff_max_floor),
      ground arith,
      ground (arith, doubled c.retry_backoff_seconds attempt),
    )
