-- ===== src/Schedule.antt =====
-- backend/app/schemas/schedule.py: the validated schedule of a source.
pub mod Backoff
use web_scraping_event_appli.Prelude.{ℕ, ◌-◌, ◌*◌, ◌^◌, ◌≤◌, Bool, ltb, if◌then◌else◌}

pub record ScheduleConfig : Type 0 where
  pub enabled : Bool
  pub interval_minutes : ℕ
  pub jitter_seconds : ℕ
  pub max_retries : ℕ
  pub retry_backoff_seconds : ℕ
  pub retry_backoff_max_seconds : ℕ

-- The `Field` bounds, which `model_validate` enforces.
pub record InBounds (c : ScheduleConfig) : Type 0 where
  pub interval_floor : 15 ≤ c.interval_minutes
  pub interval_ceiling : c.interval_minutes ≤ 60 * 24 * 30
  pub jitter_ceiling : c.jitter_seconds ≤ 3600
  pub retries_ceiling : c.max_retries ≤ 5
  pub backoff_floor : 1 ≤ c.retry_backoff_seconds
  pub backoff_ceiling : c.retry_backoff_seconds ≤ 3600
  pub backoff_max_floor : 1 ≤ c.retry_backoff_max_seconds
  pub backoff_max_ceiling : c.retry_backoff_max_seconds ≤ 86400

abbrev pub smaller : ℕ → ℕ → ℕ
smaller a b = if ltb b a then b else a

unfoldable pub backoff_for_attempt : ScheduleConfig → ℕ → ℕ
backoff_for_attempt c attempt =
    let k = if ltb attempt 1 then 1 else attempt in
    smaller (c.retry_backoff_seconds * 2 ^ (k - 1)) c.retry_backoff_max_seconds
