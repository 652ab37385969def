-- ===== src/Result.antt =====
-- backend/app/core/exceptions.py: an operation gives a value or raises an `AppError`.
use web_scraping_event_appli.Prelude.{ℕ, String, Bool, true, false}
use web_scraping_event_appli.Onboarding.{Status}

-- The message texts, told apart by constructor.
pub data Refusal : Type 0 where
  illegal_transition : (from to : Status) → Refusal
  not_approved no_active_city no_draft archived_website no_preview stale_preview : Refusal
  preview_failed browser_unsupported empty_reason : Refusal
  unknown_pattern : String → Refusal
  selection_not_allowed : Status → Refusal
  -- pydantic's ValidationError, which is no AppError.
  invalid_configuration : Refusal

pub data Result {ℓ} (A : Type ℓ) : Type ℓ where
  ok : A → Result A
  err : (status_code : ℕ) → Refusal → Result A

infixl 5 ◌>>=◌ ◌>>◌
abbrev pub ◌>>=◌ {ℓ κ} : {A : Type ℓ} {B : Type κ} → Result A → (A → Result B) → Result B
ok a >>= f = f a
err n e >>= f = err n e

abbrev pub ◌>>◌ {ℓ} : {B : Type ℓ} → Result (Unit {0}) → Result B → Result B
m >> k = m >>= λ _. k

-- `if failed: raise AppError(refusal, status_code=n)`.
abbrev pub raise_if : Bool → ℕ → Refusal → Result (Unit {0})
raise_if true n e = err n e
raise_if false n e = ok tt
