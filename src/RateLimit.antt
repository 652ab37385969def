-- ===== src/RateLimit.antt =====
-- backend/app/services/rate_limit.py: the sliding window in memory, the fixed window in Redis, and
-- the limit on sign-in starts. Times are ticks of the monotonic clock, windows are in ticks.
pub mod Window
use Prim.Native.String.{◌++◌ as text_append}
use web_scraping_event_appli.Prelude.{
  ℕ, ◌+◌, ◌-◌, ◌*◌, String, str_eq, Bool, true, false, not, Option, none, some, List, [], ◌∷◌, ◌++◌,
  if◌then◌else◌, select, length, ltb, leb, ◌==◌,
}

-- `_attempts_by_ip`: a key that is not there has no attempts.
abbrev pub Attempts : Type 0
Attempts = String → List ℕ

abbrev pub write : String → List ℕ → Attempts → Attempts
write key times attempts k = if str_eq k key then times else attempts k

abbrev pub is_recent : (window now : ℕ) → ℕ → Bool
is_recent window now t = ltb (now - t) window

unfoldable pub allow_times : (limit window now : ℕ) → List ℕ → Bool × List ℕ
allow_times limit window now times =
    let recent = select (is_recent window now) times in
    if leb limit (length recent) then (false, recent) else (true, recent ++ now ∷ [])

unfoldable pub allow : (limit window now : ℕ) → String → Attempts → Bool × Attempts
unfolding allow_times
allow limit window now key attempts =
    let (ok, times) = allow_times limit window now (attempts key) in (ok, write key times attempts)

unfoldable pub count : (window now : ℕ) → String → Attempts → ℕ
count window now key attempts = length (select (is_recent window now) (attempts key))

unfoldable pub reset : String → Attempts → Attempts
reset key attempts = write key [] attempts

-- `sign_in_start_allowed`, for the in-memory backend.
abbrev pub sign_in_window_seconds : ℕ
sign_in_window_seconds = 900

unfoldable pub sign_in_start_allowed :
    (limit second now : ℕ) → Option String → Attempts → Bool × Attempts
sign_in_start_allowed limit second now none attempts = (true, attempts)
sign_in_start_allowed limit second now (some ip) attempts =
    if str_eq ip ""
    then (true, attempts)
    else allow limit (sign_in_window_seconds * second) now (text_append "sign-in-start:" ip)
        attempts
