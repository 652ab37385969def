-- ===== src/RateLimit/Window.antt =====
-- The sliding window holds the limit.
use web_scraping_event_appli.Prelude.{
  ℕ, ◌+◌, ◌≤◌, ◌<◌, String, str_eq, eq_refl, Bool, true, false, List, [], ◌∷◌, ◌++◌, if◌then◌else◌,
  select, length, length-append, length-select-le, ltb, ◌≡◌, refl, ◌∙◌, ap, subst, arith,
}
use web_scraping_event_appli.RateLimit.{Attempts, is_recent, allow_times, allow, count}

-- Calls for one key at these times, with the times of the admitted ones.
abbrev pub Log : Type 0
Log = List ℕ × List ℕ

abbrev pub log_if : Bool → ℕ → List ℕ → List ℕ
log_if true now log = log ++ now ∷ []
log_if false now log = log

abbrev pub call : (limit window : ℕ) → ℕ → Log → Log
call limit window now (times, log) =
    let (ok, times') = allow_times limit window now times in (times', log_if ok now log)

abbrev pub call_all : (limit window : ℕ) → List ℕ → Log → Log
call_all limit window [] state = state
call_all limit window (now ∷ nows) state = call_all limit window nows (call limit window now state)

-- The times do not go back, from a first one on, and the last of them.
abbrev pub Ascending : ℕ → List ℕ → Type 0
Ascending last [] = Unit
Ascending last (now ∷ nows) = (last ≤ now) × Ascending now nows

abbrev pub last_time : ℕ → List ℕ → ℕ
last_time last [] = last
last_time last (now ∷ nows) = last_time now nows

module _ (limit window : ℕ) where
  recent_twice :
      (last now : ℕ) (log : List ℕ)
      → last ≤ now
      → select (is_recent window now) (select (is_recent window last) log)
        ≡ select (is_recent window now) log
  recent_twice last now [] h = refl
  recent_twice last now (t ∷ log) h = ground (arith, recent_twice last now log h)

  recent_append :
      (now : ℕ) (log : List ℕ)
      → 0 < window
      → select (is_recent window now) (log ++ now ∷ [])
        ≡ select (is_recent window now) log ++ now ∷ []
  recent_append now [] h = ground arith
  recent_append now (t ∷ log) h = ground (arith, recent_append now log h)

  -- The kept times are the admitted ones of the window, and no more than the limit.
  pub record Tracks (last : ℕ) (state : Log) : Type 0 where
    pub window_times : state.0 ≡ select (is_recent window last) state.1
    pub bounded : length state.0 ≤ limit

  call-Tracks :
      (last now : ℕ) (state : Log)
      → 0 < window
      → last ≤ now
      → Tracks last state
      → Tracks now (call limit window now state)
  unfolding allow_times
  call-Tracks last now (times, log) w h k =
      let twice = ap (select (is_recent window now)) k.window_times ∙ recent_twice last now log h in
      let appended = recent_append now log w in
      record {
        window_times = ground (arith, twice, appended);
        bounded = ground (
          arith,
          k.bounded,
          length-select-le (is_recent window now) times,
          length-append (select (is_recent window now) times) (now ∷ []),
        );
      }

  call_all-Tracks :
      (last : ℕ) (nows : List ℕ) (state : Log)
      → 0 < window
      → Ascending last nows
      → Tracks last state
      → Tracks (last_time last nows) (call_all limit window nows state)
  call_all-Tracks last [] state w up k = k
  call_all-Tracks last (now ∷ nows) state w (h, up) k =
      call_all-Tracks now nows _ w up (call-Tracks last now state w h k)

  -- However the calls of one key fall, as long as the clock does not go back and the window is not
  -- empty: of the attempts that were admitted, no more than the limit lie in the window that ends
  -- at the last call.
  pub admitted_within_limit :
      (nows : List ℕ)
      → 0 < window
      → Ascending 0 nows
      → length
          (select (is_recent window (last_time 0 nows)) (call_all limit window nows ([], [])).1)
        ≤ limit
  admitted_within_limit nows w up =
      let tracked =
        call_all-Tracks 0 nows ([], []) w up
          (record { window_times = refl; bounded = omega arith }) in
      subst (λ times. length times ≤ limit) tracked.window_times tracked.bounded

recent_again :
    (window now : ℕ) (times : List ℕ)
    → select (is_recent window now) (select (is_recent window now) times)
      ≡ select (is_recent window now) times
recent_again window now times = recent_twice 0 window now now times (omega arith)

-- For a window that is not empty: an attempt is admitted exactly if fewer than the limit are
-- counted for its key, the key's count then goes up by one if it was admitted and stays otherwise,
-- and no other key changes.
pub allow-count :
    (limit window now : ℕ) (key : String) (attempts : Attempts)
    → 0 < window
    → let (ok, attempts') = allow limit window now key attempts in
      (ok ≡ ltb (count window now key attempts) limit)
      × (count window now key attempts' ≡ count window now key attempts + (if ok then 1 else 0))
      × ((other : String) → str_eq other key ≡ false → attempts' other ≡ attempts other)
unfolding allow allow_times count
allow-count limit window now key attempts w = (
  ground arith,
  ground (
    arith,
    eq_refl key,
    recent_again window now (attempts key),
    recent_append limit window now (select (is_recent window now) (attempts key)) w,
    length-append (select (is_recent window now) (attempts key)) (now ∷ []),
  ),
  λ other h. ground (arith, h),
)
