-- ===== src/Scheduler/Leader.antt =====
-- backend/app/services/scheduler.py: the leader row, and the health summary.
use web_scraping_event_appli.Prelude.{
  ℕ, ◌+◌, ◌-◌, ◌*◌, ◌≤◌, String, str_eq, eq_iff, Bool, true, false, not, ◌||◌, Option, none, some,
  List, [], ◌∷◌, if◌then◌else◌, select, length, All, leb, ◌≡◌, ◌≢◌, ◌↔◌, refl, arith,
}
use web_scraping_event_appli.Scheduler.{Table, second, stale_leader_seconds, older_than}

-- The single row, and None before the first claim.
pub record Leader : Type 0 where
  pub holder : String
  pub heartbeat_at : ℕ

unfoldable pub try_become_leader : Option Leader → String → ℕ → Option Leader × Bool
try_become_leader none holder now = (some (record { holder = holder; heartbeat_at = now }), true)
try_become_leader (some l) holder now =
    if str_eq l.holder holder || older_than stale_leader_seconds now l.heartbeat_at
    then (some (record { holder = holder; heartbeat_at = now }), true)
    else (some l, false)

unfoldable pub leader_heartbeat : Option Leader → String → ℕ → Option Leader × Bool
leader_heartbeat none holder now = (none, false)
leader_heartbeat (some l) holder now =
    if not (str_eq l.holder holder)
    then (some l, false)
    else (some (record l { heartbeat_at = now }), true)

pub record SchedulerHealth : Type 0 where
  pub leader_holder : Option String
  pub leader_heartbeat_at : Option ℕ
  pub leader_is_fresh : Bool
  pub scheduled_count : ℕ
  pub running_count : ℕ
  pub paused_count : ℕ

unfoldable pub scheduler_health : Option Leader → Table → ℕ → SchedulerHealth
scheduler_health leader states now = record {
  leader_holder = elim leader [ none ↦ none | some l ↦ some l.holder ];
  leader_heartbeat_at = elim leader [ none ↦ none | some l ↦ some l.heartbeat_at ];
  leader_is_fresh = elim leader [
    | none ↦ false
    | some l ↦ leb (now - l.heartbeat_at) (stale_leader_seconds * second)
  ];
  scheduled_count = length (select (λ s. not s.paused) states);
  running_count = length (select (λ s. s.running) states);
  paused_count = length (select (λ s. s.paused) states);
}

-- A call by some process: at start-up and in every loop it claims or beats.
pub data Call : Type 0 where
  claim beat : (holder : String) (now : ℕ) → Call

abbrev pub perform : Call → Option Leader → Option Leader × Bool
perform (claim holder now) l = try_become_leader l holder now
perform (beat holder now) l = leader_heartbeat l holder now

abbrev pub caller : Call → String
caller (claim holder now) = holder
caller (beat holder now) = holder

abbrev pub called_at : Call → ℕ
called_at (claim holder now) = now
called_at (beat holder now) = now

-- The results of a sequence of calls, and the row that they leave.
pub perform_all : List Call → Option Leader → Option Leader × List Bool
perform_all [] l = (l, [])
perform_all (c ∷ cs) l =
    let (l', ok) = perform c l in let (end, oks) = perform_all cs l' in (end, ok ∷ oks)

abbrev Rival : Leader → Call → Type 0
Rival l c = (l.holder ≢ caller c) × (called_at c ≤ l.heartbeat_at + stale_leader_seconds * second)

Rival-refused : (l : Leader) (c : Call) → Rival l c → perform c (some l) ≡ (some l, false)
unfolding try_become_leader leader_heartbeat
Rival-refused l (claim holder now) (other, soon) = ground (arith, eq_iff l.holder holder)
Rival-refused l (beat holder now) (other, soon) = ground (arith, eq_iff l.holder holder)

-- While the leader's heartbeat is within the limit, every call of another process is refused, in
-- any number and order, and the leader row stays as it is.
pub leader_exclusive :
    (l : Leader) (cs : List Call)
    → All (Rival l) cs
    → ((perform_all cs (some l)).0 ≡ some l) × All (λ ok. ok ≡ false) (perform_all cs (some l)).1
unfolding perform_all
leader_exclusive l [] h = (refl, tt)
leader_exclusive l (c ∷ cs) (r, h) =
    let (kept, refused) = leader_exclusive l cs h in
    rw (Rival-refused l c r) (kept, (refl, refused))

-- A process that the health page calls fresh is one that no rival can displace at that moment.
pub health_fresh_iff :
    (l : Leader) (states : Table) (now : ℕ) (rival : String)
    → rival ≢ l.holder
    → ((scheduler_health (some l) states now).leader_is_fresh ≡ true)
      ↔ ((try_become_leader (some l) rival now).1 ≡ false)
unfolding scheduler_health try_become_leader
health_fresh_iff l states now rival other =
    (λ h. ground (arith, eq_iff l.holder rival), λ h. ground (arith, eq_iff l.holder rival))
