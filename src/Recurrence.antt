-- ===== src/Recurrence.antt =====
-- backend/app/extraction/recurrence.py: the occurrences of a recurring event. A date is a number of
-- days since 1970 and a time a number of microseconds in the day; of a time zone only its presence
-- counts, as the code drops it. The reading of ISO texts, the rule
-- engine, the texts of keys and the clock are given.
pub mod Expand
pub mod Zones
pub mod Bounds
pub mod Window
pub mod Run
pub mod Budget
use web_scraping_event_appli.Prelude.{
  ℕ, zero, suc, ◌+◌, ◌-◌, ◌*◌, ◌/◌, ◌%◌, String, str_eq, Bool, true, false, not, ◌&&◌, ◌||◌, Option,
  none, some, List, [], ◌∷◌, ◌++◌, any, is_empty, ltb, leb, ◌==◌, if◌then◌else◌,
}
use web_scraping_event_appli.Json.{is_some}

pub data Temporal : Type 0 where
  on_day : (day : ℕ) → Temporal
  at_time : (day time : ℕ) (is_aware : Bool) → Temporal

pub record Moment : Type 0 where
  pub day : ℕ
  pub time : ℕ

abbrev pub is_before : Moment → Moment → Bool
is_before a b = ltb a.day b.day || ((a.day == b.day) && ltb a.time b.time)

-- `datetime.combine(value, time.min)` of a date.
abbrev pub moment : Temporal → Moment
moment (on_day d) = record { day = d; time = 0 }
moment (at_time d t z) = record { day = d; time = t }

abbrev pub is_datetime : Temporal → Bool
is_datetime (on_day d) = false
is_datetime (at_time d t z) = true

-- Whether a datetime has a time zone; one made of a date has none.
abbrev pub is_aware : Temporal → Bool
is_aware (on_day d) = false
is_aware (at_time d t z) = z

abbrev pub date_of : Temporal → ℕ
date_of t = (moment t).day

-- The time that `_split` gives beside the date.
abbrev pub time_of : Temporal → Option ℕ
time_of (on_day d) = none
time_of (at_time d t z) = some t

abbrev pub day_length : ℕ
day_length = 86400 * 1000000

abbrev pub day_end : ℕ
day_end = 86400 * 1000000 - 1

pub data Mode : Type 0 where
  parent_only explicit_occurrences bounded_expand : Mode

pub record RecurrenceOccurrence : Type 0 where
  pub start : Option String
  pub ends : Option String
  pub source_occurrence_id : Option String
  pub recurrence_id : Option String
  pub all_day : Bool
  pub cancelled : Bool
  pub title : Option String

pub record RecurrenceSpec : Type 0 where
  pub mode : Mode
  pub source_parent_id : Option String
  pub rrule : Option String
  pub rdate : List String
  pub exdate : List String
  pub all_day : Bool
  pub occurrences : List RecurrenceOccurrence

pub record RecurrenceBounds : Type 0 where
  pub max_occurrences_per_parent : ℕ
  pub max_occurrences_per_run : ℕ
  pub horizon_days : ℕ
  pub max_rule_length : ℕ

pub record ExpandedOccurrence : Type 0 where
  pub identity : String
  pub start_date : ℕ
  pub start_time : Option ℕ
  pub end_date : Option ℕ
  pub end_time : Option ℕ
  pub all_day : Bool
  pub cancelled : Bool
  pub detached : Bool
  pub source_occurrence_id : Option String
  pub title : Option String

pub data RecurrenceWarning : Type 0 where
  rule_too_long occurrence_unparseable subdaily_refused rule_unparseable : RecurrenceWarning
  truncated_per_parent execution_budget_exceeded : RecurrenceWarning

-- `fromisoformat` of a text, `len`, `isoformat`, the keys of `occurrence_identity` with the bounded
-- fallback, whether a rule is finer than daily, and `rrulestr`: the instants of a rule in the order
-- of its iterator, which is lazy, so that they need to go no further than one beyond the horizon.
-- `is_over_time` says whether the time budget is spent after so many instants.
pub record Engine : Type 0 where
  pub from_iso : String → Option Temporal
  pub len : String → ℕ
  pub iso : ℕ → String
  pub source_key : String → String
  pub parent_key : String → String → String
  pub fingerprint_key : String → String → String
  pub is_subdaily : String → Bool
  pub rrulestr : String → Moment → Option (List Moment)
  pub is_over_time : ℕ → Bool

-- The parent event.
pub record Parent : Type 0 where
  pub start : Temporal
  pub ends : Option Temporal
  pub fingerprint : String

abbrev pub non_blank : Option String → Option String
non_blank none = none
non_blank (some s) = if str_eq s "" then none else some s

abbrev pub parse_given : Engine → Option String → Option Temporal
parse_given g none = none
parse_given g (some s) = g.from_iso s

unfoldable pub parse_iso_temporal : Engine → Option String → Option Temporal
parse_iso_temporal g text = parse_given g (non_blank text)

abbrev pub parent_identity : Engine → String → ℕ → Option String → Option String → String
parent_identity g fingerprint day (some parent) (some recurrence_id) =
    g.parent_key parent recurrence_id
parent_identity g fingerprint day _ _ = g.fingerprint_key fingerprint (g.iso day)

abbrev pub identity_with :
    Engine → String → ℕ → Option String → Option String → Option String → String
identity_with g fingerprint day parent (some occurrence) recurrence_id = g.source_key occurrence
identity_with g fingerprint day parent none recurrence_id =
    parent_identity g fingerprint day parent recurrence_id

unfoldable pub occurrence_identity :
    Engine
    → (parent_fingerprint : String)
    → (source_parent_id source_occurrence_id recurrence_id : Option String) → (start : ℕ) → String
occurrence_identity g fingerprint parent occurrence recurrence_id day =
    identity_with g fingerprint day (non_blank parent) (non_blank occurrence)
      (non_blank recurrence_id)

abbrev pub unless_all_day : Bool → Option ℕ → Option ℕ
unless_all_day all_day t = if all_day then none else t

abbrev pub end_date_of : Option Temporal → Option ℕ
end_date_of none = none
end_date_of (some t) = some (date_of t)

abbrev pub end_time_of : Option Temporal → Option ℕ
end_time_of none = none
end_time_of (some t) = time_of t

abbrev pub built_from :
    Engine → Parent → RecurrenceSpec → RecurrenceOccurrence → Temporal → ExpandedOccurrence
built_from g p spec occ start =
    let ends = parse_iso_temporal g occ.ends in
    record {
      identity =
          occurrence_identity g p.fingerprint spec.source_parent_id occ.source_occurrence_id
            occ.recurrence_id (date_of start);
      start_date = date_of start;
      start_time = unless_all_day occ.all_day (time_of start);
      end_date = end_date_of ends;
      end_time = unless_all_day occ.all_day (end_time_of ends);
      all_day = occ.all_day;
      cancelled = occ.cancelled;
      detached = is_some occ.recurrence_id;
      source_occurrence_id = occ.source_occurrence_id;
      title = occ.title;
    }

unfoldable pub occurrence_from_source :
    Engine → Parent → RecurrenceSpec → RecurrenceOccurrence → Option ExpandedOccurrence
occurrence_from_source g p spec occ = elim (parse_iso_temporal g occ.start) [
  | none ↦ none
  | some start ↦ some (built_from g p spec occ start)
]

unfoldable pub parent_occurrence : Engine → Parent → RecurrenceSpec → ExpandedOccurrence
parent_occurrence g p spec = record {
  identity = occurrence_identity g p.fingerprint spec.source_parent_id none none (date_of p.start);
  start_date = date_of p.start;
  start_time = unless_all_day spec.all_day (time_of p.start);
  end_date = end_date_of p.ends;
  end_time = unless_all_day spec.all_day (end_time_of p.ends);
  all_day = spec.all_day;
  cancelled = false;
  detached = false;
  source_occurrence_id = none;
  title = none;
}

-- Microseconds since 1970.
abbrev pub instant_of : Moment → ℕ
instant_of m = m.day * day_length + m.time

abbrev pub duration_to : Moment → Moment → Option ℕ
duration_to start ends =
    if leb (instant_of start) (instant_of ends)
    then some (instant_of ends - instant_of start)
    else none

unfoldable pub duration : Parent → Option ℕ
duration p = elim p.ends [ none ↦ none | some e ↦ duration_to (moment p.start) (moment e) ]

abbrev pub end_day : Moment → Option ℕ → Option ℕ
end_day m none = none
end_day m (some d) = some ((instant_of m + d) / day_length)

abbrev pub end_clock : Moment → Option ℕ → Option ℕ
end_clock m none = none
end_clock m (some d) = some ((instant_of m + d) % day_length)

unfoldable pub generated_occurrence :
    Engine
    → Parent
    → RecurrenceSpec
    → (duration : Option ℕ) (all_day : Bool) → Moment
    → ExpandedOccurrence
generated_occurrence g p spec duration all_day m = record {
  identity = occurrence_identity g p.fingerprint spec.source_parent_id none none m.day;
  start_date = m.day;
  start_time = unless_all_day all_day (some m.time);
  end_date = end_day m duration;
  end_time = unless_all_day all_day (end_clock m duration);
  all_day = all_day;
  cancelled = false;
  detached = false;
  source_occurrence_id = none;
  title = none;
}
