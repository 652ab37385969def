-- ===== src/Recurrence/Expand.antt =====
-- backend/app/extraction/recurrence.py: a rule expanded within its bounds, and the occurrences that
-- a source states laid over it.
use web_scraping_event_appli.Prelude.{
  ℕ, ◌+◌, String, str_eq, Bool, true, false, not, ◌&&◌, ◌||◌, Option, none, some, List, [], ◌∷◌,
  ◌++◌, any, is_empty, ltb, leb, ◌==◌, if◌then◌else◌, sort,
}
use web_scraping_event_appli.Recurrence.{
  Temporal, Moment, Mode, parent_only, explicit_occurrences, bounded_expand, RecurrenceOccurrence,
  RecurrenceSpec, RecurrenceBounds, ExpandedOccurrence, RecurrenceWarning, rule_too_long,
  occurrence_unparseable, subdaily_refused, rule_unparseable, truncated_per_parent,
  execution_budget_exceeded, Engine, Parent, is_before, moment, is_datetime, is_aware, date_of,
  time_of, day_end, non_blank, parse_iso_temporal, occurrence_from_source, parent_occurrence,
  duration, generated_occurrence,
}

pub record RecurrenceExpansion : Type 0 where
  pub occurrences : List ExpandedOccurrence
  pub warnings : List RecurrenceWarning
  pub truncated : Bool
  pub mode : Mode

-- The dict of generated occurrences, in the order of insertion.
abbrev pub Slots : Type 0
Slots = List (String × ExpandedOccurrence)

abbrev pub put : String → ExpandedOccurrence → Slots → Slots
put key occ [] = (key, occ) ∷ []
put key occ ((k, o) ∷ slots) =
    let rest = put key occ slots in if str_eq k key then (k, occ) ∷ slots else (k, o) ∷ rest

-- The first and the last instant of the window.
abbrev pub window_start : ℕ → Moment
window_start reference = record { day = reference; time = 0 }

abbrev pub window_end : RecurrenceBounds → ℕ → Moment
window_end bounds reference = record { day = reference + bounds.horizon_days; time = day_end }

abbrev pub is_within : RecurrenceBounds → ℕ → Moment → Bool
is_within bounds reference m =
    not (is_before m (window_start reference)) && not (is_before (window_end bounds reference) m)

abbrev pub Taken : Type 0
Taken = List Moment × List RecurrenceWarning

-- The loop over the instants of the rule, `taken` of them so far.
unfoldable pub take_instants :
    Engine → RecurrenceBounds → (reference taken : ℕ) → List Moment → Taken
take_instants g bounds reference taken [] = ([], [])
take_instants g bounds reference taken (m ∷ ms) =
    let skipped = take_instants g bounds reference taken ms in
    let (rest, warnings) = take_instants g bounds reference (taken + 1) ms in
    if is_before m (window_start reference)
    then skipped
    else if is_before (window_end bounds reference) m
    then ([], [])
    else if leb bounds.max_occurrences_per_parent (taken + 1)
    then (m ∷ [], truncated_per_parent ∷ [])
    else if g.is_over_time (taken + 1)
    then (m ∷ [], execution_budget_exceeded ∷ [])
    else (m ∷ rest, warnings)

abbrev pub add_extra : RecurrenceBounds → ℕ → Option Temporal → List Moment → List Moment
add_extra bounds reference none ms = ms
add_extra bounds reference (some t) ms =
    if is_within bounds reference (moment t) then moment t ∷ ms else ms

abbrev pub extra_instants : Engine → RecurrenceBounds → ℕ → List String → List Moment
extra_instants g bounds reference [] = []
extra_instants g bounds reference (d ∷ ds) =
    add_extra bounds reference (parse_iso_temporal g (some d))
      (extra_instants g bounds reference ds)

abbrev pub excluded_dates : Engine → List String → List ℕ
excluded_dates g [] = []
excluded_dates g (d ∷ ds) =
    let rest = excluded_dates g ds in
    elim (parse_iso_temporal g (some d)) [ none ↦ rest | some t ↦ date_of t ∷ rest ]

abbrev pub put_occurrence : ExpandedOccurrence → Slots → Slots
put_occurrence occ slots = put occ.identity occ slots

unfoldable pub generate : (Moment → ExpandedOccurrence) → List ℕ → List Moment → Slots → Slots
generate make excluded [] slots = slots
generate make excluded (m ∷ ms) slots =
    if any (λ d. d == m.day) excluded
    then generate make excluded ms slots
    else generate make excluded ms (put_occurrence (make m) slots)

abbrev pub parent_alone : Engine → Parent → RecurrenceSpec → Slots
parent_alone g p spec = put_occurrence (parent_occurrence g p spec) []

abbrev pub expanded_from :
    Engine → Parent → RecurrenceSpec → RecurrenceBounds → ℕ → Taken → Slots × List RecurrenceWarning
expanded_from g p spec bounds reference (instants, warnings) = (
  generate (generated_occurrence g p spec (duration p) (spec.all_day || not (is_datetime p.start)))
      (excluded_dates g spec.exdate) (instants ++ extra_instants g bounds reference spec.rdate) [],
  warnings,
)

abbrev pub expand_parsed :
    Engine
    → Parent
    → RecurrenceSpec
    → RecurrenceBounds
    → ℕ
    → Option (List Moment)
    → Slots × List RecurrenceWarning
expand_parsed g p spec bounds reference none = (parent_alone g p spec, rule_unparseable ∷ [])
expand_parsed g p spec bounds reference (some instants) =
    expanded_from g p spec bounds reference (take_instants g bounds reference 0 instants)

abbrev pub expand_given :
    Engine
    → Parent
    → RecurrenceSpec
    → RecurrenceBounds
    → ℕ
    → Option String
    → Slots × List RecurrenceWarning
expand_given g p spec bounds reference none =
    if is_empty spec.rdate
    then (parent_alone g p spec, [])
    else expanded_from g p spec bounds reference ([], [])
expand_given g p spec bounds reference (some rule) =
    if g.is_subdaily rule
    then (parent_alone g p spec, subdaily_refused ∷ [])
    else expand_parsed g p spec bounds reference (g.rrulestr rule (moment p.start))

unfoldable pub expand_rule :
    Engine → Parent → RecurrenceSpec → RecurrenceBounds → ℕ → Slots × List RecurrenceWarning
expand_rule g p spec bounds reference =
    expand_given g p spec bounds reference (non_blank spec.rrule)

abbrev pub is_aware_given : Option Temporal → Bool
is_aware_given none = false
is_aware_given (some t) = is_aware t

abbrev pub any_aware : Engine → List String → Bool
any_aware g [] = false
any_aware g (d ∷ ds) = is_aware_given (parse_iso_temporal g (some d)) || any_aware g ds

abbrev pub differ : Bool → Bool → Bool
differ true b = not b
differ false b = b

-- `end - start` of a naive and an aware datetime.
abbrev pub ends_differ : Parent → Bool
ends_differ p = elim p.ends [ none ↦ false | some e ↦ differ (is_aware p.start) (is_aware e) ]

-- An instant of the rule, which has the zone of the parent's start, or an explicit date is compared
-- with the naive window, or the duration is taken of mixed datetimes.
abbrev pub raises_from : Engine → Parent → RecurrenceSpec → List Moment → Bool
raises_from g p spec instants =
    is_aware p.start && not (is_empty instants) || (any_aware g spec.rdate || ends_differ p)

abbrev pub raises_parsed : Engine → Parent → RecurrenceSpec → Option (List Moment) → Bool
raises_parsed g p spec none = false
raises_parsed g p spec (some instants) = raises_from g p spec instants

abbrev pub raises_given : Engine → Parent → RecurrenceSpec → Option String → Bool
raises_given g p spec none = if is_empty spec.rdate then false else raises_from g p spec []
raises_given g p spec (some rule) =
    if g.is_subdaily rule then false else raises_parsed g p spec (g.rrulestr rule (moment p.start))

-- Whether `_expand_rule` raises a TypeError. What it has gathered by then is lost, so that the test
-- can stand before it.
unfoldable pub raises_type_error : Engine → Parent → RecurrenceSpec → Bool
raises_type_error g p spec = raises_given g p spec (non_blank spec.rrule)

-- The start that an occurrence replaces: its original one, if that is stated and can be read.
abbrev pub original : Engine → Option String → ExpandedOccurrence → ℕ × Option ℕ
original g none built = (built.start_date, built.start_time)
original g (some id) built = elim (g.from_iso id) [
  | none ↦ (built.start_date, built.start_time)
  | some t ↦ (date_of t, time_of t)
]

abbrev pub same_time : Option ℕ → Option ℕ → Bool
same_time none none = true
same_time (some a) (some b) = a == b
same_time _ _ = false

abbrev pub target_key : ℕ × Option ℕ → Slots → Option String
target_key at_start [] = none
target_key at_start ((k, o) ∷ slots) =
    let rest = target_key at_start slots in
    if (o.start_date == at_start.0) && same_time o.start_time at_start.1 then some k else rest

abbrev pub put_at : Option String → ExpandedOccurrence → Slots → Slots
put_at none built slots = put_occurrence built slots
put_at (some key) built slots = put key built slots

abbrev pub overlay_one : Engine → Option String → Option ExpandedOccurrence → Slots → Slots
overlay_one g recurrence_id none slots = slots
overlay_one g recurrence_id (some built) slots =
    put_at (target_key (original g (non_blank recurrence_id) built) slots) built slots

unfoldable pub overlay_explicit :
    Engine → Parent → RecurrenceSpec → List RecurrenceOccurrence → Slots → Slots
overlay_explicit g p spec [] slots = slots
overlay_explicit g p spec (occ ∷ occs) slots =
    overlay_explicit g p spec occs
      (overlay_one g occ.recurrence_id (occurrence_from_source g p spec occ) slots)

abbrev pub occurrences_of : Slots → List ExpandedOccurrence
occurrences_of [] = []
occurrences_of ((k, o) ∷ slots) = o ∷ occurrences_of slots

abbrev pub clock_of : Option ℕ → ℕ
clock_of none = 0
clock_of (some t) = t

-- `key=lambda o: (o.start_date, o.start_time or time.min)`.
abbrev pub starts_before : ExpandedOccurrence → ExpandedOccurrence → Bool
starts_before a b =
    is_before (record { day = a.start_date; time = clock_of a.start_time })
      (record { day = b.start_date; time = clock_of b.start_time })

unfoldable pub apply_explicit :
    Engine
    → Parent
    → RecurrenceSpec
    → List RecurrenceOccurrence
    → List ExpandedOccurrence × List RecurrenceWarning
apply_explicit g p spec [] = ([], [])
apply_explicit g p spec (occ ∷ occs) =
    let (built, warnings) = apply_explicit g p spec occs in
    elim (occurrence_from_source g p spec occ) [
      | none ↦ (built, occurrence_unparseable ∷ warnings)
      | some o ↦ (o ∷ built, warnings)
    ]

abbrev pub is_too_long : Engine → RecurrenceBounds → Option String → Bool
is_too_long g bounds none = false
is_too_long g bounds (some rule) = ltb bounds.max_rule_length (g.len rule)

abbrev pub is_cut : List RecurrenceWarning → Bool
is_cut [] = false
is_cut (truncated_per_parent ∷ ws) = true
is_cut (execution_budget_exceeded ∷ ws) = true
is_cut (w ∷ ws) = is_cut ws

abbrev pub expand_bounded :
    Engine → Parent → RecurrenceSpec → RecurrenceBounds → ℕ → RecurrenceExpansion
expand_bounded g p spec bounds reference =
    let (slots, warnings) = expand_rule g p spec bounds reference in
    record {
      occurrences =
          sort starts_before (occurrences_of (overlay_explicit g p spec spec.occurrences slots));
      warnings = warnings;
      truncated = is_cut warnings;
      mode = bounded_expand;
    }

abbrev pub expand_in :
    Engine → Parent → RecurrenceSpec → RecurrenceBounds → ℕ → Mode → Option RecurrenceExpansion
expand_in g p spec bounds reference parent_only = some (record {
  occurrences = parent_occurrence g p spec ∷ [];
  warnings = [];
  truncated = false;
  mode = parent_only;
})
expand_in g p spec bounds reference explicit_occurrences =
    let (built, warnings) = apply_explicit g p spec spec.occurrences in
    some (record {
      occurrences = built;
      warnings = warnings;
      truncated = false;
      mode = explicit_occurrences;
    })
expand_in g p spec bounds reference bounded_expand =
    if is_too_long g bounds (non_blank spec.rrule)
    then some (record {
      occurrences = parent_occurrence g p spec ∷ [];
      warnings = rule_too_long ∷ [];
      truncated = false;
      mode = bounded_expand;
    })
    else if raises_type_error g p spec
    then none
    else some (expand_bounded g p spec bounds reference)

-- No result is an exception, which the callers do not catch.
unfoldable pub expand_recurrence :
    Engine
    → Parent
    → RecurrenceSpec
    → RecurrenceBounds
    → (reference : ℕ) → Option RecurrenceExpansion
expand_recurrence g p spec bounds reference = expand_in g p spec bounds reference spec.mode
