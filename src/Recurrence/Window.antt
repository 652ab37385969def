-- ===== src/Recurrence/Window.antt =====
-- Every occurrence that extraction/recurrence.py expands in the bounded mode has a reason, and they
-- are not too many.
use web_scraping_event_appli.Prelude.{
  ℕ, ◌+◌, ◌≤◌, true, false, not, ◌||◌, Option, none, some, any, length, ◌==◌, All, In, ◌≡◌, ◌⊎◌,
  if◌then◌else◌,
}
use web_scraping_event_appli.Recurrence.{
  Moment, RecurrenceSpec, RecurrenceBounds, ExpandedOccurrence, RecurrenceOccurrence, Engine,
  Parent, Temporal, date_of, parse_iso_temporal, is_datetime, occurrence_from_source,
  parent_occurrence, duration, generated_occurrence,
}
use web_scraping_event_appli.Recurrence.Expand.{
  RecurrenceExpansion, Slots, is_within, excluded_dates, occurrences_of,
}
use web_scraping_event_appli.Recurrence.Zones.{MixesZones}
use web_scraping_event_appli.Recurrence.Bounds.{Every}

module _ (g : Engine) (p : Parent) (spec : RecurrenceSpec) (bounds : RecurrenceBounds)
    (reference : ℕ) where
  abbrev make : Moment → ExpandedOccurrence
  make = generated_occurrence g p spec (duration p) (spec.all_day || not (is_datetime p.start))

  -- Generated at an instant of the window on a date that is not excluded: its date is the instant's,
  -- from the reference date to the last day of the horizon, and its time that of the instant, unless
  -- the event takes all day.
  pub record IsGenerated (o : ExpandedOccurrence) : Type 0 where
    pub instant : Moment
    pub within : is_within bounds reference instant ≡ true
    pub made : o ≡ make instant
    pub on_day : o.start_date ≡ instant.day
    pub at_clock :
        o.start_time
        ≡ (if spec.all_day || not (is_datetime p.start) then none else some instant.time)
    pub not_before : reference ≤ o.start_date
    pub not_after : o.start_date ≤ reference + bounds.horizon_days
    pub not_excluded : any (λ d. d == o.start_date) (excluded_dates g spec.exdate) ≡ false
    pub not_cancelled : o.cancelled ≡ false
    pub generated : o.detached ≡ false

  -- Built from an occurrence that the source states.
  pub record IsStated (o : ExpandedOccurrence) : Type 0 where
    pub stated : RecurrenceOccurrence
    pub listed : In stated spec.occurrences
    pub built : occurrence_from_source g p spec stated ≡ some o
    pub start : Temporal
    pub read : parse_iso_temporal g stated.start ≡ some start
    pub on_day : o.start_date ≡ date_of start
    pub same_cancelled : o.cancelled ≡ stated.cancelled
    pub same_title : o.title ≡ stated.title

  abbrev pub IsJustified : ExpandedOccurrence → Type 0
  IsJustified o = IsGenerated o ⊎ (IsStated o ⊎ (o ≡ parent_occurrence g p spec))

  -- The slots of the rule.
  abbrev IsFilled : Slots → Type 0
  IsFilled slots =
      Every IsJustified slots
      × (length (occurrences_of slots) ≤ bounds.max_occurrences_per_parent + length spec.rdate)

  -- Every occurrence is justified, and they are no more than the allowed ones, the explicit dates
  -- and the stated occurrences.
  abbrev pub IsBounded : RecurrenceExpansion → Type 0
  IsBounded r =
      All IsJustified r.occurrences
      × (length r.occurrences
          ≤ bounds.max_occurrences_per_parent + length spec.rdate + length spec.occurrences)

  -- The expansion has raised, for the given reason, or is bounded.
  abbrev pub IsExpanded : Option RecurrenceExpansion → Type 0
  IsExpanded none = MixesZones g p spec
  IsExpanded (some r) = IsBounded r
