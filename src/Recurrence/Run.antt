-- ===== src/Recurrence/Run.antt =====
-- backend/app/extraction/recurrence.py: the expansion of all candidates of a run. What the raw record
-- of a candidate says of its recurrence is given as it is read.
use web_scraping_event_appli.Prelude.{
  ℕ, ◌+◌, String, Bool, true, false, not, ◌&&◌, ◌||◌, Option, none, some, List, [], ◌∷◌, ◌++◌,
  is_empty, leb, if◌then◌else◌,
}
use web_scraping_event_appli.Json.{is_some}
use web_scraping_event_appli.Events.{EventCandidate}
use web_scraping_event_appli.Recurrence.{
  Temporal, on_day, at_time, Mode, parent_only, explicit_occurrences, RecurrenceOccurrence,
  RecurrenceSpec, RecurrenceBounds, ExpandedOccurrence, Engine, non_blank,
}
use web_scraping_event_appli.Recurrence.Expand.{RecurrenceExpansion, expand_recurrence}

-- `rec`, with the occurrences that can be read.
pub record RawRecurrence : Type 0 where
  pub source_parent_id : Option String
  pub recurrence_id : Option String
  pub rrule : Option String
  pub rdate : List String
  pub exdate : List String
  pub all_day : Bool
  pub has_occurrences : Bool
  pub occurrences : List RecurrenceOccurrence

-- `occurrence_dates` are the ISO dates that `_occurrence_rdates` reads.
pub record Candidate : Type 0 where
  pub event : EventCandidate
  pub raw_record_hash : String
  pub recurrence : Option RawRecurrence
  pub occurrence_dates : List String
  -- Whether the times were read with an offset.
  pub start_is_aware : Bool
  pub end_is_aware : Bool

abbrev pub no_recurrence : RawRecurrence
no_recurrence = record {
  source_parent_id = none;
  recurrence_id = none;
  rrule = none;
  rdate = [];
  exdate = [];
  all_day = false;
  has_occurrences = false;
  occurrences = [];
}

abbrev pub has_rule : Option RawRecurrence → Bool
has_rule none = false
has_rule (some rec) = is_some (non_blank rec.rrule)

abbrev pub or_none : Option RawRecurrence → RawRecurrence
or_none none = no_recurrence
or_none (some rec) = rec

-- A list of dates counts as explicit dates unless there is a rule.
abbrev pub with_dates : Candidate → Option RawRecurrence
with_dates c =
    if not (has_rule c.recurrence) && not (is_empty c.occurrence_dates)
    then some (record (or_none c.recurrence) { rdate = c.occurrence_dates })
    else c.recurrence

unfoldable pub has_payload : RawRecurrence → Mode → Bool
has_payload rec explicit_occurrences = rec.has_occurrences
has_payload rec mode =
    is_some (non_blank rec.rrule) || (not (is_empty rec.rdate) || rec.has_occurrences)

abbrev pub first_text : Option String → Option String → Option String
first_text a b = elim (non_blank a) [ some s ↦ some s | none ↦ b ]

unfoldable pub spec_from_raw : RawRecurrence → Mode → Bool → RecurrenceSpec
spec_from_raw rec mode all_day = record {
  mode = mode;
  source_parent_id = first_text rec.source_parent_id rec.recurrence_id;
  rrule = rec.rrule;
  rdate = rec.rdate;
  exdate = rec.exdate;
  all_day = all_day;
  occurrences = rec.occurrences;
}

unfoldable pub candidate_temporal : Option ℕ → Option ℕ → (is_aware : Bool) → Option Temporal
candidate_temporal none t z = none
candidate_temporal (some d) none z = some (on_day d)
candidate_temporal (some d) (some t) z = some (at_time d t z)

abbrev pub text_or : Option String → String → String
text_or none default = default
text_or (some s) default = s

unfoldable pub child_candidate : Candidate → ExpandedOccurrence → RecurrenceSpec → EventCandidate
child_candidate c occ spec = record (c.event) {
  title = first_text occ.title c.event.title;
  start_date = some occ.start_date;
  start_time = occ.start_time;
  end_date = occ.end_date;
  end_time = occ.end_time;
  external_source_id = some occ.identity;
  occurrence_id = some occ.identity;
  recurrence_parent_id =
      first_text spec.source_parent_id
        (first_text c.event.external_source_id (some c.raw_record_hash));
  is_cancelled = occ.cancelled;
}

-- The children within the budget, the number produced, and whether the budget was exceeded.
unfoldable pub children :
    Candidate
    → RecurrenceSpec
    → (budget produced : ℕ) → List ExpandedOccurrence
    → List EventCandidate × ℕ × Bool
children c spec budget produced [] = ([], produced, false)
children c spec budget produced (occ ∷ occs) =
    let (rest, total, exceeded) = children c spec budget (produced + 1) occs in
    if leb budget produced
    then ([], produced, true)
    else (child_candidate c occ spec ∷ rest, total, exceeded)

abbrev pub occurrences_with :
    RecurrenceSpec → Option RecurrenceExpansion → Option (List ExpandedOccurrence × RecurrenceSpec)
occurrences_with spec none = none
occurrences_with spec (some expansion) = some (expansion.occurrences, spec)

-- The occurrences of a candidate with its spec: no occurrences if it passes through unchanged, and
-- nothing if the expansion raises.
abbrev pub expansion_of :
    Engine
    → RecurrenceBounds
    → Mode
    → ℕ
    → Candidate
    → Option RawRecurrence
    → Option Temporal
    → Option (List ExpandedOccurrence × RecurrenceSpec)
expansion_of g bounds mode reference c (some rec) (some start) =
    let spec = spec_from_raw rec mode (rec.all_day || not (is_some c.event.start_time)) in
    if has_payload rec mode
    then occurrences_with spec (
        expand_recurrence g
          (record {
            start = start;
            ends = candidate_temporal c.event.end_date c.event.end_time c.end_is_aware;
            fingerprint = text_or (non_blank c.event.external_source_id) c.raw_record_hash;
          })
          spec bounds reference)
    else some ([], spec)
expansion_of g bounds mode reference c _ _ = some ([], spec_from_raw no_recurrence mode false)

-- What a candidate gives before what the others give, if they do not raise.
abbrev pub before_rest :
    List EventCandidate → Option (List EventCandidate) → Option (List EventCandidate)
before_rest kids none = none
before_rest kids (some rest) = some (kids ++ rest)

unfoldable pub expand_from :
    Engine
    → RecurrenceBounds
    → Mode
    → (reference produced : ℕ) → List Candidate
    → Option (List EventCandidate)
expand_from g bounds mode reference produced [] = some []
expand_from g bounds mode reference produced (c ∷ cs) =
    let passed = expand_from g bounds mode reference produced cs in
    elim (expansion_of g bounds mode reference c (with_dates c)
      (candidate_temporal c.event.start_date c.event.start_time c.start_is_aware)) [
        | none ↦ none
        | some (occs, spec) ↦
            let (kids, total, exceeded) =
              children c spec bounds.max_occurrences_per_run produced occs in
            let rest = expand_from g bounds mode reference total cs in
            if is_empty occs
            then before_rest (c.event ∷ []) passed
            else if exceeded
            then some kids
            else before_rest kids rest
      ]

abbrev pub passed_through : List Candidate → List EventCandidate
passed_through [] = []
passed_through (c ∷ cs) = c.event ∷ passed_through cs

-- The candidates of the run; the warnings are left out. No result is an exception.
unfoldable pub expand_candidates :
    Engine
    → RecurrenceBounds
    → Mode
    → (reference : ℕ) → List Candidate
    → Option (List EventCandidate)
expand_candidates g bounds parent_only reference cs = some (passed_through cs)
expand_candidates g bounds mode reference cs = expand_from g bounds mode reference 0 cs
