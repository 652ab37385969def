-- ===== src/Recurrence/Zones.antt =====
-- When an expansion of extraction/recurrence.py raises: only when it mixes datetimes with a time zone
-- and without.
use web_scraping_event_appli.Prelude.{
  ℕ, String, true, false, Option, none, some, List, [], ◌∷◌, is_empty, In, ◌≡◌, ◌⊎◌, refl, arith,
  Bool-cases, inl, inr,
}
use web_scraping_event_appli.Recurrence.{
  Temporal, Moment, Mode, parent_only, explicit_occurrences, bounded_expand, RecurrenceSpec,
  RecurrenceBounds, Engine, Parent, moment, is_aware, non_blank, parse_iso_temporal,
}
use web_scraping_event_appli.Recurrence.Expand.{
  is_aware_given, any_aware, ends_differ, raises_from, raises_parsed, raises_given,
  raises_type_error, is_too_long, expand_in, expand_recurrence,
}

-- The text is one of an aware datetime.
pub record IsAware (g : Engine) (d : String) : Type 0 where
  pub read : Temporal
  pub from_text : parse_iso_temporal g (some d) ≡ some read
  pub zoned : is_aware read ≡ true

-- The start has a zone, an explicit date has one, or only one of the start and the end has one.
abbrev pub MixesZones : Engine → Parent → RecurrenceSpec → Type 0
MixesZones g p spec =
    (is_aware p.start ≡ true)
    ⊎ (((d : String) × In d spec.rdate × IsAware g d) ⊎ (ends_differ p ≡ true))

given-IsAware :
    (g : Engine) (d : String) → is_aware_given (parse_iso_temporal g (some d)) ≡ true → IsAware g d
given-IsAware g d h = go (parse_iso_temporal g (some d)) refl h
  where
    go :
        (o : Option Temporal)
        → parse_iso_temporal g (some d) ≡ o
        → is_aware_given o ≡ true
        → IsAware g d
    go none e k = cc
    go (some t) e k = record { read = t; from_text = e; zoned = k }

any_aware-In :
    (g : Engine) (ds : List String) → any_aware g ds ≡ true → (d : String) × In d ds × IsAware g d
any_aware-In g [] h = cc
any_aware-In g (d ∷ ds) h = elim (Bool-cases (is_aware_given (parse_iso_temporal g (some d)))) [
  | inl e ↦ (d, inl refl, given-IsAware g d e)
  | inr e ↦ let (found, i, a) = any_aware-In g ds (ground arith) in (found, inr i, a)
]

module _ (g : Engine) (p : Parent) (spec : RecurrenceSpec) where
  from-MixesZones : (ms : List Moment) → raises_from g p spec ms ≡ true → MixesZones g p spec
  from-MixesZones ms h = elim (Bool-cases (is_aware p.start)) [
    | inl e ↦ inl e
    | inr e ↦ elim (Bool-cases (any_aware g spec.rdate)) [
      | inl a ↦ inr (inl (any_aware-In g spec.rdate a))
      | inr a ↦ inr (inr (ground arith))
    ]
  ]

  parsed-MixesZones :
      (o : Option (List Moment)) → raises_parsed g p spec o ≡ true → MixesZones g p spec
  parsed-MixesZones none h = cc
  parsed-MixesZones (some ms) h = from-MixesZones ms h

  given-MixesZones :
      (rule : Option String) → raises_given g p spec rule ≡ true → MixesZones g p spec
  given-MixesZones none h = elim (Bool-cases (is_empty spec.rdate)) [
    | inl e ↦ absurd (let no : false ≡ true = rw e at h in cc)
    | inr e ↦ from-MixesZones [] (rw e at h)
  ]
  given-MixesZones (some rule) h = elim (Bool-cases (g.is_subdaily rule)) [
    | inl e ↦ absurd (let no : false ≡ true = rw e at h in cc)
    | inr e ↦ parsed-MixesZones (g.rrulestr rule (moment p.start)) (rw e at h)
  ]

  pub raises-MixesZones : raises_type_error g p spec ≡ true → MixesZones g p spec
  unfolding raises_type_error
  raises-MixesZones h = given-MixesZones (non_blank spec.rrule) h

  pub expand_recurrence-MixesZones :
      (bounds : RecurrenceBounds) (reference : ℕ)
      → expand_recurrence g p spec bounds reference ≡ none
      → MixesZones g p spec
  unfolding expand_recurrence
  expand_recurrence-MixesZones bounds reference h = go spec.mode h
    where
      go : (mode : Mode) → expand_in g p spec bounds reference mode ≡ none → MixesZones g p spec
      go parent_only k = cc
      go explicit_occurrences k = cc
      go bounded_expand k = elim (Bool-cases (is_too_long g bounds (non_blank spec.rrule))) [
        | inl e ↦ absurd (ground (arith, k, e))
        | inr e ↦ elim (Bool-cases (raises_type_error g p spec)) [
          | inl r ↦ raises-MixesZones r
          | inr r ↦ absurd (ground (arith, k, e, r))
        ]
      ]
