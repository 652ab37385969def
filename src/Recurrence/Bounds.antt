-- ===== src/Recurrence/Bounds.antt =====
-- An expansion of extraction/recurrence.py stays in its window and within its bounds, and has no
-- occurrence without a reason.
use web_scraping_event_appli.Prelude.{
  ℕ, suc, ◌+◌, ◌≤◌, ◌<◌, String, str_eq, true, false, Option, none, some, List, [], ◌∷◌, any,
  length, leb, ◌==◌, All, ◌≡◌, refl, arith, Bool-cases, inl, inr,
}
use web_scraping_event_appli.Recurrence.{
  Temporal, Moment, RecurrenceOccurrence, RecurrenceSpec, RecurrenceBounds, ExpandedOccurrence,
  Engine, Parent, is_before, moment, parse_iso_temporal, occurrence_from_source,
}
use web_scraping_event_appli.Recurrence.Expand.{
  Slots, put, put_occurrence, window_start, window_end, is_within, take_instants, add_extra,
  extra_instants, generate, target_key, put_at, overlay_one, overlay_explicit, occurrences_of,
}

module _ (P : ExpandedOccurrence → Type 0) where
  abbrev pub Every : Slots → Type 0
  Every slots = All P (occurrences_of slots)

  Every-put :
      (key : String) (occ : ExpandedOccurrence) (slots : Slots)
      → P occ
      → Every slots
      → Every (put key occ slots)
  Every-put key occ [] p h = (p, tt)
  Every-put key occ ((k, o) ∷ slots) p h = elim (Bool-cases (str_eq k key)) [
    | inl e ↦ rw e (p, h.1)
    | inr e ↦ rw e (h.0, Every-put key occ slots p h.1)
  ]

  pub Every-generate :
      (make : Moment → ExpandedOccurrence) (excluded : List ℕ) (ms : List Moment) (slots : Slots)
      → All (λ m. any (λ d. d == m.day) excluded ≡ false → P (make m)) ms
      → Every slots
      → Every (generate make excluded ms slots)
  unfolding generate
  Every-generate make excluded [] slots a h = h
  Every-generate make excluded (m ∷ ms) slots a h =
      elim (Bool-cases (any (λ d. d == m.day) excluded)) [
        | inl e ↦ rw e (Every-generate make excluded ms slots a.1 h)
        | inr e ↦ rw e (
            Every-generate make excluded ms (put_occurrence (make m) slots) a.1
              (Every-put (make m).identity (make m) slots (a.0 e) h))
      ]

  Every-put_at :
      (key : Option String) (built : ExpandedOccurrence) (slots : Slots)
      → P built
      → Every slots
      → Every (put_at key built slots)
  Every-put_at none built slots p h = Every-put built.identity built slots p h
  Every-put_at (some key) built slots p h = Every-put key built slots p h

  Every-overlay_one :
      (g : Engine) (id : Option String) (o : Option ExpandedOccurrence) (slots : Slots)
      → ((built : ExpandedOccurrence) → o ≡ some built → P built)
      → Every slots
      → Every (overlay_one g id o slots)
  Every-overlay_one g id none slots p h = h
  Every-overlay_one g id (some built) slots p h = Every-put_at _ built slots (p built refl) h

  pub Every-overlay :
      (g : Engine) (p : Parent) (spec : RecurrenceSpec) (occs : List RecurrenceOccurrence)
      (slots : Slots)
      → All
          (λ occ.
            (built : ExpandedOccurrence)
            → occurrence_from_source g p spec occ ≡ some built
            → P built)
          occs
      → Every slots
      → Every (overlay_explicit g p spec occs slots)
  unfolding overlay_explicit
  Every-overlay g p spec [] slots a h = h
  Every-overlay g p spec (occ ∷ occs) slots a h =
      Every-overlay g p spec occs _ a.1
        (Every-overlay_one g occ.recurrence_id (occurrence_from_source g p spec occ) slots a.0 h)

length-put :
    (key : String) (occ : ExpandedOccurrence) (slots : Slots)
    → length (occurrences_of (put key occ slots)) ≤ suc (length (occurrences_of slots))
length-put key occ [] = omega arith
length-put key occ ((k, o) ∷ slots) = ground (arith, length-put key occ slots)

pub length-generate :
    (make : Moment → ExpandedOccurrence) (excluded : List ℕ) (ms : List Moment) (slots : Slots)
    → length (occurrences_of (generate make excluded ms slots))
      ≤ length (occurrences_of slots) + length ms
unfolding generate
length-generate make excluded [] slots = omega arith
length-generate make excluded (m ∷ ms) slots = elim (Bool-cases (any (λ d. d == m.day) excluded)) [
  | inl e ↦ rw e (omega (arith, length-generate make excluded ms slots))
  | inr e ↦ rw e (
      omega (
        arith,
        length-generate make excluded ms (put_occurrence (make m) slots),
        length-put (make m).identity (make m) slots,
      ))
]

length-overlay_one :
    (g : Engine) (id : Option String) (o : Option ExpandedOccurrence) (slots : Slots)
    → length (occurrences_of (overlay_one g id o slots)) ≤ suc (length (occurrences_of slots))
length-overlay_one g id none slots = omega arith
length-overlay_one g id (some built) slots = go (target_key _ slots)
  where
    go :
        (key : Option String)
        → length (occurrences_of (put_at key built slots)) ≤ suc (length (occurrences_of slots))
    go none = length-put built.identity built slots
    go (some key) = length-put key built slots

pub length-overlay :
    (g : Engine) (p : Parent) (spec : RecurrenceSpec) (occs : List RecurrenceOccurrence)
    (slots : Slots)
    → length (occurrences_of (overlay_explicit g p spec occs slots))
      ≤ length (occurrences_of slots) + length occs
unfolding overlay_explicit
length-overlay g p spec [] slots = omega arith
length-overlay g p spec (occ ∷ occs) slots = omega (
  arith,
  length-overlay g p spec occs
      (overlay_one g occ.recurrence_id (occurrence_from_source g p spec occ) slots),
  length-overlay_one g occ.recurrence_id (occurrence_from_source g p spec occ) slots,
)

module _ (g : Engine) (bounds : RecurrenceBounds) (reference : ℕ) where
  pub length-take_instants :
      (taken : ℕ) (ms : List Moment)
      → taken < bounds.max_occurrences_per_parent
      → length (take_instants g bounds reference taken ms).0 + taken
        ≤ bounds.max_occurrences_per_parent
  unfolding take_instants
  length-take_instants taken [] lt = omega (arith, lt)
  length-take_instants taken (m ∷ ms) lt =
      elim (Bool-cases (is_before m (window_start reference))) [
        | inl e ↦ rw e (length-take_instants taken ms lt)
        | inr e ↦ rw e (elim (Bool-cases (is_before (window_end bounds reference) m)) [
          | inl f ↦ rw f (omega (arith, lt))
          | inr f ↦ rw f (elim (Bool-cases (leb bounds.max_occurrences_per_parent (taken + 1))) [
            | inl c ↦ rw c (omega (arith, lt))
            | inr c ↦ rw c (elim (Bool-cases (g.is_over_time (taken + 1))) [
              | inl t ↦ rw t (omega (arith, lt))
              | inr t ↦
                  rw t (omega (arith, length-take_instants (taken + 1) ms (ground (arith, c))))
            ])
          ])
        ])
      ]

  pub take_instants-within :
      (taken : ℕ) (ms : List Moment)
      → All (λ m. is_within bounds reference m ≡ true) (take_instants g bounds reference taken ms).0
  unfolding take_instants
  take_instants-within taken [] = tt
  take_instants-within taken (m ∷ ms) = elim (Bool-cases (is_before m (window_start reference))) [
    | inl e ↦ rw e (take_instants-within taken ms)
    | inr e ↦ elim (Bool-cases (is_before (window_end bounds reference) m)) [
      | inl f ↦ rw (e, f) tt
      | inr f ↦
          let inside : is_within bounds reference m ≡ true = rw (e, f) refl in
          rw (e, f)
            (elim (Bool-cases (leb bounds.max_occurrences_per_parent (taken + 1))) [
              | inl c ↦ rw c (inside, tt)
              | inr c ↦ rw c (elim (Bool-cases (g.is_over_time (taken + 1))) [
                | inl t ↦ rw t (inside, tt)
                | inr t ↦ rw t (inside, take_instants-within (taken + 1) ms)
              ])
            ])
    ]
  ]

  pub extra-within :
      (ds : List String)
      → All (λ m. is_within bounds reference m ≡ true) (extra_instants g bounds reference ds)
  extra-within [] = tt
  extra-within (d ∷ ds) = go (parse_iso_temporal g (some d)) _ (extra-within ds)
    where
      go :
          (o : Option Temporal) (ms : List Moment)
          → All (λ m. is_within bounds reference m ≡ true) ms
          → All (λ m. is_within bounds reference m ≡ true) (add_extra bounds reference o ms)
      go none ms h = h
      go (some t) ms h = elim (Bool-cases (is_within bounds reference (moment t))) [
        | inl e ↦ rw e (e, h)
        | inr e ↦ rw e h
      ]

  pub length-extra : (ds : List String) → length (extra_instants g bounds reference ds) ≤ length ds
  length-extra [] = omega arith
  length-extra (d ∷ ds) = omega (
    arith,
    go (parse_iso_temporal g (some d)) (extra_instants g bounds reference ds),
    length-extra ds,
  )
    where
      go :
          (o : Option Temporal) (ms : List Moment)
          → length (add_extra bounds reference o ms) ≤ suc (length ms)
      go none ms = omega arith
      go (some t) ms = ground arith
