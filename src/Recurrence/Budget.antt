-- ===== src/Recurrence/Budget.antt =====
-- A run of extraction/recurrence.py keeps to its budget of occurrences, and when it raises.
use web_scraping_event_appli.Prelude.{
  ℕ, ◌+◌, ◌≤◌, String, true, Option, none, some, List, length, In, ◌≡◌, ◌⊎◌,
}
use web_scraping_event_appli.Events.{EventCandidate}
use web_scraping_event_appli.Recurrence.{Engine}
use web_scraping_event_appli.Recurrence.Zones.{IsAware}
use web_scraping_event_appli.Recurrence.Run.{Candidate, or_none, with_dates}

-- A time of the candidate was read with an offset, or one of its explicit dates has one.
abbrev pub HasZone : Engine → Candidate → Type 0
HasZone g c =
    (c.start_is_aware ≡ true)
    ⊎ ((c.end_is_aware ≡ true) ⊎ ((d : String) × In d (or_none (with_dates c)).rdate × IsAware g d))

-- At most so many, with those that were produced before; a run that raises has a candidate with a
-- time zone.
abbrev pub IsAtMost :
    Engine → List Candidate → (produced most : ℕ) → Option (List EventCandidate) → Type 0
IsAtMost g cs produced most none = (c : Candidate) × In c cs × HasZone g c
IsAtMost g cs produced most (some events) = length events + produced ≤ most
