-- ===== src/Events/Duplicates.antt =====
-- Duplicate flags and what a re-scrape leaves alone.
use web_scraping_event_appli.Prelude.{
  ℕ, Bool, true, false, not, ◌&&◌, List, [], ◌∷◌, is_empty, select, ◌≡◌, ◌⊎◌, inl, inr, refl,
}
use web_scraping_event_appli.Events.{
  Text, EventCandidate, Event, DuplicateStatus, not_reviewed, possible_duplicate,
  confirmed_duplicate, not_duplicate, is_match, flagged, flag_if, flag_matches, rekeyed,
  update_fingerprint_and_duplicates,
}
use web_scraping_event_appli.Events.Upsert.{update_event, overwritten}

-- The second row is the first, but that an open question may have become a possible duplicate.
pub record OnlyFlagged (before after : Event) : Type 0 where
  pub row : after ≡ record before { duplicate_status = after.duplicate_status }
  pub status :
      (after.duplicate_status ≡ before.duplicate_status)
      ⊎ (before.duplicate_status ≡ not_reviewed) × (after.duplicate_status ≡ possible_duplicate)

abbrev pub AllOnlyFlagged : List Event → List Event → Type 0
AllOnlyFlagged [] [] = Unit
AllOnlyFlagged (b ∷ bs) (a ∷ as') = OnlyFlagged b a × AllOnlyFlagged bs as'
AllOnlyFlagged [] (a ∷ as') = ⊥
AllOnlyFlagged (b ∷ bs) [] = ⊥

flagged-status :
    (d : DuplicateStatus) → (flagged d ≡ d) ⊎ (d ≡ not_reviewed) × (flagged d ≡ possible_duplicate)
flagged-status not_reviewed = inr (refl, refl)
flagged-status possible_duplicate = inl refl
flagged-status confirmed_duplicate = inl refl
flagged-status not_duplicate = inl refl

flag_if-OnlyFlagged : (b : Bool) (m : Event) → OnlyFlagged m (flag_if b m)
flag_if-OnlyFlagged false m = record { row = refl; status = inl refl }
flag_if-OnlyFlagged true m = record { row = refl; status = flagged-status m.duplicate_status }

flag_matches-OnlyFlagged : (e : Event) (ms : List Event) → AllOnlyFlagged ms (flag_matches e ms)
flag_matches-OnlyFlagged e [] = tt
flag_matches-OnlyFlagged e (m ∷ ms) =
    (flag_if-OnlyFlagged (is_match e m) m, flag_matches-OnlyFlagged e ms)

-- The other columns of a row, however it was flagged.
flag_if-columns :
    (b : Bool) (x : Event)
    → ((flag_if b x).website_id ≡ x.website_id)
      × ((flag_if b x).city_id ≡ x.city_id)
      × ((flag_if b x).source ≡ x.source)
      × ((flag_if b x).is_active ≡ x.is_active)
flag_if-columns true x = (refl, refl, refl, refl)
flag_if-columns false x = (refl, refl, refl, refl)

still_inactive : (a b c : Bool) → c ≡ (a && b) → a ≡ false → c ≡ false
still_inactive true b c h k = absurd cc
still_inactive false b c h k = h

-- A re-scrape changes no other event but by flagging an unreviewed one as a possible duplicate; of
-- the event itself it keeps the site, the city, the source and a reviewed status, and it never
-- makes an inactive event active.
pub update_event_keeps :
    (t : Text) (e : Event) (c : EventCandidate) (now : ℕ) (others : List Event)
    → let (e', others') = update_event t e c now others in
      AllOnlyFlagged others others'
      × (e'.website_id ≡ e.website_id)
      × (e'.city_id ≡ e.city_id)
      × (e'.source ≡ e.source)
      × ((e'.duplicate_status ≡ e.duplicate_status)
          ⊎ (e.duplicate_status ≡ not_reviewed) × (e'.duplicate_status ≡ possible_duplicate))
      × (e.is_active ≡ false → e'.is_active ≡ false)
unfolding update_event update_fingerprint_and_duplicates
update_event_keeps t e c now others =
    let written = rekeyed t (record e {
      content = overwritten c e.content;
      is_active = e.is_active && not c.is_cancelled;
      scraped_at = now;
    }) in
    let matched = not (is_empty (select (is_match written) others)) in
    let (website, city, source, activity) = flag_if-columns matched written in
    (
      flag_matches-OnlyFlagged written others,
      website,
      city,
      source,
      (flag_if-OnlyFlagged matched written).status,
      still_inactive e.is_active (not c.is_cancelled) _ activity,
    )
