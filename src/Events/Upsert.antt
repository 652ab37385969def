-- ===== src/Events/Upsert.antt =====
-- backend/app/repositories/event.py: extracted events are created, found and overwritten. Their
-- categories are not modelled.
use web_scraping_event_appli.Prelude.{
  ℕ, String, str_eq, not, ◌&&◌, ◌||◌, Option, none, some, List, [], ◌∷◌, if◌then◌else◌,
}
use web_scraping_event_appli.Events.{
  not_reviewed, EventCandidate, Event, Text, candidate_fingerprint, same_number,
  update_fingerprint_and_duplicates,
}

-- The row of a candidate, before its keys are computed. A cancelled occurrence is hidden.
unfoldable pub new_event :
    (id : ℕ) → EventCandidate → ℕ → Option ℕ → (source : String) → (now : ℕ) → Event
new_event id c website_id city source now = record {
  id = id;
  website_id = some website_id;
  city_id = city;
  source = source;
  content = c;
  is_active = not c.is_cancelled;
  scraped_at = now;
  normalized_title = "";
  fingerprint = "";
  duplicate_status = not_reviewed;
}

unfoldable pub create_event_from_candidate :
    Text
    → (id : ℕ) → EventCandidate
    → ℕ
    → Option ℕ
    → (source : String) → (now : ℕ) → List Event
    → Event × List Event
create_event_from_candidate t id c website_id city source now others =
    update_fingerprint_and_duplicates t (new_event id c website_id city source now) others

unfoldable pub find_existing_event_for_candidate :
    Text → EventCandidate → ℕ → Option ℕ → List Event → Option Event
find_existing_event_for_candidate t c website_id city [] = none
find_existing_event_for_candidate t c website_id city (e ∷ es) =
    let rest = find_existing_event_for_candidate t c website_id city es in
    if same_number e.website_id (some website_id)
      && str_eq e.fingerprint (candidate_fingerprint t c website_id city)
    then some e
    else rest

-- `if new is not None: old = new`.
abbrev pub fresh {ℓ} : {A : Type ℓ} → Option A → Option A → Option A
fresh none old = old
fresh (some new) old = some new

unfoldable pub overwritten : EventCandidate → EventCandidate → EventCandidate
overwritten c old = record {
  title = c.title;
  canonical_url = c.canonical_url;
  description = fresh c.description old.description;
  start_date = fresh c.start_date old.start_date;
  start_time = fresh c.start_time old.start_time;
  end_date = fresh c.end_date old.end_date;
  end_time = fresh c.end_time old.end_time;
  timezone = fresh c.timezone old.timezone;
  venue = fresh c.venue old.venue;
  address = fresh c.address old.address;
  image_url = fresh c.image_url old.image_url;
  latitude = fresh c.latitude old.latitude;
  longitude = fresh c.longitude old.longitude;
  source_category = fresh c.source_category old.source_category;
  external_source_id = fresh c.external_source_id old.external_source_id;
  occurrence_id = fresh c.occurrence_id old.occurrence_id;
  recurrence_parent_id = fresh c.recurrence_parent_id old.recurrence_parent_id;
  is_recurrence_parent = old.is_recurrence_parent;
  is_cancelled = old.is_cancelled || c.is_cancelled;
}

unfoldable pub update_event :
    Text → Event → EventCandidate → (now : ℕ) → List Event → Event × List Event
update_event t e c now others =
    update_fingerprint_and_duplicates t
      (record e {
        content = overwritten c e.content;
        is_active = e.is_active && not c.is_cancelled;
        scraped_at = now;
      })
      others
