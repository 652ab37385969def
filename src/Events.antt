-- ===== src/Events.antt =====
-- backend/app/services/fingerprints.py and the fingerprint of extraction/dedup.py: events and what
-- tells them apart. A date counts days, a time seconds from midnight; a coordinate is its text.
pub mod Upsert
pub mod Duplicates
pub mod Dedup
pub mod Agreement
use Prim.Native.String.{◌++◌}
use web_scraping_event_appli.Prelude.{
  ℕ, zero, suc, String, str_eq, Bool, true, false, not, ◌&&◌, ◌||◌, Option, none, some, List, [],
  ◌∷◌, if◌then◌else◌, ◌==◌, is_empty, select,
}
use web_scraping_event_appli.Json.{is_some}

-- The fields of EventCandidate that are stored.
pub record EventCandidate : Type 0 where
  pub title : Option String
  pub canonical_url : Option String
  pub description : Option String
  pub start_date : Option ℕ
  pub start_time : Option ℕ
  pub end_date : Option ℕ
  pub end_time : Option ℕ
  pub timezone : Option String
  pub venue : Option String
  pub address : Option String
  pub image_url : Option String
  pub latitude : Option String
  pub longitude : Option String
  pub source_category : Option String
  pub external_source_id : Option String
  pub occurrence_id : Option String
  pub recurrence_parent_id : Option String
  pub is_recurrence_parent : Bool
  pub is_cancelled : Bool

pub data DuplicateStatus : Type 0 where
  not_reviewed possible_duplicate confirmed_duplicate not_duplicate : DuplicateStatus

pub record Event : Type 0 where
  pub id : ℕ
  pub website_id : Option ℕ
  pub city_id : Option ℕ
  pub source : String
  -- The columns that a candidate gives.
  pub content : EventCandidate
  pub is_active : Bool
  pub scraped_at : ℕ
  pub normalized_title : String
  pub fingerprint : String
  pub duplicate_status : DuplicateStatus

-- `re`, `urllib`, `str`, `datetime` and `hashlib`, as the fingerprints use them.
pub record Text : Type 0 where
  pub normalize_text : Option String → String
  pub normalize_url : Option String → String
  pub title_key : Option String → String
  pub strip : String → String
  pub digits : ℕ → String
  pub date_iso : ℕ → String
  pub time_iso : ℕ → String
  pub sha256 : String → String

abbrev pub given_text : Option String → Option String
given_text none = none
given_text (some s) = if str_eq s "" then none else some s

abbrev pub part : (ℕ → String) → Option ℕ → String
part print none = ""
part print (some n) = print n

-- `str(city_id or "")`.
abbrev pub city_part : Text → Option ℕ → String
city_part t none = ""
city_part t (some id) = if id == 0 then "" else t.digits id

abbrev pub composite_identity : Text → EventCandidate → (city_id : Option ℕ) → String
composite_identity t c city =
    "composite|"
    ++ (t.normalize_text c.title
        ++ ("|"
            ++ (part t.date_iso c.start_date
                ++ ("|"
                    ++ (part t.time_iso c.start_time
                        ++ ("|" ++ (t.normalize_text c.venue ++ ("|" ++ city_part t city))))))))

abbrev pub url_or_composite : Text → EventCandidate → Option ℕ → String
url_or_composite t c city =
    let url = t.normalize_url c.canonical_url in
    if not (str_eq url "") then "url|" ++ url else composite_identity t c city

abbrev pub external_identity : Text → (website_id : ℕ) → String → String
external_identity t website_id external =
    "external|" ++ (t.digits website_id ++ ("|" ++ t.strip external))

unfoldable pub candidate_fingerprint : Text → EventCandidate → ℕ → Option ℕ → String
candidate_fingerprint t c website_id city = t.sha256 (elim (given_text c.external_source_id) [
  | some external ↦ external_identity t website_id external
  | none ↦ url_or_composite t c city
])

-- `value or ""`, of a text and of the id of a city.
abbrev pub or_blank : Option String → String
or_blank none = ""
or_blank (some s) = s

abbrev pub id_or_blank : Text → Option ℕ → String
id_or_blank t none = ""
id_or_blank t (some zero) = ""
id_or_blank t (some (suc n)) = t.digits (suc n)

abbrev pub printed : (ℕ → String) → Option ℕ → Option String
printed print none = none
printed print (some n) = some (print n)

-- `"|".join` of the parts.
abbrev pub join_bars : String → List String → String
join_bars first [] = first
join_bars first (s ∷ rest) = first ++ ("|" ++ join_bars s rest)

-- `website_id is not None and external_source_id`: the pair, if both are there.
abbrev pub external_pair : Option ℕ → Option String → Option (ℕ × String)
external_pair (some website_id) (some external) =
    if str_eq external "" then none else some (website_id, external)
external_pair _ _ = none

abbrev pub url_identity : String → String
url_identity url = "url|" ++ url

unfoldable pub event_fingerprint : Text → Event → String
event_fingerprint t e = elim (external_pair e.website_id e.content.external_source_id) [
  | some (website_id, external) ↦
      t.sha256 (join_bars "external" (t.digits website_id ∷ t.strip external ∷ []))
  | none ↦
      if str_eq (t.normalize_url e.content.canonical_url) ""
      then t.sha256 (
          join_bars "composite" (
            t.normalize_text e.content.title
            ∷ or_blank (printed t.date_iso e.content.start_date)
            ∷ or_blank (printed t.time_iso e.content.start_time)
            ∷ t.normalize_text e.content.venue
            ∷ id_or_blank t e.city_id
            ∷ []))
      else t.sha256 (url_identity (t.normalize_url e.content.canonical_url))
]

abbrev pub same_number : Option ℕ → Option ℕ → Bool
same_number none none = true
same_number (some a) (some b) = a == b
same_number _ _ = false

-- `_time_unknown`: several sources give midnight for no time.
abbrev pub time_unknown : Option ℕ → Bool
time_unknown none = true
time_unknown (some s) = s == 0

-- `same_listing_events`, as the test of one event.
unfoldable pub is_same_listing : Event → Event → Bool
is_same_listing e m =
    not (str_eq e.normalized_title "")
    && is_some e.content.start_date
    && is_some e.city_id
    && not (m.id == e.id)
    && str_eq m.normalized_title e.normalized_title
    && same_number m.content.start_date e.content.start_date
    && same_number m.city_id e.city_id
    && not m.content.is_recurrence_parent
    && (time_unknown e.content.start_time
        || time_unknown m.content.start_time
        || same_number m.content.start_time e.content.start_time)

unfoldable pub is_match : Event → Event → Bool
is_match e m = not (m.id == e.id) && str_eq m.fingerprint e.fingerprint || is_same_listing e m

abbrev pub flagged : DuplicateStatus → DuplicateStatus
flagged not_reviewed = possible_duplicate
flagged status = status

abbrev pub flag_if : Bool → Event → Event
flag_if true m = record m { duplicate_status = flagged m.duplicate_status }
flag_if false m = m

abbrev pub rekeyed : Text → Event → Event
rekeyed t e = record e {
  normalized_title = t.title_key e.content.title;
  fingerprint = event_fingerprint t e;
}

abbrev pub flag_matches : Event → List Event → List Event
flag_matches e [] = []
flag_matches e (m ∷ ms) = flag_if (is_match e m) m ∷ flag_matches e ms

-- The event beside the other rows: both come back.
unfoldable pub update_fingerprint_and_duplicates : Text → Event → List Event → Event × List Event
update_fingerprint_and_duplicates t e others =
    let e' = rekeyed t e in
    (flag_if (not (is_empty (select (is_match e') others))) e', flag_matches e' others)
