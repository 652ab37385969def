-- ===== src/Matching.antt =====
-- backend/app/repositories/onboarding.py and core/url_canonical.py: which existing website a
-- submitted URL belongs to. The parsing of a URL is Python's `urllib`: its parts are given.
pub mod Best
use web_scraping_event_appli.Prelude.{
  ℕ, String, str_eq, Bool, true, false, not, ◌&&◌, ◌||◌, Option, none, some, List, [], ◌∷◌, ◌==◌,
  ltb, if◌then◌else◌, sort, first,
}
use web_scraping_event_appli.Json.{is_some}
use web_scraping_event_appli.Onboarding.{same, archived}
use web_scraping_event_appli.Website.{Website}

-- `canonical_url`, and of a canonical URL its origin and its path.
pub record Urls : Type 0 where
  pub canonical_url : String → String
  pub origin : String → String
  pub path : String → String

unfoldable pub canonical_origin : Urls → String → String
canonical_origin u url =
    let canonical = u.canonical_url url in if str_eq canonical "" then "" else u.origin canonical

unfoldable pub is_origin_only : Urls → String → Bool
is_origin_only u url =
    let canonical = u.canonical_url url in
    not (str_eq canonical "") && str_eq (u.path canonical) "/"

unfoldable pub same_resource : Urls → String → String → Bool
same_resource u left right =
    let left_canonical = u.canonical_url left in
    let right_canonical = u.canonical_url right in
    if str_eq left_canonical "" || str_eq right_canonical ""
    then false
    else str_eq left_canonical right_canonical

pub data MatchType : Type 0 where
  listing_url base_url page_under_origin : MatchType

abbrev pub match_type_rank : MatchType → ℕ
match_type_rank listing_url = 0
match_type_rank base_url = 1
match_type_rank page_under_origin = 2

pub data MatchReason : Type 0 where
  existing archived_existing : MatchReason

abbrev pub lifecycle_active : ℕ
lifecycle_active = 0

abbrev pub lifecycle_onboarding : ℕ
lifecycle_onboarding = 1

abbrev pub lifecycle_archived : ℕ
lifecycle_archived = 2

pub record Priority : Type 0 where
  pub lifecycle : ℕ
  pub match_type : ℕ
  pub website_id : ℕ

-- The order of Python's tuples.
abbrev pub before : Priority → Priority → Bool
before a b =
    ltb a.lifecycle b.lifecycle
    || ((a.lifecycle == b.lifecycle)
        && (ltb a.match_type b.match_type
            || ((a.match_type == b.match_type) && ltb a.website_id b.website_id)))

pub record WebsiteMatch : Type 0 where
  pub website : Website
  pub match_type : MatchType
  pub reason : MatchReason
  pub is_archived : Bool
  pub priority : Priority

unfoldable pub lifecycle_rank : Website → ℕ
lifecycle_rank w =
    if is_some w.archived_at || same w.onboarding_status archived
    then lifecycle_archived
    else if w.is_active
    then lifecycle_active
    else lifecycle_onboarding

-- `website.event_listing_url and same_resource(...)`: an empty text is false.
abbrev pub is_listing : Urls → Option String → String → Bool
is_listing u none url = false
is_listing u (some listing) url = not (str_eq listing "") && same_resource u listing url

unfoldable pub match_type_for : Urls → Website → String → String → Option MatchType
match_type_for u w url target_origin =
    if is_listing u w.event_listing_url url
    then some listing_url
    else if same_resource u w.base_url url
    then some base_url
    else if not (is_some w.event_listing_url)
        && (is_origin_only u w.base_url && str_eq (u.canonical_url w.base_url) target_origin)
    then some page_under_origin
    else none

unfoldable pub match_of : Website → MatchType → WebsiteMatch
match_of w t =
    let lifecycle = lifecycle_rank w in
    let gone = lifecycle == lifecycle_archived in
    record {
      website = w;
      match_type = t;
      reason = if gone then archived_existing else existing;
      is_archived = gone;
      priority = record {
        lifecycle = lifecycle;
        match_type = match_type_rank t;
        website_id = w.id;
      };
    }

abbrev pub add_match : Website → Option MatchType → List WebsiteMatch → List WebsiteMatch
add_match w none matches = matches
add_match w (some t) matches = match_of w t ∷ matches

abbrev pub matches_among : Urls → String → String → List Website → List WebsiteMatch
matches_among u url target_origin [] = []
matches_among u url target_origin (w ∷ ws) =
    add_match w (match_type_for u w url target_origin) (matches_among u url target_origin ws)

abbrev pub by_id : Website → Website → Bool
by_id v w = ltb v.id w.id

abbrev pub by_priority : WebsiteMatch → WebsiteMatch → Bool
by_priority a b = before a.priority b.priority

unfoldable pub find_website_matches : Urls → List Website → String → List WebsiteMatch
find_website_matches u websites url =
    if str_eq (u.canonical_url url) ""
    then []
    else sort by_priority (matches_among u url (canonical_origin u url) (sort by_id websites))

unfoldable pub find_website_match : Urls → List Website → String → Option WebsiteMatch
find_website_match u websites url = first (find_website_matches u websites url)
