-- ===== src/Pagination/Walk.antt =====
-- backend/app/services/extraction_runs.py: the page loop over a listing or an endpoint.
use web_scraping_event_appli.Prelude.{
  ℕ, zero, suc, ◌+◌, ◌-◌, String, Bool, true, false, not, ◌&&◌, ◌||◌, Option, none, some, List, [],
  ◌∷◌, ◌++◌, is_empty, length, take, ltb, if◌then◌else◌,
}
use web_scraping_event_appli.Json.{is_some}
use web_scraping_event_appli.Pagination.{Web, PaginationConfig, FetchResponse}
use web_scraping_event_appli.Pagination.Strategies.{next_request}

-- A request of the configuration, with its method, headers, query and body, or of a later page.
pub record FetchRequest : Type 0 where
  pub url : String
  pub is_configured : Bool

pub data Warning : Type 0 where
  stopped_at_block : String → Warning
  unexpected_content_type : Option String → Warning
  max_events_reached no_new_records max_pages_reached : Warning

-- The variables of the loop. `fetches` counts the requests.
pub record Pages (C : Type 0) : Type 0 where
  pub candidates : List C
  pub warnings : List Warning
  pub response_hash_by_page : List (String × String)
  pub visited_urls : List String
  pub seen_hashes : List String
  pub first_response : Option FetchResponse
  pub response : Option FetchResponse
  pub last_ok_response : Option FetchResponse
  pub page_index : ℕ
  pub max_events_reached : Bool
  pub fetches : ℕ

abbrev pub or_else : Option FetchResponse → FetchResponse → Option FetchResponse
or_else none r = some r
or_else (some first) r = some first

-- The fetch of the request with a number, whether a content type is allowed, and the pattern.
module _ {C : Type 0} (w : Web) (fetch : ℕ → FetchRequest → FetchResponse)
    (content_type_allowed : Option String → Bool) (extract : FetchResponse → List C) where
  abbrev pub warned : Warning → Pages C → Pages C
  warned x s = record s { warnings = s.warnings ++ (x ∷ []) }

  abbrev pub received : FetchResponse → Pages C → Pages C
  received r s = record s {
    response = some r;
    first_response = or_else s.first_response r;
    fetches = s.fetches + 1;
  }

  -- A block on a later page ends the walk with the pages before it.
  abbrev pub stopped_by_block : String → Pages C → Pages C
  stopped_by_block reason s =
      if not (is_empty s.candidates) && is_some s.last_ok_response
      then record s {
        warnings = s.warnings ++ (stopped_at_block reason ∷ []);
        response = s.last_ok_response;
      }
      else s

  abbrev pub visited : FetchResponse → Pages C → Pages C
  visited r s = record s {
    visited_urls = r.final_url ∷ s.visited_urls;
    seen_hashes = r.body_hash ∷ s.seen_hashes;
  }

  abbrev pub gathered : PaginationConfig → FetchResponse → Pages C → Pages C
  gathered c r s =
      let page_candidates = extract r in
      let over = ltb c.max_events (length s.candidates + length page_candidates) in
      record s {
        response_hash_by_page = (r.final_url, r.body_hash) ∷ s.response_hash_by_page;
        last_ok_response = some r;
        candidates =
            s.candidates
            ++ (if over
                then take (c.max_events - length s.candidates) page_candidates
                else page_candidates);
        max_events_reached = over || s.max_events_reached;
      }

  abbrev pub advanced : Pages C → Option String → Pages C × Option FetchRequest
  advanced s none = (s, none)
  advanced s (some url) = (
    record s { page_index = s.page_index + 1 },
    some (record { url = url; is_configured = false }),
  )

  unfoldable pub ok_page :
      PaginationConfig → FetchResponse → Pages C → Pages C × Option FetchRequest
  ok_page c r s =
      let s' = gathered c r s in
      if s'.max_events_reached
      then (visited r (warned max_events_reached s'), none)
      else advanced (visited r s') (next_request w c r s'.page_index s'.visited_urls s'.seen_hashes)

  -- One turn of the loop: the variables, and the next request if the loop goes on.
  unfoldable pub turn : PaginationConfig → FetchResponse → Pages C → Pages C × Option FetchRequest
  turn c r s =
      let s' = received r s in
      elim r.blocked_reason [
        | some reason ↦ (stopped_by_block reason s', none)
        | none ↦
            if not (content_type_allowed r.content_type)
            then (warned (unexpected_content_type r.content_type) s', none)
            else ok_page c r s'
      ]

  -- The loop, cut off after `fuel` turns.
  unfoldable pub walk : (fuel : ℕ) → PaginationConfig → FetchRequest → Pages C → Option (Pages C)
  walk zero c request s = none
  walk (suc fuel) c request s =
      let s' = turn c (fetch s.fetches request) s in
      elim s'.1 [ none ↦ some s'.0 | some next ↦ walk fuel c next s'.0 ]

  abbrev pub no_pages : Pages C
  no_pages = record {
    candidates = [];
    warnings = [];
    response_hash_by_page = [];
    visited_urls = [];
    seen_hashes = [];
    first_response = none;
    response = none;
    last_ok_response = none;
    page_index = 0;
    max_events_reached = false;
    fetches = 0;
  }

  unfoldable pub fetch_legacy_pages :
      (fuel : ℕ) → PaginationConfig → (request_url : String) → Option (Pages C)
  fetch_legacy_pages fuel c request_url =
      walk fuel c (record { url = request_url; is_configured = true }) no_pages
