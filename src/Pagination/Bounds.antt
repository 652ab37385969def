-- ===== src/Pagination/Bounds.antt =====
-- The page loop of services/extraction_runs.py ends, within the configured pages and events.
use web_scraping_event_appli.Prelude.{
  ℕ, zero, suc, ◌+◌, ◌-◌, ◌≤◌, ◌<◌, String, Bool, true, not, ◌&&◌, Option, none, some, List,
  is_empty, length, length-append, take, length-take-le, ltb, if◌then◌else◌, ◌≡◌, refl, ap, arith,
  Bool-cases, inl, inr,
}
use web_scraping_event_appli.Json.{is_some}
use web_scraping_event_appli.Pagination.{Web, PaginationConfig, FetchResponse}
use web_scraping_event_appli.Pagination.Strategies.{next_request}
use web_scraping_event_appli.Pagination.Requests.{next_request_lem}
use web_scraping_event_appli.Pagination.Walk.{
  FetchRequest, Pages, unexpected_content_type, warned, received, stopped_by_block, gathered,
  advanced, ok_page, turn, walk, no_pages, fetch_legacy_pages,
}

-- Another request is made only before the last of the allowed pages.
more_pages :
    (w : Web) (c : PaginationConfig) (r : FetchResponse) (page_index : ℕ) (vs hs : List String)
    (url : String)
    → next_request w c r page_index vs hs ≡ some url
    → page_index + 1 < c.max_pages
more_pages w c r page_index vs hs url e = (next_request_lem w c r page_index vs hs url e).1

module _ {C : Type 0} (w : Web) (fetch : ℕ → FetchRequest → FetchResponse)
    (content_type_allowed : Option String → Bool) (extract : FetchResponse → List C)
    (c : PaginationConfig) where
  abbrev Fits : Pages C → Type 0
  Fits s = length s.candidates ≤ c.max_events

  gathered-Fits :
      (r : FetchResponse) (s : Pages C)
      → Fits s
      → Fits (gathered w fetch content_type_allowed extract c r s)
  gathered-Fits r s f =
      elim (Bool-cases (ltb c.max_events (length s.candidates + length (extract r)))) [
        | inl over ↦
            rw
              (
                over,
                length-append s.candidates (take (c.max_events - length s.candidates) (extract r)),
                length-take-le (c.max_events - length s.candidates) (extract r)
                    (ground (arith, over)),
              )
              (omega (arith, f))
        | inr within ↦ rw (within, length-append s.candidates (extract r)) (ground (arith, within))
      ]

  -- A turn fetches once and keeps the candidates within the limit; it goes on only before the last
  -- of the allowed pages.
  abbrev IsTurn : Pages C → Pages C × Option FetchRequest → Type 0
  IsTurn s (s', none) = Fits s' × (s'.fetches ≡ s.fetches + 1)
  IsTurn s (s', some next) =
      Fits s'
      × (s'.fetches ≡ s.fetches + 1)
      × (s'.page_index ≡ s.page_index + 1)
      × (s.page_index + 1 < c.max_pages)

  advanced-IsTurn :
      (s s' : Pages C) (o : Option String)
      → Fits s'
      → s'.fetches ≡ s.fetches + 1
      → s'.page_index ≡ s.page_index
      → ((url : String) → o ≡ some url → s.page_index + 1 < c.max_pages)
      → IsTurn s (advanced w fetch content_type_allowed extract s' o)
  advanced-IsTurn s s' none f n i m = (f, n)
  advanced-IsTurn s s' (some url) f n i m = (f, n, ap (λ k. k + 1) i, m url refl)

  ok_page-IsTurn :
      (r : FetchResponse) (s s' : Pages C)
      → Fits s'
      → s'.fetches ≡ s.fetches + 1
      → s'.page_index ≡ s.page_index
      → IsTurn s (ok_page w fetch content_type_allowed extract c r s')
  unfolding ok_page
  ok_page-IsTurn r s s' f n i =
      let g = gathered w fetch content_type_allowed extract c r s' in
      elim (Bool-cases (g.max_events_reached)) [
        | inl t ↦ rw t (gathered-Fits r s' f, n)
        | inr t ↦ rw t (
            advanced-IsTurn s _ (next_request w c r s'.page_index s'.visited_urls s'.seen_hashes)
              (gathered-Fits r s' f) n i
              (λ url e.
                omega
                  (arith, more_pages w c r s'.page_index s'.visited_urls s'.seen_hashes url e, i)))
      ]

  blocked-IsTurn :
      (reason : String) (s s' : Pages C)
      → Fits s'
      → s'.fetches ≡ s.fetches + 1
      → IsTurn s (stopped_by_block w fetch content_type_allowed extract reason s', none)
  blocked-IsTurn reason s s' f n =
      elim (Bool-cases (not (is_empty s'.candidates) && is_some s'.last_ok_response)) [
        | inl t ↦ rw t (f, n)
        | inr t ↦ rw t (f, n)
      ]

  turn-IsTurn :
      (r : FetchResponse) (s : Pages C)
      → Fits s
      → IsTurn s (turn w fetch content_type_allowed extract c r s)
  unfolding turn
  turn-IsTurn r s f = go r.blocked_reason
    where
      s1 : Pages C
      s1 = received w fetch content_type_allowed extract r s

      go :
          (o : Option String)
          → IsTurn s (elim o as (λ x. Pages C × Option FetchRequest) [
            | some reason ↦ (stopped_by_block w fetch content_type_allowed extract reason s1, none)
            | none ↦
                if not (content_type_allowed r.content_type)
                then (
                  warned w fetch content_type_allowed extract
                      (unexpected_content_type r.content_type)
                      s1,
                  none,
                )
                else ok_page w fetch content_type_allowed extract c r s1
          ])
      go (some reason) = blocked-IsTurn reason s s1 f refl
      go none = elim (Bool-cases (content_type_allowed r.content_type)) [
        | inl t ↦ rw t (ok_page-IsTurn r s s1 f refl refl)
        | inr t ↦ rw t (f, refl)
      ]

  -- The walk has ended, with at most the allowed pages fetched and events gathered.
  abbrev pub IsWalked : Option (Pages C) → Type 0
  IsWalked none = ⊥
  IsWalked (some s) = (s.fetches ≤ c.max_pages) × (length s.candidates ≤ c.max_events)

  walk-IsWalked :
      (fuel : ℕ) (request : FetchRequest) (s : Pages C)
      → Fits s
      → s.fetches ≡ s.page_index
      → s.page_index < c.max_pages
      → c.max_pages ≤ s.page_index + fuel
      → IsWalked (walk w fetch content_type_allowed extract fuel c request s)
  unfolding walk
  walk-IsWalked zero request s f n lt le = absurd (omega (arith, lt, le))
  walk-IsWalked (suc fuel) request s f n lt le =
      go (turn w fetch content_type_allowed extract c (fetch s.fetches request) s).0
        (turn w fetch content_type_allowed extract c (fetch s.fetches request) s).1
        (turn-IsTurn (fetch s.fetches request) s f)
        (λ next s' f' n' lt' le'. walk-IsWalked fuel next s' f' n' lt' le')
    where
      go :
          (s' : Pages C) (o : Option FetchRequest)
          → IsTurn s (s', o)
          → ((next : FetchRequest) (t : Pages C)
              → Fits t
              → t.fetches ≡ t.page_index
              → t.page_index < c.max_pages
              → c.max_pages ≤ t.page_index + fuel
              → IsWalked (walk w fetch content_type_allowed extract fuel c next t))
          → IsWalked (elim o as (λ x. Option (Pages C)) [
            | none ↦ some s'
            | some next ↦ walk w fetch content_type_allowed extract fuel c next s'
          ])
      go s' none t rest = (omega (arith, t.1, n, lt), t.0)
      go s' (some next) t rest =
          rest next s' t.0 (omega (arith, t.1, t.2, n)) (omega (arith, t.2, t.3))
            (omega (arith, t.2, le))

  -- If pages are allowed, the walk over the pages of a source ends within as many requests as those,
  -- with no more events than allowed, whatever the source answers.
  pub fetch_legacy_pages-IsWalked :
      (url : String)
      → 0 < c.max_pages
      → IsWalked (fetch_legacy_pages w fetch content_type_allowed extract c.max_pages c url)
  unfolding fetch_legacy_pages
  fetch_legacy_pages-IsWalked url some_pages =
      walk-IsWalked c.max_pages (record { url = url; is_configured = true })
        (no_pages w fetch content_type_allowed extract) (omega arith) refl some_pages (omega arith)
