-- ===== src/Pagination/Requests.antt =====
-- What every strategy of extraction/pagination.py guarantees of a following request.
use web_scraping_event_appli.Prelude.{
  ℕ, ◌+◌, ◌<◌, String, str_eq, Bool, true, false, Option, none, some, List, [], ◌∷◌, any, ◌≡◌, refl,
  arith, ◌∙◌,
}
use web_scraping_event_appli.Pagination.{
  Web, PaginationConfig, FetchResponse, stop_conditions_met, PaginationStrategy, none_strategy,
  query_param, wordpress, next_link, tribe_rest, livewhale_offset, path_page,
  page_metadata_strategy, page_metadata, metadata_int, metadata_page,
}
use web_scraping_event_appli.Json.{get_field}
use web_scraping_event_appli.Pagination.Strategies.{
  dict_of, text_of, ◌>>=◌, ◌>>◌, stop_if, is_visited, none_request, query_param_request,
  wordpress_request, next_link_request, tribe_rest_request, livewhale_offset_request,
  path_page_request, page_metadata_request, build_pagination_strategy, next_request,
}

-- The URL has passed the safety check and is not one of those visited.
pub record IsSafeNew (w : Web) (visited_urls : List String) (url : String) : Type 0 where
  pub proposed : String
  pub safe : w.safe_or_none proposed ≡ some url
  pub unseen : any (str_eq url) visited_urls ≡ false

-- The steps of an early-returning function that returned a value.
step :
    {A B : Type 0}
    → (o : Option A) (f : A → Option B) (b : B) → (o >>= f) ≡ some b
    → (a : A) × (o ≡ some a) × (f a ≡ some b)
step none f b e = cc
step (some a) f b e = (a, refl, e)

passed :
    {B : Type 0}
    → (t : Bool) (m : Option B) (b : B) → (stop_if t >> m) ≡ some b
    → (t ≡ false) × (m ≡ some b)
passed true m b e = cc
passed false m b e = (refl, e)

module _ (w : Web) (c : PaginationConfig) (r : FetchResponse) (page_index : ℕ) (vs hs : List String)
    (url : String) where
  abbrev pub IsNext : Type 0
  IsNext =
      IsSafeNew w vs url
      × (page_index + 1 < c.max_pages)
      × (any (str_eq r.body_hash) hs ≡ false)
      × (any (str_eq r.final_url) vs ≡ false)

  IsSafeNew-last :
      (next_url : String)
      → (do safe_url ← w.safe_or_none next_url; stop_if (is_visited safe_url vs); some safe_url)
        ≡ some url
      → IsSafeNew w vs url
  IsSafeNew-last next_url e =
      let (safe_url, safe, rest) = step (w.safe_or_none next_url) _ url e in
      let (unseen, same) = passed (is_visited safe_url vs) _ url rest in
      record { proposed = next_url; safe = safe ∙ same; unseen = ground (arith, unseen, same) }

  IsNext-last : stop_conditions_met r page_index c vs hs ≡ false → IsSafeNew w vs url → IsNext
  unfolding stop_conditions_met
  IsNext-last t safe = (safe, ground (arith, t), ground (arith, t), ground (arith, t))

  query_param-IsNext : query_param_request w c r page_index vs hs ≡ some url → IsNext
  unfolding query_param_request
  query_param-IsNext e = let (t, rest) = passed _ _ url e in IsNext-last t (IsSafeNew-last _ rest)

  wordpress-IsNext : wordpress_request w c r page_index vs hs ≡ some url → IsNext
  unfolding wordpress_request
  wordpress-IsNext e =
      let (t, rest) = passed _ _ url e in
      let (within, rest1) = passed _ _ url rest in IsNext-last t (IsSafeNew-last _ rest1)

  next_link-IsNext :
      (selector : Option String)
      → next_link_request w c r page_index vs hs selector ≡ some url
      → IsNext
  unfolding next_link_request
  next_link-IsNext selector e =
      let (s, named, rest) = step selector _ url e in
      let (t, rest1) = passed _ _ url rest in
      let (href, found, rest2) = step (w.select_href r.text s) _ url rest1 in
      let (filled, rest3) = passed _ _ url rest2 in IsNext-last t (IsSafeNew-last _ rest3)

  tribe_rest-IsNext : tribe_rest_request w c r page_index vs hs ≡ some url → IsNext
  unfolding tribe_rest_request
  tribe_rest-IsNext e =
      let (t, rest) = passed _ _ url e in
      let (payload, read, rest1) = step (w.json_loads r.text) _ url rest in
      let (fields, is_dict, rest2) = step (dict_of payload) _ url rest1 in
      let (next, is_text, rest3) = step (text_of (get_field "next_rest_url" fields)) _ url rest2 in
      let (filled, rest4) = passed _ _ url rest3 in IsNext-last t (IsSafeNew-last _ rest4)

  livewhale-IsNext : livewhale_offset_request w c r page_index vs hs ≡ some url → IsNext
  unfolding livewhale_offset_request
  livewhale-IsNext e =
      let (t, rest) = passed _ _ url e in
      let (payload, read, rest1) = step (w.json_loads r.text) _ url rest in
      let (counted, rest2) = passed _ _ url rest1 in IsNext-last t (IsSafeNew-last _ rest2)

  path_page-IsNext :
      (template : Option String)
      → path_page_request w c r page_index vs hs template ≡ some url
      → IsNext
  unfolding path_page_request
  path_page-IsNext template e =
      let (s, named, rest) = step template _ url e in
      let (filled, rest1) = passed _ _ url rest in
      let (t, rest2) = passed _ _ url rest1 in IsNext-last t (IsSafeNew-last _ rest2)

  page_metadata-IsNext : page_metadata_request w c r page_index vs hs ≡ some url → IsNext
  unfolding page_metadata_request
  page_metadata-IsNext e =
      let (t, rest) = passed _ _ url e in
      let (payload, read, rest1) = step (w.json_loads r.text) _ url rest in
      let (fields, is_dict, rest2) = step (dict_of payload) _ url rest1 in
      let (not_last, rest3) = passed _ _ url rest2 in
      let (filled, rest4) = passed _ _ url rest3 in
      let metadata = page_metadata w fields in
      let (page, counted, rest5) =
        step
          (metadata_page w r c
            (metadata_int w metadata ("totalpages" ∷ "pagecount" ∷ "pages" ∷ "lastpage" ∷ []))
            (metadata_int w metadata ("number" ∷ []))
            (metadata_int w metadata ("page" ∷ "pagenumber" ∷ "currentpage" ∷ "pageindex" ∷ [])))
          _ url rest4 in
      IsNext-last t (IsSafeNew-last _ rest5)

  strategy-IsNext :
      (s : PaginationStrategy)
      → build_pagination_strategy w c r page_index vs hs s ≡ some url
      → IsNext
  unfolding build_pagination_strategy none_request
  strategy-IsNext none_strategy e = cc
  strategy-IsNext query_param e = query_param-IsNext e
  strategy-IsNext wordpress e = wordpress-IsNext e
  strategy-IsNext next_link e = next_link-IsNext c.next_page_selector e
  strategy-IsNext tribe_rest e = tribe_rest-IsNext e
  strategy-IsNext livewhale_offset e = livewhale-IsNext e
  strategy-IsNext path_page e = path_page-IsNext c.page_path_template e
  strategy-IsNext page_metadata_strategy e = page_metadata-IsNext e

-- Of each of the strategies, a following request goes to a URL that is safe and not among those
-- visited before the current page, from a page that is not the last allowed one and whose own URL
-- and body are not among those seen before it.
pub next_request_lem :
    (w : Web) (c : PaginationConfig) (r : FetchResponse) (page_index : ℕ) (vs hs : List String)
    (url : String)
    → next_request w c r page_index vs hs ≡ some url
    → IsSafeNew w vs url
      × (page_index + 1 < c.max_pages)
      × (any (str_eq r.body_hash) hs ≡ false)
      × (any (str_eq r.final_url) vs ≡ false)
unfolding next_request
next_request_lem w c r page_index vs hs url e =
    strategy-IsNext w c r page_index vs hs url c.strategy e
