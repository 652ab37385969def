-- ===== src/Pagination/Strategies.antt =====
-- backend/app/extraction/pagination.py: the strategies, one function for `next_request` of each class,
-- with the checks of that class in its order, and the choice between them.
use web_scraping_event_appli.Prelude.{
  ℕ, zero, suc, ◌+◌, String, str_eq, Bool, true, false, ◌||◌, Option, none, some, List, [], ◌∷◌,
  any,
}
use web_scraping_event_appli.Json.{Json, str, obj, Fields, get_field}
use web_scraping_event_appli.Pagination.{
  ℤ, pos, add_nat, ltb_int, PaginationStrategy, none_strategy, query_param, wordpress, next_link,
  tribe_rest, livewhale_offset, path_page, page_metadata_strategy, FetchResponse, PaginationConfig,
  Web, stop_conditions_met, param_or, int_of, livewhale_count, current_offset, query_int,
  page_metadata, metadata_int, is_bool, is_empty_list, metadata_page,
}

-- A step that may return None early.
infixl 5 ◌>>=◌ ◌>>◌
abbrev pub ◌>>=◌ : {A B : Type 0} → Option A → (A → Option B) → Option B
none >>= f = none
some a >>= f = f a

abbrev pub ◌>>◌ : {B : Type 0} → Option (Unit {0}) → Option B → Option B
m >> k = m >>= λ _. k

-- `if condition: return None`.
abbrev pub stop_if : Bool → Option (Unit {0})
stop_if true = none
stop_if false = some tt

abbrev pub is_visited : String → List String → Bool
is_visited url visited_urls = any (str_eq url) visited_urls

-- `total_pages is not None and next_page > total_pages`.
abbrev pub exceeds : ℕ → Option ℤ → Bool
exceeds next_page none = false
exceeds next_page (some total_pages) = ltb_int total_pages (pos next_page)

-- `isinstance(payload, dict)` and `isinstance(value, str)`, with what they find.
abbrev pub dict_of : Json → Option Fields
dict_of (obj fields) = some fields
dict_of _ = none

abbrev pub text_of : Option Json → Option String
text_of (some (str s)) = some s
text_of _ = none

abbrev pub is_zero : ℕ → Bool
is_zero zero = true
is_zero (suc n) = false

module _ (w : Web) (config : PaginationConfig) (r : FetchResponse) (page_index : ℕ)
    (visited_urls seen_body_hashes : List String) where
  unfoldable pub none_request : Option String
  none_request = none

  unfoldable pub query_param_request : Option String
  query_param_request = do
    stop_if (stop_conditions_met r page_index config visited_urls seen_body_hashes)
    let page_param = param_or config.page_param "page"
    let next_page = page_index + 2
    let next_url = w.next_url_with_param r.final_url page_param (pos next_page)
    safe_url ← w.safe_or_none next_url
    stop_if (is_visited safe_url visited_urls)
    some safe_url

  unfoldable pub wordpress_request : Option String
  wordpress_request = do
    stop_if (stop_conditions_met r page_index config visited_urls seen_body_hashes)
    let next_page = page_index + 2
    stop_if (exceeds next_page (int_of w r.total_pages_header))
    let page_param = param_or config.page_param "page"
    let next_url = w.next_url_with_param r.final_url page_param (pos next_page)
    safe_url ← w.safe_or_none next_url
    stop_if (is_visited safe_url visited_urls)
    some safe_url

  unfoldable pub next_link_request : Option String → Option String
  next_link_request next_page_selector = do
    selector ← next_page_selector
    stop_if (stop_conditions_met r page_index config visited_urls seen_body_hashes)
    href ← w.select_href r.text selector
    stop_if (str_eq href "")
    let next_url = w.urljoin r.final_url href
    safe_url ← w.safe_or_none next_url
    stop_if (is_visited safe_url visited_urls)
    some safe_url

  unfoldable pub tribe_rest_request : Option String
  tribe_rest_request = do
    stop_if (stop_conditions_met r page_index config visited_urls seen_body_hashes)
    payload ← w.json_loads r.text
    fields ← dict_of payload
    next_rest_url ← text_of (get_field "next_rest_url" fields)
    stop_if (str_eq next_rest_url "")
    let next_url = w.urljoin r.final_url next_rest_url
    safe_url ← w.safe_or_none next_url
    stop_if (is_visited safe_url visited_urls)
    some safe_url

  unfoldable pub livewhale_offset_request : Option String
  livewhale_offset_request = do
    stop_if (stop_conditions_met r page_index config visited_urls seen_body_hashes)
    payload ← w.json_loads r.text
    let events = livewhale_count payload
    stop_if (is_zero events)
    let offset_param = param_or config.page_param "offset"
    let offset = current_offset (query_int w (w.query_value r.final_url offset_param))
    let next_url = w.next_url_with_param r.final_url offset_param (add_nat offset events)
    safe_url ← w.safe_or_none next_url
    stop_if (is_visited safe_url visited_urls)
    some safe_url

  unfoldable pub path_page_request : Option String → Option String
  path_page_request page_path_template = do
    template ← page_path_template
    stop_if (str_eq template "")
    stop_if (stop_conditions_met r page_index config visited_urls seen_body_hashes)
    let next_page = page_index + 2
    let next_url = w.fill_template template next_page
    safe_url ← w.safe_or_none next_url
    stop_if (is_visited safe_url visited_urls)
    some safe_url

  unfoldable pub page_metadata_request : Option String
  page_metadata_request = do
    stop_if (stop_conditions_met r page_index config visited_urls seen_body_hashes)
    payload ← w.json_loads r.text
    fields ← dict_of payload
    let metadata = page_metadata w fields
    stop_if
        (is_bool true (get_field "last" metadata) || is_bool false (get_field "hasNext" metadata))
    stop_if (is_empty_list (get_field (param_or config.events_root "content") fields))
    let total_pages =
        metadata_int w metadata ("totalpages" ∷ "pagecount" ∷ "pages" ∷ "lastpage" ∷ [])
    let zero_based = metadata_int w metadata ("number" ∷ [])
    let one_based =
        metadata_int w metadata ("page" ∷ "pagenumber" ∷ "currentpage" ∷ "pageindex" ∷ [])
    next_page ← metadata_page w r config total_pages zero_based one_based
    let page_param = param_or config.page_param "page"
    let next_url = w.next_url_with_param r.final_url page_param next_page
    safe_url ← w.safe_or_none next_url
    stop_if (is_visited safe_url visited_urls)
    some safe_url

  -- The request of the strategy that a configuration names.
  unfoldable pub build_pagination_strategy : PaginationStrategy → Option String
  build_pagination_strategy none_strategy = none_request
  build_pagination_strategy query_param = query_param_request
  build_pagination_strategy wordpress = wordpress_request
  build_pagination_strategy next_link = next_link_request config.next_page_selector
  build_pagination_strategy tribe_rest = tribe_rest_request
  build_pagination_strategy livewhale_offset = livewhale_offset_request
  build_pagination_strategy path_page = path_page_request config.page_path_template
  build_pagination_strategy page_metadata_strategy = page_metadata_request

-- `build_pagination_strategy(config).next_request(...)`.
unfoldable pub next_request :
    Web
    → PaginationConfig
    → FetchResponse
    → (page_index : ℕ) (visited_urls seen_body_hashes : List String) → Option String
next_request w config r page_index visited_urls seen_body_hashes =
    build_pagination_strategy w config r page_index visited_urls seen_body_hashes config.strategy
