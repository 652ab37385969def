-- ===== src/Pagination.antt =====
-- backend/app/extraction/pagination.py and patterns/paged_json_events.py: which page follows a page.
-- The reading of URLs, HTML and JSON texts is given. A JSON number is a natural number here.
pub mod Strategies
pub mod Walk
pub mod Bounds
pub mod Requests
pub mod Recipe
use web_scraping_event_appli.Prelude.{
  ℕ, zero, suc, ◌+◌, ◌-◌, ◌*◌, ◌≤◌, String, str_eq, Bool, true, false, not, ◌&&◌, ◌||◌, Option,
  none, some, List, [], ◌∷◌, any, ltb, leb, if◌then◌else◌,
}
use web_scraping_event_appli.Json.{
  Json, null, bool, num, float, str, arr, obj, Items, nil, cons, Fields, end, field, get_field,
}

pub data ℤ : Type 0 where
  pos : ℕ → ℤ
  negsuc : ℕ → ℤ

abbrev pub add_nat : ℤ → ℕ → ℤ
add_nat (pos m) n = pos (m + n)
add_nat (negsuc m) n = if leb (m + 1) n then pos (n - (m + 1)) else negsuc (m - n)

abbrev pub ltb_int : ℤ → ℤ → Bool
ltb_int (pos m) (pos n) = ltb m n
ltb_int (pos m) (negsuc n) = false
ltb_int (negsuc m) (pos n) = true
ltb_int (negsuc m) (negsuc n) = ltb n m

pub data PaginationStrategy : Type 0 where
  none_strategy query_param wordpress next_link tribe_rest livewhale_offset path_page :
      PaginationStrategy
  page_metadata_strategy : PaginationStrategy

pub record FetchResponse : Type 0 where
  pub final_url : String
  pub body_hash : String
  pub text : String
  pub total_pages_header : Option String
  pub content_type : Option String
  pub blocked_reason : Option String

-- `config.pagination`, and `config.json_paths["events_root"]`.
pub record PaginationConfig : Type 0 where
  pub strategy : PaginationStrategy
  pub page_param : Option String
  pub next_page_selector : Option String
  pub page_path_template : Option String
  pub max_pages : ℕ
  pub max_events : ℕ
  pub events_root : Option String

-- `validate_request_url`, `_next_url_with_param`, `template.replace("{page}", ...)`, the `href` of
-- `select_one`, `urljoin`, `parse_qs(...).get(...)[0]`, `int`, `json.loads` and `norm_key`.
pub record Web : Type 0 where
  pub safe_or_none : String → Option String
  pub next_url_with_param : String → String → ℤ → String
  pub fill_template : String → ℕ → String
  pub select_href : String → String → Option String
  pub urljoin : String → String → String
  pub query_value : String → String → Option String
  pub int : String → Option ℤ
  pub json_loads : String → Option Json
  pub norm_key : String → String

unfoldable pub stop_conditions_met :
    FetchResponse → ℕ → PaginationConfig → (visited_urls seen_body_hashes : List String) → Bool
stop_conditions_met r page_index c visited_urls seen_body_hashes =
    leb c.max_pages (page_index + 1)
    || (any (str_eq r.body_hash) seen_body_hashes || any (str_eq r.final_url) visited_urls)

-- `config.pagination.page_param or default`.
abbrev pub param_or : Option String → String → String
param_or none default = default
param_or (some p) default = if str_eq p "" then default else p

abbrev pub int_of : Web → Option String → Option ℤ
int_of w none = none
int_of w (some s) = if str_eq s "" then none else w.int s

abbrev pub items_length : Items → ℕ
items_length nil = 0
items_length (cons j js) = suc (items_length js)

abbrev pub count_of : Option Json → ℕ
count_of (some (arr items)) = items_length items
count_of _ = 0

-- The number of the events of a LiveWhale body, 0 if it has no list of them.
abbrev pub livewhale_count : Json → ℕ
livewhale_count (obj fields) = count_of (get_field "events" fields)
livewhale_count (arr items) = items_length items
livewhale_count _ = 0

abbrev pub current_offset : Option ℤ → ℤ
current_offset none = pos 0
current_offset (some n) = n

abbrev pub query_int : Web → Option String → Option ℤ
query_int w none = none
query_int w (some s) = w.int s

-- `merged[key] = value`: an entry keeps its place.
abbrev pub set_field : String → Json → Fields → Fields
set_field k v end = field k v end
set_field k v (field j u rest) =
    let rest' = set_field k v rest in if str_eq j k then field j v rest else field j u rest'

abbrev pub merge : Fields → Fields → Fields
merge merged end = merged
merge merged (field k v rest) = merge (set_field k v merged) rest

-- `norm_key(key) in PAGE_METADATA_CONTAINERS`.
abbrev pub is_container : String → Bool
is_container k = any (str_eq k) ("meta" ∷ "pagination" ∷ "paging" ∷ "pageinfo" ∷ "page" ∷ [])

abbrev pub merge_nested : Bool → Json → Fields → Fields
merge_nested true (obj fields) merged = merge merged fields
merge_nested _ _ merged = merged

abbrev pub nested : Web → Fields → Fields → Fields
nested w end merged = merged
nested w (field k v rest) merged =
    nested w rest (merge_nested (is_container (w.norm_key k)) v merged)

unfoldable pub page_metadata : Web → Fields → Fields
page_metadata w payload = merge (nested w payload end) payload

-- `by_norm.get(name)`: the last of the keys with this normal form.
abbrev pub by_norm : Web → String → Fields → Option Json
by_norm w name end = none
by_norm w name (field k v rest) = elim (by_norm w name rest) [
  | some later ↦ some later
  | none ↦ if str_eq (w.norm_key k) name then some v else none
]

unfoldable pub metadata_int : Web → Fields → List String → Option ℕ
metadata_int w fields [] = none
metadata_int w fields (name ∷ names) =
    let rest = metadata_int w fields names in
    elim (by_norm w name fields) [ some (num n) ↦ some n | _ ↦ rest ]

abbrev pub is_bool : Bool → Option Json → Bool
is_bool true (some (bool b)) = b
is_bool false (some (bool b)) = not b
is_bool _ _ = false

abbrev pub is_empty_list : Option Json → Bool
is_empty_list (some (arr nil)) = true
is_empty_list _ = false

-- `total is not None and page >= total`, or `page > total` for pages that are counted from 1.
abbrev pub is_past : ℤ → Option ℕ → Bool
is_past page none = false
is_past page (some total) = not (ltb_int page (pos total))

abbrev pub is_beyond : ℤ → Option ℕ → Bool
is_beyond page none = false
is_beyond page (some total) = ltb_int (pos total) page

abbrev pub stop_or : Bool → ℤ → Option ℤ
stop_or true page = none
stop_or false page = some page

-- The page after the one that the URL names; the first page is 0, and a text that is no number
-- stops the walk.
abbrev pub after_query : Web → Option ℕ → Option String → Option ℤ
after_query w total none = stop_or (is_past (pos 1) total) (pos 1)
after_query w total (some s) = elim (w.int s) [
  | none ↦ none
  | some n ↦ stop_or (is_past (add_nat n 1) total) (add_nat n 1)
]

abbrev pub metadata_page :
    Web → FetchResponse → PaginationConfig → (total zero_based one_based : Option ℕ) → Option ℤ
metadata_page w r c total (some n) one_based = stop_or (is_past (pos (n + 1)) total) (pos (n + 1))
metadata_page w r c total none (some n) = stop_or (is_beyond (pos (n + 1)) total) (pos (n + 1))
metadata_page w r c total none none =
    after_query w total (w.query_value r.final_url (param_or c.page_param "page"))
