-- ===== src/Pagination/Recipe.antt =====
-- backend/app/services/extraction_runs.py: the page loop of a captured request recipe. The rendering
-- of the recipe, the fetch and the pattern are given; a candidate is known by its record's hash. `max_events` is that of `config.pagination`.
use web_scraping_event_appli.Prelude.{
  ℕ, zero, suc, ◌+◌, ◌-◌, ◌*◌, ◌≤◌, ◌<◌, String, str_eq, Bool, true, false, not, ◌||◌, Option, none,
  some, List, [], ◌∷◌, ◌++◌, any, select, is_empty, length, length-append, take, length-take-le,
  ltb, leb, if◌then◌else◌, ◌≡◌, refl, ap, arith, Bool-cases, inl, inr,
}
use web_scraping_event_appli.Json.{is_some}
use web_scraping_event_appli.Pagination.{FetchResponse}
use web_scraping_event_appli.Pagination.Walk.{
  Warning, unexpected_content_type, max_events_reached, no_new_records, max_pages_reached, or_else,
}

pub data RecipeKind : Type 0 where
  no_pages by_offset by_page : RecipeKind

pub record RecipePagination : Type 0 where
  pub kind : RecipeKind
  pub limit : ℕ
  pub max_pages : ℕ

-- The variables of the loop. `fetches` counts the requests.
pub record RecipePages (C : Type 0) : Type 0 where
  pub candidates : List C
  pub warnings : List Warning
  pub seen_hashes : List String
  pub first_response : Option FetchResponse
  pub response : Option FetchResponse
  pub page_index : ℕ
  pub reached : Bool
  pub fetches : ℕ

module _ {C : Type 0} (fetch : (page_offset page_number : ℕ) → FetchResponse)
    (content_type_allowed : Option String → Bool) (extract : FetchResponse → List C)
    (raw_record_hash : C → String) (total_of : FetchResponse → Option ℕ) (r : RecipePagination)
    (max_events : ℕ) where
  abbrev pub hashes : List C → List String
  hashes [] = []
  hashes (c ∷ cs) = raw_record_hash c ∷ hashes cs

  abbrev pub is_new : List String → C → Bool
  is_new seen c = not (any (str_eq (raw_record_hash c)) seen)

  abbrev pub with_warning : Warning → RecipePages C → RecipePages C
  with_warning x s = record s { warnings = s.warnings ++ (x ∷ []) }

  abbrev pub add_new : List C → RecipePages C → RecipePages C
  add_new fresh s =
      let over = ltb max_events (length s.candidates + length fresh) in
      record s {
        seen_hashes = hashes fresh ++ s.seen_hashes;
        candidates =
            s.candidates ++ (if over then take (max_events - length s.candidates) fresh else fresh);
        reached = over || s.reached;
      }

  abbrev pub has_pages : RecipeKind → Bool
  has_pages no_pages = false
  has_pages _ = true

  abbrev pub is_total : ℕ → Option ℕ → Bool
  is_total records none = false
  is_total records (some total) = leb total records

  -- The stop conditions after a page, and whether the loop goes on.
  abbrev pub after_page :
      FetchResponse → (records fresh : List C) → RecipePages C → RecipePages C × Bool
  after_page response records fresh s =
      if s.reached
      then (with_warning max_events_reached s, false)
      else if not (has_pages r.kind) || is_empty records
      then (s, false)
      else if is_empty fresh
      then (with_warning no_new_records s, false)
      else if ltb (length records) r.limit
      then (s, false)
      else if is_total ((s.page_index + 1) * r.limit) (total_of response)
      then (s, false)
      else if leb r.max_pages (s.page_index + 1)
      then (with_warning max_pages_reached s, false)
      else (record s { page_index = s.page_index + 1 }, true)

  abbrev pub recipe_received : FetchResponse → RecipePages C → RecipePages C
  recipe_received response s = record s {
    response = some response;
    first_response = or_else s.first_response response;
    fetches = s.fetches + 1;
  }

  unfoldable pub recipe_turn : FetchResponse → RecipePages C → RecipePages C × Bool
  recipe_turn response s =
      let s1 = recipe_received response s in
      if is_some response.blocked_reason
      then (s1, false)
      else if not (content_type_allowed response.content_type)
      then (with_warning (unexpected_content_type response.content_type) s1, false)
      else (let fresh = select (is_new s1.seen_hashes) (extract response) in
          after_page response (extract response) fresh (add_new fresh s1))

  -- The loop, cut off after `fuel` turns.
  unfoldable pub fetch_recipe_pages : (fuel : ℕ) → RecipePages C → Option (RecipePages C)
  fetch_recipe_pages zero s = none
  fetch_recipe_pages (suc fuel) s =
      let t = recipe_turn (fetch (s.page_index * r.limit) (s.page_index + 1)) s in
      let rest = fetch_recipe_pages fuel t.0 in if t.1 then rest else some t.0

  abbrev Fits : RecipePages C → Type 0
  Fits s = length s.candidates ≤ max_events

  add_new-Fits : (fresh : List C) (s : RecipePages C) → Fits s → Fits (add_new fresh s)
  add_new-Fits fresh s f = elim (Bool-cases (ltb max_events (length s.candidates + length fresh))) [
    | inl over ↦
        rw
          (
            over,
            length-append s.candidates (take (max_events - length s.candidates) fresh),
            length-take-le (max_events - length s.candidates) fresh (ground (arith, over)),
          )
          (omega (arith, f))
    | inr within ↦ rw (within, length-append s.candidates fresh) (ground (arith, within))
  ]

  -- A turn fetches once; it goes on only before the last of the allowed pages.
  abbrev IsTurn : RecipePages C → RecipePages C × Bool → Type 0
  IsTurn s (s', false) = Fits s' × (s'.fetches ≡ s.fetches + 1)
  IsTurn s (s', true) =
      Fits s'
      × (s'.fetches ≡ s.fetches + 1)
      × (s'.page_index ≡ s.page_index + 1)
      × (s.page_index + 1 < r.max_pages)

  stop_or_go :
      (s x : RecipePages C) (b : Bool) (y : RecipePages C × Bool)
      → Fits x
      → x.fetches ≡ s.fetches + 1
      → (b ≡ false → IsTurn s y)
      → IsTurn s (if b then (x, false) else y)
  stop_or_go s x true y f n go = (f, n)
  stop_or_go s x false y f n go = go refl

  after_page-IsTurn :
      (response : FetchResponse) (records fresh : List C) (s s' : RecipePages C)
      → Fits s'
      → s'.fetches ≡ s.fetches + 1
      → s'.page_index ≡ s.page_index
      → IsTurn s (after_page response records fresh s')
  after_page-IsTurn response records fresh s s' f n i = stop_or_go s _ s'.reached _ f n λ _.
      stop_or_go s s' (not (has_pages r.kind) || is_empty records) _ f n λ _.
        stop_or_go s _ (is_empty fresh) _ f n λ _.
          stop_or_go s s' (ltb (length records) r.limit) _ f n λ _.
            stop_or_go s s' (is_total ((s'.page_index + 1) * r.limit) (total_of response)) _ f n
              λ _.
                stop_or_go s _ (leb r.max_pages (s'.page_index + 1)) _ f n
                  λ e. (f, n, ap (λ k. k + 1) i, ground (arith, e, i))

  recipe_turn-IsTurn :
      (response : FetchResponse) (s : RecipePages C) → Fits s → IsTurn s (recipe_turn response s)
  unfolding recipe_turn
  recipe_turn-IsTurn response s f = stop_or_go s _ (is_some response.blocked_reason) _ f refl λ _.
      stop_or_go s _ (not (content_type_allowed response.content_type)) _ f refl λ _.
        let fresh = select (is_new s.seen_hashes) (extract response) in
        let s1 = recipe_received response s in
        after_page-IsTurn response (extract response) fresh s (add_new fresh s1)
          (add_new-Fits fresh s1 f) refl refl

  -- The walk has ended, with at most the allowed pages fetched and events gathered.
  abbrev pub IsRecipeWalked : Option (RecipePages C) → Type 0
  IsRecipeWalked none = ⊥
  IsRecipeWalked (some s) = (s.fetches ≤ r.max_pages) × (length s.candidates ≤ max_events)

  recipe-IsRecipeWalked :
      (fuel : ℕ) (s : RecipePages C)
      → Fits s
      → s.fetches ≡ s.page_index
      → s.page_index < r.max_pages
      → r.max_pages ≤ s.page_index + fuel
      → IsRecipeWalked (fetch_recipe_pages fuel s)
  unfolding fetch_recipe_pages
  recipe-IsRecipeWalked zero s f n lt le = absurd (omega (arith, lt, le))
  recipe-IsRecipeWalked (suc fuel) s f n lt le =
      go (recipe_turn (fetch (s.page_index * r.limit) (s.page_index + 1)) s)
        (recipe_turn-IsTurn (fetch (s.page_index * r.limit) (s.page_index + 1)) s f)
        (λ s' f' n' lt' le'. recipe-IsRecipeWalked fuel s' f' n' lt' le')
    where
      go :
          (t : RecipePages C × Bool)
          → IsTurn s t
          → ((s' : RecipePages C)
              → Fits s'
              → s'.fetches ≡ s'.page_index
              → s'.page_index < r.max_pages
              → r.max_pages ≤ s'.page_index + fuel
              → IsRecipeWalked (fetch_recipe_pages fuel s'))
          → IsRecipeWalked (if t.1 then fetch_recipe_pages fuel t.0 else some t.0)
      go (s', false) t rest = (omega (arith, t.1, n, lt), t.0)
      go (s', true) t rest =
          rest s' t.0 (omega (arith, t.1, t.2, n)) (omega (arith, t.2, t.3))
            (omega (arith, t.2, le))

  abbrev pub no_recipe_pages : RecipePages C
  no_recipe_pages = record {
    candidates = [];
    warnings = [];
    seen_hashes = [];
    first_response = none;
    response = none;
    page_index = 0;
    reached = false;
    fetches = 0;
  }

  -- If pages are allowed, the walk of a recipe ends within as many requests as those, with no more
  -- events than allowed, whatever the source answers.
  pub fetch_recipe_pages-IsRecipeWalked :
      0 < r.max_pages → IsRecipeWalked (fetch_recipe_pages r.max_pages no_recipe_pages)
  fetch_recipe_pages-IsRecipeWalked some_pages =
      recipe-IsRecipeWalked r.max_pages no_recipe_pages (omega arith) refl some_pages (omega arith)
