-- ===== src/Json.antt =====
-- The JSON columns of the models (`dict[str, Any] | None`), as Python reads them.
use web_scraping_event_appli.Prelude.{
  ℕ, String, str_eq, Bool, true, false, not, Option, none, some, if◌then◌else◌, ◌==◌,
}

mutual
  -- A float keeps the text it is stored as: the modelled code only passes it on.
  pub data Json : Type 0 where
    null : Json
    bool : Bool → Json
    num : ℕ → Json
    float : String → Json
    str : String → Json
    arr : Items → Json
    obj : Fields → Json

  pub data Items : Type 0 where
    nil : Items
    cons : Json → Items → Items

  pub data Fields : Type 0 where
    end : Fields
    field : String → Json → Fields → Fields

-- `bool(value)`.
abbrev pub truthy : Json → Bool
truthy null = false
truthy (bool b) = b
truthy (num n) = not (n == 0)
truthy (float s) = not (str_eq s "0.0")
truthy (str s) = not (str_eq s "")
truthy (arr nil) = false
truthy (arr (cons x xs)) = true
truthy (obj end) = false
truthy (obj (field k v fs)) = true

-- `bool(column)`, for a column that may be None.
abbrev pub present : Option Json → Bool
present none = false
present (some j) = truthy j

-- `fields.get(key)`.
abbrev pub get_field : String → Fields → Option Json
get_field k end = none
get_field k (field j v fs) = let rest = get_field k fs in if str_eq j k then some v else rest

-- `column is not None`.
abbrev pub is_some {ℓ} : {A : Type ℓ} → Option A → Bool
is_some none = false
is_some (some a) = true
