-- ===== src/Access.antt =====
-- backend/app/services/rbac.py, and the account and role operations of routers/admin.py and
-- services/account_deletion.py. Audit entries and flash messages are not modelled.
pub mod LastAdmin
use web_scraping_event_appli.Prelude.{
  ℕ, String, str_eq, Bool, true, false, not, ◌&&◌, ◌||◌, Option, none, some, List, [], ◌∷◌, ◌++◌,
  if◌then◌else◌, any, all, select, length, ltb, ◌==◌,
}

pub record Role : Type 0 where
  pub name : String
  pub is_active : Bool
  pub permissions : List String

-- A user, with the ids of its roles.
pub record User : Type 0 where
  pub id : ℕ
  pub is_active : Bool
  pub role_ids : List ℕ

-- The role rows, by id.
abbrev pub Roles : Type 0
Roles = ℕ → Option Role

abbrev pub row_is : (Role → Bool) → Option Role → Bool
row_is test none = false
row_is test (some r) = test r

abbrev pub super_administrator : String
super_administrator = "Super Administrator"

abbrev pub is_elevated : String → Bool
is_elevated name = str_eq name super_administrator || str_eq name "Administrator"

unfoldable pub user_has_role : Roles → User → String → Bool
user_has_role roles u name =
    any (λ id. row_is (λ r. str_eq r.name name && r.is_active) (roles id)) u.role_ids

unfoldable pub user_has_permission : Roles → User → String → Bool
user_has_permission roles u code =
    any (λ id. row_is (λ r. r.is_active && any (str_eq code) r.permissions) (roles id)) u.role_ids

unfoldable pub can_access_admin : Roles → Option User → Bool
can_access_admin roles none = false
can_access_admin roles (some u) =
    any (λ id. row_is (λ r. r.is_active && ltb 0 (length r.permissions)) (roles id)) u.role_ids

unfoldable pub can_assign_role : Roles → (actor : User) → Role → Bool
unfolding user_has_role
can_assign_role roles actor target =
    if is_elevated target.name then user_has_role roles actor super_administrator else true

unfoldable pub can_manage_user : Roles → (actor target : User) → Bool
unfolding can_assign_role
can_manage_user roles actor target =
    all (λ id. not (row_is (λ r. not (can_assign_role roles actor r)) (roles id))) target.role_ids

abbrev pub is_super_admin : Roles → User → Bool
is_super_admin roles u = u.is_active && user_has_role roles u super_administrator

unfoldable pub count_active_super_admins : Roles → List User → (exclude_user_id : ℕ) → ℕ
count_active_super_admins roles users exclude =
    length (select (λ u. is_super_admin roles u && not (u.id == exclude)) users)

-- `assert_not_last_super_admin` does not raise.
unfoldable pub is_not_last_super_admin : Roles → List User → User → Bool
is_not_last_super_admin roles users u =
    if not (user_has_role roles u super_administrator)
    then true
    else not (count_active_super_admins roles users u.id == 0)

pub data Answer : Type 0 where
  done : List User → Answer
  raised : (status_code : ℕ) → Answer

abbrev pub get_user : ℕ → List User → Option User
get_user id [] = none
get_user id (u ∷ us) = let rest = get_user id us in if u.id == id then some u else rest

-- The row with the id gives way to these rows.
abbrev pub replace : ℕ → (User → List User) → List User → List User
replace id rows [] = []
replace id rows (u ∷ us) =
    let rest = replace id rows us in if u.id == id then rows u ++ us else u ∷ rest

abbrev pub has_number : ℕ → List ℕ → Bool
has_number n = any (λ m. m == n)

abbrev pub without : ℕ → List ℕ → List ℕ
without n = select (λ m. not (m == n))

abbrev pub activated : User → List User
activated u = record u { is_active = true } ∷ []

abbrev pub deactivated : User → List User
deactivated u = record u { is_active = false } ∷ []

abbrev pub granted : ℕ → User → List User
granted role u = record u { role_ids = u.role_ids ++ role ∷ [] } ∷ []

abbrev pub revoked : ℕ → User → List User
revoked role u = record u { role_ids = without role u.role_ids } ∷ []

abbrev pub deleted : User → List User
deleted u = []

-- What an administrator asks for, of the user with the id; and a user's deletion of its account.
pub data Request : Type 0 where
  activate deactivate delete_account : (user : ℕ) → Request
  assign revoke : (user role : ℕ) → Request

unfoldable pub answer_for : Roles → List User → (actor target : User) → Request → Answer
answer_for roles users actor target (activate id) =
    if not (can_manage_user roles actor target)
    then raised 403
    else done (replace id activated users)
answer_for roles users actor target (deactivate id) =
    if not (can_manage_user roles actor target)
    then raised 403
    else if not (is_not_last_super_admin roles users target)
    then raised 403
    else done (replace id deactivated users)
answer_for roles users actor target (delete_account id) =
    if not (is_not_last_super_admin roles users target)
    then raised 403
    else done (replace id deleted users)
answer_for roles users actor target (assign id role) = elim (roles role) [
  | none ↦ raised 404
  | some row ↦
      if not row.is_active
      then raised 409
      else if not (can_assign_role roles actor row)
      then raised 403
      else if has_number role target.role_ids
      then done users
      else done (replace id (granted role) users)
]
answer_for roles users actor target (revoke id role) = elim (roles role) [
  | none ↦ raised 404
  | some row ↦
      if not (has_number role target.role_ids)
      then done users
      else if not (can_assign_role roles actor row)
      then raised 403
      else if str_eq row.name super_administrator
          && not (is_not_last_super_admin roles users target)
      then raised 403
      else done (replace id (revoked role) users)
]

abbrev pub user_of : Request → ℕ
user_of (activate id) = id
user_of (deactivate id) = id
user_of (delete_account id) = id
user_of (assign id role) = id
user_of (revoke id role) = id

-- `require_permission` of the route; an account is deleted by its own user.
abbrev pub is_permitted : Roles → User → Request → Bool
is_permitted roles actor (activate id) = user_has_permission roles actor "users.update"
is_permitted roles actor (deactivate id) = user_has_permission roles actor "users.update"
is_permitted roles actor (delete_account id) = actor.id == id
is_permitted roles actor (assign id role) = user_has_permission roles actor "roles.manage"
is_permitted roles actor (revoke id role) = user_has_permission roles actor "roles.manage"

unfoldable pub answer : Roles → List User → (actor : User) → Request → Answer
answer roles users actor request =
    if not (is_permitted roles actor request)
    then raised 403
    else (elim (get_user (user_of request) users) [
      | none ↦ raised 404
      | some target ↦ answer_for roles users actor target request
    ])
