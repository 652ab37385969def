-- ===== src/Access/LastAdmin.antt =====
-- The site is never left without an active Super Administrator.
use web_scraping_event_appli.Prelude.{
  ℕ, str_eq, Bool, true, false, ◌||◌, some, List, [], ◌∷◌, ◌++◌, any, ◌==◌, ◌≡◌, refl, arith,
  Bool-cases, inl, inr, Option-cases, subst, ◌∙◌, ap, ==_iff,
}
use web_scraping_event_appli.Access.{
  Role, Roles, User, user_has_role, is_super_admin, super_administrator, count_active_super_admins,
  is_not_last_super_admin, Answer, done, raised, get_user, replace, activated, deactivated, granted,
  revoked, deleted, without, Request, activate, deactivate, delete_account, assign, revoke, answer,
  answer_for, user_of,
}

module _ (roles : Roles) where
  -- Some active user holds the role.
  abbrev pub is_administered : List User → Bool
  is_administered = any (is_super_admin roles)

  administered-append :
      (us vs : List User) → is_administered (us ++ vs) ≡ (is_administered us || is_administered vs)
  administered-append [] vs = refl
  administered-append (u ∷ us) vs = ground (arith, administered-append us vs)

  counted_administer :
      (id : ℕ) (users : List User)
      → (count_active_super_admins roles users id == 0) ≡ false
      → is_administered users ≡ true
  unfolding count_active_super_admins
  counted_administer id [] h = absurd cc
  counted_administer id (u ∷ us) h = ground (arith, counted_administer id us)

  others_administer :
      (id : ℕ) (rows : User → List User) (users : List User)
      → (count_active_super_admins roles users id == 0) ≡ false
      → is_administered (replace id rows users) ≡ true
  unfolding count_active_super_admins
  others_administer id rows [] h = absurd cc
  others_administer id rows (u ∷ us) h = ground (
    arith,
    others_administer id rows us,
    counted_administer id us,
    administered-append (rows u) us,
  )

  -- The rows for a user administer if the user did.
  abbrev KeepsAdmin : (User → List User) → User → Type 0
  KeepsAdmin rows u = is_super_admin roles u ≡ true → is_administered (rows u) ≡ true

  found-first :
      (id : ℕ) (u target : User) (us : List User)
      → get_user id (u ∷ us) ≡ some target
      → (u.id == id) ≡ true
      → target ≡ u
  found-first id u target us e h = ground (arith, e, h)

  replaced_administer :
      (id : ℕ) (rows : User → List User) (users : List User) (target : User)
      → get_user id users ≡ some target
      → KeepsAdmin rows target
      → is_administered users ≡ true
      → is_administered (replace id rows users) ≡ true
  replaced_administer id rows [] target e k h = h
  replaced_administer id rows (u ∷ us) target e k h = elim (Bool-cases (u.id == id)) [
    | inl hit ↦
        let here = subst (KeepsAdmin rows) (found-first id u target us e hit) k in
        ground (arith, hit, h, here, administered-append (rows u) us)
    | inr miss ↦
        ground (arith, miss, h, replaced_administer id rows us target (ground (arith, e, miss)) k)
  ]

  -- A user that the guard lets go: it is no administrator, or another one is.
  guarded_administer :
      (rows : User → List User) (users : List User) (target : User) (id : ℕ)
      → get_user id users ≡ some target
      → target.id ≡ id
      → is_administered users ≡ true
      → is_not_last_super_admin roles users target ≡ true
      → is_administered (replace id rows users) ≡ true
  unfolding is_not_last_super_admin
  guarded_administer rows users target id e same h guard =
      elim (Bool-cases (user_has_role roles target super_administrator)) [
        | inl holds ↦ others_administer id rows users (ground (arith, same, guard, holds))
        | inr lacks ↦
            replaced_administer id rows users target e (λ s. absurd (ground (arith, s, lacks))) h
      ]

  get_user-id :
      (id : ℕ) (users : List User) (target : User)
      → get_user id users ≡ some target
      → target.id ≡ id
  get_user-id id [] target e = absurd cc
  get_user-id id (u ∷ us) target e = ground (arith, e, get_user-id id us target)

  activated-KeepsAdmin : (u : User) → KeepsAdmin activated u
  unfolding user_has_role
  activated-KeepsAdmin u h = ground (arith, h)

  holds_more :
      (u : User) (role : ℕ) (ids : List ℕ)
      → user_has_role roles (record u { role_ids = ids }) super_administrator ≡ true
      → user_has_role roles (record u { role_ids = ids ++ role ∷ [] }) super_administrator ≡ true
  unfolding user_has_role
  holds_more u role [] h = absurd cc
  holds_more u role (i ∷ ids) h = ground (arith, h, holds_more u role ids)

  granted-KeepsAdmin : (role : ℕ) (u : User) → KeepsAdmin (granted role) u
  granted-KeepsAdmin role u h = ground (arith, h, holds_more u role u.role_ids)

  holds_without :
      (u : User) (role : ℕ) (row : Role) (ids : List ℕ)
      → roles role ≡ some row
      → str_eq row.name super_administrator ≡ false
      → user_has_role roles (record u { role_ids = ids }) super_administrator ≡ true
      → user_has_role roles (record u { role_ids = without role ids }) super_administrator ≡ true
  unfolding user_has_role
  holds_without u role row [] e other h = absurd cc
  holds_without u role row (i ∷ ids) e other h = elim (Bool-cases (i == role)) [
    | inl same ↦
        let same_row = ap roles ((==_iff i role).0 same) ∙ e in
        ground (arith, h, same, same_row, other, holds_without u role row ids e other)
    | inr differs ↦ ground (arith, h, differs, holds_without u role row ids e other)
  ]

  revoked-KeepsAdmin :
      (role : ℕ) (row : Role) (u : User)
      → roles role ≡ some row
      → str_eq row.name super_administrator ≡ false
      → KeepsAdmin (revoked role) u
  revoked-KeepsAdmin role row u e other h =
      ground (arith, h, holds_without u role row u.role_ids e other)

  -- A refused request has changed nothing.
  abbrev pub kept : List User → Answer → List User
  kept users (done users') = users'
  kept users (raised n) = users

  answer_for-administered :
      (users : List User) (actor target : User) (request : Request)
      → get_user (user_of request) users ≡ some target
      → is_administered users ≡ true
      → is_administered (kept users (answer_for roles users actor target request)) ≡ true
  unfolding answer_for
  answer_for-administered users actor target (activate id) e h =
      ground
        (arith, h, replaced_administer id activated users target e (activated-KeepsAdmin target) h)
  answer_for-administered users actor target (deactivate id) e h =
      ground (
        arith,
        h,
        guarded_administer deactivated users target id e (get_user-id id users target e) h,
      )
  answer_for-administered users actor target (delete_account id) e h =
      ground
        (arith, h, guarded_administer deleted users target id e (get_user-id id users target e) h)
  answer_for-administered users actor target (assign id role) e h = ground (
    arith,
    h,
    replaced_administer id (granted role) users target e (granted-KeepsAdmin role target) h,
  )
  answer_for-administered users actor target (revoke id role) e h =
      elim (Option-cases (roles role)) [
        | inl unknown ↦ ground (arith, h, unknown)
        | inr (row, known) ↦
            let guarded =
              guarded_administer (revoked role) users target id e (get_user-id id users target e)
                h in
            elim (Bool-cases (str_eq row.name super_administrator)) [
              | inl admin ↦ ground (arith, h, known, admin, guarded)
              | inr other ↦ ground (
                arith,
                h,
                known,
                other,
                replaced_administer id (revoked role) users target e
                    (revoked-KeepsAdmin role row target known other) h,
              )
            ]
      ]

  unfoldable pub answer_all : List (User × Request) → List User → List User
  answer_all [] users = users
  answer_all ((actor, request) ∷ rest) users =
      answer_all rest (kept users (answer roles users actor request))

  answer-administered :
      (users : List User) (actor : User) (request : Request)
      → is_administered users ≡ true
      → is_administered (kept users (answer roles users actor request)) ≡ true
  unfolding answer
  answer-administered users actor request h =
      elim (Option-cases (get_user (user_of request) users)) [
        | inl unknown ↦ ground (arith, h, unknown)
        | inr (target, found) ↦
            ground (arith, h, found, answer_for-administered users actor target request found h)
      ]

  -- However users are activated, deactivated, deleted, given roles or stripped of them, by whom and
  -- in whatever order: a site with an active Super Administrator keeps one.
  pub answer_all-administered :
      (requests : List (User × Request)) (users : List User)
      → is_administered users ≡ true
      → is_administered (answer_all requests users) ≡ true
  unfolding answer_all
  answer_all-administered [] users h = h
  answer_all-administered ((actor, request) ∷ rest) users h =
      answer_all-administered rest _ (answer-administered users actor request h)
