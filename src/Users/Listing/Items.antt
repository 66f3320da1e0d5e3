-- ===== src/Users/Listing/Items.antt =====
-- Each listed user comes with the roles of that user.
use nestjs_app.Prelude.{
  ℕ, suc, ◌*◌, ◌-◌, ◌≡◌, refl, ap, String, Bool, true, false, ◌&&◌, none, some, List, [], ◌∷◌, map,
  arith, str_eq, eq_iff, eq_refl, any, keep, length, ◌==◌, if◌then◌else◌, All, inl, inr, Bool-cases,
}
use nestjs_app.Db.{Orm, Db, Documented, User, Role}
use nestjs_app.Users.Lookup.{UserWithRoles, is_live, live_with_id, role_of}
use nestjs_app.Users.JoinRows.{has}
use nestjs_app.Users.Listing.{
  with_own_roles, ListUsersQueryDto, Query, or_default, matches, load_users_with_roles, get_last,
  or_empty, find_all,
}

-- What the documentation says of the rows of a page: they are stored, and pass the filter.
pub record IsQuery (query : Query) : Type 0 where
  pub rows-live :
      (p : User → Bool) (skip take : ℕ) (users : List User)
      → All
          (λ (user : User). any (λ stored. p stored && str_eq stored.id user.id) users ≡ true)
          (query.find_and_count p skip take users).rows

suc-eq-zero : (n : ℕ) → (suc n == 0) ≡ false
suc-eq-zero n = ground arith

module _ (orm : Orm) (documented : Documented orm) (query : Query) (is_query : IsQuery query) where
  abbrev pub roles_of : Db → String → List Role
  roles_of db id = keep (role_of db.user_roles id) db.roles

  abbrev pub own_roles : Db → User → UserWithRoles
  own_roles db user = record { user = user; roles = roles_of db user.id }

  get_last-map :
      (id : String) (db : Db) (us : List User)
      → get_last id (map (own_roles db) us)
        ≡ (if any (λ u. str_eq u.id id) us then some (roles_of db id) else none)
  get_last-map id db [] = refl
  get_last-map id db (u ∷ us) = elim (Bool-cases (str_eq u.id id)) [
    | inl same ↦ rw (get_last-map id db us, same, (eq_iff u.id id).0 same) (ground arith)
    | inr differs ↦ rw (get_last-map id db us, differs) (ground arith)
  ]

  any-keep :
      (id : String) (ids : List String) (users : List User)
      → any (live_with_id id) users ≡ true
      → has id ids ≡ true
      → any (λ u. str_eq u.id id) (keep (λ user. is_live user && has user.id ids) users) ≡ true
  any-keep id ids [] h k = absurd (ground arith)
  any-keep id ids (u ∷ users) h k = ground (arith, any-keep id ids users, eq_iff u.id id)

  own_if_stored :
      (p : User → Bool) (user : User) (users : List User)
      → any (λ stored. (is_live stored && p stored) && str_eq stored.id user.id) users ≡ true
      → any (live_with_id user.id) users ≡ true
  own_if_stored p user [] h = absurd (ground arith)
  own_if_stored p user (u ∷ users) h = ground (arith, own_if_stored p user users)

  map-own_roles :
      (db : Db) (us : List User) → map (with_own_roles orm query db) us ≡ map (own_roles db) us
  map-own_roles db [] = refl
  map-own_roles db (u ∷ us) =
      rw (documented.find_lem (role_of db.user_roles u.id) db.roles, map-own_roles db us)

  loaded-roles :
      (id : String) (ids : List String) (db : Db)
      → any (live_with_id id) db.users ≡ true
      → has id ids ≡ true
      → get_last id (load_users_with_roles orm query ids db) ≡ some (roles_of db id)
  unfolding load_users_with_roles
  loaded-roles id [] db h k = absurd (ground arith)
  loaded-roles id (x ∷ ids) db h k = rw (
    suc-eq-zero (length ids),
    map-own_roles db,
    documented.find_lem (λ (user : User). is_live user && has user.id (x ∷ ids)) db.users,
    get_last-map id db (keep (λ (user : User). is_live user && has user.id (x ∷ ids)) db.users),
    any-keep id (x ∷ ids) db.users h k,
  )

  -- Every user of the page is stored and among the page's ids.
  items-own :
      (db : Db) (ids : List String) (p : User → Bool) (us : List User)
      → ((user : User) → has user.id (map (λ (u : User). u.id) us) ≡ true → has user.id ids ≡ true)
      → All
          (λ (user : User).
            any (λ stored. (is_live stored && p stored) && str_eq stored.id user.id) db.users
            ≡ true)
          us
      → map
          (λ (user : User). record {
            user = user;
            roles = or_empty (get_last user.id (load_users_with_roles orm query ids db));
          })
          us
        ≡ map (own_roles db) us
  items-own db ids p [] sub h = refl
  items-own db ids p (u ∷ us) sub (stored, h) = rw (
    loaded-roles u.id ids db (own_if_stored p u db.users stored)
        (sub u (ground (arith, eq_refl u.id))),
    items-own db ids p us (λ user k. sub user (ground arith)) h,
  )

  -- Of whatever stored rows a page consists, the answer lists them in their order, each with the roles
  -- that the user is linked to, with the total, and with the page and the limit or 1 and 10.
  pub find_all-items :
      (dto : ListUsersQueryDto) (db : Db)
      → let page = or_default 1 dto.page in
        let limit = or_default 10 dto.limit in
        let found =
          query.find_and_count
            (λ user. is_live user && matches orm query dto.q user)
            ((page - 1) * limit)
            limit
            db.users in
        find_all orm query dto db ≡ record {
          items = map (own_roles db) found.rows;
          total = found.count;
          page = page;
          limit = limit;
        }
  unfolding find_all
  find_all-items dto db =
      let page = or_default 1 dto.page in
      let limit = or_default 10 dto.limit in
      let found =
        query.find_and_count (λ user. is_live user && matches orm query dto.q user)
          ((page - 1) * limit) limit db.users in
      ap
        (λ (items : List UserWithRoles). record {
          items = items;
          total = found.count;
          page = page;
          limit = limit;
        })
        (items-own db (map (λ (u : User). u.id) found.rows) (matches orm query dto.q) found.rows
          (λ user k. k) (is_query.rows-live _ _ _ db.users))
