-- ===== src/Users/Service/Roles.antt =====
-- Setting the roles of a user: the rows of the join table, and the cached rules.
use nestjs_app.Prelude.{
  ℕ, ◌≡◌, refl, ap, inl, inr, String, Bool, true, false, not, ◌&&◌, Option, none, some, List, [],
  ◌∷◌, ◌++◌, map, arith, str_eq, eq_iff, eq_refl, ◌==◌, length, if◌then◌else◌, any, keep, find?,
  Bool-cases,
}
use nestjs_app.Result.{Result, ok, err, http, not_found}
use nestjs_app.Db.{Db, Documented, User, Role, UserRole}
use nestjs_app.Users.JoinRows.{distinct, missing_ids, unknown_ids}
use nestjs_app.Users.JoinRows.Sets.{IsDistinct}
use nestjs_app.Users.JoinRows.Laws.{IsJoinTable, replace_join_rows_lem}
use nestjs_app.Users.Lookup.{
  UserWithRoles, live_with_id, role_of, find_with_roles_by_id, find_with_roles_or_fail,
}
use nestjs_app.Users.Create.{user_role, user_roles_table, assign_roles}
use nestjs_app.Permissions.Cache.{Backend, World, IsRedis}
use nestjs_app.Permissions.{
  granted, rule_of, distinct_rules, load_permission_rules, invalidate_user, safe_del,
}
use nestjs_app.Permissions.Coherence.{Coherent, AffectsOnly, Deletes, Coherent-invalidate_user}
use nestjs_app.Users.Service.{set_roles}
use nestjs_app.Roles.Removal.{has_role, keep_cong}

pub user_roles_table-IsJoinTable :
    (user_id : String) (now : ℕ) → IsJoinTable (user_roles_table user_id now)
unfolding user_roles_table
user_roles_table-IsJoinTable user_id now = record {
  rows-write = λ rows db. refl;
  write-write = λ rows rows' db. refl;
  owner-write = λ rows db. refl;
  of_owner-create = λ id. eq_refl user_id;
  same_key-create = λ a b. ground (arith, eq_refl user_id);
  same_key-owner =
      λ a row e. ground (arith, eq_iff user_id row.user_id, eq_iff row.user_id user_id);
}

-- The rows after the roles of a user are replaced.
abbrev replaced_links : String → ℕ → List String → List UserRole → List UserRole
replaced_links user_id now ids rows =
    keep (λ (ur : UserRole). not (str_eq ur.user_id user_id)) rows
    ++ map (user_role user_id now) ids

has_role-created :
    (user_id other role_id : String) (now : ℕ) (ids : List String)
    → str_eq other user_id ≡ false
    → has_role other role_id (map (user_role user_id now) ids) ≡ false
has_role-created user_id other role_id now [] e = refl
has_role-created user_id other role_id now (id ∷ ids) e = ground (
  arith,
  has_role-created user_id other role_id now ids,
  eq_iff user_id other,
  eq_iff other user_id,
)

-- The other users keep their roles.
has_role-replaced :
    (user_id other role_id : String) (now : ℕ) (ids : List String) (rows : List UserRole)
    → str_eq other user_id ≡ false
    → has_role other role_id (replaced_links user_id now ids rows) ≡ has_role other role_id rows
has_role-replaced user_id other role_id now ids [] e =
    has_role-created user_id other role_id now ids e
has_role-replaced user_id other role_id now ids (ur ∷ rows) e = ground (
  arith,
  has_role-replaced user_id other role_id now ids rows e,
  eq_iff ur.user_id user_id,
  eq_iff ur.user_id other,
  eq_iff other user_id,
)

any_cong : {A : Type 0} (p q : A → Bool) (xs : List A) → ((x : A) → p x ≡ q x) → any p xs ≡ any q xs
any_cong p q [] h = refl
any_cong p q (x ∷ xs) h = rw (h x, any_cong p q xs h)

module _ (b : Backend) (documented : Documented b.orm) (laws : IsRedis b.redis) where
  open b use {orm, redis}

  -- The database after the roles of the user are replaced.
  abbrev pub with_roles_of : String → List String → ℕ → Db → Db
  with_roles_of id ids now db = record db {
    user_roles = replaced_links id now (distinct ids) db.user_roles;
  }

  abbrev pub unknown_roles : List String → Db → List String
  unknown_roles ids db = missing_ids (map (λ (r : Role). r.id) db.roles) (distinct ids)

  abbrev pub HasUniqueRoleIds : Db → Type 0
  HasUniqueRoleIds db = IsDistinct (map (λ (r : Role). r.id) db.roles)

  with_roles_of-AffectsOnly :
      (id : String) (ids : List String) (now : ℕ) (db : Db)
      → AffectsOnly b documented laws (id ∷ []) db (with_roles_of id ids now db)
  unfolding load_permission_rules
  with_roles_of-AffectsOnly id ids now db other clear =
      rw (documented.find_lem, documented.find_lem)
        (ap (λ ps. distinct_rules (map rule_of ps))
          (keep_cong (granted (with_roles_of id ids now db) other) (granted db other) db.permissions
            (λ p. any_cong _ _ db.role_permissions (λ rp.
              ap (λ reached. str_eq rp.permission_id p.id && reached)
                (has_role-replaced id other rp.role_id now (distinct ids) db.user_roles
                  (ground arith))))))

  replace-settle :
      (id : String) (ids : List String) (now : ℕ) (db : Db)
      → HasUniqueRoleIds db
      → any (λ (u : User). str_eq u.id id) db.users ≡ true
      → orm.transaction (assign_roles orm id ids now) db ≡ (
          if 0 == length (unknown_roles ids db)
          then (ok tt, with_roles_of id ids now db)
          else (err (unknown_ids "role" (unknown_roles ids db)), db))
  unfolding assign_roles user_roles_table
  replace-settle id ids now db unique exists =
      rw
        (
          documented.transaction_lem,
          replace_join_rows_lem orm documented (user_roles_table id now)
              (user_roles_table-IsJoinTable id now) ids db unique exists,
        )
        (elim (Bool-cases (0 == length (unknown_roles ids db))) [ inl e ↦ rw e | inr e ↦ rw e ])

  -- The world after the roles are set and the user is invalidated.
  abbrev pub after_roles : String → List String → ℕ → World b → World b
  after_roles id ids now w =
      (invalidate_user b id (record w { db = with_roles_of id ids now w.db })).1

  -- What `findWithRolesOrFail` answers.
  abbrev pub answer_for : Option User → Db → Result UserWithRoles
  answer_for none db = err (http not_found "User not found")
  answer_for (some user) db =
      ok (record { user = user; roles = keep (role_of db.user_roles user.id) db.roles })

  abbrev pub user_answer : String → Db → Result UserWithRoles
  user_answer id db = answer_for (find? (live_with_id id) db.users) db

  find_or_fail-lem :
      (id : String) (db : Db) (found : Option User)
      → find? (live_with_id id) db.users ≡ found
      → find_with_roles_or_fail orm id db ≡ (answer_for found db, db)
  unfolding find_with_roles_or_fail find_with_roles_by_id
  find_or_fail-lem id db none e = rw (documented.find_one_lem, e)
  find_or_fail-lem id db (some user) e = rw (documented.find_one_lem, e, documented.find_lem)

  set_roles-known :
      (id : String) (ids : List String) (now : ℕ) (w : World b)
      → HasUniqueRoleIds w.db
      → any (λ (u : User). str_eq u.id id) w.db.users ≡ true
      → (0 == length (unknown_roles ids w.db)) ≡ true
      → set_roles b id ids now w
        ≡ (user_answer id (with_roles_of id ids now w.db), after_roles id ids now w)
  unfolding set_roles invalidate_user safe_del
  set_roles-known id ids now w unique exists known = rw (
    replace-settle id ids now w.db unique exists,
    known,
    find_or_fail-lem id (with_roles_of id ids now w.db) _ refl,
  )

  set_roles-unknown :
      (id : String) (ids : List String) (now : ℕ) (w : World b)
      → HasUniqueRoleIds w.db
      → any (λ (u : User). str_eq u.id id) w.db.users ≡ true
      → (0 == length (unknown_roles ids w.db)) ≡ false
      → set_roles b id ids now w ≡ (err (unknown_ids "role" (unknown_roles ids w.db)), w)
  unfolding set_roles
  set_roles-unknown id ids now w unique exists unknown =
      rw (replace-settle id ids now w.db unique exists, unknown)

  -- For a user whose row is stored, deleted or not, and roles with distinct ids: unknown roles are
  -- refused by name and nothing is written; otherwise the links of the user are one for each
  -- distinct id, the cache is changed as the invalidation of the user does, and no other row is
  -- changed. This holds for a deleted user too, who is then answered by "User not found".
  pub set_roles_lem :
      (id : String) (ids : List String) (now : ℕ) (w : World b)
      → HasUniqueRoleIds w.db
      → any (λ (u : User). str_eq u.id id) w.db.users ≡ true
      → set_roles b id ids now w ≡ (
          if 0 == length (unknown_roles ids w.db)
          then (user_answer id (with_roles_of id ids now w.db), after_roles id ids now w)
          else (err (unknown_ids "role" (unknown_roles ids w.db)), w))
  set_roles_lem id ids now w unique exists =
      elim (Bool-cases (0 == length (unknown_roles ids w.db))) [
        | inl known ↦ rw (set_roles-known id ids now w unique exists known, known)
        | inr unknown ↦ rw (set_roles-unknown id ids now w unique exists unknown, unknown)
      ]

  -- If the cache is coherent, the ids of the roles are distinct, the user's row is stored and the
  -- delete of the user's key succeeds, the cache is coherent after the roles of the user are set,
  -- and after setting them is refused.
  pub set_roles-Coherent :
      (id : String) (ids : List String) (now : ℕ) (w : World b)
      → HasUniqueRoleIds w.db
      → any (λ (u : User). str_eq u.id id) w.db.users ≡ true
      → Coherent b documented laws w
      → Deletes b documented laws (id ∷ []) w
      → Coherent b documented laws (set_roles b id ids now w).1
  set_roles-Coherent id ids now w unique exists h d =
      elim (Bool-cases (0 == length (unknown_roles ids w.db))) [
        | inl known ↦ rw (set_roles-known id ids now w unique exists known) (
            Coherent-invalidate_user b documented laws id w (with_roles_of id ids now w.db) h d
              (with_roles_of-AffectsOnly id ids now w.db))
        | inr unknown ↦ rw (set_roles-unknown id ids now w unique exists unknown) h
      ]
