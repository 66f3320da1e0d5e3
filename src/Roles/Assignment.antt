-- ===== src/Roles/Assignment.antt =====
-- Setting the permissions of a role: the rows of the join table, and the cached rules.
use nestjs_app.Prelude.{
  ℕ, ◌≡◌, refl, inl, inr, String, true, false, not, ◌&&◌, some, List, [], ◌∷◌, ◌++◌, map, arith,
  str_eq, eq_iff, eq_refl, ◌==◌, length, if◌then◌else◌, any, keep, find?, find?-holds, find?-any,
  Bool-cases,
}
use nestjs_app.Result.{ok, err}
use nestjs_app.Db.{Db, Documented, Role, Permission, RolePermission, UserRole}
use nestjs_app.Result.{◌>>◌}
use nestjs_app.Users.JoinRows.{distinct, missing_ids, unknown_ids, replace_join_rows}
use nestjs_app.Users.JoinRows.Sets.{IsDistinct}
use nestjs_app.Users.JoinRows.Laws.{IsJoinTable, replace_join_rows_lem}
use nestjs_app.Permissions.Cache.{Backend, World, IsRedis}
use nestjs_app.Permissions.{find_user_ids_with_role, invalidate_users, safe_del_batch}
use nestjs_app.Permissions.Coherence.{Coherent, Deletes, Coherent-invalidate_users}
use nestjs_app.Roles.{
  RoleWithPermissions, permission_of, has_role_id, role_permission, role_permissions_table,
  find_role_by_id, get_or_throw, assert_mutable, set_permissions,
}
use nestjs_app.Roles.Removal.{has_role, AffectsOnly-role}

pub role_permissions_table-IsJoinTable :
    (role_id : String) (now : ℕ) → IsJoinTable (role_permissions_table role_id now)
unfolding role_permissions_table
role_permissions_table-IsJoinTable role_id now = record {
  rows-write = λ rows db. refl;
  write-write = λ rows rows' db. refl;
  owner-write = λ rows db. refl;
  of_owner-create = λ id. eq_refl role_id;
  same_key-create = λ a b. ground (arith, eq_refl role_id);
  same_key-owner =
      λ a row e. ground (arith, eq_iff role_id row.role_id, eq_iff row.role_id role_id);
}

-- The rows after the permissions of a role are replaced.
abbrev replaced_grants : String → ℕ → List String → List RolePermission → List RolePermission
replaced_grants role_id now ids rows =
    keep (λ (rp : RolePermission). not (str_eq rp.role_id role_id)) rows
    ++ map (role_permission role_id now) ids

any-created :
    (role_id : String) (now : ℕ) (ids : List String) (user_id permission_id : String)
    (links : List UserRole)
    → has_role user_id role_id links ≡ false
    → any
        (λ rp. str_eq rp.permission_id permission_id && has_role user_id rp.role_id links)
        (map (role_permission role_id now) ids)
      ≡ false
any-created role_id now [] user_id permission_id links h = refl
any-created role_id now (id ∷ ids) user_id permission_id links h =
    rw h (ground (arith, any-created role_id now ids user_id permission_id links h))

-- Users without the role are granted what they were.
any-replaced :
    (role_id : String) (now : ℕ) (ids : List String) (user_id permission_id : String)
    (links : List UserRole) (rows : List RolePermission)
    → has_role user_id role_id links ≡ false
    → any
        (λ rp. str_eq rp.permission_id permission_id && has_role user_id rp.role_id links)
        (replaced_grants role_id now ids rows)
      ≡ any (λ rp. str_eq rp.permission_id permission_id && has_role user_id rp.role_id links) rows
any-replaced role_id now ids user_id permission_id links [] h =
    any-created role_id now ids user_id permission_id links h
any-replaced role_id now ids user_id permission_id links (rp ∷ rows) h =
    elim (Bool-cases (str_eq rp.role_id role_id)) [
      | inl e ↦
          rw (e, (eq_iff rp.role_id role_id).0 e, h)
            (ground (arith, any-replaced role_id now ids user_id permission_id links rows h))
      | inr e ↦ rw (e, any-replaced role_id now ids user_id permission_id links rows h)
    ]

module _ (b : Backend) (documented : Documented b.orm) (laws : IsRedis b.redis) where
  open b use {orm}

  -- The database after the permissions of the role are replaced.
  abbrev pub with_permissions_of : String → List String → ℕ → Db → Db
  with_permissions_of id ids now db = record db {
    role_permissions = replaced_grants id now (distinct ids) db.role_permissions;
  }

  abbrev pub unknown_permissions : List String → Db → List String
  unknown_permissions ids db =
      missing_ids (map (λ (p : Permission). p.id) db.permissions) (distinct ids)

  abbrev pub HasUniquePermissionIds : Db → Type 0
  HasUniquePermissionIds db = IsDistinct (map (λ (p : Permission). p.id) db.permissions)

  -- The transaction replaces the rows, or refuses the ids and writes nothing.
  replace-settle :
      (id : String) (ids : List String) (now : ℕ) (db : Db)
      → HasUniquePermissionIds db
      → any (has_role_id id) db.roles ≡ true
      → orm.transaction (replace_join_rows orm (role_permissions_table id now) ids) db ≡ (
          if 0 == length (unknown_permissions ids db)
          then (ok tt, with_permissions_of id ids now db)
          else (err (unknown_ids "permission" (unknown_permissions ids db)), db))
  unfolding role_permissions_table
  replace-settle id ids now db unique exists =
      rw
        (
          documented.transaction_lem,
          replace_join_rows_lem orm documented (role_permissions_table id now)
              (role_permissions_table-IsJoinTable id now) ids db unique exists,
        )
        (elim (Bool-cases (0 == length (unknown_permissions ids db))) [
          | inl e ↦ rw e
          | inr e ↦ rw e
        ])

  role_exists :
      (id : String) (roles : List Role) {role : Role}
      → find? (has_role_id id) roles ≡ some role
      → (role.id ≡ id) × (any (has_role_id id) roles ≡ true)
  role_exists id roles {role} found = (
    (eq_iff role.id id).0 (find?-holds (has_role_id id) roles found),
    ground (arith, find?-any (has_role_id id) roles),
  )

  -- The world after the permissions are set and the users with the role are invalidated.
  abbrev pub after_set : String → List String → ℕ → World b → World b
  after_set id ids now w =
      (invalidate_users b (find_user_ids_with_role b id w.db)
        (record w { db = with_permissions_of id ids now w.db })).1

  abbrev pub role_answer : Role → Db → RoleWithPermissions
  role_answer role db = record {
    role = role;
    permissions = keep (permission_of db.role_permissions role.id) db.permissions;
  }

  get_or_throw-found :
      (id : String) (w : World b) {role : Role}
      → find? (has_role_id id) w.db.roles ≡ some role
      → get_or_throw b id w ≡ (ok (role_answer role w.db), w)
  unfolding get_or_throw find_role_by_id
  get_or_throw-found id w found = rw (documented.find_one_lem, found, documented.find_lem)

  -- The last two steps: invalidate the users, read the answer.
  answer-found :
      (user_ids : List String) (id : String) (w : World b) {role : Role}
      → find? (has_role_id id) w.db.roles ≡ some role
      → (invalidate_users b user_ids >> get_or_throw b id) w
        ≡ (ok (role_answer role w.db), (invalidate_users b user_ids w).1)
  unfolding invalidate_users safe_del_batch
  answer-found [] id w found = get_or_throw-found id w found
  answer-found (x ∷ user_ids) id w found = get_or_throw-found id _ found

  assert_mutable-own :
      (role : Role) (action : String) (w : World b)
      → role.is_system ≡ false
      → assert_mutable role action w ≡ (ok tt, w)
  unfolding assert_mutable
  assert_mutable-own role action w own = rw own

  set_permissions-known :
      (role : Role) (ids : List String) (now : ℕ) (w : World b)
      → HasUniquePermissionIds w.db
      → find? (has_role_id role.id) w.db.roles ≡ some role
      → role.is_system ≡ false
      → (0 == length (unknown_permissions ids w.db)) ≡ true
      → set_permissions b role.id ids now w ≡ (
        ok (role_answer role (with_permissions_of role.id ids now w.db)),
        after_set role.id ids now w,
      )
  unfolding set_permissions find_user_ids_with_role
  set_permissions-known role ids now w unique found own known =
      let (_, exists) = role_exists role.id w.db.roles found in
      rw
        (
          get_or_throw-found role.id w found,
          assert_mutable-own role "modify permissions of" w own,
          replace-settle role.id ids now w.db unique exists,
          known,
        )
        (answer-found _ role.id (record w { db = with_permissions_of role.id ids now w.db }) found)

  set_permissions-unknown :
      (role : Role) (ids : List String) (now : ℕ) (w : World b)
      → HasUniquePermissionIds w.db
      → find? (has_role_id role.id) w.db.roles ≡ some role
      → role.is_system ≡ false
      → (0 == length (unknown_permissions ids w.db)) ≡ false
      → set_permissions b role.id ids now w
        ≡ (err (unknown_ids "permission" (unknown_permissions ids w.db)), w)
  unfolding set_permissions
  set_permissions-unknown role ids now w unique found own unknown =
      let (_, exists) = role_exists role.id w.db.roles found in
      rw (
        get_or_throw-found role.id w found,
        assert_mutable-own role "modify permissions of" w own,
        replace-settle role.id ids now w.db unique exists,
        unknown,
      )

  -- For a role that is no system role, and permissions with distinct ids: unknown permissions are
  -- refused by name and nothing is written; otherwise the answer has the role with the permissions
  -- it is linked to, the links of the role are one for each distinct id, no other row of the
  -- database is changed, and the cache is changed as the invalidation of the role's users does.
  pub set_permissions_lem :
      (role : Role) (ids : List String) (now : ℕ) (w : World b)
      → HasUniquePermissionIds w.db
      → find? (has_role_id role.id) w.db.roles ≡ some role
      → role.is_system ≡ false
      → set_permissions b role.id ids now w ≡ (
          if 0 == length (unknown_permissions ids w.db)
          then (
            ok (role_answer role (with_permissions_of role.id ids now w.db)),
            after_set role.id ids now w,
          )
          else (err (unknown_ids "permission" (unknown_permissions ids w.db)), w))
  set_permissions_lem role ids now w unique found own =
      elim (Bool-cases (0 == length (unknown_permissions ids w.db))) [
        | inl known ↦ rw (set_permissions-known role ids now w unique found own known, known)
        | inr unknown ↦
            rw (set_permissions-unknown role ids now w unique found own unknown, unknown)
      ]

  -- If the cache is coherent, the ids of the permissions are distinct, and the delete of the keys
  -- of the users with the role succeeds, the cache is coherent after the permissions of the role
  -- are set, and after setting them is refused.
  pub set_permissions-Coherent :
      (role : Role) (ids : List String) (now : ℕ) (w : World b)
      → HasUniquePermissionIds w.db
      → find? (has_role_id role.id) w.db.roles ≡ some role
      → role.is_system ≡ false
      → Coherent b documented laws w
      → Deletes b documented laws (find_user_ids_with_role b role.id w.db) w
      → Coherent b documented laws (set_permissions b role.id ids now w).1
  set_permissions-Coherent role ids now w unique found own h d =
      elim (Bool-cases (0 == length (unknown_permissions ids w.db))) [
        | inl known ↦ rw (set_permissions-known role ids now w unique found own known) (
            Coherent-invalidate_users b documented laws _ w
              (with_permissions_of role.id ids now w.db) h d
              (AffectsOnly-role b documented laws role.id w.db
                (with_permissions_of role.id ids now w.db) refl
                (λ user_id p clear.
                  any-replaced role.id now (distinct ids) user_id p.id w.db.user_roles
                    w.db.role_permissions clear)))
        | inr unknown ↦ rw (set_permissions-unknown role ids now w unique found own unknown) h
      ]
