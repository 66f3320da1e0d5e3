-- ===== src/Roles/Names/Writers.antt =====
-- Creating and renaming a role keep the names and the ids of the roles unique.
use nestjs_app.Prelude.{
  ℕ, ◌≡◌, refl, inl, inr, String, false, not, ◌&&◌, Option, none, some, arith, any, Bool-cases,
}
use nestjs_app.Js.{trim, trim_or_null}
use nestjs_app.Result.{Exec, or_throw, http, not_found, Result, ok, err, continue, ◌>>=◌, ◌>>◌}
use nestjs_app.Db.{Documented, Role}
use nestjs_app.Users.Create.{catch_conflict}
use nestjs_app.Permissions.Cache.{Backend, World}
use nestjs_app.Roles.{
  role_name_exists, UpdateRoleDto, RoleWithPermissions, has_role_id, same_name, role_conflict,
  find_role_by_id, get_or_throw, save_role, create_role, save_loaded_role, new_name, assert_mutable,
  update_role, changed_description,
}
use nestjs_app.Roles.Names.{
  HasUniqueRoles, identified, named-new, identified-new, overwrite-HasUniqueRoles,
}

module _ (b : Backend) (documented : Documented b.orm) where
  save_loaded_role-HasUniqueRoles :
      (role : Role) (w : World b)
      → HasUniqueRoles w.db
      → HasUniqueRoles (save_loaded_role b role w).1.db
  unfolding save_loaded_role
  save_loaded_role-HasUniqueRoles role w h =
      elim (Bool-cases
        (any (λ other. same_name role.name other && not (has_role_id role.id other)) w.db.roles)) [
          | inl clash ↦ rw (documented.save_loaded_lem, clash) h
          | inr free ↦
              rw (documented.save_loaded_lem, free) (overwrite-HasUniqueRoles role w.db free h)
        ]

-- The role that an update saves.
abbrev renamed : Role → String → UpdateRoleDto → ℕ → Role
renamed role name dto now = record role {
  name = name;
  description = changed_description dto.description role.description;
  updated_at = now;
}

-- What holds after every step of a computation holds after it.
continue-keeps :
    {S A B : Type 0} (P : S → Type 0) (r : Result A × S) (f : A → S → Result B × S)
    → P r.1
    → ((a : A) (s : S) → P s → P (f a s).1)
    → P (continue r.0 f r.1).1
continue-keeps P (ok a, s) f h k = k a s h
continue-keeps P (err e, s) f h k = h

catch_conflict-keeps :
    {S A : Type 0} (P : S → Type 0) (message : String) (r : Result A × S)
    → P r.1
    → P (catch_conflict message r).1
catch_conflict-keeps P message (ok a, s) h = h
catch_conflict-keeps P message (err e, s) h = h

module _ (b : Backend) (documented : Documented b.orm) where
  abbrev pub Unique : World b → Type 0
  Unique w = HasUniqueRoles w.db

  or_throw-Unique :
      (found : Option RoleWithPermissions) (w : World b)
      → Unique w
      → Unique (or_throw (http not_found "Role not found") found w).1
  or_throw-Unique none w h = h
  or_throw-Unique (some role) w h = h

  get_or_throw-Unique : (id : String) (w : World b) → Unique w → Unique (get_or_throw b id w).1
  unfolding get_or_throw find_role_by_id
  get_or_throw-Unique id w h =
      continue-keeps Unique (find_role_by_id b id w) (or_throw (http not_found "Role not found")) h
        or_throw-Unique

  assert_mutable-Unique :
      (role : Role) (action : String) (w : World b)
      → Unique w
      → Unique (assert_mutable role action w).1
  unfolding assert_mutable
  assert_mutable-Unique role action w h = elim (Bool-cases role.is_system) [
    | inl system ↦ rw system h
    | inr own ↦ rw own h
  ]

  new_name-state :
      (role : Role) (name : Option String) (w : World b) → (new_name b role name w).1 ≡ w
  unfolding new_name
  new_name-state role none w = refl
  new_name-state role (some name) w = ground arith

  -- The steps of an update, the last one first.
  abbrev save_renamed :
      String → UpdateRoleDto → ℕ → Role → String → Exec (World b) RoleWithPermissions
  save_renamed id dto now role name = do
    λ w. catch_conflict (role_conflict name) (save_loaded_role b (renamed role name dto now) w)
    get_or_throw b id

  abbrev rename : String → UpdateRoleDto → ℕ → Role → Exec (World b) RoleWithPermissions
  rename id dto now role = do name ← new_name b role dto.name; save_renamed id dto now role name

  abbrev rename_found :
      String → UpdateRoleDto → ℕ → RoleWithPermissions → Exec (World b) RoleWithPermissions
  rename_found id dto now found = do
    assert_mutable found.role "update"
    rename id dto now found.role

  save_renamed-Unique :
      (id : String) (dto : UpdateRoleDto) (now : ℕ) (role : Role) (name : String) (w : World b)
      → Unique w
      → Unique (save_renamed id dto now role name w).1
  save_renamed-Unique id dto now role name w h =
      continue-keeps Unique
        (catch_conflict (role_conflict name) (save_loaded_role b (renamed role name dto now) w))
        (λ _. get_or_throw b id)
        (catch_conflict-keeps Unique (role_conflict name)
          (save_loaded_role b (renamed role name dto now) w)
          (save_loaded_role-HasUniqueRoles b documented (renamed role name dto now) w h))
        (λ _. get_or_throw-Unique id)

  rename-Unique :
      (id : String) (dto : UpdateRoleDto) (now : ℕ) (role : Role) (w : World b)
      → Unique w
      → Unique (rename id dto now role w).1
  rename-Unique id dto now role w h =
      continue-keeps Unique (new_name b role dto.name w) (save_renamed id dto now role)
        (rw (new_name-state role dto.name w) h) (save_renamed-Unique id dto now role)

  -- Renaming a role, whatever it answers, leaves no two roles with one name or one id, if there
  -- were none before.
  pub update_role-HasUniqueRoles :
      (id : String) (dto : UpdateRoleDto) (now : ℕ) (w : World b)
      → HasUniqueRoles w.db
      → HasUniqueRoles (update_role b id dto now w).1.db
  unfolding update_role
  update_role-HasUniqueRoles id dto now w h =
      continue-keeps Unique (get_or_throw b id w) (rename_found id dto now)
        (get_or_throw-Unique id w h)
        (λ found w k.
          continue-keeps Unique (assert_mutable found.role "update" w)
            (λ _. rename id dto now found.role) (assert_mutable-Unique found.role "update" w k)
            (λ _. rename-Unique id dto now found.role))

  save_role-Unique :
      (role : Role) (w : World b)
      → identified role.id w.db.roles ≡ 0
      → Unique w
      → Unique (save_role b role w).1
  unfolding save_role
  save_role-Unique role w new (names, ids) =
      elim (Bool-cases (any (same_name role.name) w.db.roles)) [
        | inl taken ↦ rw (documented.insert_lem, taken) (names, ids)
        | inr free ↦
            rw (documented.insert_lem, free)
              (
                λ name. named-new name w.db.roles role free (names name),
                λ id. identified-new id w.db.roles role new (ids id),
              )
      ]

  abbrev created : String → Option String → String → ℕ → Role
  created given_name description id now = record {
    id = id;
    name = trim given_name;
    description = trim_or_null description;
    is_system = false;
    created_at = now;
    updated_at = now;
  }

  -- Creating a role with a new id, whatever it answers, leaves no two roles with one name or one
  -- id, if there were none before.
  pub create_role-HasUniqueRoles :
      (given_name : String) (description : Option String) (id : String) (now : ℕ) (w : World b)
      → identified id w.db.roles ≡ 0
      → HasUniqueRoles w.db
      → HasUniqueRoles (create_role b given_name description id now w).1.db
  unfolding create_role
  create_role-HasUniqueRoles given_name description id now w new h =
      elim (Bool-cases (role_name_exists b (trim given_name) w.db)) [
        | inl taken ↦ rw taken h
        | inr free ↦ rw free (
            continue-keeps Unique
              (catch_conflict (role_conflict (trim given_name))
                (save_role b (created given_name description id now) w))
              (λ role. get_or_throw b role.id)
              (catch_conflict-keeps Unique (role_conflict (trim given_name))
                (save_role b (created given_name description id now) w)
                (save_role-Unique (created given_name description id now) w new h))
              (λ role. get_or_throw-Unique role.id))
      ]
