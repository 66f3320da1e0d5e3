-- ===== src/Roles.antt =====
-- src/modules/roles/roles.service.ts.
pub mod Removal
pub mod Assignment
pub mod System
pub mod Names
pub mod Histories
pub mod Listing
mod Tests
use Prim.Native.String
use nestjs_app.Prelude.{
  ℕ, String, Bool, true, false, ◌&&◌, not, Option, none, some, List, [], map, str_eq, any, keep,
  if◌then◌else◌,
}
use nestjs_app.Js.{trim, trim_or_null}
use nestjs_app.Result.{
  Exec, Result, ok, err, pure, throw, gets, or_throw, ◌>>=◌, ◌>>◌, http, conflict, bad_request,
  not_found, forbidden,
}
use nestjs_app.Db.{Orm, Db, Role, UserRole, Permission, RolePermission, is_set}
use nestjs_app.Users.JoinRows.{JoinTable, replace_join_rows}
use nestjs_app.Users.Create.{catch_conflict}
use nestjs_app.Permissions.Cache.{Backend, World}
use nestjs_app.Permissions.{on_db, invalidate_users, find_user_ids_with_role}

pub record RoleWithPermissions : Type 0 where
  pub role : Role
  pub permissions : List Permission

-- `description?: string | null`: `none` is `undefined`, `some none` is `null`.
pub record UpdateRoleDto : Type 0 where
  pub name : Option String
  pub description : Option (Option String)

abbrev pub permission_of : List RolePermission → String → Permission → Bool
permission_of rows role_id p =
    any (λ row. str_eq row.role_id role_id && str_eq row.permission_id p.id) rows

abbrev pub has_role_id : String → Role → Bool
has_role_id id role = str_eq role.id id

abbrev pub same_name : String → Role → Bool
same_name name role = str_eq role.name name

abbrev pub role_conflict : String → String
role_conflict name = String.◌++◌ "Role \"" (String.◌++◌ name "\" already exists")

-- The message of `assertMutable`.
abbrev pub immutable_message : String → String → String
immutable_message name action =
    String.◌++◌ "System role \"" (String.◌++◌ name (String.◌++◌ "\" cannot be " action))

abbrev pub changed_description : Option (Option String) → Option String → Option String
changed_description none old = old
changed_description (some new) old = trim_or_null new

abbrev pub role_permission : String → ℕ → String → RolePermission
role_permission role_id now permission_id = record {
  role_id = role_id;
  permission_id = permission_id;
  created_at = now;
}

abbrev pub same_grant : RolePermission → RolePermission → Bool
same_grant a b = str_eq a.role_id b.role_id && str_eq a.permission_id b.permission_id

unfoldable pub role_permissions_table : String → ℕ → JoinTable
role_permissions_table role_id now = record {
  Row = RolePermission;
  rows = λ db. db.role_permissions;
  write = λ rows db. record db { role_permissions = rows };
  of_owner = λ row. str_eq row.role_id role_id;
  same_key = same_grant;
  create = role_permission role_id now;
  referenced_ids = λ db. map (λ (p : Permission). p.id) db.permissions;
  owner_exists = λ db. any (λ role. str_eq role.id role_id) db.roles;
  label = "permission";
}

unfoldable pub assert_mutable : {S : Type 0} → Role → String → Exec S (Unit {0})
assert_mutable role action =
    if role.is_system then throw (http forbidden (immutable_message role.name action)) else pure tt

module _ (b : Backend) where
  open b use {orm}

  abbrev with_permissions : Db → Option Role → Option RoleWithPermissions
  with_permissions db none = none
  with_permissions db (some role) = some (record {
    role = role;
    permissions = orm.find (permission_of db.role_permissions role.id) db.permissions;
  })

  unfoldable pub find_role_by_id : String → Exec (World b) (Option RoleWithPermissions)
  find_role_by_id id = gets (λ w. with_permissions w.db (orm.find_one (has_role_id id) w.db.roles))

  unfoldable pub get_or_throw : String → Exec (World b) RoleWithPermissions
  unfolding find_role_by_id
  get_or_throw id = do role ← find_role_by_id id; or_throw (http not_found "Role not found") role

  -- `existsBy({ name })`
  abbrev pub role_name_exists : String → Db → Bool
  role_name_exists name db = is_set (orm.find_one (same_name name) db.roles)

  unfoldable pub save_role : Role → Exec (World b) Role
  save_role role = do
    saved ← λ w. (orm.insert (same_name role.name) role w.db.roles, w)
    λ w. (ok role, record w { db = record w.db { roles = saved } })

  unfoldable pub create_role :
      String → Option String → String → ℕ → Exec (World b) RoleWithPermissions
  unfolding save_role get_or_throw
  create_role given_name description id now = do
    let name = trim given_name
    taken ← gets (λ w. role_name_exists name w.db)
    if taken then throw (http conflict (role_conflict name)) else (do
      role ← λ w. catch_conflict (role_conflict name) (
          save_role
            (record {
              id = id;
              name = name;
              description = trim_or_null description;
              is_system = false;
              created_at = now;
              updated_at = now;
            })
            w)
      get_or_throw role.id)

  -- `save` of a loaded role: an UPDATE, which the unique index on the name may refuse.
  unfoldable pub save_loaded_role : Role → Exec (World b) (Unit {0})
  save_loaded_role role = do
    saved ← λ w. (orm.save_loaded (has_role_id role.id) (same_name role.name) role w.db.roles, w)
    λ w. (ok tt, record w { db = record w.db { roles = saved } })

  -- The name that the role gets, or the conflict.
  unfoldable pub new_name : Role → Option String → Exec (World b) String
  new_name role none = pure role.name
  new_name role (some given_name) =
      if str_eq (trim given_name) role.name then pure role.name else (do
        taken ← gets (λ w. role_name_exists (trim given_name) w.db)
        if taken
            then throw (http conflict (role_conflict (trim given_name)))
            else pure (trim given_name))

  unfoldable pub update_role : String → UpdateRoleDto → ℕ → Exec (World b) RoleWithPermissions
  unfolding get_or_throw assert_mutable new_name save_loaded_role
  update_role id dto now = do
    found ← get_or_throw id
    assert_mutable found.role "update"
    name ← new_name found.role dto.name
    λ w. catch_conflict (role_conflict name) (
        save_loaded_role
          (record found.role {
            name = name;
            description = changed_description dto.description found.role.description;
            updated_at = now;
          })
          w)
    get_or_throw id

  -- DELETE on `roles`; the foreign keys of `user_roles` and `role_permissions` cascade.
  unfoldable pub delete_role : String → Exec (World b) (Unit {0})
  delete_role id w = (
    ok tt,
    record w {
      db = record w.db {
        roles = orm.delete (has_role_id id) w.db.roles;
        user_roles = orm.delete (λ (ur : UserRole). str_eq ur.role_id id) w.db.user_roles;
        role_permissions =
            orm.delete (λ (rp : RolePermission). str_eq rp.role_id id) w.db.role_permissions;
      };
    },
  )

  -- The affected users are read before the delete and invalidated after it.
  unfoldable pub remove_role : String → Exec (World b) (Unit {0})
  remove_role id = do
    found ← get_or_throw id
    assert_mutable found.role "delete"
    user_ids ← gets (λ w. find_user_ids_with_role b id w.db)
    delete_role id
    invalidate_users b user_ids

  unfoldable pub set_permissions : String → List String → ℕ → Exec (World b) RoleWithPermissions
  set_permissions id permission_ids now = do
    found ← get_or_throw id
    assert_mutable found.role "modify permissions of"
    on_db b (
        orm.transaction
          (replace_join_rows orm (role_permissions_table found.role.id now) permission_ids))
    user_ids ← gets (λ w. find_user_ids_with_role b found.role.id w.db)
    invalidate_users b user_ids
    get_or_throw id
