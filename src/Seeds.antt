-- ===== src/Seeds.antt =====
-- src/database/seeds/seed-roles-permissions.ts: `seedPermissions`, `seedRoles`,
-- `seedBootstrapAdmin` and `seed`. The script writes outside a transaction, row by row.
pub mod Tables
pub mod Growth
pub mod Saves
pub mod Again
pub mod Success
pub mod Steps
pub mod RoleSteps
pub mod Administrator
mod Tests
use Prim.Native.String
use nestjs_app.Prelude.{
  ℕ, String, Bool, true, false, ◌&&◌, ◌||◌, Option, none, some, List, [], ◌∷◌, ◌++◌, str_eq, any,
  if◌then◌else◌,
}
use nestjs_app.Result.{
  Exec, Result, ok, err, pure, gets, or_throw, ◌>>=◌, ◌>>◌, database, entity_not_found,
}
use nestjs_app.Db.{
  Orm, Db, User, Role, UserRole, Permission, RolePermission, PermissionAction, manage, read, active,
  is_set,
}
use nestjs_app.Users.Lookup.{live_with_email}
use nestjs_app.Users.Create.{same_link, user_role}
use nestjs_app.Permissions.Cache.{PermissionRule}
use nestjs_app.Permissions.{permission_key, action_text}
use nestjs_app.Roles.{same_name, same_grant, role_permission}
use nestjs_app.Seeds.Tables.{
  Table, permissions_table, roles_table, grants_table, users_table, links_table,
}

pub record SeedRole : Type 0 where
  pub name : String
  pub description : String
  pub is_system : Bool
  pub permissions : List PermissionRule

abbrev rule : PermissionAction → String → PermissionRule
rule action subject = record { action = action; subject = subject }

unfoldable pub seed_roles_list : List SeedRole
seed_roles_list =
    record {
      name = "admin";
      description = "Full system administration access";
      is_system = true;
      permissions =
          rule manage "User"
          ∷ rule manage "Role"
          ∷ rule manage "Permission"
          ∷ rule manage "Metric"
          ∷ [];
    }
    ∷ record {
      name = "user";
      description = "Default registered user";
      is_system = true;
      permissions = rule read "User" ∷ rule read "Role" ∷ [];
    }
    ∷ []

-- `process.env`, the hash of the password, and what the database fills in: the time, and the id of
-- the new row with a label.
pub record SeedEnv : Type 0 where
  pub admin_email : Option String
  pub admin_password : Option String
  pub hash_password : String → String
  pub now : ℕ
  pub row_id : String → String

-- `Map<string, Permission>`
abbrev pub PermissionMap : Type 0
PermissionMap = List (String × Permission)

abbrev pub get : String → PermissionMap → Option Permission
get key [] = none
get key ((k, p) ∷ entries) = if str_eq k key then some p else get key entries

abbrev pub key_of : PermissionRule → String
key_of r = permission_key r.action r.subject

module _ (orm : Orm) (env : SeedEnv) where
  -- `findOneBy(…)`, and `save(create(…))` where there is none.
  abbrev pub save_missing : (t : Table orm) → t.Row → Option t.Row → Exec Db t.Row
  save_missing t row (some found) = pure found
  save_missing t row none = do saved ← λ db. (t.save row db, db); λ db. (ok row, t.write saved db)

  unfoldable pub find_or_save : (t : Table orm) → (t.Row → Bool) → t.Row → Exec Db t.Row
  find_or_save t test row = do
    found ← gets (λ db. orm.find_one test (t.rows db))
    save_missing t row found

  unfoldable pub seed_permission : PermissionRule → Exec Db Permission
  unfolding find_or_save
  seed_permission r =
      find_or_save (permissions_table orm)
        (λ (p : Permission).
          str_eq (action_text p.action) (action_text r.action) && str_eq p.subject r.subject)
        (record {
          id = env.row_id (key_of r);
          action = r.action;
          subject = r.subject;
          description = none;
          created_at = env.now;
          updated_at = env.now;
        })

  -- The two nested loops; a permission that the map has is passed over.
  unfoldable pub seed_permissions_of : List PermissionRule → PermissionMap → Exec Db PermissionMap
  seed_permissions_of [] entries = pure entries
  seed_permissions_of (r ∷ rs) entries =
      let rest = seed_permissions_of rs entries in
      if is_set (get (key_of r) entries)
      then rest
      else (do p ← seed_permission r; seed_permissions_of rs ((key_of r, p) ∷ entries))

  unfoldable pub seed_permissions : List SeedRole → PermissionMap → Exec Db PermissionMap
  seed_permissions [] entries = pure entries
  seed_permissions (r ∷ rs) entries = do
    entries' ← seed_permissions_of r.permissions entries
    seed_permissions rs entries'

  unfoldable pub seed_grant : Role → Option Permission → Exec Db (Unit {0})
  seed_grant role none = pure tt
  seed_grant role (some p) = do
    find_or_save (grants_table orm) (same_grant (role_permission role.id env.now p.id))
        (role_permission role.id env.now p.id)
    pure tt

  unfoldable pub seed_grants : Role → PermissionMap → List PermissionRule → Exec Db (Unit {0})
  seed_grants role entries [] = pure tt
  seed_grants role entries (r ∷ rs) = do
    seed_grant role (get (key_of r) entries)
    seed_grants role entries rs

  unfoldable pub seed_role : SeedRole → Exec Db Role
  seed_role r = find_or_save (roles_table orm) (same_name r.name) (record {
    id = env.row_id r.name;
    name = r.name;
    description = some r.description;
    is_system = r.is_system;
    created_at = env.now;
    updated_at = env.now;
  })

  unfoldable pub seed_roles : List SeedRole → PermissionMap → Exec Db (Unit {0})
  seed_roles [] entries = pure tt
  seed_roles (r ∷ rs) entries = do
    role ← seed_role r
    seed_grants role entries r.permissions
    seed_roles rs entries

  unfoldable pub admin_role : Exec Db Role
  admin_role = do
    found ← gets (λ db. orm.find_one (same_name "admin") db.roles)
    or_throw (database entity_not_found) found

  unfoldable pub seed_admin : (email password : String) → Exec Db (Unit {0})
  seed_admin email password = do
    admin ← find_or_save (users_table orm) (live_with_email email) (record {
      id = env.row_id email;
      email = email;
      password_hash = env.hash_password password;
      first_name = none;
      last_name = none;
      status = active;
      email_verified_at = none;
      created_at = env.now;
      updated_at = env.now;
      deleted_at = none;
    })
    role ← admin_role
    find_or_save (links_table orm) (same_link (user_role admin.id env.now role.id))
        (user_role admin.id env.now role.id)
    pure tt

  -- `!adminEmail || !adminPassword`
  abbrev pub seed_if_set : Option String → Option String → Exec Db (Unit {0})
  seed_if_set none password = pure tt
  seed_if_set (some email) none = pure tt
  seed_if_set (some email) (some password) =
      if str_eq email "" || str_eq password "" then pure tt else seed_admin email password

  unfoldable pub seed_bootstrap_admin : Exec Db (Unit {0})
  seed_bootstrap_admin = seed_if_set env.admin_email env.admin_password

  unfoldable pub seed : Exec Db (Unit {0})
  seed = do
    entries ← seed_permissions seed_roles_list []
    seed_roles seed_roles_list entries
    seed_bootstrap_admin
