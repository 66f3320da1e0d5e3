-- ===== src/Roles/Listing.antt =====
-- `findAll` of src/modules/roles/roles.service.ts, and src/modules/roles/roles.serializer.ts.
-- ORDER BY of the database and `localeCompare` are parameters.
use nestjs_app.Prelude.{ℕ, String, Bool, Option, List, [], ◌∷◌, map}
use nestjs_app.Db.{Db, Role, Permission}
use nestjs_app.Permissions.Cache.{Backend}
use nestjs_app.Permissions.{action_text, permission_key}
use nestjs_app.Roles.{RoleWithPermissions, permission_of}

-- Rows in the ascending order of the texts; and a sort by `localeCompare` of the texts.
pub record Collation : Type 1 where
  pub order_by : {R : Type 0} → (R → List String) → List R → List R
  pub sort : {R : Type 0} → (R → String) → List R → List R

pub record SafeRolePermission : Type 0 where
  pub action : String
  pub subject : String

pub record SafeRole : Type 0 where
  pub id : String
  pub name : String
  pub description : Option String
  pub is_system : Bool
  pub permissions : List SafeRolePermission
  pub created_at : ℕ
  pub updated_at : ℕ

abbrev pub safe_role_permission : Permission → SafeRolePermission
safe_role_permission p = record { action = action_text p.action; subject = p.subject }

module _ (collation : Collation) where
  open collation use {order_by, sort}

  -- The permissions are sorted while they still are rows; their texts are those of the key.
  unfoldable pub serialize_role : RoleWithPermissions → SafeRole
  serialize_role found = record {
    id = found.role.id;
    name = found.role.name;
    description = found.role.description;
    is_system = found.role.is_system;
    permissions =
        map safe_role_permission
          (sort (λ (p : Permission). permission_key p.action p.subject) found.permissions);
    created_at = found.role.created_at;
    updated_at = found.role.updated_at;
  }

  unfoldable pub find_all_roles : (b : Backend) → Db → List RoleWithPermissions
  find_all_roles b db =
      map
        (λ (role : Role). record {
          role = role;
          permissions = b.orm.find (permission_of db.role_permissions role.id) db.permissions;
        })
        (order_by (λ (role : Role). role.name ∷ []) db.roles)
