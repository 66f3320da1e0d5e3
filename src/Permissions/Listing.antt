-- ===== src/Permissions/Listing.antt =====
-- `findAllPermissions` of src/modules/permissions/permissions.service.ts, and
-- src/modules/permissions/permissions.serializer.ts.
use nestjs_app.Prelude.{ℕ, String, Option, List, [], ◌∷◌}
use nestjs_app.Db.{Db, Permission}
use nestjs_app.Permissions.{action_text}
use nestjs_app.Roles.Listing.{Collation}

pub record SafePermission : Type 0 where
  pub id : String
  pub action : String
  pub subject : String
  pub description : Option String
  pub created_at : ℕ
  pub updated_at : ℕ

unfoldable pub serialize_permission : Permission → SafePermission
serialize_permission p = record {
  id = p.id;
  action = action_text p.action;
  subject = p.subject;
  description = p.description;
  created_at = p.created_at;
  updated_at = p.updated_at;
}

unfoldable pub find_all_permissions : Collation → Db → List Permission
find_all_permissions collation db =
    collation.order_by (λ (p : Permission). p.subject ∷ action_text p.action ∷ []) db.permissions
