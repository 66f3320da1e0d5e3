-- ===== src/Controllers/Permissions.antt =====
-- src/modules/permissions/permissions.controller.ts: the handlers, which run behind the guards.
use nestjs_app.Prelude.{ℕ, String, Option, List, map}
use nestjs_app.Result.{Exec, pure, gets, lift, ◌>>=◌}
use nestjs_app.Db.{PermissionAction}
use nestjs_app.Permissions.Cache.{World}
use nestjs_app.Permissions.{create_permission, update_permission, remove_permission}
use nestjs_app.Permissions.Listing.{SafePermission, serialize_permission, find_all_permissions}
use nestjs_app.Controllers.App.{App}

module _ (app : App) where
  open app use {backend, framework, collation}

  unfoldable pub get_permissions : Exec (World backend) (List SafePermission)
  unfolding serialize_permission find_all_permissions
  get_permissions = do
    permissions ← gets (λ w. find_all_permissions collation w.db)
    pure (map serialize_permission permissions)

  unfoldable pub post_permission :
      PermissionAction → String → Option String → String → ℕ → Exec (World backend) SafePermission
  unfolding create_permission serialize_permission
  post_permission action subject description id now = do
    permission ← create_permission backend action subject description id now
    pure (serialize_permission permission)

  -- `dto.description ?? null`: both are `none`.
  unfoldable pub patch_permission : String → Option String → ℕ → Exec (World backend) SafePermission
  unfolding update_permission serialize_permission
  patch_permission given_id description now = do
    id ← lift (framework.parse_uuid given_id)
    permission ← update_permission backend id description now
    pure (serialize_permission permission)

  unfoldable pub delete_permission_by_id : String → Exec (World backend) (Unit {0})
  unfolding remove_permission
  delete_permission_by_id given_id = do
    id ← lift (framework.parse_uuid given_id)
    remove_permission backend id
