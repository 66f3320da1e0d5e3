-- ===== src/Controllers/Roles.antt =====
-- src/modules/roles/roles.controller.ts: the handlers, which run behind the guards.
use nestjs_app.Prelude.{ℕ, String, Option, List, map}
use nestjs_app.Result.{Exec, pure, gets, lift, ◌>>=◌}
use nestjs_app.Permissions.Cache.{World}
use nestjs_app.Roles.{UpdateRoleDto, create_role, update_role, remove_role, set_permissions}
use nestjs_app.Roles.Listing.{SafeRole, serialize_role, find_all_roles}
use nestjs_app.Controllers.App.{App}

module _ (app : App) where
  open app use {backend, framework, collation}

  unfoldable pub get_roles : Exec (World backend) (List SafeRole)
  unfolding serialize_role find_all_roles
  get_roles = do
    roles ← gets (λ w. find_all_roles collation backend w.db)
    pure (map (serialize_role collation) roles)

  unfoldable pub post_role : String → Option String → String → ℕ → Exec (World backend) SafeRole
  unfolding create_role serialize_role
  post_role name description id now = do
    role ← create_role backend name description id now
    pure (serialize_role collation role)

  unfoldable pub patch_role : String → UpdateRoleDto → ℕ → Exec (World backend) SafeRole
  unfolding update_role serialize_role
  patch_role given_id dto now = do
    id ← lift (framework.parse_uuid given_id)
    role ← update_role backend id dto now
    pure (serialize_role collation role)

  unfoldable pub delete_role_by_id : String → Exec (World backend) (Unit {0})
  unfolding remove_role
  delete_role_by_id given_id = do id ← lift (framework.parse_uuid given_id); remove_role backend id

  unfoldable pub put_role_permissions : String → List String → ℕ → Exec (World backend) SafeRole
  unfolding set_permissions serialize_role
  put_role_permissions given_id permission_ids now = do
    id ← lift (framework.parse_uuid given_id)
    role ← set_permissions backend id permission_ids now
    pure (serialize_role collation role)
