-- ===== src/Roles/System.antt =====
-- System roles cannot be changed.
use nestjs_app.Prelude.{◌≡◌, ℕ, String, true, some, List, find?}
use nestjs_app.Result.{err, http, forbidden}
use nestjs_app.Db.{Documented, Role}
use nestjs_app.Permissions.Cache.{Backend, World}
use nestjs_app.Roles.{
  UpdateRoleDto, has_role_id, find_role_by_id, get_or_throw, assert_mutable, immutable_message,
  remove_role, update_role, set_permissions,
}

module _ (b : Backend) (documented : Documented b.orm) where
  -- Renaming a system role, changing its permissions and removing it are each refused by name,
  -- and nothing is written.
  pub system_role_immutable :
      (id : String) (dto : UpdateRoleDto) (permission_ids : List String) (now : ℕ) (w : World b)
      {role : Role}
      → find? (has_role_id id) w.db.roles ≡ some role
      → role.is_system ≡ true
      → (update_role b id dto now w
          ≡ (err (http forbidden (immutable_message role.name "update")), w))
        × (set_permissions b id permission_ids now w
            ≡ (err (http forbidden (immutable_message role.name "modify permissions of")), w))
        × (remove_role b id w ≡ (err (http forbidden (immutable_message role.name "delete")), w))
  unfolding update_role set_permissions remove_role get_or_throw find_role_by_id assert_mutable
  system_role_immutable id dto permission_ids now w found own = (
    rw (documented.find_one_lem, found, own),
    rw (documented.find_one_lem, found, own),
    rw (documented.find_one_lem, found, own),
  )
