-- ===== src/Roles/Histories.antt =====
-- The cache of permission rules over sequences of the operations that change roles, permissions
-- and links, with reads in between.
use nestjs_app.Prelude.{ℕ, ◌≡◌, String, true, false, some, List, [], ◌∷◌, str_eq, any, find?}
use nestjs_app.Db.{Documented, Role, User}
use nestjs_app.Permissions.Cache.{Backend, World, IsRedis}
use nestjs_app.Permissions.{
  find_user_ids_with_role, find_user_ids_with_permission, get_permission_rules_for_user,
  remove_permission,
}
use nestjs_app.Permissions.Coherence.{Coherent, Deletes, get_permission_rules-ReadsRules}
use nestjs_app.Permissions.Removal.{remove_permission-Coherent}
use nestjs_app.Roles.{has_role_id, set_permissions, remove_role}
use nestjs_app.Roles.Assignment.{HasUniquePermissionIds, set_permissions-Coherent}
use nestjs_app.Roles.Removal.{remove_role-Coherent}
use nestjs_app.Users.Service.{set_roles}
use nestjs_app.Users.Service.Roles.{HasUniqueRoleIds, set_roles-Coherent}

module _ (b : Backend) (documented : Documented b.orm) (laws : IsRedis b.redis) where
  -- One operation, whatever it answers. What deletes keys is taken with a cache that does so.
  pub data Step : World b → World b → Type 0 where
    rules_read :
        (now : ℕ) (user_id : String) (w : World b)
        → Step w (get_permission_rules_for_user b now user_id w).1
    permissions_set :
        (role : Role) (ids : List String) (now : ℕ) (w : World b)
        → HasUniquePermissionIds b documented laws w.db
        → find? (has_role_id role.id) w.db.roles ≡ some role
        → role.is_system ≡ false
        → Deletes b documented laws (find_user_ids_with_role b role.id w.db) w
        → Step w (set_permissions b role.id ids now w).1
    role_removed :
        (id : String) (w : World b)
        → Deletes b documented laws (find_user_ids_with_role b id w.db) w
        → Step w (remove_role b id w).1
    permission_removed :
        (id : String) (w : World b)
        → Deletes b documented laws (find_user_ids_with_permission b id w.db) w
        → Step w (remove_permission b id w).1
    roles_set :
        (id : String) (ids : List String) (now : ℕ) (w : World b)
        → HasUniqueRoleIds b documented laws w.db
        → any (λ (u : User). str_eq u.id id) w.db.users ≡ true
        → Deletes b documented laws (id ∷ []) w
        → Step w (set_roles b id ids now w).1

  pub data Leads : World b → World b → Type 0 where
    here : (w : World b) → Leads w w
    then : {v w x : World b} → Step v w → Leads w x → Leads v x

  Step-Coherent :
      {v w : World b} → Step v w → Coherent b documented laws v → Coherent b documented laws w
  Step-Coherent (rules_read now user_id w) h =
      (get_permission_rules-ReadsRules b documented laws now user_id w h).2
  Step-Coherent (permissions_set role ids now w unique found own d) h =
      set_permissions-Coherent b documented laws role ids now w unique found own h d
  Step-Coherent (role_removed id w d) h = remove_role-Coherent b documented laws id w h d
  Step-Coherent (permission_removed id w d) h =
      remove_permission-Coherent b documented laws id w h d
  Step-Coherent (roles_set id ids now w unique exists d) h =
      set_roles-Coherent b documented laws id ids now w unique exists h d

  -- If the cache is coherent, it stays so in every world that reading rules, setting the
  -- permissions of a role, removing a role or a permission and setting the roles of a user lead to,
  -- in any order, while every delete of keys succeeds, the ids of the rows are distinct, and the
  -- links are set of stored rows, and permissions of roles that are no system roles.
  pub Leads-Coherent :
      {v w : World b} → Leads v w → Coherent b documented laws v → Coherent b documented laws w
  Leads-Coherent (here w) h = h
  Leads-Coherent (then step rest) h = Leads-Coherent rest (Step-Coherent step h)
