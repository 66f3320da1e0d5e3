-- ===== src/Roles/Tests.antt =====
-- The theorems on roles at concrete inputs.
use nestjs_app.Prelude.{arith, eq_iff, ◌≡◌, refl, [], ◌∷◌, none, some, true, false}
use nestjs_app.Result.{ok, err, http, forbidden}
use nestjs_app.Db.{Role, list_orm-Documented}
use nestjs_app.Permissions.Coherence.{Coherent}
use nestjs_app.Permissions.Samples.{
  backend, warm, cold, warm-Coherent, map_redis-IsRedis, role_named,
}
use nestjs_app.Roles.{
  create_role, UpdateRoleDto, update_role, set_permissions, remove_role, immutable_message,
}
use nestjs_app.Roles.Removal.{remove_role-Coherent}
use nestjs_app.Roles.Names.{HasUniqueRoles}
use nestjs_app.Roles.Names.Writers.{update_role-HasUniqueRoles, create_role-HasUniqueRoles}
use nestjs_app.Permissions.Cache.{World}
use nestjs_app.Permissions.{get_permission_rules_for_user}
use nestjs_app.Roles.Histories.{
  Leads, here, then, rules_read, permissions_set, role_removed, Leads-Coherent,
}
use nestjs_app.Roles.System.{system_role_immutable}
use nestjs_app.Roles.Assignment.{
  set_permissions_lem, set_permissions-Coherent, role_answer, with_permissions_of, after_set,
}

abbrev editor : Role
editor = role_named "r1" "editor" false

abbrev admin : Role
admin = role_named "r2" "admin" true

abbrev rename : UpdateRoleDto
rename = record { name = some "root"; description = none }

remove_role-Coherent_example :
    Coherent backend list_orm-Documented map_redis-IsRedis (remove_role backend "r1" warm).1
remove_role-Coherent_example =
    remove_role-Coherent backend list_orm-Documented map_redis-IsRedis "r1" warm warm-Coherent refl

system_role_immutable_example :
    (update_role backend "r2" rename 5 cold
      ≡ (err (http forbidden (immutable_message "admin" "update")), cold))
    × (set_permissions backend "r2" ("p1" ∷ []) 5 cold
        ≡ (err (http forbidden (immutable_message "admin" "modify permissions of")), cold))
    × (remove_role backend "r2" cold
        ≡ (err (http forbidden (immutable_message "admin" "delete")), cold))
system_role_immutable_example =
    system_role_immutable backend list_orm-Documented "r2" rename ("p1" ∷ []) 5 cold {role = admin}
      refl refl

set_permissions_lem_example : set_permissions backend "r1" ("p2" ∷ "p2" ∷ []) 5 cold ≡ (
  ok (
      role_answer backend list_orm-Documented map_redis-IsRedis editor (
        with_permissions_of backend list_orm-Documented map_redis-IsRedis "r1"
          ("p2" ∷ "p2" ∷ [])
          5
          cold.db)),
  after_set backend list_orm-Documented map_redis-IsRedis "r1" ("p2" ∷ "p2" ∷ []) 5 cold,
)
unfolding nestjs_app.Users.JoinRows.distinct
set_permissions_lem_example =
    set_permissions_lem backend list_orm-Documented map_redis-IsRedis editor ("p2" ∷ "p2" ∷ []) 5
      cold (refl, (refl, tt)) refl refl

set_permissions-Coherent_example :
    Coherent backend list_orm-Documented map_redis-IsRedis
      (set_permissions backend "r1" ("p2" ∷ []) 5 warm).1
unfolding nestjs_app.Permissions.get_permission_rules_for_user
set_permissions-Coherent_example =
    set_permissions-Coherent backend list_orm-Documented map_redis-IsRedis editor ("p2" ∷ []) 5 warm
      (refl, (refl, tt)) refl refl warm-Coherent refl

two_roles : HasUniqueRoles cold.db
two_roles = (
  λ name. ground (arith, eq_iff "editor" name, eq_iff "admin" name, eq_iff "editor" "admin"),
  λ id. ground (arith, eq_iff "r1" id, eq_iff "r2" id, eq_iff "r1" "r2"),
)

abbrev retitle : UpdateRoleDto
retitle = record { name = some " writer "; description = some none }

update_role-HasUniqueRoles_example : HasUniqueRoles (update_role backend "r1" retitle 5 cold).1.db
update_role-HasUniqueRoles_example =
    update_role-HasUniqueRoles backend list_orm-Documented "r1" retitle 5 cold two_roles

create_role-HasUniqueRoles_example :
    HasUniqueRoles (create_role backend "writer" none "r3" 5 cold).1.db
create_role-HasUniqueRoles_example =
    create_role-HasUniqueRoles backend list_orm-Documented "writer" none "r3" 5 cold refl two_roles

abbrev set_world : World backend
set_world = (set_permissions backend "r1" ("p2" ∷ []) 5 warm).1

abbrev read_world : World backend
read_world = (get_permission_rules_for_user backend 6 "u1" set_world).1

abbrev some_writes :
    Leads backend list_orm-Documented map_redis-IsRedis warm (remove_role backend "r1" read_world).1
unfolding nestjs_app.Permissions.get_permission_rules_for_user
some_writes = then (permissions_set editor ("p2" ∷ []) 5 warm (refl, (refl, tt)) refl refl refl) (
    then (rules_read 6 "u1" set_world)
      (then (role_removed "r1" read_world refl) (here (remove_role backend "r1" read_world).1)))

Leads-Coherent_example :
    Coherent backend list_orm-Documented map_redis-IsRedis (remove_role backend "r1" read_world).1
Leads-Coherent_example =
    Leads-Coherent backend list_orm-Documented map_redis-IsRedis some_writes warm-Coherent
