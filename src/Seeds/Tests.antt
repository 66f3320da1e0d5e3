-- ===== src/Seeds/Tests.antt =====
-- The seed at concrete inputs.
use nestjs_app.Prelude.{false, ◌≡◌, ◌+◌, refl, ℕ, some, String, length}
use nestjs_app.Result.{ok}
use nestjs_app.Db.{Db, list_orm, list_orm-Documented}
use nestjs_app.Auth.Samples.{two_sessions}
use nestjs_app.Js.{to_lower_case}
use nestjs_app.Permissions.{permission_key}
use nestjs_app.Seeds.{
  SeedEnv, seed, seed_roles_list, seed_permissions, seed_permissions_of, seed_permission,
  seed_roles, seed_role, seed_grants, seed_grant, seed_bootstrap_admin, seed_admin, admin_role,
}
use nestjs_app.Seeds.Growth.{Grows, Grows-refl}
use nestjs_app.Guards.Access.{may}
use nestjs_app.Db.{manage}
use nestjs_app.Seeds.Administrator.{IsAdministrator, seed-IsAdministrator}
use nestjs_app.Seeds.Again.{seed-Grows, seed_again}

abbrev env_at : ℕ → String → SeedEnv
env_at now password = record {
  admin_email = some "root@example.com";
  admin_password = some password;
  hash_password = λ pw. pw;
  now = now;
  row_id = λ label. label;
}

seed-Grows_example : Grows two_sessions (seed list_orm (env_at 10 "first") two_sessions).1
seed-Grows_example = seed-Grows list_orm list_orm-Documented (env_at 10 "first") two_sessions

abbrev seeded : Db
seeded = (seed list_orm (env_at 10 "first") two_sessions).1

-- The role `user` was there; six permissions, one role and six grants are new.
seeded_test :
    ◌≡◌ {A = ℕ}
      (length seeded.permissions + (length seeded.roles + length seeded.role_permissions))
      14
unfolding seed seed_permissions seed_roles_list seed_permissions_of seed_permission permission_key
    seed_roles seed_role seed_grants seed_grant seed_bootstrap_admin seed_admin to_lower_case
    admin_role
seeded_test = refl

seed_again_example : seed list_orm (env_at 20 "second") seeded ≡ (ok tt, seeded)
unfolding seed seed_permissions seed_roles_list seed_permissions_of seed_permission permission_key
    seed_roles seed_role seed_grants seed_grant seed_bootstrap_admin seed_admin to_lower_case
    admin_role
seed_again_example =
    seed_again list_orm list_orm-Documented (env_at 10 "first") (env_at 20 "second") two_sessions
      seeded seeded (record { same_email = refl; same_password = refl }) refl (Grows-refl seeded)

seed-IsAdministrator_example :
    IsAdministrator list_orm list_orm-Documented (env_at 10 "first") seeded "root@example.com"
unfolding seed seed_permissions seed_roles_list seed_permissions_of seed_permission permission_key
    seed_roles seed_role seed_grants seed_grant seed_bootstrap_admin seed_admin to_lower_case
    admin_role
seed-IsAdministrator_example =
    seed-IsAdministrator list_orm list_orm-Documented (env_at 10 "first") seeded "root@example.com"
      "first" two_sessions seeded refl refl refl refl refl (Grows-refl seeded)

-- Nothing that the seed grants covers the broadcast of notifications.
no_broadcast_test :
    may seeded "root@example.com" (record { action = manage; subject = "Notification" }) ≡ false
unfolding seed seed_permissions seed_roles_list seed_permissions_of seed_permission permission_key
    seed_roles seed_role seed_grants seed_grant seed_bootstrap_admin seed_admin to_lower_case
    admin_role
no_broadcast_test = refl
