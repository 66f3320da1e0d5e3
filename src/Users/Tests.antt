-- ===== src/Users/Tests.antt =====
-- The theorems on users at concrete inputs.
use nestjs_app.Prelude.{none, false, ◌≡◌, refl, arith, eq_iff, [], ◌∷◌, some}
use nestjs_app.Result.{ok, err, http, unauthorized, bad_request}
use nestjs_app.Db.{list_orm, list_orm-Documented}
use nestjs_app.Auth.Samples.{providers, jane, no_metadata, draw_at, token_of}
use nestjs_app.Auth.Refresh.{refresh}
use nestjs_app.Auth.Credentials.{LoginDto, login}
use nestjs_app.Permissions.Cache.{World}
use nestjs_app.Permissions.Coherence.{Coherent}
use nestjs_app.Permissions.Samples.{
  backend, cold, warm, warm-Coherent, map_redis, map_redis-IsRedis, editors_db,
}
use nestjs_app.Users.JoinRows.{replace_join_rows}
use nestjs_app.Users.JoinRows.Laws.{replace_join_rows_lem, replaced}
use nestjs_app.Users.Create.{user_roles_table}
use nestjs_app.Users.Listing.{find_all, matches}
use nestjs_app.Users.Listing.Items.{find_all-items}
use nestjs_app.Users.Listing.Samples.{list_query, list_query-IsQuery}
use nestjs_app.Permissions.Samples.{role_named}
use nestjs_app.Users.Service.{set_roles, soft_delete}
use nestjs_app.Users.Service.Roles.{
  set_roles_lem, set_roles-Coherent, user_answer, with_roles_of, after_roles,
  user_roles_table-IsJoinTable,
}
use nestjs_app.Users.Service.Deletion.{soft_delete_lem, refresh_after_delete, login_after_delete}

replace_join_rows_lem_example :
    replace_join_rows list_orm (user_roles_table "u1" 5) ("r2" ∷ "r2" ∷ []) editors_db ≡ (
      ok tt,
      replaced list_orm list_orm-Documented
          (user_roles_table "u1" 5)
          (user_roles_table-IsJoinTable "u1" 5)
          ("r2" ∷ [])
          editors_db,
    )
unfolding user_roles_table nestjs_app.Users.JoinRows.distinct
replace_join_rows_lem_example =
    replace_join_rows_lem list_orm list_orm-Documented (user_roles_table "u1" 5)
      (user_roles_table-IsJoinTable "u1" 5) ("r2" ∷ "r2" ∷ []) editors_db (refl, (refl, tt)) refl

set_roles_lem_example : set_roles backend "u1" ("r2" ∷ []) 5 cold ≡ (
  user_answer backend list_orm-Documented map_redis-IsRedis "u1"
      (with_roles_of backend list_orm-Documented map_redis-IsRedis "u1" ("r2" ∷ []) 5 cold.db),
  after_roles backend list_orm-Documented map_redis-IsRedis "u1" ("r2" ∷ []) 5 cold,
)
unfolding nestjs_app.Users.JoinRows.distinct
set_roles_lem_example =
    set_roles_lem backend list_orm-Documented map_redis-IsRedis "u1" ("r2" ∷ []) 5 cold
      (refl, (refl, tt)) refl

set_roles-Coherent_example :
    Coherent backend list_orm-Documented map_redis-IsRedis (set_roles backend "u1" [] 5 warm).1
unfolding nestjs_app.Permissions.get_permission_rules_for_user
set_roles-Coherent_example =
    set_roles-Coherent backend list_orm-Documented map_redis-IsRedis "u1" [] 5 warm
      (refl, (refl, tt)) refl warm-Coherent refl

soft_delete_lem_example :
    soft_delete backend "u1" (some "u1") 5 cold
    ≡ (err (http bad_request "Cannot delete your own account"), cold)
soft_delete_lem_example =
    soft_delete_lem providers list_orm-Documented map_redis 300000 "u1" (some "u1") 5 cold

-- Jane's account after somebody else deleted it.
abbrev deleted_world : World backend
deleted_world = (soft_delete backend "u1" (some "u2") 5 cold).1

refresh_after_delete_example :
    (refresh providers (some "laptop") no_metadata (draw_at 9 "t" "x" "r9") deleted_world.db).0
    ≡ err (http unauthorized "Invalid refresh token")
unfolding soft_delete nestjs_app.Users.Lookup.find_with_roles_or_fail
    nestjs_app.Permissions.invalidate_user
refresh_after_delete_example =
    refresh_after_delete providers list_orm-Documented map_redis 300000 "u1" (some "u2") 5 cold
      "laptop" no_metadata (draw_at 9 "t" "x" "r9") {w' = deleted_world}
      {session = token_of "r1" "laptop" "f1"} refl refl refl (ground (arith, eq_iff "laptop" ""))

abbrev entry : LoginDto
entry = record { email = " Jane@Example.com "; password = "secret123" }

login_after_delete_example :
    login providers entry no_metadata (draw_at 9 "t" "x" "r9") deleted_world.db
    ≡ (err (http unauthorized "Invalid credentials"), deleted_world.db)
unfolding soft_delete nestjs_app.Users.Lookup.find_with_roles_or_fail
    nestjs_app.Permissions.invalidate_user nestjs_app.Auth.Credentials.normalize_email
login_after_delete_example =
    login_after_delete providers list_orm-Documented map_redis 300000 "u1" (some "u2") 5 cold entry
      no_metadata (draw_at 9 "t" "x" "r9") {w' = deleted_world} {user = jane}
      (λ email. ground arith) refl refl refl

-- Jane is the one user, with the role that she is linked to.
find_all-items_example :
    find_all list_orm list_query (record { page = none; limit = some 1; q = none }) editors_db
    ≡ record {
      items = record { user = jane; roles = role_named "r1" "editor" false ∷ [] } ∷ [];
      total = 1;
      page = 1;
      limit = 1;
    }
unfolding matches
find_all-items_example =
    find_all-items list_orm list_orm-Documented list_query list_query-IsQuery
      (record { page = none; limit = some 1; q = none }) editors_db
