-- ===== src/Permissions/Tests.antt =====
-- The theorems on the cached rules at concrete inputs.
use nestjs_app.Prelude.{refl}
use nestjs_app.Db.{list_orm-Documented}
use nestjs_app.Permissions.{get_permission_rules_for_user, remove_permission}
use nestjs_app.Permissions.Coherence.{Coherent, ReadsRules, get_permission_rules-ReadsRules}
use nestjs_app.Permissions.Removal.{remove_permission-Coherent}
use nestjs_app.Permissions.Samples.{backend, warm, warm-Coherent, map_redis-IsRedis}

get_permission_rules-ReadsRules_example :
    ReadsRules backend list_orm-Documented map_redis-IsRedis "u1" warm
      (get_permission_rules_for_user backend 20 "u1" warm)
get_permission_rules-ReadsRules_example =
    get_permission_rules-ReadsRules backend list_orm-Documented map_redis-IsRedis 20 "u1" warm
      warm-Coherent

remove_permission-Coherent_example :
    Coherent backend list_orm-Documented map_redis-IsRedis (remove_permission backend "p1" warm).1
remove_permission-Coherent_example =
    remove_permission-Coherent backend list_orm-Documented map_redis-IsRedis "p1" warm warm-Coherent
      refl
