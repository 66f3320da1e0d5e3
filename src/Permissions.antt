-- ===== src/Permissions.antt =====
-- src/modules/permissions/permissions.service.ts: the rules of a user, read through a cache, and
-- the permissions.
pub mod Cache
pub mod Grants
pub mod Coherence
pub mod Removal
pub mod Listing
pub mod Samples
mod Tests
use Prim.Native.String
use nestjs_app.Prelude.{
  ℕ, String, Bool, true, false, ◌&&◌, ◌||◌, not, Option, none, some, List, [], ◌∷◌, map, str_eq,
  ltb, any, length, if◌then◌else◌,
}
use nestjs_app.Result.{
  Exec, Result, ok, err, pure, throw, gets, or_throw, ◌>>=◌, ◌>>◌, Exception, http, conflict,
  bad_request,
}
use nestjs_app.Db.{
  Orm, Db, PermissionAction, manage, create, read, update, delete, Permission, RolePermission,
  UserRole, is_set,
}
use nestjs_app.Users.JoinRows.{distinct}
use nestjs_app.Users.Create.{catch_conflict}
use Cache.{PermissionRule, Rules, Redis, Backend, World}

abbrev pub action_text : PermissionAction → String
action_text manage = "manage"
action_text create = "create"
action_text read = "read"
action_text update = "update"
action_text delete = "delete"

unfoldable pub permission_key : PermissionAction → String → String
permission_key action subject = String.◌++◌ (action_text action) (String.◌++◌ ":" subject)

unfoldable pub cache_key : String → String
cache_key user_id = String.◌++◌ "rbac:perms:" user_id

abbrev pub same_rule : PermissionRule → PermissionRule → Bool
same_rule a b = str_eq (action_text a.action) (action_text b.action) && str_eq a.subject b.subject

-- `SELECT DISTINCT`
unfoldable pub distinct_rules : Rules → Rules
distinct_rules [] = []
distinct_rules (r ∷ rs) =
    let rest = distinct_rules rs in if any (same_rule r) rest then rest else r ∷ rest

abbrev pub links : RolePermission → UserRole → Bool
links rp ur = str_eq ur.role_id rp.role_id

-- The join of `role_permissions` and `user_roles` gives the user the permission.
abbrev pub granted : Db → String → Permission → Bool
granted db user_id p =
    any
      (λ rp.
        str_eq rp.permission_id p.id
        && any (λ ur. links rp ur && str_eq ur.user_id user_id) db.user_roles)
      db.role_permissions

abbrev pub rule_of : Permission → PermissionRule
rule_of p = record { action = p.action; subject = p.subject }

abbrev pub conflict_message : PermissionAction → String → String
conflict_message action subject =
    String.◌++◌ "Permission \"" (String.◌++◌ (permission_key action subject) "\" already exists")

module _ (b : Backend) where
  open b use {orm, redis, cache_ttl_ms}

  -- A query or a transaction of the database.
  abbrev pub on_db : {A : Type 0} → Exec Db A → Exec (World b) A
  on_db m w = let (r, db) = m w.db in (r, record w { db = db })

  unfoldable pub load_permission_rules : Db → String → Rules
  unfolding distinct_rules
  load_permission_rules db user_id =
      distinct_rules (map rule_of (orm.find (granted db user_id) db.permissions))

  -- A failed read is logged and reads as a miss.
  abbrev pub hit_or_miss : Result (Option Rules) → Option Rules
  hit_or_miss (ok found) = found
  hit_or_miss (err e) = none

  unfoldable pub safe_get : ℕ → String → Exec (World b) (Option Rules)
  safe_get now key = gets (λ w. hit_or_miss (redis.get now key w.cache))

  -- A failed write or delete is logged and dropped.
  unfoldable pub safe_set : ℕ → String → Rules → Exec (World b) (Unit {0})
  safe_set now key rules w =
      (ok tt, record w { cache = (redis.set now key rules cache_ttl_ms w.cache).1 })

  unfoldable pub safe_del : String → Exec (World b) (Unit {0})
  safe_del key w = (ok tt, record w { cache = (redis.del (key ∷ []) w.cache).1 })

  unfoldable pub safe_del_batch : List String → Exec (World b) (Unit {0})
  safe_del_batch [] = pure tt
  safe_del_batch (key ∷ keys) =
      λ w. (ok tt, record w { cache = (redis.del (key ∷ keys) w.cache).1 })

  unfoldable pub rules_or_load : ℕ → String → Option Rules → Exec (World b) Rules
  unfolding load_permission_rules safe_set
  rules_or_load now user_id (some rules) = pure rules
  rules_or_load now user_id none = do
    rules ← gets (λ w. load_permission_rules w.db user_id)
    safe_set now (cache_key user_id) rules
    pure rules

  unfoldable pub get_permission_rules_for_user : ℕ → String → Exec (World b) Rules
  unfolding safe_get rules_or_load
  get_permission_rules_for_user now user_id = do
    cached ← safe_get now (cache_key user_id)
    rules_or_load now user_id cached

  unfoldable pub invalidate_user : String → Exec (World b) (Unit {0})
  unfolding safe_del
  invalidate_user user_id = safe_del (cache_key user_id)

  unfoldable pub invalidate_users : List String → Exec (World b) (Unit {0})
  unfolding safe_del_batch
  invalidate_users user_ids = safe_del_batch (map cache_key user_ids)

  unfoldable pub find_user_ids_with_role : String → Db → List String
  find_user_ids_with_role role_id db =
      map (λ (ur : UserRole). ur.user_id) (orm.find (λ ur. str_eq ur.role_id role_id) db.user_roles)

  unfoldable pub find_user_ids_with_permission : String → Db → List String
  unfolding distinct
  find_user_ids_with_permission permission_id db = distinct (
      map (λ (ur : UserRole). ur.user_id)
        (orm.find
          (λ ur.
            any (λ rp. links rp ur && str_eq rp.permission_id permission_id) db.role_permissions)
          db.user_roles))

  unfoldable pub find_permission_by_id : String → Exec (World b) (Option Permission)
  find_permission_by_id id =
      gets (λ w. orm.find_one (λ (p : Permission). str_eq p.id id) w.db.permissions)

  -- The unique constraint on (action, subject).
  abbrev pub same_permission : PermissionAction → String → Permission → Bool
  same_permission action subject p =
      str_eq (action_text p.action) (action_text action) && str_eq p.subject subject

  unfoldable pub assert_unique_permission : PermissionAction → String → Exec (World b) (Unit {0})
  unfolding permission_key
  assert_unique_permission action subject = do
    existing ← gets (λ w. orm.find_one (same_permission action subject) w.db.permissions)
    if is_set existing then throw (http conflict (conflict_message action subject)) else pure tt

  unfoldable pub save_permission : Permission → Exec (World b) Permission
  save_permission p = do
    saved ← λ w. (orm.insert (same_permission p.action p.subject) p w.db.permissions, w)
    λ w. (ok p, record w { db = record w.db { permissions = saved } })

  -- `id` and `now` are what the database fills in.
  unfoldable pub create_permission :
      PermissionAction → String → Option String → String → ℕ → Exec (World b) Permission
  unfolding assert_unique_permission save_permission
  create_permission action subject description id now = do
    assert_unique_permission action subject
    λ w. catch_conflict (conflict_message action subject) (
        save_permission
          (record {
            id = id;
            action = action;
            subject = subject;
            description = description;
            created_at = now;
            updated_at = now;
          })
          w)

  unfoldable pub update_permission : String → Option String → ℕ → Exec (World b) Permission
  unfolding find_permission_by_id
  update_permission id description now = do
    found ← find_permission_by_id id
    p ← or_throw (http bad_request "Permission not found") found
    let changed = record p { description = description; updated_at = now }
    λ w. (
      ok changed,
      record w {
        db = record w.db {
          permissions =
              orm.update (λ (q : Permission). str_eq q.id p.id) (λ _. changed) w.db.permissions;
        };
      },
    )

  -- DELETE on `permissions`; the foreign key of `role_permissions` cascades.
  unfoldable pub delete_permission : String → Exec (World b) (Unit {0})
  delete_permission id w = (
    ok tt,
    record w {
      db = record w.db {
        permissions = orm.delete (λ (p : Permission). str_eq p.id id) w.db.permissions;
        role_permissions =
            orm.delete (λ (rp : RolePermission). str_eq rp.permission_id id) w.db.role_permissions;
      };
    },
  )

  -- The affected users are read before the delete and invalidated after it.
  unfoldable pub remove_permission : String → Exec (World b) (Unit {0})
  unfolding find_permission_by_id find_user_ids_with_permission delete_permission invalidate_users
  remove_permission id = do
    found ← find_permission_by_id id
    or_throw (http bad_request "Permission not found") found
    user_ids ← gets (λ w. find_user_ids_with_permission id w.db)
    delete_permission id
    invalidate_users user_ids
