-- ===== src/Permissions/Cache.antt =====
-- What the code uses of Redis, which is not in the repository: keys with an expiry that may be
-- read, set and deleted, each command of which may fail. A value is the list of rules whose JSON
-- text is stored; a text that does not parse reads as a failure, as `safeGet` treats it.
use nestjs_app.Prelude.{ℕ, ◌≡◌, ◌≢◌, ◌⊎◌, String, true, Option, some, List}
use nestjs_app.Result.{Exec, Result, ok}
use nestjs_app.Db.{PermissionAction, Db, Orm}
use nestjs_app.Users.JoinRows.{has}

pub record PermissionRule : Type 0 where
  pub action : PermissionAction
  pub subject : String

abbrev pub Rules : Type 0
Rules = List PermissionRule

pub record Redis : Type 1 where
  pub State : Type 0
  -- GET at a time.
  pub get : ℕ → String → State → Result (Option Rules)
  -- SET key value PX ttl at a time.
  pub set : ℕ → String → Rules → ℕ → Exec State (Unit {0})
  pub del : List String → Exec State (Unit {0})

-- Deleting adds no value, and removes the keys if it succeeds; setting changes one key.
pub record IsRedis (redis : Redis) : Type 0 where
  pub get-del :
      (t : ℕ) (key : String) (keys : List String) (s : redis.State) (v : Rules)
      → redis.get t key (redis.del keys s).1 ≡ ok (some v)
      → redis.get t key s ≡ ok (some v)
  pub get-del_deleted :
      (t : ℕ) (key : String) (keys : List String) (s : redis.State) (v : Rules)
      → (redis.del keys s).0 ≡ ok tt
      → has key keys ≡ true
      → redis.get t key (redis.del keys s).1 ≢ ok (some v)
  pub get-set :
      (t now : ℕ) (key key' : String) (value v : Rules) (ttl : ℕ) (s : redis.State)
      → redis.get t key (redis.set now key' value ttl s).1 ≡ ok (some v)
      → ((key ≡ key') × (v ≡ value)) ⊎ (redis.get t key s ≡ ok (some v))

-- The two stores that the services share.
pub record Backend : Type 1 where
  pub orm : Orm
  pub redis : Redis
  pub cache_ttl_ms : ℕ

pub record World (b : Backend) : Type 0 where
  pub db : Db
  pub cache : b.redis.State
