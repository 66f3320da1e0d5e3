-- ===== src/Shared/Throttling.antt =====
-- src/shared/throttler/resilient-throttler-storage.ts. The two storages of the throttler are
-- parameters; the log has what is logged of their changes.
pub mod Fallback
use nestjs_app.Prelude.{ℕ, String, Bool, true, false, List, [], ◌∷◌, ◌++◌, if◌then◌else◌}
use nestjs_app.Result.{Exec, Result, ok, err, Exception}

pub record ThrottlerStorageRecord : Type 0 where
  pub total_hits : ℕ
  pub time_to_expire : ℕ
  pub is_blocked : Bool
  pub time_to_block_expire : ℕ

-- The arguments of `increment`.
pub record Hit : Type 0 where
  pub key : String
  pub ttl : ℕ
  pub limit : ℕ
  pub block_duration : ℕ
  pub throttler_name : String

-- The storage in Redis may fail; the one in memory does not.
pub record Storages : Type 1 where
  pub RedisState : Type 0
  pub MemoryState : Type 0
  pub redis_increment : Hit → Exec RedisState ThrottlerStorageRecord
  pub memory_increment : Hit → MemoryState → ThrottlerStorageRecord × MemoryState

pub data Notice : Type 0 where
  unavailable recovered : Notice

pub record Resilient (s : Storages) : Type 0 where
  pub redis : s.RedisState
  pub memory : s.MemoryState
  pub using_fallback : Bool
  pub logged : List Notice

module _ (s : Storages) where
  abbrev pub after_redis :
      Hit
      → Result ThrottlerStorageRecord × s.RedisState
      → Resilient s
      → ThrottlerStorageRecord × Resilient s
  after_redis hit (ok found, redis) state = (
    found,
    record state {
      redis = redis;
      using_fallback = false;
      logged = if state.using_fallback then state.logged ++ recovered ∷ [] else state.logged;
    },
  )
  after_redis hit (err e, redis) state =
      let (found, memory) = s.memory_increment hit state.memory in
      (
        found,
        record state {
          redis = redis;
          memory = memory;
          using_fallback = true;
          logged = if state.using_fallback then state.logged else state.logged ++ unavailable ∷ [];
        },
      )

  unfoldable pub increment : Hit → Resilient s → ThrottlerStorageRecord × Resilient s
  increment hit state = after_redis hit (s.redis_increment hit state.redis) state
