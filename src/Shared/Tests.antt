-- ===== src/Shared/Tests.antt =====
-- The theorems on what is shared at concrete inputs: a Redis that fails as its state says.
use nestjs_app.Prelude.{
  ℕ, ◌≤◌, ◌+◌, ◌≡◌, refl, Bool, true, false, some, List, [], ◌∷◌, ◌++◌, length, ◌↔◌,
}
use nestjs_app.Result.{Exec, ok, err, http, not_found}
use nestjs_app.Js.{trim}
use nestjs_app.Shared.Throttling.{
  Storages, Hit, ThrottlerStorageRecord, Resilient, Notice, unavailable, recovered,
}
use nestjs_app.Shared.Throttling.Fallback.{Alternates, increment_all, increment_all-Alternates}
use nestjs_app.Shared.Redis.Retries.{retry_all, sum, retries_end}
use nestjs_app.Durations.{parse_duration_to_ms}
use nestjs_app.Durations.Format.{IsDuration, parse_duration_iff}

abbrev counted : ℕ → ThrottlerStorageRecord
counted n = record {
  total_hits = n;
  time_to_expire = 60;
  is_blocked = false;
  time_to_block_expire = 0;
}

abbrev redis_count : Hit → Exec (List Bool) ThrottlerStorageRecord
redis_count hit [] = (ok (counted 1), [])
redis_count hit (true ∷ up) = (ok (counted 1), up)
redis_count hit (false ∷ up) = (err (http not_found "connection lost"), up)

abbrev flaky : Storages
flaky = record {
  RedisState = List Bool;
  MemoryState = ℕ;
  redis_increment = redis_count;
  memory_increment = λ hit n. (counted n, n + 1);
}

abbrev hit : Hit
hit = record { key = "k"; ttl = 60; limit = 10; block_duration = 0; throttler_name = "default" }

abbrev outage_ahead : Resilient flaky
outage_ahead = record {
  redis = true ∷ false ∷ false ∷ true ∷ [];
  memory = 1;
  using_fallback = false;
  logged = [];
}

increment_all-Alternates_example :
    let (answers, after) = increment_all flaky (hit ∷ hit ∷ hit ∷ hit ∷ []) outage_ahead in
    (length answers ≡ 4)
    × ((added : List Notice) × (after.logged ≡ [] ++ added)
        × Alternates flaky false added after.using_fallback)
increment_all-Alternates_example =
    increment_all-Alternates flaky (hit ∷ hit ∷ hit ∷ hit ∷ []) outage_ahead

logged_test :
    (increment_all flaky (hit ∷ hit ∷ hit ∷ hit ∷ []) outage_ahead).1.logged
    ≡ unavailable ∷ recovered ∷ []
unfolding nestjs_app.Shared.Throttling.increment
logged_test = refl

parse_duration_iff_example :
    (parse_duration_to_ms " 15m" ≡ some 900000) ↔ IsDuration (trim " 15m") 900000
parse_duration_iff_example = parse_duration_iff " 15m" 900000

quarter_test : parse_duration_to_ms " 15m" ≡ some 900000
unfolding parse_duration_to_ms nestjs_app.Durations.match_duration nestjs_app.Durations.take_digits
    nestjs_app.Durations.unit_to_ms nestjs_app.Js.trim
quarter_test = refl

retries_end_example :
    let (delays, tries) = retry_all 30 1 in
    (length delays ≡ 20) × (sum delays ≤ 21000) × (tries ≡ false)
retries_end_example = retries_end 30
