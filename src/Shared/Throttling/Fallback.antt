-- ===== src/Shared/Throttling/Fallback.antt =====
-- Every request is counted, and an outage of Redis is logged once.
use nestjs_app.Prelude.{
  suc, ◌≡◌, refl, ap, sym, ◌∙◌, Bool, true, false, List, [], ◌∷◌, ◌++◌, length,
}
use mathlib.Core.List.{append_assoc, append-nil}
use nestjs_app.Result.{Result, ok, err}
use nestjs_app.Shared.Throttling.{
  Storages, Hit, ThrottlerStorageRecord, Resilient, Notice, unavailable, recovered, increment,
  after_redis,
}

module _ (s : Storages) where
  -- A sequence of requests: what each is answered, and the storage after them.
  abbrev pub increment_all : List Hit → Resilient s → List ThrottlerStorageRecord × Resilient s
  increment_all [] state = ([], state)
  increment_all (hit ∷ hits) state =
      let (found, next) = increment s hit state in
      let (rest, last) = increment_all hits next in (found ∷ rest, last)

  -- A log in which outages and recoveries alternate, from a state to a state.
  pub data Alternates : Bool → List Notice → Bool → Type 0 where
    silent : (b : Bool) → Alternates b [] b
    outage :
        {ns : List Notice} {b : Bool} → Alternates true ns b → Alternates false (unavailable ∷ ns) b
    recovery :
        {ns : List Notice} {b : Bool} → Alternates false ns b → Alternates true (recovered ∷ ns) b

  -- What one request adds to the log.
  record IsLogged (state next : Resilient s) : Type 0 where
    pub added : List Notice
    pub appended : next.logged ≡ state.logged ++ added
    pub alternates :
        {ns : List Notice} {b : Bool}
        → Alternates next.using_fallback ns b
        → Alternates state.using_fallback (added ++ ns) b

  after_redis-IsLogged :
      (hit : Hit) (r : Result ThrottlerStorageRecord × s.RedisState) (redis : s.RedisState)
      (memory : s.MemoryState) (fallback : Bool) (logged : List Notice)
      → let state : Resilient s = record {
        redis = redis;
        memory = memory;
        using_fallback = fallback;
        logged = logged;
      } in
        IsLogged state (after_redis s hit r state).1
  after_redis-IsLogged hit (ok found, redis') redis memory true logged = record {
    added = recovered ∷ [];
    appended = refl;
    alternates = λ h. recovery h;
  }
  after_redis-IsLogged hit (ok found, redis') redis memory false logged = record {
    added = [];
    appended = sym (append-nil logged);
    alternates = λ h. h;
  }
  after_redis-IsLogged hit (err e, redis') redis memory true logged = record {
    added = [];
    appended = sym (append-nil logged);
    alternates = λ h. h;
  }
  after_redis-IsLogged hit (err e, redis') redis memory false logged = record {
    added = unavailable ∷ [];
    appended = refl;
    alternates = λ h. outage h;
  }

  increment-IsLogged : (hit : Hit) (state : Resilient s) → IsLogged state (increment s hit state).1
  unfolding increment
  increment-IsLogged hit state =
      after_redis-IsLogged hit (s.redis_increment hit state.redis) state.redis state.memory
        state.using_fallback state.logged

  -- Every request of a sequence is answered, whatever Redis does; and the log gets an outage and a
  -- recovery in turn: it begins with an outage unless the fallback is in use, and says at its end
  -- whether the fallback is in use.
  pub increment_all-Alternates :
      (hits : List Hit) (state : Resilient s)
      → let (answers, after) = increment_all hits state in
        (length answers ≡ length hits)
        × ((added : List Notice) × (after.logged ≡ state.logged ++ added)
            × Alternates state.using_fallback added after.using_fallback)
  increment_all-Alternates [] state =
      (refl, ([], sym (append-nil state.logged), silent state.using_fallback))
  increment_all-Alternates (hit ∷ hits) state =
      let next = (increment s hit state).1 in
      let first = increment-IsLogged hit state in
      let (answered, (added, appended, alternates)) = increment_all-Alternates hits next in
      (
        ap suc answered,
        (
          first.added ++ added,
          appended
              ∙ ap (λ l. l ++ added) first.appended
              ∙ append_assoc state.logged first.added added,
          first.alternates alternates,
        ),
      )
