-- ===== src/Realtime/Tests.antt =====
-- The theorems on the adapter at concrete inputs.
use nestjs_app.Prelude.{
  suc, ◌+◌, ◌*◌, ◌≡◌, ◌⊎◌, refl, arith, String, Bool, true, false, Option, none, some, [], ◌∷◌,
  str_eq, eq_refl, if◌then◌else◌,
}
use nestjs_app.Result.{ok, err, database, entity_not_found}
use nestjs_app.Db.{User, list_orm-Documented}
use nestjs_app.Permissions.Samples.{backend, warm, warm-Coherent, map_redis-IsRedis}
use nestjs_app.Guards.Samples.{casl, casl-IsCasl, jwt}
use nestjs_app.Guards.Throttle.{throttle, passed}
use nestjs_app.Realtime.Gateway.{
  Live, BroadcastNotificationDto, handle_connection, on_broadcast, user_room, broadcast_options,
  broadcast_event,
}
use nestjs_app.Realtime.Gateway.Access.{
  IsSilent, IsSent, MayBroadcast, Presents, on_broadcast-MayBroadcast, handle_connection-rooms,
}
use nestjs_app.Realtime.ConnectLimit.{Counters}
use nestjs_app.Realtime.ConnectLimit.Windows.{
  Counter, IsCounters, count_at, expiry_at, expiring, admits, admits-min, admits_for_ever,
}
use nestjs_app.Realtime.Adapter.{
  Adapter, Clients, both, Moment, failed, Reach, created, later, new_adapter, begin_attach,
  pings_failed,
}
use nestjs_app.Realtime.Adapter.Phases.{Reach-Phase, Phase}
use nestjs_app.Realtime.Adapter.Recovery.{Reach-CanAttach, CanAttach}

abbrev at_ten : Moment
at_ten = record { ready = true; now = 10 }

abbrev first_pair : Clients
first_pair = record { pub_client = 1; sub_client = 2 }

-- The pings of the first attempt fail.
abbrev one_failure : Adapter
one_failure =
    pings_failed at_ten "timed out" first_pair
      (record (begin_attach at_ten (both first_pair) new_adapter) { pinging = [] })

one_failure-Reach : Reach one_failure
unfolding begin_attach new_adapter
one_failure-Reach =
    later (created at_ten (both first_pair)) (failed at_ten "timed out" first_pair [] [] refl)

Reach-Phase_example : Phase one_failure
Reach-Phase_example = Reach-Phase one_failure-Reach

Reach-CanAttach_example : CanAttach one_failure
Reach-CanAttach_example =
    Reach-CanAttach at_ten (record { pub_client = 3; sub_client = 4 }) one_failure-Reach

abbrev live : Live backend
live = record {
  world = warm;
  socket = record {
    auth_token = none;
    authorization = some "Bearer jwt:u1";
    user = none;
    correlation_id = none;
    disconnected = false;
  };
  throttle = λ event. none;
  rooms = [];
  emitted = [];
}

abbrev notice : BroadcastNotificationDto
notice = record { title = "Tonight"; message = "Maintenance at ten" }

on_broadcast-MayBroadcast_example :
    IsSilent backend list_orm-Documented jwt casl casl-IsCasl map_redis-IsRedis []
      (on_broadcast backend jwt casl notice 20 "c1" live)
    ⊎ (((throttle (some broadcast_options) broadcast_event 20 live.throttle).0 ≡ passed)
        × MayBroadcast backend list_orm-Documented jwt casl casl-IsCasl map_redis-IsRedis live
        × IsSent backend list_orm-Documented jwt casl casl-IsCasl map_redis-IsRedis notice []
            (on_broadcast backend jwt casl notice 20 "c1" live))
on_broadcast-MayBroadcast_example =
    on_broadcast-MayBroadcast backend list_orm-Documented jwt casl casl-IsCasl map_redis-IsRedis
      notice 20 "c1" live warm-Coherent

handle_connection-rooms_example :
    let after = handle_connection backend jwt casl "c1" live in
    ((after.rooms ≡ []) × (after.socket.disconnected ≡ true))
    ⊎ ((user : User) × Presents backend list_orm-Documented jwt warm.db live.socket user
        × (after.rooms ≡ user_room user.id ∷ []))
handle_connection-rooms_example =
    handle_connection-rooms backend list_orm-Documented jwt casl casl-IsCasl map_redis-IsRedis "c1"
      live

-- Counters that compute; EXPIRE fails on demand.
abbrev Held : Type 0
Held = String → Option Counter

abbrev write : String → Option Counter → Held → Held
write key entry held other = if str_eq other key then entry else held other

abbrev counters : (fails : Bool) → Counters
counters false = record {
  State = Held;
  incr = λ now key held. (
    ok (suc (count_at now (held key))),
    write key
        (some (record { count = suc (count_at now (held key)); expiry = expiry_at now (held key) }))
        held,
  );
  expire =
      λ now key seconds held. (ok tt, write key (expiring (now + seconds * 1000) (held key)) held);
}
counters true = record {
  State = Held;
  incr = λ now key held. (
    ok (suc (count_at now (held key))),
    write key
        (some (record { count = suc (count_at now (held key)); expiry = expiry_at now (held key) }))
        held,
  );
  expire = λ now key seconds held. (err (database entity_not_found), held);
}

reliable-IsCounters : IsCounters (counters false)
reliable-IsCounters = record {
  held = λ key held. held key;
  incr_lem = λ now key s. refl;
  held-incr = λ now key s. rw (eq_refl key) refl;
  held-expire = λ now key seconds s answered. rw (eq_refl key) refl;
  held-expire_failed = λ now key seconds s e failed. absurd (ground arith);
}

failing-IsCounters : IsCounters (counters true)
failing-IsCounters = record {
  held = λ key held. held key;
  incr_lem = λ now key s. refl;
  held-incr = λ now key s. rw (eq_refl key) refl;
  held-expire = λ now key seconds s answered. absurd (ground arith);
  held-expire_failed = λ now key seconds s e failed. refl;
}

admits-min_example :
    admits (counters false) reliable-IsCounters 2 "10.0.0.1" (5 ∷ 6 ∷ 7 ∷ []) (λ key. none) ≡ 2
unfolding reliable-IsCounters
admits-min_example =
    admits-min (counters false) reliable-IsCounters 2 5 "10.0.0.1" (6 ∷ 7 ∷ []) (λ key. none) refl
      refl (omega arith) (omega arith)

admits_for_ever_example :
    admits
      (counters true)
      failing-IsCounters
      2
      "10.0.0.1"
      (5 ∷ 900000 ∷ 9000000 ∷ 90000000 ∷ [])
      (λ key. none)
    ≡ 2
unfolding failing-IsCounters
admits_for_ever_example =
    admits_for_ever (counters true) failing-IsCounters 2 5 "10.0.0.1"
      (900000 ∷ 9000000 ∷ 90000000 ∷ []) (λ key. none) {e = database entity_not_found} refl refl
      (omega arith)
