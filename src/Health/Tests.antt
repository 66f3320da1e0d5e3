-- ===== src/Health/Tests.antt =====
-- The health check at concrete inputs.
use nestjs_app.Prelude.{◌≡◌, ◌↔◌, ◌⊎◌, refl, none, true}
use nestjs_app.Realtime.Adapter.{
  Adapter, both, answered, Reach, created, later, new_adapter, begin_attach, pings_answered,
}
use nestjs_app.Prelude.{[]}
use nestjs_app.Health.{Operation, check_health}
use nestjs_app.Health.Verdict.{IsHealthy, check_health-IsHealthy}

abbrev attached_adapter : Adapter
attached_adapter =
    pings_answered (record { pub_client = 1; sub_client = 2 })
      (record (begin_attach (record { ready = true; now = 10 })
        (both (record { pub_client = 1; sub_client = 2 })) new_adapter) { pinging = [] })

attached_adapter-Reach : Reach attached_adapter
unfolding begin_attach new_adapter
attached_adapter-Reach =
    later
      (created (record { ready = true; now = 10 })
        (both (record { pub_client = 1; sub_client = 2 })))
      (answered (record { pub_client = 1; sub_client = 2 }) [] [] refl)

abbrev quick : Operation
quick = record { took_ms = 3; error = none }

check_health-IsHealthy_example :
    (((check_health quick quick attached_adapter.status none 20).0 ≡ 200)
      ↔ IsHealthy quick quick attached_adapter)
    × (((check_health quick quick attached_adapter.status none 20).0 ≡ 200)
        ⊎ ((check_health quick quick attached_adapter.status none 20).0 ≡ 503))
check_health-IsHealthy_example = check_health-IsHealthy quick quick none 20 attached_adapter-Reach

healthy_test : (check_health quick quick attached_adapter.status none 20).0 ≡ 200
unfolding check_health begin_attach new_adapter pings_answered
healthy_test = refl
