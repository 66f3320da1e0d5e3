-- ===== src/Metrics/Tests.antt =====
-- The theorems on the metrics at concrete inputs.
use nestjs_app.Prelude.{◌+◌, ◌*◌, ◌≤◌, ◌≡◌, refl, arith, List, [], ◌∷◌, length, some}
use nestjs_app.Metrics.{Limits, no_metrics, recent_error_rate}
use nestjs_app.Metrics.Window.Latest.{Request, record_all, recent_error_rate-latest}
use nestjs_app.Metrics.Routes.{record_all-bounds}
use nestjs_app.Metrics.{ErrorRate}
use nestjs_app.Metrics.Monitor.{MetricsConfig, check_rate, check_rate_lem}
use nestjs_app.Metrics.Monitor.Alerts.{Check, alerts_of, alerts_spaced, alerts_repeated}

abbrev limits : Limits
limits = record { max_routes = 1; window_capacity = 2 }

-- Four requests to two routes, into a ring of two samples.
abbrev requests : List Request
requests =
    record { route = "/a"; status_code = 500; duration_ms = 3; now = 1 }
    ∷ record { route = "/b"; status_code = 500; duration_ms = 5; now = 2 }
    ∷ record { route = "/a"; status_code = 200; duration_ms = 4; now = 3 }
    ∷ record { route = "/a"; status_code = 503; duration_ms = 2; now = 4 }
    ∷ []

recent_error_rate-latest_example :
    let rate = recent_error_rate 5 1000 (record_all limits requests no_metrics) in
    (rate.errors ≡ 1) × (rate.samples ≡ 2)
recent_error_rate-latest_example = recent_error_rate-latest limits requests 5 1000 (ground arith)

record_all-bounds_example :
    (length (record_all limits requests no_metrics).routes ≤ 1)
    × (length (record_all limits requests no_metrics).samples ≤ 2)
    × ((record_all limits requests no_metrics).total_requests ≡ 4)
record_all-bounds_example =
    record_all-bounds limits requests no_metrics (ground arith) (ground arith)

abbrev config : MetricsConfig
config = record {
  error_rate_threshold = 100;
  window_ms = 1000;
  min_samples = 2;
  alert_cooldown_ms = 300;
}

-- Half of the requests failed, a moment after the last alert.
check_rate_lem_example :
    check_rate config 110 (record { errors = 1; samples = 2 }) 100
    ≡ (some (record { errors = 1; samples = 2 }), 110)
check_rate_lem_example =
    check_rate_lem config 110 (record { errors = 1; samples = 2 }) 100 (ground arith)

-- One in four requests fails, at three checks; then half of them fail.
abbrev some_failures : ErrorRate
some_failures = record { errors = 1; samples = 4 }

abbrev many_failures : ErrorRate
many_failures = record { errors = 2; samples = 4 }

abbrev calm_checks : List Check
calm_checks =
    record { now = 400; rate = some_failures }
    ∷ record { now = 500; rate = some_failures }
    ∷ record { now = 750; rate = some_failures }
    ∷ []

abbrev severe_checks : List Check
severe_checks =
    record { now = 400; rate = many_failures } ∷ record { now = 410; rate = many_failures } ∷ []

alerts_spaced_example : length (alerts_of config calm_checks 100) * 300 + 100 ≤ 800
alerts_spaced_example =
    alerts_spaced config calm_checks 100 800 100 (ground arith)
      (ground arith, (ground arith, (ground arith, ground arith))) (refl, (refl, (refl, tt)))

-- The checks at 400 and at 750 alert.
spaced_test : alerts_of config calm_checks 100 ≡ some_failures ∷ some_failures ∷ []
unfolding check_rate
spaced_test = refl

alerts_repeated_example : alerts_of config severe_checks 399 ≡ many_failures ∷ many_failures ∷ []
alerts_repeated_example =
    alerts_repeated config severe_checks 399 ((refl, refl), ((refl, refl), tt))
