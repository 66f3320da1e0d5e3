-- ===== src/Metrics/Monitor/Polling.antt =====
-- The timer of src/shared/metrics/error-rate.monitor.ts, and src/modules/health/metrics.controller.ts.
-- An interval is a number that `setInterval` returns.
use nestjs_app.Prelude.{
  ℕ, ◌==◌, ◌≡◌, refl, Bool, true, false, not, Option, none, some, List, [], ◌∷◌, keep, arith, min,
  max, if◌then◌else◌,
}
use nestjs_app.Metrics.{Metrics, MetricsSnapshot, ErrorRate, snapshot}
use nestjs_app.Metrics.Monitor.{MetricsConfig, check}

-- The monitor, and the intervals that are set. The pause between two polls is counted in thirds of
-- a millisecond.
pub record Monitor : Type 0 where
  pub timer : Option ℕ
  pub last_alert_at : ℕ
  pub poll_thirds : ℕ
  pub intervals : List ℕ

-- `Math.max(1_000, Math.min(windowMs / 3, 30_000))`
abbrev pub poll_thirds_of : ℕ → ℕ
poll_thirds_of window_ms = max 3000 (min window_ms 90000)

unfoldable pub maybe_start_interval : (interval : ℕ) → Monitor → Monitor
maybe_start_interval interval m = start m.timer
  where
    start : Option ℕ → Monitor
    start none = record m { timer = some interval; intervals = interval ∷ m.intervals }
    start (some running) = m

-- The constructor.
unfoldable pub new_monitor : MetricsConfig → (enabled : Bool) → (interval : ℕ) → Monitor
unfolding maybe_start_interval
new_monitor config enabled interval =
    let m : Monitor = record {
      timer = none;
      last_alert_at = 0;
      poll_thirds = poll_thirds_of config.window_ms;
      intervals = [];
    } in
    if enabled then maybe_start_interval interval m else m

abbrev pub clear : Option ℕ → List ℕ → List ℕ
clear none intervals = intervals
clear (some interval) intervals = keep (λ other. not (other == interval)) intervals

unfoldable pub stop_interval : Monitor → Monitor
stop_interval m = record m { timer = none; intervals = clear m.timer m.intervals }

-- A check, by the timer or by a request: the alert that is sent, and the monitor after it.
unfoldable pub poll : MetricsConfig → ℕ → Metrics → Monitor → Option ErrorRate × Monitor
unfolding check
poll config now metrics m =
    let (alert, last) = check config now metrics m.last_alert_at in
    (alert, record m { last_alert_at = last })

-- `GET /metrics`: a check, and the snapshot.
unfoldable pub get_metrics :
    MetricsConfig → (now : ℕ) → Metrics → Monitor → MetricsSnapshot × (Option ErrorRate × Monitor)
unfolding poll snapshot
get_metrics config now metrics m =
    (snapshot config.window_ms now metrics, poll config now metrics m)

-- A monitor has at most one interval, and its `timer` names it; once it is stopped, by either of
-- the two hooks or by both, there is none.
pub stop_interval-new_monitor :
    (config : MetricsConfig) (enabled : Bool) (first second : ℕ)
    → let m =
        maybe_start_interval second
          (maybe_start_interval first (new_monitor config enabled first)) in
      (m.intervals ≡ first ∷ [])
      × (stop_interval m ≡ record m { timer = none; intervals = [] })
      × (stop_interval (stop_interval m) ≡ stop_interval m)
unfolding new_monitor stop_interval
stop_interval-new_monitor config true first second = (refl, ground arith, ground arith)
stop_interval-new_monitor config false first second = (refl, ground arith, ground arith)
