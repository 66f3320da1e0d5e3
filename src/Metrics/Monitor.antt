-- ===== src/Metrics/Monitor.antt =====
-- src/shared/metrics/error-rate.monitor.ts: when `check` alerts. Rates and thresholds are in
-- thousandths, and compared without division.
pub mod Alerts
pub mod Polling
use nestjs_app.Prelude.{
  ℕ, ◌+◌, ◌*◌, ◌-◌, ◌≤◌, ◌≡◌, arith, Bool, not, ◌&&◌, ◌||◌, Option, none, some, ltb, if◌then◌else◌,
}
use nestjs_app.Metrics.{Metrics, ErrorRate, recent_error_rate}

pub record MetricsConfig : Type 0 where
  pub error_rate_threshold : ℕ
  pub window_ms : ℕ
  pub min_samples : ℕ
  pub alert_cooldown_ms : ℕ

-- `rate > threshold`
abbrev pub exceeds : ErrorRate → ℕ → Bool
exceeds rate threshold = ltb (threshold * rate.samples) (rate.errors * 1000)

abbrev pub within_cooldown : MetricsConfig → ℕ → ℕ → Bool
within_cooldown config now last = ltb (now - last) config.alert_cooldown_ms

abbrev pub escalated : MetricsConfig → ℕ → ℕ → ErrorRate → Bool
escalated config now last rate =
    ltb (now - last) (config.alert_cooldown_ms * 2)
    && exceeds rate (config.error_rate_threshold + 200)

-- The rate that the alert reports, if there is one, and `lastAlertAt` after the check.
unfoldable pub check_rate : MetricsConfig → ℕ → ErrorRate → ℕ → Option ErrorRate × ℕ
check_rate config now rate last =
    if ltb rate.samples config.min_samples
    then (none, last)
    else if not (exceeds rate config.error_rate_threshold)
    then (none, last)
    else if within_cooldown config now last && not (escalated config now last rate)
    then (none, last)
    else (some rate, now)

unfoldable pub check : MetricsConfig → ℕ → Metrics → ℕ → Option ErrorRate × ℕ
unfolding check_rate
check config now m last = check_rate config now (recent_error_rate now config.window_ms m) last

-- When the last alert is not in the future: a check alerts exactly if there are enough samples,
-- the rate exceeds the threshold, and either the cooldown is over or the rate exceeds the
-- threshold by 200 thousandths; so the longer window in which the code looks for a rise has no effect.
pub check_rate_lem :
    (config : MetricsConfig) (now : ℕ) (rate : ErrorRate) (last : ℕ)
    → last ≤ now
    → check_rate config now rate last ≡ (
        if not (ltb rate.samples config.min_samples)
          && exceeds rate config.error_rate_threshold
          && (not (within_cooldown config now last)
              || exceeds rate (config.error_rate_threshold + 200))
        then (some rate, now)
        else (none, last))
unfolding check_rate
check_rate_lem config now rate last h = ground arith
