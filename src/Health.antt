-- ===== src/Health.antt =====
-- src/modules/health/health.controller.ts. The probes of the database and of Redis are parameters:
-- each answers or fails, after some time.
pub mod Verdict
mod Tests
use nestjs_app.Prelude.{ℕ, String, Bool, true, false, ◌||◌, not, Option, none, some, if◌then◌else◌}
use nestjs_app.Realtime.Status.{AdapterStatus, is_degraded}
use nestjs_app.Mail.Processor.{PermanentFailure}

pub data ProbeStatus : Type 0 where
  up down : ProbeStatus

pub record ProbeResult : Type 0 where
  pub status : ProbeStatus
  pub latency_ms : ℕ
  pub error : Option String

pub data AdapterProbeStatus : Type 0 where
  adapter_ok degraded pending : AdapterProbeStatus

pub record RedisAdapterProbe : Type 0 where
  pub status : AdapterProbeStatus
  pub reason : Option String
  pub since : Option ℕ

pub record MailProbe : Type 0 where
  pub last_failure_reason : Option String
  pub last_failure_at : Option ℕ

pub record HealthResponse : Type 0 where
  pub is_degraded : Bool
  pub db : ProbeResult
  pub redis : ProbeResult
  pub redis_adapter : RedisAdapterProbe
  pub mail : MailProbe
  pub timestamp : ℕ

-- An operation that ends after some milliseconds, with success or with the error's text.
pub record Operation : Type 0 where
  pub took_ms : ℕ
  pub error : Option String

-- What the driver reports is logged, and not part of the result.
unfoldable pub probe : Operation → ProbeResult
probe operation = probed operation.took_ms operation.error
  where
    probed : ℕ → Option String → ProbeResult
    probed ms none = record { status = up; latency_ms = ms; error = none }
    probed ms (some e) = record { status = down; latency_ms = ms; error = some "unreachable" }

abbrev pub is_down : ProbeStatus → Bool
is_down up = false
is_down down = true

abbrev pub is_ok : AdapterProbeStatus → Bool
is_ok adapter_ok = true
is_ok degraded = false
is_ok pending = false

unfoldable pub adapter_probe : AdapterStatus → RedisAdapterProbe
adapter_probe status =
    if status.attached
    then (record { status = adapter_ok; reason = none; since = none })
    else if is_degraded status
    then (record {
      status = degraded;
      reason = status.degraded_reason;
      since = status.degraded_since;
    })
    else (record { status = pending; reason = none; since = none })

unfoldable pub mail_probe : Option PermanentFailure → MailProbe
mail_probe none = record { last_failure_reason = none; last_failure_at = none }
mail_probe (some failure) = record {
  last_failure_reason = some failure.reason;
  last_failure_at = some failure.at;
}

abbrev any_down : ProbeResult → ProbeResult → RedisAdapterProbe → Bool
any_down db redis adapter = is_down db.status || is_down redis.status || not (is_ok adapter.status)

-- The status code, and the body.
unfoldable pub check_health :
    (db redis : Operation)
    → AdapterStatus
    → Option PermanentFailure
    → (now : ℕ) → ℕ × HealthResponse
unfolding probe adapter_probe mail_probe
check_health db redis status failure now =
    let bad = any_down (probe db) (probe redis) (adapter_probe status) in
    (
      if bad then 503 else 200,
      record {
        is_degraded = bad;
        db = probe db;
        redis = probe redis;
        redis_adapter = adapter_probe status;
        mail = mail_probe failure;
        timestamp = now;
      },
    )
