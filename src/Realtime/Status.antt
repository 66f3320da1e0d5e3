-- ===== src/Realtime/Status.antt =====
-- src/modules/realtime/realtime-adapter.status.ts.
use nestjs_app.Prelude.{ℕ, String, Bool, true, false, Option, none, some, if◌then◌else◌, not}
use nestjs_app.Db.{is_set}

pub record AdapterStatus : Type 0 where
  pub attached : Bool
  pub degraded_reason : Option String
  pub degraded_since : Option ℕ

unfoldable pub new_status : AdapterStatus
new_status = record { attached = false; degraded_reason = none; degraded_since = none }

abbrev pub is_degraded : AdapterStatus → Bool
is_degraded status = is_set status.degraded_reason

unfoldable pub mark_attached : AdapterStatus → AdapterStatus
mark_attached status = record status {
  attached = true;
  degraded_reason = none;
  degraded_since = none;
}

-- The first of several failures dates the outage.
unfoldable pub mark_degraded : (now : ℕ) → String → AdapterStatus → AdapterStatus
mark_degraded now reason status = record status {
  attached = false;
  degraded_since = if not (is_degraded status) then some now else status.degraded_since;
  degraded_reason = some reason;
}
