-- ===== src/Guards/Throttle.antt =====
-- `WsThrottleGuard`: the counters that it keeps in the data of a socket.
pub mod Windows
use Prim.Native.String
use nestjs_app.Prelude.{
  ℕ, ◌+◌, String, Bool, true, not, Option, none, some, str_eq, ltb, if◌then◌else◌,
}
use nestjs_app.Result.{Result}

pub record WsThrottleOptions : Type 0 where
  pub limit : ℕ
  pub window_ms : ℕ

pub record ThrottleEntry : Type 0 where
  pub count : ℕ
  pub reset_at : ℕ

-- A `Record` of entries; the absent state reads as one without entries.
abbrev pub ThrottleState : Type 0
ThrottleState = String → Option ThrottleEntry

-- The guard lets the event through, or throws a `WsException`.
pub data Verdict : Type 0 where
  passed : Verdict
  exceeded : String → Verdict

abbrev pub put : String → ThrottleEntry → ThrottleState → ThrottleState
put event entry state other = if str_eq other event then some entry else state other

abbrev pub open_window : WsThrottleOptions → String → ℕ → ThrottleState → Verdict × ThrottleState
open_window options event now state =
    (passed, put event (record { count = 1; reset_at = now + options.window_ms }) state)

abbrev pub exceeded_message : String → String
exceeded_message event = String.◌++◌ "Socket event \"" (String.◌++◌ event "\" rate limit exceeded")

-- `entry.count += 1`, which stays when the guard throws.
unfoldable pub count_event :
    WsThrottleOptions → String → ThrottleEntry → ThrottleState → Verdict × ThrottleState
count_event options event entry state =
    let counted = record entry { count = entry.count + 1 } in
    (
      if ltb options.limit counted.count then exceeded (exceeded_message event) else passed,
      put event counted state,
    )

unfoldable pub count_in_window :
    WsThrottleOptions → String → ℕ → Option ThrottleEntry → ThrottleState → Verdict × ThrottleState
unfolding count_event
count_in_window options event now none state = open_window options event now state
count_in_window options event now (some entry) state =
    if not (ltb now entry.reset_at)
    then open_window options event now state
    else count_event options event entry state

unfoldable pub throttle :
    Option WsThrottleOptions → String → ℕ → ThrottleState → Verdict × ThrottleState
unfolding count_in_window
throttle none event now state = (passed, state)
throttle (some options) event now state = count_in_window options event now (state event) state
