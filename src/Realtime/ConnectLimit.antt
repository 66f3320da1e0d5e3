-- ===== src/Realtime/ConnectLimit.antt =====
-- `attachConnectRateLimit` and `checkConnectRateLimit` of src/modules/realtime/redis-io.adapter.ts.
-- The two commands of Redis are parameters.
pub mod Windows
use Prim.Native.String
use nestjs_app.Prelude.{ℕ, zero, String, Option, none, some, ◌==◌, ltb, if◌then◌else◌}
use nestjs_app.Result.{Exec, Result, ok, err, pure, ◌>>=◌, ◌>>◌}

-- INCR of a key, and EXPIRE of a key in seconds, at a time in milliseconds; either may fail.
pub record Counters : Type 1 where
  pub State : Type 0
  pub incr : ℕ → String → Exec State ℕ
  pub expire : ℕ → String → ℕ → Exec State (Unit {0})

-- `next()` and `next(new Error(…))`.
pub data Admission : Type 0 where
  admitted : Admission
  refused : String → Admission

abbrev pub connect_rate_window_seconds : ℕ
connect_rate_window_seconds = 60

abbrev pub connect_key : String → String
connect_key address = String.◌++◌ "ws:connect:" address

module _ (redis : Counters) where
  open redis use {State, incr, expire}

  unfoldable pub expire_first : ℕ → String → ℕ → Exec State (Unit {0})
  expire_first now key current =
      if current == 1 then expire now key connect_rate_window_seconds else pure tt

  unfoldable pub count_connection : (limit now : ℕ) → String → Exec State Admission
  unfolding expire_first
  count_connection limit now key = do
    current ← incr now key
    expire_first now key current
    pure (if ltb limit current then refused "Connection rate limit exceeded" else admitted)

  -- The `catch`: a failure is logged and the connection is allowed.
  abbrev pub or_allow : Result Admission × State → Admission × State
  or_allow (ok admission, s) = (admission, s)
  or_allow (err e, s) = (admitted, s)

  unfoldable pub check_connect_rate_limit : (limit now : ℕ) → String → State → Admission × State
  unfolding count_connection
  check_connect_rate_limit limit now address s =
      or_allow (count_connection limit now (connect_key address) s)

  -- A limit of 0 installs no check.
  unfoldable pub connect : (limit now : ℕ) → String → State → Admission × State
  unfolding check_connect_rate_limit
  connect limit now address s =
      if limit == 0 then (admitted, s) else check_connect_rate_limit limit now address s
