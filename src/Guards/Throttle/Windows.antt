-- ===== src/Guards/Throttle/Windows.antt =====
-- How many events of a socket pass in a window.
use nestjs_app.Prelude.{
  ℕ, suc, ◌+◌, ◌-◌, ◌<◌, min, max, ◌≡◌, refl, String, none, some, List, [], ◌∷◌, arith, eq_refl,
  ltb, if◌then◌else◌, length, All,
}
use nestjs_app.Guards.Throttle.{
  WsThrottleOptions, ThrottleState, Verdict, passed, exceeded, throttle, count_in_window,
  count_event,
}

abbrev pub one_if_passed : Verdict → ℕ
one_if_passed passed = 1
one_if_passed (exceeded message) = 0

-- How many of the events, at the given times, pass.
abbrev pub passes : WsThrottleOptions → String → List ℕ → ThrottleState → ℕ
passes options event [] state = 0
passes options event (now ∷ times) state =
    one_if_passed (throttle (some options) event now state).0
    + passes options event times (throttle (some options) event now state).1

throttle-counted :
    (options : WsThrottleOptions) (event : String) (now count reset_at : ℕ) (state : ThrottleState)
    → state event ≡ some (record { count = count; reset_at = reset_at })
    → now < reset_at
    → (one_if_passed (throttle (some options) event now state).0
        ≡ (if ltb options.limit (count + 1) then 0 else 1))
      × ((throttle (some options) event now state).1 event
          ≡ some (record { count = count + 1; reset_at = reset_at }))
unfolding throttle count_in_window count_event
throttle-counted options event now count reset_at state e h =
    rw e (ground (arith, eq_refl event), ground (arith, eq_refl event))

passes-counted :
    (options : WsThrottleOptions) (event : String) (times : List ℕ) (count reset_at : ℕ)
    (state : ThrottleState)
    → state event ≡ some (record { count = count; reset_at = reset_at })
    → All (λ now. now < reset_at) times
    → passes options event times state ≡ min (length times) (options.limit - count)
passes-counted options event [] count reset_at state e h = omega arith
passes-counted options event (now ∷ times) count reset_at state e (p, h) =
    let (now_passed, next) = throttle-counted options event now count reset_at state e p in
    let rest =
      passes-counted options event times (count + 1) reset_at
        (throttle (some options) event now state).1 next h in
    rw (now_passed, rest) (ground arith)

throttle-opened :
    (options : WsThrottleOptions) (event : String) (now : ℕ) (state : ThrottleState)
    → state event ≡ none
    → (one_if_passed (throttle (some options) event now state).0 ≡ 1)
      × ((throttle (some options) event now state).1 event
          ≡ some (record { count = 1; reset_at = now + options.window_ms }))
unfolding throttle count_in_window
throttle-opened options event now state e = rw e (refl, rw (eq_refl event))

-- Of the events of one name that arrive before the window of the first one ends, as many pass as
-- the limit says, and the first one whatever it says.
pub passes-min :
    (options : WsThrottleOptions) (event : String) (start : ℕ) (times : List ℕ)
    (state : ThrottleState)
    → state event ≡ none
    → All (λ now. now < start + options.window_ms) times
    → passes options event (start ∷ times) state ≡ min (suc (length times)) (max 1 options.limit)
passes-min options event start times state e h =
    let (first, next) = throttle-opened options event start state e in
    let rest =
      passes-counted options event times 1 (start + options.window_ms)
        (throttle (some options) event start state).1 next h in
    rw (first, rest) (ground arith)
