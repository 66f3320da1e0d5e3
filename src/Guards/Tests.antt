-- ===== src/Guards/Tests.antt =====
-- The theorems on the guards at concrete inputs.
use nestjs_app.Prelude.{◌≡◌, refl, arith, String, false, none, some, [], ◌∷◌, find?}
use nestjs_app.Result.{err, http, forbidden}
use nestjs_app.Db.{User, active, read, manage, list_orm, list_orm-Documented}
use nestjs_app.Users.Lookup.{live_with_id, find_by_id}
use nestjs_app.Auth.Samples.{jane, two_sessions}
use nestjs_app.Permissions.{get_permission_rules_for_user}
use nestjs_app.Permissions.Samples.{backend, warm, warm-Coherent, map_redis-IsRedis}
use nestjs_app.Guards.Permission.{permissions_guard}
use nestjs_app.Guards.Access.{permissions_guard-may}
use nestjs_app.Guards.Identity.{
  JwtPayload, Socket, authenticate, validate, truthy, extract_token, subject_of,
}
use nestjs_app.Guards.Identity.Agreement.{
  authenticate-validate, authenticate-eq-true, user_of, as_account,
}
use nestjs_app.Guards.Samples.{casl, casl-IsCasl, claims, jwt}
use nestjs_app.Guards.Throttle.{WsThrottleOptions, ThrottleState}
use nestjs_app.Guards.Throttle.Windows.{passes, passes-min}

-- Jane may read users, and no more.
permissions_guard-may_example :
    (permissions_guard casl backend
      (some (
        record { action = read; subject = "User" }
        ∷ record { action = manage; subject = "User" }
        ∷ []))
      20
      (some jane)
      warm).0
    ≡ err (http forbidden "Insufficient permissions")
unfolding get_permission_rules_for_user
permissions_guard-may_example =
    permissions_guard-may casl casl-IsCasl backend list_orm-Documented map_redis-IsRedis
      (record { action = read; subject = "User" }
        ∷ record { action = manage; subject = "User" }
        ∷ [])
      20 jane warm warm-Coherent

abbrev socket : Socket
socket = record {
  auth_token = none;
  authorization = some "Bearer jwt:u1";
  user = none;
  correlation_id = none;
  disconnected = false;
}

authenticate-validate_example :
    (user_of (validate list_orm jwt claims two_sessions).0 ≡ some jane)
    × (authenticate list_orm jwt "c1" two_sessions socket ≡ as_account "c1" (some jane) socket)
unfolding extract_token
authenticate-validate_example =
    authenticate-validate list_orm jwt list_orm-Documented "c1" "jwt:u1" claims two_sessions socket
      refl refl

authenticate-eq-true_example :
    (token : String) × (found : JwtPayload) × (sub : String) × (user : User) × (truthy
        (extract_token socket)
      ≡ some token)
    × (jwt.verify token ≡ some found)
    × (subject_of found ≡ some sub)
    × (find? (live_with_id sub) two_sessions.users ≡ some user)
    × (user.status ≡ active)
    × ((authenticate list_orm jwt "c1" two_sessions socket).1.user ≡ some user)
unfolding authenticate extract_token subject_of find_by_id
authenticate-eq-true_example =
    authenticate-eq-true list_orm jwt list_orm-Documented "c1" two_sessions socket refl

abbrev options : WsThrottleOptions
options = record { limit = 2; window_ms = 1000 }

abbrev untouched : ThrottleState
untouched event = none

passes-min_example : passes options "notify" (5 ∷ 6 ∷ 7 ∷ 8 ∷ []) untouched ≡ 2
passes-min_example =
    passes-min options "notify" 5 (6 ∷ 7 ∷ 8 ∷ []) untouched refl
      (ground arith, (ground arith, (ground arith, tt)))
