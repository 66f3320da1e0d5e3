-- ===== src/Http.antt =====
-- The path of a request through the guards that src/app.module.ts registers, in their order, to a
-- handler: src/common/guards/jwt-auth.guard.ts and user-throttler.guard.ts.
pub mod Filter
pub mod Guarded
use nestjs_app.Prelude.{ℕ, String, Bool, true, false, Option, none, some}
use nestjs_app.Result.{Exec, Result, ok, err, pure, lift, ◌>>=◌, ◌>>◌}
use nestjs_app.Db.{User, is_set}
use nestjs_app.Permissions.Cache.{Rules, Backend, World}
use nestjs_app.Guards.Permission.{Casl, permissions_guard}
use nestjs_app.Guards.Identity.{Jwt, JwtPayload, validate}

pub record Request : Type 0 where
  pub authorization : Option String
  pub ip : String

-- What @nestjs/passport does with the `validate` of a strategy: the user of a request, or an error.
pub record Passport : Type 0 where
  pub authenticate : Option String → (JwtPayload → Result (Option User)) → Result User

-- The rest of NestJS: a throttler's answer for a tracker, and `ParseUUIDPipe`.
pub record Framework : Type 0 where
  pub jwt : Jwt
  pub passport : Passport
  pub ip_wall : String → Result (Unit {0})
  pub user_wall : String → Result (Unit {0})
  pub parse_uuid : String → Result String

-- `@Public()` and `@RequirePermissions(…)` of a handler.
pub record Access : Type 0 where
  pub is_public : Bool
  pub required : Option Rules

abbrev pub open_to_all : Access
open_to_all = record { is_public = true; required = none }

abbrev pub logged_in : Access
logged_in = record { is_public = false; required = none }

abbrev pub requires : Rules → Access
requires rules = record { is_public = false; required = some rules }

-- `!req.user`
abbrev pub should_skip : Option User → Bool
should_skip none = true
should_skip (some user) = false

-- `user?.id ?? String(req.ip)`
unfoldable pub get_tracker : Option User → Request → String
get_tracker none request = request.ip
get_tracker (some user) request = user.id

abbrev pub as_user : Result User → Result (Option User)
as_user (ok user) = ok (some user)
as_user (err e) = err e

module _ (framework : Framework) (casl : Casl) (b : Backend) where
  open framework use {jwt, passport, ip_wall, user_wall}

  -- It leaves `request.user` unset on a public handler.
  unfoldable pub jwt_auth_guard : Bool → Request → Exec (World b) (Option User)
  jwt_auth_guard true request w = (ok none, w)
  jwt_auth_guard false request w = (
    as_user (
        passport.authenticate request.authorization
          (λ payload. (validate b.orm jwt payload w.db).0)),
    w,
  )

  abbrev pub throttle_unless : Bool → Result (Unit {0}) → Result (Unit {0})
  throttle_unless true answer = ok tt
  throttle_unless false answer = answer

  unfoldable pub user_throttler_guard : Option User → Request → Exec (World b) (Unit {0})
  unfolding get_tracker
  user_throttler_guard user request =
      lift (throttle_unless (should_skip user) (user_wall (get_tracker user request)))

  -- The guards of the application, one after the other.
  unfoldable pub guards : Access → Request → ℕ → Exec (World b) (Option User)
  unfolding jwt_auth_guard user_throttler_guard
  guards access request now = do
    lift (ip_wall request.ip)
    user ← jwt_auth_guard access.is_public request
    user_throttler_guard user request
    permissions_guard casl b access.required now user
    pure user

  -- A handler behind the guards.
  unfoldable pub serve :
      {A : Type 0} → Access → Request → ℕ → (Option User → Exec (World b) A) → Exec (World b) A
  serve access request now handler = do user ← guards access request now; handler user
