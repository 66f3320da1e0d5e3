-- ===== src/Guards/Identity.antt =====
-- `AccessTokenIdentityService` and `WsJwtGuard`. Verification by @nestjs/jwt is a parameter, and
-- so are the operations on header text.
pub mod Agreement
use Prim.Native.String.{len, slice}
use text.Mathlib.Text.{starts_with}
use nestjs_app.Prelude.{
  String, Bool, true, false, not, ◌&&◌, Option, none, some, str_eq, if◌then◌else◌,
}
use nestjs_app.Result.{Exec, Result, ok, err, pure, throw, gets, ◌>>=◌, http, unauthorized}
use nestjs_app.Db.{Orm, Db, User, is_active, is_set}
use nestjs_app.Users.Lookup.{find_by_id}

-- The claims that the code reads; `none` where the claim is missing.
pub record JwtPayload : Type 0 where
  pub sub : Option String
  pub email : Option String

-- `verifyAsync`: the payload, or `none` where it throws.
pub record Jwt : Type 0 where
  pub verify : String → Option JwtPayload

-- A text that is there and not empty, as JavaScript tests it.
abbrev pub truthy : Option String → Option String
truthy none = none
truthy (some text) = if str_eq text "" then none else some text

-- `payload?.sub`
unfoldable pub subject_of : JwtPayload → Option String
subject_of payload = truthy payload.sub

-- What the guard reads and writes of a socket.
pub record Socket : Type 0 where
  pub auth_token : Option String
  pub authorization : Option String
  pub user : Option User
  pub correlation_id : Option String
  pub disconnected : Bool

abbrev bearer_token : Option String → Option String
bearer_token none = none
bearer_token (some header) =
    if starts_with header "Bearer " then some (slice header 7 (len header)) else none

-- The token of the handshake, where it is not empty, or else that of the header.
abbrev pub first_token : Option String → Option String → Option String
first_token none header = bearer_token header
first_token (some token) header = if str_eq token "" then bearer_token header else some token

unfoldable pub extract_token : Socket → Option String
extract_token socket = first_token socket.auth_token socket.authorization

abbrev pub refuse : Socket → Bool × Socket
refuse socket = (false, record socket { disconnected = true })

-- A correlation id that is there, and not empty, is kept.
abbrev pub correlation : String → Option String → Option String
correlation generated none = some generated
correlation generated (some id) = if str_eq id "" then some generated else some id

abbrev pub accept : String → Result User → Socket → Bool × Socket
accept generated (err e) socket = refuse socket
accept generated (ok user) socket = (
  true,
  record socket { user = some user; correlation_id = correlation generated socket.correlation_id },
)

module _ (orm : Orm) (jwt : Jwt) where
  unfoldable pub require_active : Option User → Exec Db User
  require_active none = throw (http unauthorized "Account is not active")
  require_active (some user) =
      if not (is_active user.status)
      then throw (http unauthorized "Account is not active")
      else pure user

  unfoldable pub find_active_user_by_id : String → Exec Db User
  unfolding require_active
  find_active_user_by_id sub = do user ← find_by_id orm sub; require_active user

  unfoldable pub identify : Option String → Exec Db User
  unfolding find_active_user_by_id
  identify none = throw (http unauthorized "Invalid access token")
  identify (some sub) = find_active_user_by_id sub

  unfoldable pub identify_verified : Option JwtPayload → Exec Db User
  unfolding identify
  identify_verified none = throw (http unauthorized "Invalid access token")
  identify_verified (some payload) = identify (subject_of payload)

  unfoldable pub verify_token : String → Exec Db User
  unfolding identify_verified
  verify_token token = identify_verified (jwt.verify token)

  unfoldable pub validate_subject : Option String → Exec Db (Option User)
  unfolding find_active_user_by_id
  validate_subject none = pure none
  validate_subject (some sub) = do user ← find_active_user_by_id sub; pure (some user)

  -- `JwtAccessStrategy.validate`; the answer `none` is passport's failure.
  unfoldable pub validate : JwtPayload → Exec Db (Option User)
  unfolding validate_subject
  validate payload = validate_subject (subject_of payload)

  -- `if (!token)` refuses an empty token too.
  unfoldable pub authenticate_token :
      Option String → (generated : String) → Db → Socket → Bool × Socket
  unfolding verify_token
  authenticate_token none generated db socket = refuse socket
  authenticate_token (some token) generated db socket =
      accept generated (verify_token token db).0 socket

  -- The answer, and the socket after it; the database is only read.
  unfoldable pub authenticate : (generated : String) → Db → Socket → Bool × Socket
  unfolding authenticate_token extract_token
  authenticate generated db socket =
      authenticate_token (truthy (extract_token socket)) generated db socket
