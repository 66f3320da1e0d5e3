-- ===== src/Auth/Credentials.antt =====
-- `AuthService.login` and `AuthService.register` of src/modules/auth/auth.service.ts.
pub mod Access
pub mod Signup
use nestjs_app.Prelude.{String, Bool, Option, none, some, [], not, if◌then◌else◌}
use nestjs_app.Js.{trim, to_lower_case, trim_or_null}
use nestjs_app.Result.{Exec, ok, pure, throw, ◌>>=◌, ◌>>◌, http, unauthorized, conflict}
use nestjs_app.Db.{Orm, Db, User, is_active, is_set}
use nestjs_app.Users.Lookup.{UserWithRoles, find_by_email}
use nestjs_app.Users.Create.{CreateUserInput, create_with_default_role, catch_conflict}
use nestjs_app.Auth.Session.{Providers, Draw, SessionMetadata, AuthSession, create_session}

pub record LoginDto : Type 0 where
  pub email : String
  pub password : String

pub record RegisterDto : Type 0 where
  pub email : String
  pub password : String
  pub first_name : Option String
  pub last_name : Option String

-- `dto.email.trim().toLowerCase()`
unfoldable pub normalize_email : String → String
unfolding trim to_lower_case
normalize_email email = to_lower_case (trim email)

module _ (p : Providers) where
  open p use {orm, crypto}

  -- `runDummyPasswordVerification` on the first branch takes time and leaves nothing.
  unfoldable pub check_credentials :
      String → SessionMetadata → Draw → Option UserWithRoles → Exec Db AuthSession
  unfolding create_session
  check_credentials password meta draw none = throw (http unauthorized "Invalid credentials")
  check_credentials password meta draw (some found) =
      if not (crypto.verify_password found.user.password_hash password)
      then throw (http unauthorized "Invalid credentials")
      else if not (is_active found.user.status)
      then throw (http unauthorized "Account is not active")
      else create_session p found.user found.roles meta draw

  unfoldable pub login : LoginDto → SessionMetadata → Draw → Exec Db AuthSession
  login dto meta draw = do
    user ← find_by_email orm (normalize_email dto.email)
    check_credentials dto.password meta draw user

  -- What is stored for a new account.
  unfoldable pub register_input : RegisterDto → Draw → CreateUserInput
  register_input dto draw = record {
    email = normalize_email dto.email;
    password_hash = crypto.hash_password draw.salt dto.password;
    first_name = trim_or_null dto.first_name;
    last_name = trim_or_null dto.last_name;
  }

  -- The insert, after the password is hashed.
  unfoldable pub register_insert : RegisterDto → SessionMetadata → Draw → Draw → Exec Db AuthSession
  unfolding create_with_default_role create_session
  register_insert dto meta draw session_draw = do
    user ← λ db.
        catch_conflict "Email is already registered"
          (create_with_default_role orm (register_input dto draw) draw.row_id draw.now db)
    create_session p user [] meta session_draw

  -- `meanwhile` is what other requests write while the password is hashed; `draw` serves the
  -- user's row and `session_draw` the session.
  unfoldable pub register :
      RegisterDto → SessionMetadata → (Db → Db) → Draw → Draw → Exec Db AuthSession
  register dto meta meanwhile draw session_draw = do
    existing ← find_by_email orm (normalize_email dto.email)
    if is_set existing
        then throw (http conflict "Email is already registered")
        else (do λ db. (ok tt, meanwhile db); register_insert dto meta draw session_draw)
