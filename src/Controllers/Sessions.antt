-- ===== src/Controllers/Sessions.antt =====
-- src/modules/auth/auth.controller.ts: the handlers, with the cookies that they set.
pub mod Browser
use nestjs_app.Prelude.{ℕ, String, Bool, true, Option, none, some, List, [], ◌∷◌}
use nestjs_app.Result.{Exec, pure, ◌>>=◌, ◌>>◌}
use nestjs_app.Db.{Db}
use nestjs_app.Auth.Session.{Providers, Draw, SessionMetadata, SafeUser, AuthSession}
use nestjs_app.Auth.Refresh as Refresh
use nestjs_app.Auth.Credentials as Credentials
use nestjs_app.Auth.Credentials.{LoginDto, RegisterDto}
use nestjs_app.Auth.Reset as Reset
use nestjs_app.Auth.Reset.{MailRequest}

pub data SameSite : Type 0 where
  lax strict no_restriction : SameSite

pub record CookieConfig : Type 0 where
  pub cookie_name : String
  pub cookie_path : String
  pub cookie_secure : Bool
  pub cookie_same_site : SameSite

-- What the handlers read of a request; `cookies` by name.
pub record Request : Type 0 where
  pub ip : Option String
  pub user_agent : Option String
  pub cookies : String → Option String

pub record CookieOptions : Type 0 where
  pub http_only : Bool
  pub secure : Bool
  pub same_site : SameSite
  pub path : String
  pub max_age : Option ℕ

-- `response.cookie(name, value, options)` and `response.clearCookie(name, options)`.
pub data CookieHeader : Type 0 where
  cookie : (name value : String) → CookieOptions → CookieHeader
  clear_cookie : (name : String) → CookieOptions → CookieHeader

pub record AuthResponse : Type 0 where
  pub access_token : String
  pub user : SafeUser

unfoldable pub get_session_meta : Request → SessionMetadata
get_session_meta request = record { ip_address = request.ip; user_agent = request.user_agent }

unfoldable pub to_auth_response : AuthSession → AuthResponse
to_auth_response session = record { access_token = session.access_token; user = session.user }

module _ (p : Providers) (config : CookieConfig) where
  unfoldable pub get_refresh_cookie : Request → Option String
  get_refresh_cookie request = request.cookies config.cookie_name

  unfoldable pub set_refresh_cookie : String → CookieHeader
  set_refresh_cookie token = cookie config.cookie_name token (record {
    http_only = true;
    secure = config.cookie_secure;
    same_site = config.cookie_same_site;
    path = config.cookie_path;
    max_age = some p.config.refresh_expires_in_ms;
  })

  unfoldable pub clear_refresh_cookie : CookieHeader
  clear_refresh_cookie = clear_cookie config.cookie_name (record {
    http_only = true;
    secure = config.cookie_secure;
    same_site = config.cookie_same_site;
    path = config.cookie_path;
    max_age = none;
  })

  -- `this.setRefreshCookie(response, session.refreshToken); return this.toAuthResponse(session)`
  abbrev pub established : AuthSession → Exec Db (AuthResponse × List CookieHeader)
  established session =
      pure (to_auth_response session, set_refresh_cookie session.refresh_token ∷ [])

  unfoldable pub register :
      RegisterDto → Request → (Db → Db) → Draw → Draw → Exec Db (AuthResponse × List CookieHeader)
  unfolding get_session_meta set_refresh_cookie to_auth_response
  register dto request meanwhile draw session_draw = do
    session ← Credentials.register p dto (get_session_meta request) meanwhile draw session_draw
    established session

  unfoldable pub login : LoginDto → Request → Draw → Exec Db (AuthResponse × List CookieHeader)
  unfolding get_session_meta set_refresh_cookie to_auth_response
  login dto request draw = do
    session ← Credentials.login p dto (get_session_meta request) draw
    established session

  unfoldable pub refresh : Request → Draw → Exec Db (AuthResponse × List CookieHeader)
  unfolding get_refresh_cookie get_session_meta set_refresh_cookie to_auth_response
  refresh request draw = do
    session ← Refresh.refresh p (get_refresh_cookie request) (get_session_meta request) draw
    established session

  unfoldable pub logout : Request → Draw → Exec Db (List CookieHeader)
  unfolding get_refresh_cookie clear_refresh_cookie
  logout request draw = do
    Refresh.logout p (get_refresh_cookie request) draw
    pure (clear_refresh_cookie ∷ [])

  -- The response is empty; the answer here is the mail that is requested.
  unfoldable pub forgot_password : String → Request → Draw → Exec Db (List MailRequest)
  unfolding get_session_meta
  forgot_password email request draw = Reset.forgot_password p email (get_session_meta request) draw

  unfoldable pub reset_password : (token password : String) → Draw → Exec Db (Unit {0})
  reset_password token password draw = Reset.reset_password p token password draw
