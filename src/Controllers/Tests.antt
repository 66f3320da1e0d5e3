-- ===== src/Controllers/Tests.antt =====
-- The theorems on the controllers at concrete inputs.
use nestjs_app.Prelude.{
  ◌≡◌, refl, arith, eq_iff, String, true, Option, none, some, List, [], ◌∷◌, if◌then◌else◌,
}
use nestjs_app.Result.{ok, err, http, unauthorized}
use nestjs_app.Db.{Db, list_orm-Documented}
use nestjs_app.Users.Lookup.{find_by_email}
use nestjs_app.Users.Listing.Samples.{list_query}
use nestjs_app.Permissions.Samples.{backend}
use nestjs_app.Auth.Session.{build_session, refresh_expiry}
use nestjs_app.Auth.Credentials.{LoginDto, normalize_email, check_credentials}
use nestjs_app.Auth.Credentials as Credentials
use nestjs_app.Auth.Samples.{providers, draw_at, jane, two_sessions, token_of}
use nestjs_app.Guards.Samples.{casl, jwt, passport}
use nestjs_app.Http as Http
use nestjs_app.Controllers.App.{App}
use nestjs_app.Controllers.Sessions.{
  get_refresh_cookie, CookieConfig, Request, CookieHeader, cookie, clear_cookie, lax, login,
  refresh, logout, to_auth_response, set_refresh_cookie,
}
use nestjs_app.Controllers.Sessions.Browser.{
  Browser, IsBrowser, same_key, cookie_refreshes, cookie_gone, next_request, receive_all,
}

abbrev app : App
app = record {
  backend = backend;
  casl = casl;
  framework = record {
    jwt = jwt;
    passport = passport;
    ip_wall = λ ip. ok tt;
    user_wall = λ id. ok tt;
    parse_uuid = λ id. ok id;
  };
  query = list_query;
  collation = record { order_by = λ key rows. rows; sort = λ key rows. rows };
}

abbrev by_jane : Http.Request
by_jane = record { authorization = some "Bearer jwt:u1"; ip = "10.0.0.1" }

-- The value under a name and a path.
abbrev put_cookie :
    CookieHeader → (String → String → Option String) → String → String → Option String
put_cookie (cookie name value options) jar name' path' =
    if same_key name' path' name options.path then some value else jar name' path'
put_cookie (clear_cookie name options) jar name' path' =
    if same_key name' path' name options.path then none else jar name' path'

abbrev browser : Browser
browser = record {
  Jar = String → String → Option String;
  receive = put_cookie;
  value = λ name path jar. jar name path;
}

browser-IsBrowser : IsBrowser browser
browser-IsBrowser = record {
  value-cookie = λ name path name' value options jar. refl;
  value-clear = λ name path name' options jar. refl;
}

abbrev config : CookieConfig
config = record {
  cookie_name = "refresh_token";
  cookie_path = "/api/auth";
  cookie_secure = true;
  cookie_same_site = lax;
}

-- A request with the cookie of the phone.
abbrev from_phone : Request
from_phone = record { ip = none; user_agent = none; cookies = λ name. some "phone" }

abbrev entry : LoginDto
entry = record { email = "Jane@example.com"; password = "secret123" }

abbrev at_login : nestjs_app.Auth.Session.Draw
at_login = draw_at 10 "tablet" "f3" "r3"

abbrev at_refresh : nestjs_app.Auth.Session.Draw
at_refresh = draw_at 20 "tablet-2" "x" "r4"

abbrev entered : Db
entered = (login providers config entry from_phone at_login two_sessions).1

abbrev headers_of_login : List CookieHeader
headers_of_login = set_refresh_cookie providers config "tablet" ∷ []

cookie_refreshes_example :
    (refresh providers config
      (next_request providers list_orm-Documented config browser browser-IsBrowser
        (receive_all providers list_orm-Documented config browser browser-IsBrowser headers_of_login
          (λ name path. none))
        from_phone)
      at_refresh
      entered).0
    ≡ ok (
      to_auth_response (build_session providers jane [] "tablet-2" at_refresh),
      set_refresh_cookie providers config "tablet-2" ∷ [],
    )
unfolding login Credentials.login normalize_email build_session refresh_expiry find_by_email
    check_credentials
cookie_refreshes_example =
    cookie_refreshes providers list_orm-Documented config browser browser-IsBrowser entry from_phone
      from_phone at_login at_refresh two_sessions (λ name path. none)
      {response = to_auth_response (build_session providers jane [] "tablet" at_login)}
      {headers = headers_of_login} {db' = entered} {user = jane} refl refl refl
      (ground (arith, eq_iff "tablet" "")) refl (ground arith) refl

cookie_gone_example :
    (headers : List CookieHeader) × (db' : Db) × (logout providers config from_phone at_login
        two_sessions
      ≡ (ok headers, db'))
    × ((refresh providers config
          (next_request providers list_orm-Documented config browser browser-IsBrowser
            (receive_all providers list_orm-Documented config browser browser-IsBrowser headers
              (λ name path. some "phone"))
            from_phone)
          at_refresh
          db').0
        ≡ err (http unauthorized "Missing refresh token"))
    × ((refresh providers config from_phone at_refresh db').0
        ≡ err (http unauthorized "Invalid refresh token"))
unfolding get_refresh_cookie
cookie_gone_example =
    cookie_gone providers list_orm-Documented config browser browser-IsBrowser from_phone from_phone
      at_login at_refresh two_sessions (λ name path. some "phone") "phone"
      {stored = token_of "r2" "phone" "f2"} refl (ground (arith, eq_iff "phone" "")) refl
