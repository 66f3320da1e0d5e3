-- ===== src/Controllers/Sessions/Browser.antt =====
-- A browser between two requests: the cookie that one response sets is sent with the next request.
use nestjs_app.Prelude.{
  ◌≤◌, ◌≡◌, ◌≢◌, refl, String, Bool, false, ◌&&◌, Option, none, some, List, [], ◌∷◌, arith, str_eq,
  eq_refl, if◌then◌else◌, find?, any,
}
use nestjs_app.Result.{Result, ok, err, http, unauthorized, continue, pure, Exception}
use nestjs_app.Db.{Db, Documented, User, RefreshToken}
use nestjs_app.Users.Lookup.{live_with_id}
use nestjs_app.Auth.Session.{Providers, Draw, AuthSession, same_hash, build_session, refresh_expiry}
use nestjs_app.Auth.Refresh as Refresh
use nestjs_app.Auth.Refresh.Rotation.{stored_for}
use nestjs_app.Auth.Credentials as Credentials
use nestjs_app.Auth.Credentials.{LoginDto}
use nestjs_app.Auth.Credentials.Access.{account_of}
use nestjs_app.Auth.RoundTrips as RoundTrips
use nestjs_app.Controllers.Sessions.{
  CookieConfig, Request, CookieHeader, cookie, clear_cookie, CookieOptions, AuthResponse, login,
  refresh, logout, get_session_meta, get_refresh_cookie, clear_refresh_cookie, established,
  set_refresh_cookie, to_auth_response,
}

-- What a browser keeps for the host, by name and path.
pub record Browser : Type 1 where
  pub Jar : Type 0
  pub receive : CookieHeader → Jar → Jar
  pub value : (name path : String) → Jar → Option String

abbrev pub same_key : String → String → String → String → Bool
same_key name path name' path' = str_eq name name' && str_eq path path'

-- RFC 6265, for a cookie that has not expired: one value for a name and a path, that is set anew or
-- removed.
pub record IsBrowser (browser : Browser) : Type 0 where
  pub value-cookie :
      (name path name' value : String) (options : CookieOptions) (jar : browser.Jar)
      → browser.value name path (browser.receive (cookie name' value options) jar) ≡ (
          if same_key name path name' options.path then some value else browser.value name path jar)
  pub value-clear :
      (name path name' : String) (options : CookieOptions) (jar : browser.Jar)
      → browser.value name path (browser.receive (clear_cookie name' options) jar)
        ≡ (if same_key name path name' options.path then none else browser.value name path jar)

module _ (p : Providers) (documented : Documented p.orm) (config : CookieConfig) (browser : Browser)
    (is_browser : IsBrowser browser) where
  open p use {crypto}

  -- The next request to the controller's path, with the cookies of the jar.
  abbrev pub next_request : browser.Jar → Request → Request
  next_request jar request = record request {
    cookies = λ name. browser.value name config.cookie_path jar;
  }

  abbrev pub receive_all : List CookieHeader → browser.Jar → browser.Jar
  receive_all [] jar = jar
  receive_all (h ∷ hs) jar = receive_all hs (browser.receive h jar)

  sent :
      (token : String) (jar : browser.Jar)
      → browser.value config.cookie_name config.cookie_path
          (browser.receive (set_refresh_cookie p config token) jar)
        ≡ some token
  unfolding set_refresh_cookie
  sent token jar =
      rw (is_browser.value-cookie, eq_refl config.cookie_name, eq_refl config.cookie_path) refl

  gone :
      (jar : browser.Jar)
      → browser.value config.cookie_name config.cookie_path
          (browser.receive (clear_refresh_cookie p config) jar)
        ≡ none
  unfolding clear_refresh_cookie
  gone jar =
      rw (is_browser.value-clear, eq_refl config.cookie_name, eq_refl config.cookie_path) refl

  -- What the service answered, from what the controller answers.
  service_answer :
      (r : Result AuthSession × Db) {response : AuthResponse} {headers : List CookieHeader}
      {db' : Db}
      → (let (session, db) = r in continue session (established p config) db)
        ≡ (ok (response, headers), db')
      → (session : AuthSession) × (r ≡ (ok session, db'))
        × (headers ≡ set_refresh_cookie p config session.refresh_token ∷ [])
  service_answer (ok session, db) e = (session, ground arith, ground arith)
  service_answer (err x, db) e = absurd (ground arith)

  refreshed :
      (r : Result AuthSession × Db) (session : AuthSession)
      → r.0 ≡ ok session
      → (continue r.0 (established p config) r.1).0
        ≡ ok (to_auth_response session, set_refresh_cookie p config session.refresh_token ∷ [])
  refreshed (ok s, db) session e = ground arith
  refreshed (err x, db) session e = absurd (ground arith)

  -- After a login, the cookie that the browser kept opens the next session for the same account,
  -- until it expires, if the account is the one with its id and the new token is new: the answer
  -- has a new access token, and a cookie with the new refresh token.
  pub cookie_refreshes :
      (dto : LoginDto) (request next : Request) (draw draw' : Draw) (db : Db) (jar : browser.Jar)
      {response : AuthResponse} {headers : List CookieHeader} {db' : Db} {user : User}
      → login p config dto request draw db ≡ (ok (response, headers), db')
      → account_of p documented dto db ≡ some user
      → find? (live_with_id user.id) db.users ≡ some user
      → draw.opaque_token ≢ ""
      → any (same_hash (crypto.hash_token draw.opaque_token)) db.refresh_tokens ≡ false
      → draw'.now ≤ refresh_expiry p draw
      → any (same_hash (crypto.hash_token draw'.opaque_token)) db'.refresh_tokens ≡ false
      → let session = build_session p user [] draw'.opaque_token draw' in
        (refresh p config (next_request (receive_all headers jar) next) draw' db').0
        ≡ ok (to_auth_response session, set_refresh_cookie p config draw'.opaque_token ∷ [])
  unfolding login refresh get_refresh_cookie build_session
  cookie_refreshes dto request next draw draw' db jar {db'} {user} entered found byid given fresh
        current fresh' =
      let (session, served, cookies) =
        service_answer (Credentials.login p dto (get_session_meta request) draw db) entered in
      let held = sent session.refresh_token jar in
      rw (cookies, held)
        (refreshed
          (Refresh.refresh p (some session.refresh_token) (get_session_meta next) draw' db') _
          (RoundTrips.refresh_after_login p documented dto (get_session_meta request)
            (get_session_meta next) draw draw' db served found byid given fresh current fresh'))

  no_cookie :
      (request : Request) (draw : Draw) (db : Db)
      → request.cookies config.cookie_name ≡ none
      → (refresh p config request draw db).0 ≡ err (http unauthorized "Missing refresh token")
  unfolding refresh Refresh.refresh get_refresh_cookie
  no_cookie request draw db e = rw e

  -- After a logout with a token that is stored, the browser has no refresh cookie, so its next
  -- refresh is refused; and a request that still sends the old cookie is refused too.
  pub cookie_gone :
      (request next : Request) (draw draw' : Draw) (db : Db) (jar : browser.Jar)
      (presented : String) {stored : RefreshToken}
      → get_refresh_cookie p config request ≡ some presented
      → presented ≢ ""
      → stored_for p documented presented db ≡ some stored
      → (headers : List CookieHeader) × (db' : Db) × (logout p config request draw db
          ≡ (ok headers, db'))
        × ((refresh p config (next_request (receive_all headers jar) next) draw' db').0
            ≡ err (http unauthorized "Missing refresh token"))
        × ((refresh p config request draw' db').0 ≡ err (http unauthorized "Invalid refresh token"))
  unfolding logout refresh get_refresh_cookie
  cookie_gone request next draw draw' db jar presented held given stored =
      let (answered, dead) =
        RoundTrips.signed_out_refused p documented presented (get_session_meta request) draw draw'
          db given stored in
      (
        clear_refresh_cookie p config ∷ [],
        (Refresh.logout p (some presented) draw db).1,
        rw held (logged_out (Refresh.logout p (some presented) draw db) answered),
        no_cookie (next_request (browser.receive (clear_refresh_cookie p config) jar) next) draw' _
            (gone jar),
        rw held (
            refused
              (Refresh.refresh p (some presented) (get_session_meta request) draw'
                (Refresh.logout p (some presented) draw db).1)
              _ dead),
      )
    where
      logged_out :
          (r : Result (Unit {0}) × Db)
          → r.0 ≡ ok tt
          → continue r.0 (λ _. pure (clear_refresh_cookie p config ∷ [])) r.1
            ≡ (ok (clear_refresh_cookie p config ∷ []), r.1)
      logged_out (ok t, db'') e = refl
      logged_out (err x, db'') e = absurd (ground arith)

      refused :
          (r : Result AuthSession × Db) (e : Exception)
          → r.0 ≡ err e
          → (continue r.0 (established p config) r.1).0 ≡ err e
      refused (ok s, db'') e h = absurd (ground arith)
      refused (err x, db'') e h = ground arith
