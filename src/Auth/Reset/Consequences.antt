-- ===== src/Auth/Reset/Consequences.antt =====
-- What follows a password reset: the token, the old sessions and the old password are dead, and
-- the new password opens the account.
use nestjs_app.Prelude.{
  ◌≡◌, refl, ap, ◌≢◌, String, true, false, some, List, arith, str_eq, eq_iff, eq_refl,
  if◌then◌else◌, find?, find?-modify, find?-holds, any, any-modify, keep,
}
use nestjs_app.Result.{Result, ok, err, http, unauthorized}
use nestjs_app.Db.{
  Db, Documented, settle, Role, User, RefreshToken, PasswordResetToken, is_set, active,
}
use nestjs_app.Users.Lookup.{live_with_id, live_with_email, find_by_email, role_of, UserWithRoles}
use nestjs_app.Auth.Session.{
  Providers, Draw, SessionMetadata, AuthSession, same_hash, create_session, build_session,
}
use nestjs_app.Auth.Refresh.{revoke, refresh}
use nestjs_app.Auth.Refresh.Rotation.{stored_for, refresh_reused}
use nestjs_app.Auth.Credentials.{login, check_credentials, normalize_email}
use nestjs_app.Auth.Reset.{
  has_hash, spend, set_password, unrevoked_of, invalid_reset, reset_with, reset_password,
}
use nestjs_app.Auth.Reset.Effects.{reset_stored, after_reset, reset-settle, reset-eq-ok}

module _ (p : Providers) (documented : Documented p.orm) where
  open p use {crypto}

  reset_with_spent :
      (password : String) (draw : Draw) (reset : PasswordResetToken) (db : Db)
      → is_set reset.used_at ≡ true
      → settle db (reset_with p password draw (some reset) db) ≡ (err invalid_reset, db)
  unfolding reset_with
  reset_with_spent password draw reset db h = rw h

  -- A reset token is good for one reset: later ones are refused and write nothing.
  pub reset_single_use :
      (token password password' : String) (draw draw' : Draw) (db : Db) {db' : Db}
      → reset_password p token password draw db ≡ (ok tt, db')
      → reset_password p token password' draw' db' ≡ (err invalid_reset, db')
  reset_single_use token password password' draw draw' db first =
      let (reset, user, found, _, _, _, _, written) =
        reset-eq-ok p documented token password draw db first in
      let test = has_hash (crypto.hash_token token) in
      let spent : reset_stored p documented token
            (after_reset p documented password draw reset user db)
          ≡ some (spend draw.now reset) =
        rw (
          find?-modify test (λ t. str_eq t.id reset.id) (spend draw.now) db.password_reset_tokens
              (λ t. refl),
          found,
          eq_refl,
        ) in
      rw (written, reset-settle p documented, spent)
        (reset_with_spent password' draw' (spend draw.now reset) _ refl)

  -- After a reset no stored session of the account can be refreshed.
  pub refresh_after_reset :
      (token password presented : String) (meta : SessionMetadata) (draw draw' : Draw) (db : Db)
      {db' : Db} {reset : PasswordResetToken} {session : RefreshToken}
      → reset_password p token password draw db ≡ (ok tt, db')
      → reset_stored p documented token db ≡ some reset
      → stored_for p documented presented db ≡ some session
      → session.user_id ≡ reset.user_id
      → presented ≢ ""
      → (refresh p (some presented) meta draw' db').0
        ≡ err (http unauthorized "Invalid refresh token")
  refresh_after_reset token password presented meta draw draw' db {reset} {session} first given held
        own random =
      let (reset', user, found, _, _, owner, _, written) =
        reset-eq-ok p documented token password draw db first in
      let after = after_reset p documented password draw reset' user db in
      let test = same_hash (crypto.hash_token presented) in
      let same : reset' ≡ reset = ground arith in
      let owned : user.id ≡ session.user_id = ground (
        arith,
        find?-holds (live_with_id reset'.user_id) db.users owner,
        eq_iff user.id reset'.user_id,
      ) in
      let dead : RefreshToken =
        if unrevoked_of user.id session then revoke draw.now session else session in
      let held' : stored_for p documented presented after ≡ some dead =
        rw
          (
            find?-modify test (unrevoked_of user.id) (revoke draw.now) db.refresh_tokens
                (λ t. refl),
            held,
          )
          refl in
      rw written (
        ap (λ (r : Result AuthSession × Db). r.0)
          (refresh_reused p documented presented meta draw' after dead random held'
            (ground (arith, eq_iff session.user_id user.id))))

  -- The rows that a login finds for the email after the reset.
  found_by_email :
      (email password : String) (draw : Draw) (reset : PasswordResetToken) (user account : User)
      (db : Db)
      → find? (live_with_email email) db.users ≡ some account
      → account.id ≡ user.id
      → find_by_email p.orm email (after_reset p documented password draw reset user db) ≡ (
        ok (
            some (record {
              user = set_password draw.now (crypto.hash_password draw.salt password) account;
              roles = keep (role_of db.user_roles account.id) db.roles;
            })),
        after_reset p documented password draw reset user db,
      )
  unfolding find_by_email
  found_by_email email password draw reset user account db found same = rw (
    documented.find_one_lem,
    find?-modify (live_with_email email) (λ (u : User). str_eq u.id user.id)
        (set_password draw.now (crypto.hash_password draw.salt password)) db.users (λ u. refl),
    found,
    same,
    eq_refl,
    documented.find_lem,
  )

  create_session-lem :
      (account : User) (roles : List Role) (meta : SessionMetadata) (draw : Draw) (db : Db)
      → any (same_hash (crypto.hash_token draw.opaque_token)) db.refresh_tokens ≡ false
      → (create_session p account roles meta draw db).0
        ≡ ok (build_session p account roles draw.opaque_token draw)
  unfolding create_session
  create_session-lem account roles meta draw db fresh = rw (documented.insert_lem, fresh)

  check_credentials_passes :
      (password : String) (found : UserWithRoles) (meta : SessionMetadata) (draw : Draw) (db : Db)
      → crypto.verify_password found.user.password_hash password ≡ true
      → found.user.status ≡ active
      → any (same_hash (crypto.hash_token draw.opaque_token)) db.refresh_tokens ≡ false
      → (check_credentials p password meta draw (some found) db).0
        ≡ ok (build_session p found.user found.roles draw.opaque_token draw)
  unfolding check_credentials
  check_credentials_passes password found meta draw db right live fresh =
      rw right (ground (arith, create_session-lem found.user found.roles meta draw db fresh))

  check_credentials_refuses :
      (password : String) (found : UserWithRoles) (meta : SessionMetadata) (draw : Draw) (db : Db)
      → crypto.verify_password found.user.password_hash password ≡ false
      → check_credentials p password meta draw (some found) db
        ≡ (err (http unauthorized "Invalid credentials"), db)
  unfolding check_credentials
  check_credentials_refuses password found meta draw db wrong = rw wrong

  -- After a reset the new password opens a session for the account, if it is active and is the one
  -- found by the email, the password verifies against its own hash and the refresh token is new;
  -- a password that does not verify against the new hash is refused.
  pub login_after_reset :
      (token password other email : String) (meta : SessionMetadata) (draw draw' : Draw) (db : Db)
      {db' : Db} {reset : PasswordResetToken} {account : User}
      → reset_password p token password draw db ≡ (ok tt, db')
      → reset_stored p documented token db ≡ some reset
      → find? (live_with_email (normalize_email email)) db.users ≡ some account
      → account.id ≡ reset.user_id
      → account.status ≡ active
      → any (same_hash (crypto.hash_token draw'.opaque_token)) db.refresh_tokens ≡ false
      → crypto.verify_password (crypto.hash_password draw.salt password) password ≡ true
      → crypto.verify_password (crypto.hash_password draw.salt password) other ≡ false
      → ((login p (record { email = email; password = password }) meta draw' db').0
          ≡ ok (
              build_session p
                (set_password draw.now (crypto.hash_password draw.salt password) account)
                (keep (role_of db.user_roles account.id) db.roles)
                draw'.opaque_token
                draw'))
        × (login p (record { email = email; password = other }) meta draw' db'
            ≡ (err (http unauthorized "Invalid credentials"), db'))
  unfolding login
  login_after_reset token password other email meta draw draw' db {db'} {reset} {account} first
        given found own active_account fresh right wrong =
      let (reset', user, held, _, _, owner, _, written) =
        reset-eq-ok p documented token password draw db first in
      let same : reset' ≡ reset = ground arith in
      let owned : account.id ≡ user.id = ground (
        arith,
        find?-holds (live_with_id reset'.user_id) db.users owner,
        eq_iff user.id reset'.user_id,
      ) in
      rw
        (
          written,
          login,
          found_by_email (normalize_email email) password draw reset' user account db found owned,
        )
        (
          check_credentials_passes password _ meta draw' _ right active_account (
              rw
                (any-modify (same_hash (crypto.hash_token draw'.opaque_token))
                  (unrevoked_of user.id) (revoke draw.now) db.refresh_tokens (λ t. refl))
                fresh),
          check_credentials_refuses other _ meta draw' _ wrong,
        )
