-- ===== src/Auth/Histories/Accounts.antt =====
-- What each request does to the users.
use nestjs_app.Prelude.{
  ℕ, ◌≡◌, refl, inl, inr, String, Bool, Option, none, some, List, [], ◌∷◌, arith, str_eq, modify,
  Bool-cases,
}
use nestjs_app.Db.{Db, Documented, settle, User, RefreshToken}
use nestjs_app.Users.Lookup.{UserWithRoles, find_by_email, live_with_id}
use nestjs_app.Users.Create.Emails.{accounts, HasUniqueEmails}
use nestjs_app.Auth.Session.{Providers, Draw, SessionMetadata, same_hash, save_refresh_token}
use nestjs_app.Auth.Refresh.{
  refresh, logout, revoke_found, examine, rotate_for, rotate_token, answer, update_refresh_tokens,
}
use nestjs_app.Auth.Credentials.{LoginDto, login, check_credentials}
use nestjs_app.Auth.Credentials.Signup.{create_session-users}
use nestjs_app.Auth.Reset.{set_password, reset_password}
use nestjs_app.Auth.Reset.Effects.{reset-eq-ok}
use nestjs_app.Auth.Histories.Sessions.{reset-cases}

-- A new password leaves the emails.
accounts-set_password :
    (email : String) (q : User → Bool) (now : ℕ) (hash : String) (us : List User)
    → accounts email (modify q (set_password now hash) us) ≡ accounts email us
accounts-set_password email q now hash [] = refl
accounts-set_password email q now hash (u ∷ us) =
    ground (arith, accounts-set_password email q now hash us)

module _ (p : Providers) (documented : Documented p.orm) where
  open p use {crypto}

  check_credentials-users :
      (password : String) (meta : SessionMetadata) (draw : Draw) (found : Option UserWithRoles)
      (db : Db)
      → (check_credentials p password meta draw found db).1.users ≡ db.users
  unfolding check_credentials
  check_credentials-users password meta draw none db = refl
  check_credentials-users password meta draw (some found) db =
      ground (arith, create_session-users p documented found.user found.roles meta draw db)

  pub login-users :
      (dto : LoginDto) (meta : SessionMetadata) (draw : Draw) (db : Db)
      → (login p dto meta draw db).1.users ≡ db.users
  unfolding login find_by_email
  login-users dto meta draw db = check_credentials-users dto.password meta draw _ db

  revoke_found-users :
      (found : Option RefreshToken) (draw : Draw) (db : Db)
      → (revoke_found p found draw db).1.users ≡ db.users
  unfolding revoke_found update_refresh_tokens
  revoke_found-users none draw db = refl
  revoke_found-users (some t) draw db = ground arith

  pub logout-users :
      (presented : Option String) (draw : Draw) (db : Db)
      → (logout p presented draw db).1.users ≡ db.users
  unfolding logout
  logout-users none draw db = refl
  logout-users (some presented) draw db = ground (
    arith,
    revoke_found-users (p.orm.find_one (same_hash (crypto.hash_token presented)) db.refresh_tokens)
        draw db,
  )

  rotate_for-users :
      (stored : RefreshToken) (meta : SessionMetadata) (draw : Draw) (o : Option User) (db : Db)
      → (rotate_for p stored meta draw o db).1.users ≡ db.users
  unfolding rotate_for rotate_token save_refresh_token update_refresh_tokens
  rotate_for-users stored meta draw none db = refl
  rotate_for-users stored meta draw (some user) db = ground arith

  examine-users :
      (meta : SessionMetadata) (draw : Draw) (o : Option RefreshToken) (db : Db)
      → (settle db (examine p meta draw o db)).1.users ≡ db.users
  unfolding examine update_refresh_tokens
  examine-users meta draw none db = refl
  examine-users meta draw (some stored) db = ground (
    arith,
    rotate_for-users stored meta draw (p.orm.find_one (live_with_id stored.user_id) db.users) db,
  )

  pub refresh-users :
      (presented : Option String) (meta : SessionMetadata) (draw : Draw) (db : Db)
      → (refresh p presented meta draw db).1.users ≡ db.users
  unfolding refresh answer
  refresh-users none meta draw db = refl
  refresh-users (some presented) meta draw db = elim (Bool-cases (str_eq presented "")) [
    | inl e ↦ rw e
    | inr e ↦
        rw (e, documented.transaction_lem)
          (ground (
            arith,
            examine-users meta draw
                (p.orm.find_one (same_hash (crypto.hash_token presented)) db.refresh_tokens) db,
          ))
  ]

  pub reset-HasUniqueEmails :
      (token password : String) (draw : Draw) (db : Db)
      → HasUniqueEmails db
      → HasUniqueEmails (reset_password p token password draw db).1
  reset-HasUniqueEmails token password draw db h =
      reset-cases p documented HasUniqueEmails token password draw db h (λ db' e email.
        let (reset, user, _, _, _, _, _, written) =
          reset-eq-ok p documented token password draw db e in
        rw
          (
            written,
            accounts-set_password email (λ (u : User). str_eq u.id user.id) draw.now
                (crypto.hash_password draw.salt password) db.users,
          )
          (h email))
