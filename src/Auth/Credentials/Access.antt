-- ===== src/Auth/Credentials/Access.antt =====
-- Who gets a session from `login`, and what a failed login tells.
use nestjs_app.Prelude.{
  ◌≡◌, sym, ap, inl, inr, String, true, false, Option, none, some, List, [], ◌∷◌, ◌++◌, arith,
  find?, keep, Option-cases,
}
use nestjs_app.Result.{Result, ok, err, http, unauthorized}
use nestjs_app.Db.{Db, Documented, User, Role, active}
use nestjs_app.Users.Lookup.{live_with_email, find_by_email, role_of}
use nestjs_app.Auth.Session.{
  Providers, Draw, SessionMetadata, AuthSession, same_hash, build_session, new_refresh_token,
}
use nestjs_app.Auth.Credentials.{LoginDto, login, check_credentials, normalize_email}

module _ (p : Providers) (documented : Documented p.orm) where
  open p use {crypto}

  abbrev pub account_of : LoginDto → Db → Option User
  account_of dto db = find? (live_with_email (normalize_email dto.email)) db.users

  login-check :
      (dto : LoginDto) (meta : SessionMetadata) (draw : Draw) (db : Db) (o : Option User)
      → account_of dto db ≡ o
      → login p dto meta draw db
        ≡ check_credentials p dto.password meta draw
            (elim o [
              | none ↦ none
              | some user ↦
                  some
                    (record { user = user; roles = keep (role_of db.user_roles user.id) db.roles })
            ])
            db
  unfolding login find_by_email
  login-check dto meta draw db none e = rw (documented.find_one_lem, e)
  login-check dto meta draw db (some user) e = rw (documented.find_one_lem, e, documented.find_lem)

  check-eq-ok :
      (password : String) (user : User) (roles : List Role) (meta : SessionMetadata) (draw : Draw)
      (db : Db) {session : AuthSession} {db' : Db}
      → check_credentials p password meta draw (some (record { user = user; roles = roles })) db
        ≡ (ok session, db')
      → (crypto.verify_password user.password_hash password ≡ true)
        × (user.status ≡ active)
        × (session ≡ build_session p user roles draw.opaque_token draw)
        × (db' ≡ record db {
          refresh_tokens = db.refresh_tokens ++ new_refresh_token p user draw.uuid meta draw ∷ [];
        })
  unfolding check_credentials
  check-eq-ok password user roles meta draw db h = ground (
    arith,
    documented.insert_lem (same_hash (crypto.hash_token draw.opaque_token))
        (new_refresh_token p user draw.uuid meta draw) db.refresh_tokens,
  )

  -- A login that succeeds names an active account with its password, and adds one refresh token,
  -- which starts a family of its own.
  pub login-eq-ok :
      (dto : LoginDto) (meta : SessionMetadata) (draw : Draw) (db : Db) {session : AuthSession}
      {db' : Db}
      → login p dto meta draw db ≡ (ok session, db')
      → (user : User) × (account_of dto db ≡ some user)
        × (crypto.verify_password user.password_hash dto.password ≡ true)
        × (user.status ≡ active)
        × (session
            ≡ build_session p user
                (keep (role_of db.user_roles user.id) db.roles)
                draw.opaque_token
                draw)
        × (db' ≡ record db {
          refresh_tokens = db.refresh_tokens ++ new_refresh_token p user draw.uuid meta draw ∷ [];
        })
  unfolding check_credentials
  login-eq-ok dto meta draw db {session} {db'} h = elim (Option-cases (account_of dto db)) [
    | inl missing ↦ cc (
        ap (λ (r : Result AuthSession × Db). r.0)
          (sym (rw (login-check dto meta draw db none missing) at h)))
    | inr (user, found) ↦
        let (a, b, c, d) =
          check-eq-ok dto.password user _ meta draw db
            (rw (login-check dto meta draw db (some user) found) at h) in
        (user, found, a, b, c, d)
  ]

  -- An unknown email and a wrong password get the same answer, and write nothing.
  pub login_uniform :
      (dto : LoginDto) (meta : SessionMetadata) (draw : Draw) (db : Db)
      → ((user : User)
          → account_of dto db ≡ some user
          → crypto.verify_password user.password_hash dto.password ≡ false)
      → login p dto meta draw db ≡ (err (http unauthorized "Invalid credentials"), db)
  unfolding check_credentials
  login_uniform dto meta draw db h = elim (Option-cases (account_of dto db)) [
    | inl missing ↦ rw (login-check dto meta draw db none missing)
    | inr (user, found) ↦ rw (login-check dto meta draw db (some user) found, h user found)
  ]
