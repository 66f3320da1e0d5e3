-- ===== src/Auth/Reset/Effects.antt =====
-- What a password reset needs, and what it leaves: the password, the token and the sessions.
use nestjs_app.Prelude.{
  ◌≤◌, ◌≡◌, sym, ap, subst, inl, inr, String, Option, none, some, arith, str_eq, find?, modify,
  Option-cases,
}
use nestjs_app.Result.{Result, ok}
use nestjs_app.Db.{Db, Documented, settle, User, PasswordResetToken, active}
use nestjs_app.Users.Lookup.{live_with_id}
use nestjs_app.Auth.Session.{Providers, Draw}
use nestjs_app.Auth.Refresh.{revoke}
use nestjs_app.Auth.Reset.{
  has_hash, spend, set_password, unrevoked_of, apply_reset, reset_with, reset_password,
}

module _ (p : Providers) (documented : Documented p.orm) where
  open p use {crypto}

  abbrev pub reset_stored : String → Db → Option PasswordResetToken
  reset_stored token db = find? (has_hash (crypto.hash_token token)) db.password_reset_tokens

  -- The three writes of a successful reset.
  abbrev pub after_reset : String → Draw → PasswordResetToken → User → Db → Db
  after_reset password draw reset user db = record db {
    users =
        modify (λ (u : User). str_eq u.id user.id)
          (set_password draw.now (crypto.hash_password draw.salt password)) db.users;
    password_reset_tokens =
        modify (λ t. str_eq t.id reset.id) (spend draw.now) db.password_reset_tokens;
    refresh_tokens = modify (unrevoked_of user.id) (revoke draw.now) db.refresh_tokens;
  }

  pub reset-settle :
      (token password : String) (draw : Draw) (db : Db)
      → reset_password p token password draw db
        ≡ settle db (reset_with p password draw (reset_stored token db) db)
  unfolding reset_password
  reset-settle token password draw db = rw (documented.transaction_lem, documented.find_one_lem)

  pub apply_reset-lem :
      (password : String) (draw : Draw) (reset : PasswordResetToken) (user : User) (db : Db)
      → apply_reset p password draw reset user db ≡ (ok tt, after_reset password draw reset user db)
  unfolding apply_reset
  apply_reset-lem password draw reset user db = simp documented.update_lem

  reset_with-eq-ok :
      (password : String) (draw : Draw) (reset : PasswordResetToken) (db : Db) {db' : Db}
      → settle db (reset_with p password draw (some reset) db) ≡ (ok tt, db')
      → (user : User) × (reset.used_at ≡ none)
        × (draw.now ≤ reset.expires_at)
        × (find? (live_with_id reset.user_id) db.users ≡ some user)
        × (user.status ≡ active)
        × (db' ≡ after_reset password draw reset user db)
  unfolding reset_with
  reset_with-eq-ok password draw reset db {db'} h =
      elim (Option-cases (find? (live_with_id reset.user_id) db.users)) [
        | inl missing ↦
            absurd (ground (arith, documented.find_one_lem (live_with_id reset.user_id) db.users))
        | inr (user, found) ↦ ground (
          arith,
          documented.find_one_lem (live_with_id reset.user_id) db.users,
          apply_reset-lem password draw reset user db,
        )
      ]

  -- A reset succeeds only with a stored token that is neither used nor expired, for an active
  -- account; then the password is replaced, the token is spent and the sessions are revoked.
  pub reset-eq-ok :
      (token password : String) (draw : Draw) (db : Db) {db' : Db}
      → reset_password p token password draw db ≡ (ok tt, db')
      → (reset : PasswordResetToken) × (user : User) × (reset_stored token db ≡ some reset)
        × (reset.used_at ≡ none)
        × (draw.now ≤ reset.expires_at)
        × (find? (live_with_id reset.user_id) db.users ≡ some user)
        × (user.status ≡ active)
        × (db' ≡ after_reset password draw reset user db)
  unfolding reset_with
  reset-eq-ok token password draw db {db'} h =
      let settled = rw (reset-settle token password draw db) at h in
      elim (Option-cases (reset_stored token db)) [
        | inl missing ↦ cc (
            ap (λ (r : Result (Unit {0}) × Db). r.0)
              (sym (
                subst (λ o. settle db (reset_with p password draw o db) ≡ (ok tt, db')) missing
                  settled)))
        | inr (reset, found) ↦
            let (user, a, b, c, d, e) = reset_with-eq-ok password draw reset db (
              subst (λ o. settle db (reset_with p password draw o db) ≡ (ok tt, db')) found
                settled) in
            (reset, user, found, a, b, c, d, e)
      ]
