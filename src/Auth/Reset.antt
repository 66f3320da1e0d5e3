-- ===== src/Auth/Reset.antt =====
-- `AuthService.forgotPassword` and `AuthService.resetPassword` of
-- src/modules/auth/auth.service.ts.
pub mod Effects
pub mod Consequences
pub mod Requests
mod Tests
use nestjs_app.Prelude.{
  ℕ, String, Bool, ◌&&◌, ◌||◌, not, Option, none, some, List, [], ◌∷◌, str_eq, ltb, if◌then◌else◌,
}
use nestjs_app.Result.{Exec, ok, pure, throw, gets, ◌>>=◌, ◌>>◌, http, bad_request, Exception}
use nestjs_app.Db.{Orm, Db, User, RefreshToken, PasswordResetToken, is_active, is_set}
use nestjs_app.Users.Lookup.{UserWithRoles, find_by_email, live_with_id}
use nestjs_app.Auth.Session.{Providers, Draw, SessionMetadata, reset_expiry}
use nestjs_app.Auth.Refresh.{revoke, update_refresh_tokens}
use nestjs_app.Auth.Credentials.{normalize_email}

-- The call `mailService.sendPasswordReset(email, token)` that a request starts.
pub record MailRequest : Type 0 where
  pub email : String
  pub token : String

-- The filter `{ userId, usedAt: IsNull() }`.
abbrev pub unused_of : String → PasswordResetToken → Bool
unused_of user_id t = str_eq t.user_id user_id && not (is_set t.used_at)

abbrev pub spend : ℕ → PasswordResetToken → PasswordResetToken
spend now t = record t { used_at = some now }

-- The unique index on `token_hash`.
abbrev pub has_hash : String → PasswordResetToken → Bool
has_hash hash t = str_eq t.token_hash hash

-- The filter `{ userId, revokedAt: IsNull() }`.
abbrev pub unrevoked_of : String → RefreshToken → Bool
unrevoked_of user_id t = str_eq t.user_id user_id && not (is_set t.revoked_at)

abbrev pub set_password : ℕ → String → User → User
set_password now hash user = record user { password_hash = hash; updated_at = now }

abbrev pub invalid_reset : Exception
invalid_reset = http bad_request "Invalid or expired reset token"

module _ (p : Providers) where
  open p use {orm, crypto}

  abbrev pub new_reset_token : User → SessionMetadata → Draw → PasswordResetToken
  new_reset_token user meta draw = record {
    id = draw.row_id;
    user_id = user.id;
    token_hash = crypto.hash_token draw.opaque_token;
    expires_at = reset_expiry p draw;
    used_at = none;
    ip_address = meta.ip_address;
    created_at = draw.now;
  }

  unfoldable pub update_reset_tokens :
      (PasswordResetToken → Bool) → (PasswordResetToken → PasswordResetToken) → Exec Db (Unit {0})
  update_reset_tokens q f db =
      (ok tt, record db { password_reset_tokens = orm.update q f db.password_reset_tokens })

  unfoldable pub save_reset_token : PasswordResetToken → Exec Db (Unit {0})
  save_reset_token token = do
    saved ← λ db. (orm.insert (has_hash token.token_hash) token db.password_reset_tokens, db)
    λ db. (ok tt, record db { password_reset_tokens = saved })

  unfoldable pub issue_reset : SessionMetadata → Draw → User → Exec Db (List MailRequest)
  unfolding update_reset_tokens save_reset_token
  issue_reset meta draw user = do
    update_reset_tokens (unused_of user.id) (spend draw.now)
    save_reset_token (new_reset_token user meta draw)
    pure (record { email = user.email; token = draw.opaque_token } ∷ [])

  -- The answer lists the mail that is requested; the endpoint's response is empty on every branch.
  unfoldable pub forgot_for :
      SessionMetadata → Draw → Option UserWithRoles → Exec Db (List MailRequest)
  unfolding issue_reset
  forgot_for meta draw none = pure []
  forgot_for meta draw (some found) =
      if not (is_active found.user.status) then pure [] else issue_reset meta draw found.user

  unfoldable pub forgot_password : String → SessionMetadata → Draw → Exec Db (List MailRequest)
  unfolding forgot_for find_by_email
  forgot_password email meta draw = do
    user ← find_by_email orm (normalize_email email)
    forgot_for meta draw user

  unfoldable pub is_stale : Draw → PasswordResetToken → Bool
  is_stale draw t = is_set t.used_at || ltb t.expires_at draw.now

  -- The three writes: the password, the reset token, the sessions of the account.
  unfoldable pub apply_reset : String → Draw → PasswordResetToken → User → Exec Db (Unit {0})
  unfolding update_reset_tokens update_refresh_tokens
  apply_reset new_password draw reset user = do
    λ db. (
      ok tt,
      record db {
        users =
            orm.update (λ (u : User). str_eq u.id user.id)
              (set_password draw.now (crypto.hash_password draw.salt new_password)) db.users;
      },
    )
    update_reset_tokens (λ t. str_eq t.id reset.id) (spend draw.now)
    update_refresh_tokens orm (unrevoked_of user.id) (revoke draw.now)

  unfoldable pub reset_for : String → Draw → PasswordResetToken → Option User → Exec Db (Unit {0})
  unfolding apply_reset
  reset_for new_password draw reset none = throw invalid_reset
  reset_for new_password draw reset (some user) =
      if not (is_active user.status)
      then throw invalid_reset
      else apply_reset new_password draw reset user

  unfoldable pub reset_with : String → Draw → Option PasswordResetToken → Exec Db (Unit {0})
  unfolding is_stale reset_for
  reset_with new_password draw none = throw invalid_reset
  reset_with new_password draw (some reset) =
      if is_stale draw reset then throw invalid_reset else (do
        user ← gets (λ db. orm.find_one (live_with_id reset.user_id) db.users)
        reset_for new_password draw reset user)

  unfoldable pub reset_password : String → String → Draw → Exec Db (Unit {0})
  unfolding reset_with
  reset_password token new_password draw = orm.transaction (do
    reset ← gets (λ db. orm.find_one (has_hash (crypto.hash_token token)) db.password_reset_tokens)
    reset_with new_password draw reset)
