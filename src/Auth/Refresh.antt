-- ===== src/Auth/Refresh.antt =====
-- `AuthService.refresh` and `AuthService.logout` of src/modules/auth/auth.service.ts.
pub mod Rotation
pub mod Families
use nestjs_app.Prelude.{
  ℕ, String, Bool, ◌||◌, ◌&&◌, not, Option, none, some, [], str_eq, ltb, if◌then◌else◌,
}
use nestjs_app.Result.{Exec, ok, pure, throw, gets, ◌>>=◌, ◌>>◌, http, unauthorized}
use nestjs_app.Db.{Orm, Db, User, RefreshToken, is_active, is_set}
use nestjs_app.Users.Lookup.{live_with_id}
use nestjs_app.Auth.Session.{
  Providers, Draw, SessionMetadata, AuthSession, same_hash, build_session, new_refresh_token,
  save_refresh_token,
}

-- The `outcome` that the transaction returns, so that it commits before anything is thrown.
pub data Outcome : Type 0 where
  invalid theft expired inactive : Outcome
  rotated : User → String → Outcome

-- The filter `{ familyId, revokedAt: IsNull() }`.
abbrev pub unrevoked_in_family : String → RefreshToken → Bool
unrevoked_in_family family t = str_eq t.family_id family && not (is_set t.revoked_at)

abbrev pub revoke : ℕ → RefreshToken → RefreshToken
revoke now t = record t { revoked_at = some now }

abbrev pub has_id : String → RefreshToken → Bool
has_id id t = str_eq t.id id

-- `manager.update(RefreshToken, …)`
unfoldable pub update_refresh_tokens :
    Orm → (RefreshToken → Bool) → (RefreshToken → RefreshToken) → Exec Db (Unit {0})
update_refresh_tokens orm p f db =
    (ok tt, record db { refresh_tokens = orm.update p f db.refresh_tokens })

-- The update of the presented token: used, revoked and linked to its replacement.
abbrev pub rotate : ℕ → String → RefreshToken → RefreshToken
rotate now next_id t = record t {
  used_at = some now;
  revoked_at = some now;
  replaced_by_token_id = some next_id;
}

module _ (p : Providers) where
  open p use {orm, crypto}

  -- `if (!stored || stored.revokedAt) return; update(stored.id, …)`
  unfoldable pub revoke_found : Option RefreshToken → Draw → Exec Db (Unit {0})
  unfolding update_refresh_tokens
  revoke_found none draw = pure tt
  revoke_found (some stored) draw =
      if is_set stored.revoked_at
      then pure tt
      else update_refresh_tokens orm (has_id stored.id) (revoke draw.now)

  unfoldable pub rotate_token : RefreshToken → User → SessionMetadata → Draw → Exec Db Outcome
  unfolding new_refresh_token save_refresh_token update_refresh_tokens
  rotate_token stored user meta draw = do
    next ← save_refresh_token p (new_refresh_token p user stored.family_id meta draw)
    update_refresh_tokens orm (has_id stored.id) (rotate draw.now next.id)
    pure (rotated user draw.opaque_token)

  unfoldable pub rotate_for : RefreshToken → SessionMetadata → Draw → Option User → Exec Db Outcome
  unfolding rotate_token
  rotate_for stored meta draw none = pure inactive
  rotate_for stored meta draw (some user) =
      if is_active user.status then rotate_token stored user meta draw else pure inactive

  unfoldable pub examine : SessionMetadata → Draw → Option RefreshToken → Exec Db Outcome
  unfolding rotate_for update_refresh_tokens
  examine meta draw none = pure invalid
  examine meta draw (some stored) =
      if is_set stored.revoked_at || is_set stored.used_at
      then (do
        update_refresh_tokens orm (unrevoked_in_family stored.family_id) (revoke draw.now)
        pure theft)
      else if ltb stored.expires_at draw.now
      then (do update_refresh_tokens orm (has_id stored.id) (revoke draw.now); pure expired)
      else (do
        user ← gets (λ db. orm.find_one (live_with_id stored.user_id) db.users)
        rotate_for stored meta draw user)

  unfoldable pub answer : Draw → Outcome → Exec Db AuthSession
  unfolding build_session
  answer draw invalid = throw (http unauthorized "Invalid refresh token")
  answer draw theft = throw (http unauthorized "Invalid refresh token")
  answer draw expired = throw (http unauthorized "Refresh token expired")
  answer draw inactive = throw (http unauthorized "Account is not active")
  answer draw (rotated user token) = pure (build_session p user [] token draw)

  unfoldable pub refresh : Option String → SessionMetadata → Draw → Exec Db AuthSession
  unfolding examine answer
  refresh none meta draw = throw (http unauthorized "Missing refresh token")
  refresh (some presented) meta draw =
      if str_eq presented "" then throw (http unauthorized "Missing refresh token") else (do
        outcome ← orm.transaction (do
          stored ←
              gets (λ db. orm.find_one (same_hash (crypto.hash_token presented)) db.refresh_tokens)
          examine meta draw stored)
        answer draw outcome)

  unfoldable pub logout : Option String → Draw → Exec Db (Unit {0})
  unfolding update_refresh_tokens
  logout none draw = pure tt
  logout (some presented) draw = if str_eq presented "" then pure tt else (do
    stored ← gets (λ db. orm.find_one (same_hash (crypto.hash_token presented)) db.refresh_tokens)
    revoke_found stored draw)
