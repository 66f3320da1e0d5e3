-- ===== src/Auth/Session.antt =====
-- src/modules/auth/auth.service.ts: the session types, `createSession`, `buildSession` and the
-- private helpers; src/modules/users/users.serializer.ts. SHA-256, argon2, JWT signing and the
-- random source are parameters.
use nestjs_app.Prelude.{ℕ, ◌+◌, String, Bool, Option, none, some, List, [], ◌∷◌, str_eq, map}
use nestjs_app.Result.{Exec, Result, pure, ◌>>=◌, ◌>>◌}
use nestjs_app.Db.{Orm, Db, User, Role, UserStatus, RefreshToken}

pub record SessionMetadata : Type 0 where
  pub ip_address : Option String
  pub user_agent : Option String

pub record RoleName : Type 0 where
  pub id : String
  pub name : String

pub record SafeUser : Type 0 where
  pub id : String
  pub email : String
  pub first_name : Option String
  pub last_name : Option String
  pub status : UserStatus
  pub email_verified_at : Option ℕ
  pub created_at : ℕ
  pub roles : Option (List RoleName)

pub record AuthSession : Type 0 where
  pub access_token : String
  pub refresh_token : String
  pub user : SafeUser

pub record JwtConfig : Type 0 where
  pub access_expires_in_ms : ℕ
  pub refresh_expires_in_ms : ℕ
  pub reset_token_ttl_ms : ℕ

-- node:crypto, argon2 and @nestjs/jwt. `hash_password` takes the salt that argon2 draws;
-- `sign_jwt` takes the time of signing, the subject and the email.
pub record Crypto : Type 0 where
  pub hash_token : String → String
  pub hash_password : String → String → String
  pub verify_password : String → String → Bool
  pub sign_jwt : ℕ → String → String → String

-- What one call draws: the clock, random bytes and ids. One reading of the clock stands for all
-- the readings of the call.
pub record Draw : Type 0 where
  pub now : ℕ
  pub opaque_token : String
  pub uuid : String
  pub row_id : String
  pub salt : String

-- `userRoles` is the roles that were loaded with the user, none if the relation was not loaded.
roles_field : List Role → Option (List RoleName)
roles_field [] = none
roles_field (r ∷ rs) = some (map (λ r. record { id = r.id; name = r.name }) (r ∷ rs))

unfoldable pub serialize_user : User → List Role → SafeUser
unfolding roles_field
serialize_user user user_roles = record {
  id = user.id;
  email = user.email;
  first_name = user.first_name;
  last_name = user.last_name;
  status = user.status;
  email_verified_at = user.email_verified_at;
  created_at = user.created_at;
  roles = roles_field user_roles;
}

-- The unique index on `token_hash`.
abbrev pub same_hash : String → RefreshToken → Bool
same_hash hash t = str_eq t.token_hash hash

-- The providers that the constructor of `AuthService` is given.
pub record Providers : Type 1 where
  pub orm : Orm
  pub crypto : Crypto
  pub config : JwtConfig

module _ (p : Providers) where
  open p use {orm, crypto, config}

  unfoldable pub build_session : User → List Role → String → Draw → AuthSession
  build_session user user_roles refresh_token draw = record {
    access_token = crypto.sign_jwt draw.now user.id user.email;
    refresh_token = refresh_token;
    user = serialize_user user user_roles;
  }

  unfoldable pub refresh_expiry : Draw → ℕ
  refresh_expiry draw = draw.now + config.refresh_expires_in_ms

  unfoldable pub reset_expiry : Draw → ℕ
  reset_expiry draw = draw.now + config.reset_token_ttl_ms

  -- `create(RefreshToken, …)`, with the columns that the database fills in.
  unfoldable pub new_refresh_token : User → String → SessionMetadata → Draw → RefreshToken
  unfolding refresh_expiry
  new_refresh_token user family_id meta draw = record {
    id = draw.row_id;
    token_hash = crypto.hash_token draw.opaque_token;
    user_id = user.id;
    family_id = family_id;
    expires_at = refresh_expiry draw;
    revoked_at = none;
    replaced_by_token_id = none;
    ip_address = meta.ip_address;
    user_agent = meta.user_agent;
    used_at = none;
    created_at = draw.now;
  }

  -- `save` of a new refresh token; it answers the saved row.
  unfoldable pub save_refresh_token : RefreshToken → Exec Db RefreshToken
  save_refresh_token token = do
    rows ← λ db. (orm.insert (same_hash token.token_hash) token db.refresh_tokens, db)
    λ db. (Result.ok token, record db { refresh_tokens = rows })

  unfoldable pub create_session : User → List Role → SessionMetadata → Draw → Exec Db AuthSession
  unfolding new_refresh_token save_refresh_token build_session
  create_session user user_roles meta draw = do
    save_refresh_token (new_refresh_token user draw.uuid meta draw)
    pure (build_session user user_roles draw.opaque_token draw)
