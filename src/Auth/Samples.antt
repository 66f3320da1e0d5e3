-- ===== src/Auth/Samples.antt =====
-- Small data for the tests: a user, two sessions and providers that compute.
use Prim.Native.String
use nestjs_app.Prelude.{true, ℕ, String, none, some, [], ◌∷◌, str_eq}
use nestjs_app.Db.{Db, User, Role, RefreshToken, PasswordResetToken, active, list_orm}
use nestjs_app.Auth.Session.{Providers, Crypto, Draw, SessionMetadata}

abbrev pub crypto : Crypto
crypto = record {
  hash_token = λ t. String.◌++◌ "sha:" t;
  hash_password = λ salt pw. String.◌++◌ "argon:" pw;
  verify_password = λ hash pw. str_eq hash (String.◌++◌ "argon:" pw);
  sign_jwt = λ now sub email. String.◌++◌ "jwt:" sub;
}

abbrev pub providers : Providers
providers = record {
  orm = list_orm;
  crypto = crypto;
  config = record {
    access_expires_in_ms = 900000;
    refresh_expires_in_ms = 604800000;
    reset_token_ttl_ms = 1800000;
  };
}

abbrev pub no_metadata : SessionMetadata
no_metadata = record { ip_address = none; user_agent = none }

abbrev pub draw_at : ℕ → String → String → String → Draw
draw_at now token uuid row_id = record {
  now = now;
  opaque_token = token;
  uuid = uuid;
  row_id = row_id;
  salt = "salt";
}

abbrev pub jane : User
jane = record {
  id = "u1";
  email = "jane@example.com";
  password_hash = "argon:secret123";
  first_name = some "Jane";
  last_name = none;
  status = active;
  email_verified_at = none;
  created_at = 0;
  updated_at = 0;
  deleted_at = none;
}

abbrev pub token_of : String → String → String → RefreshToken
token_of id text family = record {
  id = id;
  token_hash = String.◌++◌ "sha:" text;
  user_id = "u1";
  family_id = family;
  expires_at = 1000;
  revoked_at = none;
  replaced_by_token_id = none;
  ip_address = none;
  user_agent = none;
  used_at = none;
  created_at = 0;
}

abbrev pub reset_token : PasswordResetToken
reset_token = record {
  id = "p1";
  user_id = "u1";
  token_hash = "sha:reset";
  expires_at = 1000;
  used_at = none;
  ip_address = none;
  created_at = 0;
}

-- The role that new accounts get.
abbrev pub default_role : Role
default_role = record {
  id = "r0";
  name = "user";
  description = none;
  is_system = true;
  created_at = 0;
  updated_at = 0;
}

-- Jane is logged in on two devices, and has asked for a reset.
abbrev pub two_sessions : Db
two_sessions = record {
  users = jane ∷ [];
  roles = default_role ∷ [];
  user_roles = [];
  permissions = [];
  role_permissions = [];
  refresh_tokens = token_of "r1" "laptop" "f1" ∷ token_of "r2" "phone" "f2" ∷ [];
  password_reset_tokens = reset_token ∷ [];
}
