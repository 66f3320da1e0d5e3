-- ===== src/Shared/Config.antt =====
-- src/config/: jwt.config.ts, app.config.ts, mail.config.ts, database.config.ts, cors.config.ts, trust-proxy.ts. The
-- environment is a function; `parseInt` and `split` are parameters.
pub mod Valid
use Prim.Native.Char.{code}
use Prim.Native.String
use Prim.Native.String.{◌∷◌}
use nestjs_app.Prelude.{
  ℕ, String, Bool, true, false, ◌&&◌, not, Option, none, some, List, map, str_eq, leb,
  if◌then◌else◌,
}
use nestjs_app.Js.{trim, to_lower_case}
use nestjs_app.Durations.{parse_duration_to_ms}

abbrev pub Env : Type 0
Env = String → Option String

-- `value ?? fallback` and `value || fallback`
abbrev pub or_else : Option String → String → String
or_else none fallback = fallback
or_else (some value) fallback = value

abbrev pub or_else_if_empty : Option String → String → String
or_else_if_empty none fallback = fallback
or_else_if_empty (some value) fallback = if str_eq value "" then fallback else value

-- `value.toLowerCase() === 'true'`
abbrev pub is_true : String → Bool
is_true value = str_eq (to_lower_case value) "true"

pub record JwtSettings : Type 0 where
  pub access_secret : String
  pub access_expires_in : String
  pub access_expires_in_ms : ℕ
  pub refresh_expires_in : String
  pub refresh_expires_in_ms : ℕ
  pub cookie_name : String
  pub cookie_path : String
  pub cookie_secure : Bool
  pub cookie_same_site : String
  pub reset_token_ttl : String
  pub reset_token_ttl_ms : ℕ

abbrev pub cookie_secure_of : Option String → (node_env : String) → Bool
cookie_secure_of none node_env = str_eq node_env "production"
cookie_secure_of (some value) node_env = is_true value

abbrev with_durations :
    Env
    → (access_secret access refresh reset : String) → Option ℕ
    → Option ℕ
    → Option ℕ
    → Option JwtSettings
with_durations env access_secret access refresh reset (some access_ms) (some refresh_ms)
      (some reset_ms) =
    some (record {
      access_secret = access_secret;
      access_expires_in = access;
      access_expires_in_ms = access_ms;
      refresh_expires_in = refresh;
      refresh_expires_in_ms = refresh_ms;
      cookie_name = or_else (env "JWT_COOKIE_NAME") "refresh_token";
      cookie_path =
          or_else_if_empty (env "JWT_COOKIE_PATH")
            (String.◌++◌ "/" (String.◌++◌ (or_else (env "API_PREFIX") "api") "/auth"));
      cookie_secure =
          cookie_secure_of (env "JWT_COOKIE_SECURE") (or_else (env "NODE_ENV") "development");
      cookie_same_site = or_else (env "JWT_COOKIE_SAME_SITE") "lax";
      reset_token_ttl = reset;
      reset_token_ttl_ms = reset_ms;
    })
with_durations env access_secret access refresh reset _ _ _ = none

abbrev with_secret : Env → Option String → Option JwtSettings
with_secret env none = none
with_secret env (some access_secret) =
    if str_eq access_secret ""
    then none
    else (let access = or_else (env "JWT_ACCESS_EXPIRES_IN") "15m" in
        let refresh = or_else (env "JWT_REFRESH_EXPIRES_IN") "7d" in
        let reset = or_else (env "PASSWORD_RESET_TOKEN_TTL") "30m" in
        with_durations env access_secret access refresh reset (parse_duration_to_ms access)
          (parse_duration_to_ms refresh) (parse_duration_to_ms reset))

-- `none` is an error, of the secret or of a duration.
unfoldable pub jwt_config : Env → Option JwtSettings
unfolding parse_duration_to_ms to_lower_case
jwt_config env = with_secret env (env "JWT_ACCESS_SECRET")

-- `parseInt(text, 10)`, and `text.split(',')`.
pub record Parsing : Type 0 where
  pub parse_int : String → ℕ
  pub split_at_commas : String → List String

pub record AppSettings : Type 0 where
  pub node_env : Option String
  pub port : ℕ
  pub api_prefix : String
  pub cors_origin : String
  pub frontend_url : String
  pub log_level : String
  pub swagger_enabled : Bool
  pub trust_proxy : Option String

abbrev pub is_production : Option String → Bool
is_production none = false
is_production (some node_env) = str_eq node_env "production"

-- An override that is empty counts as none.
abbrev pub swagger_enabled_of : Option String → (node_env : Option String) → Bool
swagger_enabled_of none node_env = not (is_production node_env)
swagger_enabled_of (some value) node_env =
    if str_eq value "" then not (is_production node_env) else is_true value

pub record MailEnv : Type 0 where
  pub driver : String
  pub host : Option String
  pub port : ℕ
  pub secure : Bool
  pub user : Option String
  pub pass : Option String
  pub from : Option String

pub record DatabaseConfig : Type 0 where
  pub host : String
  pub port : ℕ
  pub username : String
  pub password : String
  pub database : String
  pub synchronize : Bool
  pub logging : Bool

pub record CorsOptions : Type 0 where
  pub origin : List String
  pub credentials : Bool

-- What Express is told to trust: a number of hops, or a list of proxies.
pub data TrustProxy : Type 0 where
  hops : ℕ → TrustProxy
  proxies : List String → TrustProxy

abbrev pub all_digits : String → Bool
all_digits String.[] = true
all_digits (c ∷ s) = leb 48 (code c) && (leb (code c) 57 && all_digits s)

module _ (parsing : Parsing) where
  open parsing use {parse_int, split_at_commas}

  unfoldable pub app_config : Env → AppSettings
  unfolding to_lower_case
  app_config env = record {
    node_env = env "NODE_ENV";
    port = parse_int (or_else (env "PORT") "3000");
    api_prefix = or_else (env "API_PREFIX") "api";
    cors_origin = or_else (env "CORS_ORIGIN") "http://localhost:5173";
    frontend_url = or_else (env "FRONTEND_URL") "http://localhost:5173";
    log_level = or_else (env "LOG_LEVEL") "info";
    swagger_enabled = swagger_enabled_of (env "SWAGGER_ENABLED") (env "NODE_ENV");
    trust_proxy = env "TRUST_PROXY";
  }

  unfoldable pub mail_config : Env → MailEnv
  unfolding to_lower_case
  mail_config env = record {
    driver = or_else (env "MAIL_DRIVER") "console";
    host = env "MAIL_HOST";
    port = parse_int (or_else (env "MAIL_PORT") "587");
    secure = is_true (or_else (env "MAIL_SECURE") "false");
    user = env "MAIL_USER";
    pass = env "MAIL_PASS";
    from = env "MAIL_FROM";
  }

  unfoldable pub database_config : Env → DatabaseConfig
  unfolding to_lower_case
  database_config env = record {
    host = or_else (env "DB_HOST") "localhost";
    port = parse_int (or_else (env "DB_PORT") "5432");
    username = or_else (env "DB_USERNAME") "postgres";
    password = or_else (env "DB_PASSWORD") "postgres";
    database = or_else (env "DB_NAME") "my_app";
    synchronize = is_true (or_else (env "DB_SYNCHRONIZE") "false");
    logging = is_true (or_else (env "DB_LOGGING") "true");
  }

  unfoldable pub build_cors_options : String → CorsOptions
  unfolding trim
  build_cors_options cors_origin = record {
    origin = map trim (split_at_commas cors_origin);
    credentials = true;
  }

  -- The setting that is made, if any.
  unfoldable pub apply_trust_proxy : Option String → Option TrustProxy
  unfolding trim
  apply_trust_proxy none = none
  apply_trust_proxy (some trust_proxy) =
      if str_eq trust_proxy ""
      then none
      else if all_digits trust_proxy
      then some (hops (parse_int trust_proxy))
      else some (proxies (map trim (split_at_commas trust_proxy)))
