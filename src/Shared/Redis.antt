-- ===== src/Shared/Redis.antt =====
-- src/shared/redis/redis.module.ts: when the client of Redis connects again, and how it is closed;
-- src/config/redis.config.ts; and src/modules/auth/mail/mail.connections.ts.
pub mod Retries
use Prim.Native.String
use nestjs_app.Prelude.{
  ℕ, ◌*◌, String, Bool, true, false, Option, none, some, ltb, min, str_eq, if◌then◌else◌,
}
use nestjs_app.Shared.Config.{Env, Parsing, or_else}

abbrev pub max_reconnect_attempts : ℕ
max_reconnect_attempts = 20

abbrev pub reconnect_max_delay_ms : ℕ
reconnect_max_delay_ms = 2000

-- The pause before an attempt, in milliseconds; `none` gives up.
unfoldable pub retry_strategy : (times : ℕ) → Option ℕ
retry_strategy times =
    if ltb max_reconnect_attempts times
    then none
    else some (min (times * 100) reconnect_max_delay_ms)

-- What is called to close the client: QUIT, or `disconnect`, or one after the other.
pub record Closing : Type 0 where
  pub quit : Bool
  pub disconnected : Bool

-- `quit_in_time` says whether QUIT is answered before the timeout, if it is sent.
unfoldable pub on_application_shutdown : (ready quit_in_time : Bool) → Closing
on_application_shutdown false quit_in_time = record { quit = false; disconnected = true }
on_application_shutdown true true = record { quit = true; disconnected = false }
on_application_shutdown true false = record { quit = true; disconnected = true }

pub record RedisConfig : Type 0 where
  pub host : String
  pub port : ℕ
  pub password : String

unfoldable pub redis_config : Parsing → Env → RedisConfig
redis_config parsing env = record {
  host = or_else (env "REDIS_HOST") "localhost";
  port = parsing.parse_int (or_else (env "REDIS_PORT") "6379");
  password = or_else (env "REDIS_PASSWORD") "";
}

-- `password || undefined`
abbrev pub or_undefined : String → Option String
or_undefined password = if str_eq password "" then none else some password

pub data MailRole : Type 0 where
  producer worker : MailRole

abbrev pub name_of_role : MailRole → String
name_of_role producer = "producer"
name_of_role worker = "worker"

-- A request of the worker is retried for ever, which `none` stands for.
abbrev pub retries_of_role : MailRole → Option ℕ
retries_of_role producer = some 1
retries_of_role worker = none

pub record ConnectionOptions : Type 0 where
  pub host : String
  pub port : ℕ
  pub password : Option String
  pub connect_timeout : ℕ
  pub enable_ready_check : Bool
  pub max_retries_per_request : Option ℕ
  pub connection_name : String

unfoldable pub build_mail_connection :
    RedisConfig → (node_env : String) → MailRole → ConnectionOptions
build_mail_connection redis node_env role = record {
  host = redis.host;
  port = redis.port;
  password = or_undefined redis.password;
  connect_timeout = 2000;
  enable_ready_check = true;
  max_retries_per_request = retries_of_role role;
  connection_name = String.◌++◌ node_env (String.◌++◌ ":mail-queue-" (name_of_role role));
}
