-- ===== src/Auth/Histories.antt =====
-- Sequences of requests to `AuthService`: the states that they reach.
pub mod Accounts
pub mod Sessions
pub mod Invariant
mod Tests
use nestjs_app.Prelude.{◌≡◌, String, false, Option, str_eq, any}
use nestjs_app.Db.{Db, RefreshToken}
use nestjs_app.Auth.Session.{Providers, Draw, SessionMetadata}
use nestjs_app.Auth.Refresh.{refresh, logout}
use nestjs_app.Auth.Credentials.{LoginDto, RegisterDto, login, register}
use nestjs_app.Auth.Reset.{forgot_password, reset_password}

-- The random family id is new.
abbrev pub IsNewFamily : Draw → Db → Type 0
IsNewFamily draw db =
    any (λ (t : RefreshToken). str_eq t.family_id draw.uuid) db.refresh_tokens ≡ false

-- Requests one after the other; while one hashes the password of a new account, others run, and
-- take the database from `db'` to `db''`.
pub data Reaches (p : Providers) (db : Db) : Db → Type 0 where
  start : Reaches p db db
  login_step :
      (dto : LoginDto) (meta : SessionMetadata) (draw : Draw) (db' : Db)
      → Reaches p db db'
      → IsNewFamily draw db'
      → Reaches p db (login p dto meta draw db').1
  register_step :
      (dto : RegisterDto) (meta : SessionMetadata) (draw session_draw : Draw) (db' db'' : Db)
      → Reaches p db db'
      → Reaches p db db''
      → IsNewFamily session_draw db''
      → Reaches p db (register p dto meta (λ _. db'') draw session_draw db').1
  refresh_step :
      (presented : Option String) (meta : SessionMetadata) (draw : Draw) (db' : Db)
      → Reaches p db db'
      → Reaches p db (refresh p presented meta draw db').1
  logout_step :
      (presented : Option String) (draw : Draw) (db' : Db)
      → Reaches p db db'
      → Reaches p db (logout p presented draw db').1
  forgot_step :
      (email : String) (meta : SessionMetadata) (draw : Draw) (db' : Db)
      → Reaches p db db'
      → Reaches p db (forgot_password p email meta draw db').1
  reset_step :
      (token password : String) (draw : Draw) (db' : Db)
      → Reaches p db db'
      → Reaches p db (reset_password p token password draw db').1
