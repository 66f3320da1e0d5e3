-- ===== src/Db/Entities.antt =====
-- The rows of the tables: src/modules/*/entities/*.entity.ts, with the enums of
-- src/common/constants/. A `Date` is its time value in milliseconds; the relations between
-- entities are the tables joined on their keys.
use nestjs_app.Prelude.{ℕ, String, Bool, true, false, Option, none, some, List}

pub data UserStatus : Type 0 where
  active inactive suspended : UserStatus

pub data PermissionAction : Type 0 where
  manage create read update delete : PermissionAction

pub record User : Type 0 where
  pub id : String
  pub email : String
  pub password_hash : String
  pub first_name : Option String
  pub last_name : Option String
  pub status : UserStatus
  pub email_verified_at : Option ℕ
  pub created_at : ℕ
  pub updated_at : ℕ
  pub deleted_at : Option ℕ

pub record Role : Type 0 where
  pub id : String
  pub name : String
  pub description : Option String
  pub is_system : Bool
  pub created_at : ℕ
  pub updated_at : ℕ

pub record UserRole : Type 0 where
  pub user_id : String
  pub role_id : String
  pub created_at : ℕ

pub record Permission : Type 0 where
  pub id : String
  pub action : PermissionAction
  pub subject : String
  pub description : Option String
  pub created_at : ℕ
  pub updated_at : ℕ

pub record RolePermission : Type 0 where
  pub role_id : String
  pub permission_id : String
  pub created_at : ℕ

pub record RefreshToken : Type 0 where
  pub id : String
  pub token_hash : String
  pub user_id : String
  pub family_id : String
  pub expires_at : ℕ
  pub revoked_at : Option ℕ
  pub replaced_by_token_id : Option String
  pub ip_address : Option String
  pub user_agent : Option String
  pub used_at : Option ℕ
  pub created_at : ℕ

pub record PasswordResetToken : Type 0 where
  pub id : String
  pub user_id : String
  pub token_hash : String
  pub expires_at : ℕ
  pub used_at : Option ℕ
  pub ip_address : Option String
  pub created_at : ℕ

abbrev pub is_active : UserStatus → Bool
is_active active = true
is_active _ = false

-- A nullable column that holds a value.
abbrev pub is_set {ℓ} : {A : Type ℓ} → Option A → Bool
is_set none = false
is_set (some a) = true

-- The database: its tables, each a list of rows in the order in which the server visits them.
pub record Db : Type 0 where
  pub users : List User
  pub roles : List Role
  pub user_roles : List UserRole
  pub permissions : List Permission
  pub role_permissions : List RolePermission
  pub refresh_tokens : List RefreshToken
  pub password_reset_tokens : List PasswordResetToken
