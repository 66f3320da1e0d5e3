-- ===== src/Users/Service.antt =====
-- The writers of src/modules/users/users.service.ts: `create`, `update`, `softDelete`, `setRoles`.
pub mod Roles
pub mod Deletion
use nestjs_app.Prelude.{
  ℕ, String, Bool, true, false, ◌&&◌, not, Option, none, some, List, [], str_eq, if◌then◌else◌,
}
use nestjs_app.Js.{trim, to_lower_case, trim_or_null}
use nestjs_app.Result.{Exec, ok, pure, throw, gets, ◌>>=◌, ◌>>◌, http, conflict, bad_request}
use nestjs_app.Db.{Orm, Db, User, UserStatus, RefreshToken, PasswordResetToken, is_set}
use nestjs_app.Users.Lookup.{UserWithRoles, find_by_email, find_with_roles_or_fail}
use nestjs_app.Users.Create.{assign_roles, create_user_in_transaction, catch_conflict}
use nestjs_app.Permissions.Cache.{Backend, World}
use nestjs_app.Permissions.{on_db, invalidate_user}
use nestjs_app.Auth.Refresh.{revoke, update_refresh_tokens}
use nestjs_app.Auth.Reset.{spend, unused_of, unrevoked_of}

pub record CreateUserDto : Type 0 where
  pub email : String
  pub password : String
  pub first_name : Option String
  pub last_name : Option String
  pub role_ids : Option (List String)

-- A field that is `undefined` is `none`.
pub record UpdateUserDto : Type 0 where
  pub first_name : Option String
  pub last_name : Option String
  pub status : Option UserStatus

-- `id === actingUserId`
abbrev pub is_self : String → Option String → Bool
is_self id none = false
is_self id (some acting) = str_eq id acting

abbrev pub changed_name : Option String → Option String → Option String
changed_name none old = old
changed_name (some name) old = trim_or_null (some name)

abbrev pub changed_status : Option UserStatus → UserStatus → UserStatus
changed_status none old = old
changed_status (some status) old = status

abbrev pub updated : UpdateUserDto → ℕ → User → User
updated dto now user = record user {
  first_name = changed_name dto.first_name user.first_name;
  last_name = changed_name dto.last_name user.last_name;
  status = changed_status dto.status user.status;
  updated_at = now;
}

module _ (b : Backend) where
  open b use {orm}

  -- `save` of a loaded user: an UPDATE of its row.
  unfoldable pub save_loaded_user : User → Exec Db (Unit {0})
  save_loaded_user user db = (
    ok tt,
    record db { users = orm.update (λ (u : User). str_eq u.id user.id) (λ _. user) db.users },
  )

  unfoldable pub update_user :
      String → UpdateUserDto → Option String → ℕ → Exec (World b) UserWithRoles
  unfolding save_loaded_user
  update_user id dto acting now =
      if is_self id acting && is_set dto.status
      then throw (http bad_request "Cannot change your own status")
      else (do
        found ← on_db b (find_with_roles_or_fail orm id)
        on_db b (save_loaded_user (updated dto now found.user))
        on_db b (find_with_roles_or_fail orm id))

  -- The transaction of `softDelete`; `token_update` of the reset tokens marks them used.
  unfoldable pub delete_rows : String → ℕ → Exec Db (Unit {0})
  unfolding update_refresh_tokens
  delete_rows id now = do
    λ db. (
      ok tt,
      record db {
        users =
            orm.update (λ (u : User). str_eq u.id id)
              (λ u. record u { deleted_at = some now; updated_at = now }) db.users;
      },
    )
    update_refresh_tokens orm (unrevoked_of id) (revoke now)
    λ db. (
      ok tt,
      record db {
        password_reset_tokens = orm.update (unused_of id) (spend now) db.password_reset_tokens;
      },
    )

  unfoldable pub soft_delete : String → Option String → ℕ → Exec (World b) (Unit {0})
  unfolding delete_rows
  soft_delete id acting now =
      if is_self id acting then throw (http bad_request "Cannot delete your own account") else (do
        on_db b (find_with_roles_or_fail orm id)
        on_db b (orm.transaction (delete_rows id now))
        invalidate_user b id)

  unfoldable pub set_roles : String → List String → ℕ → Exec (World b) UserWithRoles
  set_roles user_id role_ids now = do
    on_db b (orm.transaction (assign_roles orm user_id role_ids now))
    invalidate_user b user_id
    on_db b (find_with_roles_or_fail orm user_id)

  -- The answer is read after the `try`: its failure is not caught there.
  unfoldable pub create_user :
      CreateUserDto → (hash_password : String → String) → String → ℕ → Exec (World b) UserWithRoles
  create_user dto hash_password id now = do
    let email = to_lower_case (trim dto.email)
    existing ← on_db b (find_by_email orm email)
    if is_set existing then throw (http conflict "Email is already registered") else (do
      created ← λ w. catch_conflict "Email is already registered" (
          on_db b
            (create_user_in_transaction orm
              (record {
                email = email;
                password_hash = hash_password dto.password;
                first_name = trim_or_null dto.first_name;
                last_name = trim_or_null dto.last_name;
              })
              dto.role_ids id now)
            w)
      on_db b (find_with_roles_or_fail orm created.id))
