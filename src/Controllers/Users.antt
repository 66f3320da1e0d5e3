-- ===== src/Controllers/Users.antt =====
-- src/modules/users/users.controller.ts: the handlers, which run behind the guards.
use nestjs_app.Prelude.{ℕ, String, Option, List, [], map}
use nestjs_app.Result.{Exec, pure, gets, lift, ◌>>=◌}
use nestjs_app.Db.{User}
use nestjs_app.Users.Lookup.{UserWithRoles, find_with_roles_or_fail}
use nestjs_app.Users.Listing.{ListUsersQueryDto, find_all}
use nestjs_app.Users.Service as Service
use nestjs_app.Users.Service.{CreateUserDto, UpdateUserDto, update_user, soft_delete, create_user}
use nestjs_app.Auth.Session.{SafeUser, serialize_user}
use nestjs_app.Permissions.Cache.{World}
use nestjs_app.Permissions.{on_db}
use nestjs_app.Controllers.App.{App, current_user_id}

pub record PaginatedUsers : Type 0 where
  pub items : List SafeUser
  pub total : ℕ
  pub page : ℕ
  pub limit : ℕ

unfoldable pub safe_user : UserWithRoles → SafeUser
unfolding serialize_user
safe_user found = serialize_user found.user found.roles

module _ (app : App) where
  open app use {backend, framework, query}

  -- `request.user` was loaded without its roles.
  unfoldable pub get_me : User → SafeUser
  unfolding serialize_user
  get_me user = serialize_user user []

  unfoldable pub find_all_users : ListUsersQueryDto → Exec (World backend) PaginatedUsers
  unfolding find_all safe_user
  find_all_users dto = do
    result ← gets (λ w. find_all backend.orm query dto w.db)
    pure (record {
      items = map safe_user result.items;
      total = result.total;
      page = result.page;
      limit = result.limit;
    })

  unfoldable pub find_one_user : String → Exec (World backend) SafeUser
  unfolding safe_user
  find_one_user given_id = do
    id ← lift (framework.parse_uuid given_id)
    user ← on_db backend (find_with_roles_or_fail backend.orm id)
    pure (safe_user user)

  unfoldable pub post_user :
      CreateUserDto → (hash_password : String → String) → String → ℕ → Exec (World backend) SafeUser
  unfolding create_user safe_user
  post_user dto hash_password id now = do
    user ← create_user backend dto hash_password id now
    pure (safe_user user)

  unfoldable pub patch_user :
      String → UpdateUserDto → Option User → ℕ → Exec (World backend) SafeUser
  unfolding update_user safe_user
  patch_user given_id dto acting now = do
    id ← lift (framework.parse_uuid given_id)
    user ← update_user backend id dto (current_user_id acting) now
    pure (safe_user user)

  unfoldable pub delete_user : String → Option User → ℕ → Exec (World backend) (Unit {0})
  unfolding soft_delete
  delete_user given_id acting now = do
    id ← lift (framework.parse_uuid given_id)
    soft_delete backend id (current_user_id acting) now

  unfoldable pub put_user_roles : String → List String → ℕ → Exec (World backend) SafeUser
  unfolding Service.set_roles safe_user
  put_user_roles given_id role_ids now = do
    id ← lift (framework.parse_uuid given_id)
    user ← Service.set_roles backend id role_ids now
    pure (safe_user user)
