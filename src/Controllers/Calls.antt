-- ===== src/Controllers/Calls.antt =====
-- The handlers that require permissions, each with what `@RequirePermissions` names: every route
-- of the users (but `me`), roles and permissions controllers.
use nestjs_app.Prelude.{ℕ, ◌≡◌, String, true, Option, List}
use nestjs_app.Result.{Exec, pure, ◌>>=◌}
use nestjs_app.Db.{Db, User, Documented, PermissionAction, manage}
use nestjs_app.Users.Listing.{ListUsersQueryDto}
use nestjs_app.Users.Service.{CreateUserDto, UpdateUserDto}
use nestjs_app.Roles.{UpdateRoleDto}
use nestjs_app.Roles.Listing.{SafeRole}
use nestjs_app.Auth.Session.{SafeUser}
use nestjs_app.Permissions.Cache.{World, IsRedis}
use nestjs_app.Permissions.Listing.{SafePermission}
use nestjs_app.Guards.Access.{IsCasl, may}
use nestjs_app.Http.{Request, requires, serve}
use nestjs_app.Http.Guarded.{IsPassport}
use nestjs_app.Controllers.App.{App, manages, user_subject, role_subject, permission_subject}
use nestjs_app.Controllers.Users as Users
use nestjs_app.Controllers.Roles as Roles
use nestjs_app.Controllers.Permissions as Permissions

pub data Call : Type 0 where
  get_users : ListUsersQueryDto → Call
  get_user : String → Call
  post_user : CreateUserDto → (hash_password : String → String) → (new_id : String) → Call
  patch_user : String → UpdateUserDto → Call
  delete_user : String → Call
  put_user_roles : String → List String → Call
  get_roles : Call
  post_role : String → Option String → (new_id : String) → Call
  patch_role : String → UpdateRoleDto → Call
  delete_role : String → Call
  put_role_permissions : String → List String → Call
  get_permissions : Call
  post_permission : PermissionAction → String → Option String → (new_id : String) → Call
  patch_permission : String → Option String → Call
  delete_permission : String → Call

pub data Answer : Type 0 where
  page : Users.PaginatedUsers → Answer
  user : SafeUser → Answer
  roles : List SafeRole → Answer
  role : SafeRole → Answer
  permissions : List SafePermission → Answer
  permission : SafePermission → Answer
  no_content : Answer

unfoldable pub subject_of_call : Call → String
subject_of_call (get_users dto) = user_subject
subject_of_call (get_user id) = user_subject
subject_of_call (post_user dto hash_password new_id) = user_subject
subject_of_call (patch_user id dto) = user_subject
subject_of_call (delete_user id) = user_subject
subject_of_call (put_user_roles id role_ids) = user_subject
subject_of_call get_roles = role_subject
subject_of_call (post_role name description new_id) = role_subject
subject_of_call (patch_role id dto) = role_subject
subject_of_call (delete_role id) = role_subject
subject_of_call (put_role_permissions id permission_ids) = role_subject
subject_of_call get_permissions = permission_subject
subject_of_call (post_permission action subject description new_id) = permission_subject
subject_of_call (patch_permission id description) = permission_subject
subject_of_call (delete_permission id) = permission_subject

abbrev pub answer_by : {S A : Type 0} → (A → Answer) → Exec S A → Exec S Answer
answer_by f m = do a ← m; pure (f a)

module _ (app : App) where
  open app use {backend, casl, framework}

  unfoldable pub handle : Call → ℕ → Option User → Exec (World backend) Answer
  handle (get_users dto) now acting = answer_by page (Users.find_all_users app dto)
  handle (get_user id) now acting = answer_by user (Users.find_one_user app id)
  handle (post_user dto hash_password new_id) now acting =
      answer_by user (Users.post_user app dto hash_password new_id now)
  handle (patch_user id dto) now acting = answer_by user (Users.patch_user app id dto acting now)
  handle (delete_user id) now acting =
      answer_by (λ _. no_content) (Users.delete_user app id acting now)
  handle (put_user_roles id role_ids) now acting =
      answer_by user (Users.put_user_roles app id role_ids now)
  handle get_roles now acting = answer_by roles (Roles.get_roles app)
  handle (post_role name description new_id) now acting =
      answer_by role (Roles.post_role app name description new_id now)
  handle (patch_role id dto) now acting = answer_by role (Roles.patch_role app id dto now)
  handle (delete_role id) now acting = answer_by (λ _. no_content) (Roles.delete_role_by_id app id)
  handle (put_role_permissions id permission_ids) now acting =
      answer_by role (Roles.put_role_permissions app id permission_ids now)
  handle get_permissions now acting = answer_by permissions (Permissions.get_permissions app)
  handle (post_permission action subject description new_id) now acting =
      answer_by permission (Permissions.post_permission app action subject description new_id now)
  handle (patch_permission id description) now acting =
      answer_by permission (Permissions.patch_permission app id description now)
  handle (delete_permission id) now acting =
      answer_by (λ _. no_content) (Permissions.delete_permission_by_id app id)

  unfoldable pub request_call : Call → Request → ℕ → Exec (World backend) Answer
  unfolding subject_of_call
  request_call call request now =
      serve framework casl backend (requires (manages (subject_of_call call))) request now
        (handle call now)

  module _ (is_casl : IsCasl casl) (documented : Documented backend.orm)
      (laws : IsRedis backend.redis)
      (is_passport : IsPassport framework.jwt framework.passport) where
    -- The user holds `manage` of the subject, by a permission that a role of theirs has.
    abbrev pub IsManager : Db → User → String → Type 0
    IsManager db acting subject =
        may db acting.id (record { action = manage; subject = subject }) ≡ true
