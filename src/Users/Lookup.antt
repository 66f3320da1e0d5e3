-- ===== src/Users/Lookup.antt =====
-- The readers of src/modules/users/users.service.ts: `findByEmail`, `findById`,
-- `findWithRolesById`, `findWithRolesOrFail`.
use nestjs_app.Prelude.{String, Bool, ◌&&◌, not, Option, none, some, List, str_eq, any}
use nestjs_app.Js.{to_lower_case}
use nestjs_app.Result.{Exec, gets, or_throw, ◌>>=◌, http, not_found}
use nestjs_app.Db.{Orm, Db, User, Role, UserRole, is_set}

-- `@DeleteDateColumn`: reads pass over the rows with a deletion date.
abbrev pub is_live : User → Bool
is_live user = not (is_set user.deleted_at)

abbrev pub live_with_id : String → User → Bool
live_with_id id user = is_live user && str_eq user.id id

-- The column is `citext`, which compares without regard to case.
abbrev pub same_email : String → User → Bool
same_email email user = str_eq (to_lower_case user.email) (to_lower_case email)

abbrev pub live_with_email : String → User → Bool
live_with_email email user = is_live user && same_email email user

-- A user with the relation `userRoles.role` loaded.
pub record UserWithRoles : Type 0 where
  pub user : User
  pub roles : List Role

-- The join of `user_roles` with `roles`.
abbrev pub role_of : List UserRole → String → Role → Bool
role_of links user_id role =
    any (λ link. str_eq link.user_id user_id && str_eq link.role_id role.id) links

module _ (orm : Orm) where
  abbrev with_roles : Db → Option User → Option UserWithRoles
  with_roles db none = none
  with_roles db (some user) =
      some (record { user = user; roles = orm.find (role_of db.user_roles user.id) db.roles })

  unfoldable pub find_by_email : String → Exec Db (Option UserWithRoles)
  find_by_email email = gets (λ db. with_roles db (orm.find_one (live_with_email email) db.users))

  unfoldable pub find_by_id : String → Exec Db (Option User)
  find_by_id id = gets (λ db. orm.find_one (live_with_id id) db.users)

  unfoldable pub find_with_roles_by_id : String → Exec Db (Option UserWithRoles)
  find_with_roles_by_id id = gets (λ db. with_roles db (orm.find_one (live_with_id id) db.users))

  unfoldable pub find_with_roles_or_fail : String → Exec Db UserWithRoles
  unfolding find_with_roles_by_id
  find_with_roles_or_fail id = do
    user ← find_with_roles_by_id id
    or_throw (http not_found "User not found") user
