-- ===== src/Users/Create.antt =====
-- `createWithDefaultRole`, `createUserInTransaction` and `assignRoles` of
-- src/modules/users/users.service.ts, and src/common/utils/db.ts.
pub mod Emails
use nestjs_app.Prelude.{
  ℕ, String, Bool, true, false, ◌&&◌, Option, none, some, List, [], ◌∷◌, map, str_eq, ltb, any,
  length, if◌then◌else◌,
}
use nestjs_app.Result.{
  Exec, Result, ok, err, pure, throw, gets, or_throw, ◌>>=◌, ◌>>◌, Exception, http, database,
  conflict, unique_violation, entity_not_found,
}
use nestjs_app.Db.{Orm, Db, User, Role, UserRole, active}
use nestjs_app.Users.Lookup.{is_live, live_with_email}
use nestjs_app.Users.JoinRows.{JoinTable, replace_join_rows}

-- Postgres error 23505.
unfoldable pub is_unique_violation : Exception → Bool
is_unique_violation (database unique_violation) = true
is_unique_violation (database _) = false
is_unique_violation (http _ _) = false

unfoldable pub rethrow_conflict_or_original : Exception → String → Exception
unfolding is_unique_violation
rethrow_conflict_or_original error message =
    if is_unique_violation error then http conflict message else error

-- `try { … } catch (error) { rethrowConflictOrOriginal(error, message) }`
abbrev pub catch_conflict {ℓ} : {S A : Type ℓ} → String → Result A × S → Result A × S
catch_conflict message (ok a, s) = (ok a, s)
catch_conflict message (err e, s) = (err (rethrow_conflict_or_original e message), s)

pub record CreateUserInput : Type 0 where
  pub email : String
  pub password_hash : String
  pub first_name : Option String
  pub last_name : Option String

abbrev pub default_role_name : String
default_role_name = "user"

abbrev pub new_user : CreateUserInput → String → ℕ → User
new_user input id now = record {
  id = id;
  email = input.email;
  password_hash = input.password_hash;
  first_name = input.first_name;
  last_name = input.last_name;
  status = active;
  email_verified_at = none;
  created_at = now;
  updated_at = now;
  deleted_at = none;
}

abbrev pub user_role : String → ℕ → String → UserRole
user_role user_id now role_id = record { user_id = user_id; role_id = role_id; created_at = now }

abbrev pub same_link : UserRole → UserRole → Bool
same_link a b = str_eq a.user_id b.user_id && str_eq a.role_id b.role_id

-- `roleIds?.length`
abbrev pub given_ids : Option (List String) → List String
given_ids none = []
given_ids (some ids) = ids

-- The join table that `assignRoles` passes to `replaceJoinRows`.
unfoldable pub user_roles_table : String → ℕ → JoinTable
user_roles_table user_id now = record {
  Row = UserRole;
  rows = λ db. db.user_roles;
  write = λ rows db. record db { user_roles = rows };
  of_owner = λ link. str_eq link.user_id user_id;
  same_key = same_link;
  create = user_role user_id now;
  referenced_ids = λ db. map (λ (r : Role). r.id) db.roles;
  owner_exists = λ db. any (λ user. str_eq user.id user_id) db.users;
  label = "role";
}

module _ (orm : Orm) where
  unfoldable pub assign_roles : String → List String → ℕ → Exec Db (Unit {0})
  unfolding user_roles_table
  assign_roles user_id role_ids now = replace_join_rows orm (user_roles_table user_id now) role_ids

  -- The unique index on `email` covers the rows that are not soft-deleted.
  unfoldable pub save_user : User → Exec Db User
  save_user user = do
    saved ← λ db. (orm.insert (live_with_email user.email) user db.users, db)
    λ db. (ok user, record db { users = saved })

  unfoldable pub assign_default_role : String → ℕ → Exec Db (Unit {0})
  assign_default_role user_id now = do
    found ← gets (λ db. orm.find_one (λ (r : Role). str_eq r.name default_role_name) db.roles)
    role ← or_throw (database entity_not_found) found
    saved ← λ db. (
      orm.save_all same_link (λ link. any (λ (u : User). str_eq u.id link.user_id) db.users)
          (user_role user_id now role.id ∷ []) db.user_roles,
      db,
    )
    λ db. (ok tt, record db { user_roles = saved })

  unfoldable pub create_user_in_transaction :
      CreateUserInput → Option (List String) → String → ℕ → Exec Db User
  unfolding save_user assign_roles assign_default_role
  create_user_in_transaction input role_ids id now = orm.transaction (do
    user ← save_user (new_user input id now)
    if ltb 0 (length (given_ids role_ids))
        then assign_roles user.id (given_ids role_ids) now
        else assign_default_role user.id now
    pure user)

  unfoldable pub create_with_default_role : CreateUserInput → String → ℕ → Exec Db User
  unfolding create_user_in_transaction
  create_with_default_role input id now = create_user_in_transaction input none id now
