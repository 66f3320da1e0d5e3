-- ===== src/Seeds/Tables.antt =====
-- The tables that the seed writes, as the repositories of TypeORM save to them.
use nestjs_app.Prelude.{Bool, ◌&&◌, List, [], ◌∷◌, any, str_eq}
use nestjs_app.Result.{Result}
use nestjs_app.Db.{Orm, Db, User, Role, UserRole, Permission, RolePermission}
use nestjs_app.Users.Lookup.{live_with_email}
use nestjs_app.Users.Create.{same_link}
use nestjs_app.Permissions.{action_text}
use nestjs_app.Roles.{same_name, same_grant}

pub record Table (orm : Orm) : Type 1 where
  pub Row : Type 0
  pub rows : Db → List Row
  pub write : List Row → Db → Db
  pub save : Row → Db → Result (List Row)

abbrev pub same_rule_of : Permission → Permission → Bool
same_rule_of a b =
    str_eq (action_text b.action) (action_text a.action) && str_eq b.subject a.subject

abbrev pub permissions_table : (orm : Orm) → Table orm
permissions_table orm = record {
  Row = Permission;
  rows = λ db. db.permissions;
  write = λ rows db. record db { permissions = rows };
  save = λ row db. orm.insert (same_rule_of row) row db.permissions;
}

abbrev pub roles_table : (orm : Orm) → Table orm
roles_table orm = record {
  Row = Role;
  rows = λ db. db.roles;
  write = λ rows db. record db { roles = rows };
  save = λ row db. orm.insert (same_name row.name) row db.roles;
}

abbrev pub users_table : (orm : Orm) → Table orm
users_table orm = record {
  Row = User;
  rows = λ db. db.users;
  write = λ rows db. record db { users = rows };
  save = λ row db. orm.insert (live_with_email row.email) row db.users;
}

-- Both keys of a row refer to rows that are there.
abbrev pub grants_table : (orm : Orm) → Table orm
grants_table orm = record {
  Row = RolePermission;
  rows = λ db. db.role_permissions;
  write = λ rows db. record db { role_permissions = rows };
  save = λ row db.
      orm.save_all same_grant
        (λ rp.
          any (λ (r : Role). str_eq r.id rp.role_id) db.roles
          && any (λ (p : Permission). str_eq p.id rp.permission_id) db.permissions)
        (row ∷ []) db.role_permissions;
}

abbrev pub links_table : (orm : Orm) → Table orm
links_table orm = record {
  Row = UserRole;
  rows = λ db. db.user_roles;
  write = λ rows db. record db { user_roles = rows };
  save = λ row db.
      orm.save_all same_link
        (λ ur.
          any (λ (u : User). str_eq u.id ur.user_id) db.users
          && any (λ (r : Role). str_eq r.id ur.role_id) db.roles)
        (row ∷ []) db.user_roles;
}
