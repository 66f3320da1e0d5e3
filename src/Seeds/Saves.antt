-- ===== src/Seeds/Saves.antt =====
-- What saving a row does to each table that the seed writes.
use nestjs_app.Prelude.{
  ◌≡◌, refl, sym, ◌∙◌, Bool, true, false, ◌&&◌, none, List, [], ◌∷◌, ◌++◌, arith, find?, any,
  any_of_missing, eq_refl, str_eq, if◌then◌else◌,
}
use nestjs_app.Result.{
  or_throw, Exec, Result, ok, err, pure, ◌>>=◌, ◌>>◌, database, entity_not_found,
}
use nestjs_app.Db.{Orm, Documented, User, Role, UserRole, RolePermission, Permission}
use nestjs_app.Js.{to_lower_case}
use nestjs_app.Users.Lookup.{live_with_email}
use nestjs_app.Users.Create.{same_link}
use nestjs_app.Permissions.{action_text}
use nestjs_app.Roles.{same_name, same_grant}
use nestjs_app.Seeds.Tables.{permissions_table, roles_table, users_table, grants_table, links_table}
use nestjs_app.Seeds.Growth.{Extends-refl, IsTable}

module _ (orm : Orm) (documented : Documented orm) where
  insert_appends :
      {R : Type 0} (clash : R → Bool) (row : R) (rows saved : List R)
      → orm.insert clash row rows ≡ ok saved
      → saved ≡ rows ++ row ∷ []
  insert_appends clash row rows saved e =
      decided (any clash rows) (sym (documented.insert_lem clash row rows) ∙ e)
    where
      decided :
          (b : Bool)
          → (if b then err (database nestjs_app.Result.unique_violation) else ok (rows ++ row ∷ []))
            ≡ ok saved
          → saved ≡ rows ++ row ∷ []
      decided true h = absurd (ground arith)
      decided false h = ground arith

  save_appends :
      {R : Type 0} (same : R → R → Bool) (refers : R → Bool) (row : R) (rows saved : List R)
      → find? (same row) rows ≡ none
      → orm.save_all same refers (row ∷ []) rows ≡ ok saved
      → saved ≡ rows ++ row ∷ []
  save_appends same refers row rows saved none_yet e =
      decided (refers row && true) (any (same row) rows) (any_of_missing (same row) rows none_yet)
        (sym (documented.save_all_lem same refers (row ∷ []) rows) ∙ e)
    where
      decided :
          (b hit : Bool)
          → hit ≡ false
          → (if b
              then ok (if hit then rows else rows ++ row ∷ [])
              else err (database nestjs_app.Result.foreign_key_violation))
            ≡ ok saved
          → saved ≡ rows ++ row ∷ []
      decided true hit f h = ground arith
      decided false hit f h = absurd (ground arith)

  pub permissions-IsTable :
      (p : Permission)
      → IsTable orm documented
          (permissions_table orm)
          (λ (q : Permission).
            str_eq (action_text q.action) (action_text p.action) && str_eq q.subject p.subject)
          p
  permissions-IsTable p = record {
    tested = ground (arith, eq_refl (action_text p.action), eq_refl p.subject);
    rows-write = λ rows db. refl;
    rows_extend = λ before after g. g.permissions;
    write_grows = λ db. record {
      users = Extends-refl db.users;
      roles = Extends-refl db.roles;
      user_roles = Extends-refl db.user_roles;
      permissions = (p ∷ [], refl);
      role_permissions = Extends-refl db.role_permissions;
      refresh_tokens = refl;
      password_reset_tokens = refl;
    };
    save_appends = λ db rows none_yet e. insert_appends _ p db.permissions rows e;
  }

  pub roles-IsTable :
      (role : Role) → IsTable orm documented (roles_table orm) (same_name role.name) role
  roles-IsTable role = record {
    tested = eq_refl role.name;
    rows-write = λ rows db. refl;
    rows_extend = λ before after g. g.roles;
    write_grows = λ db. record {
      users = Extends-refl db.users;
      roles = (role ∷ [], refl);
      user_roles = Extends-refl db.user_roles;
      permissions = Extends-refl db.permissions;
      role_permissions = Extends-refl db.role_permissions;
      refresh_tokens = refl;
      password_reset_tokens = refl;
    };
    save_appends = λ db rows none_yet e. insert_appends _ role db.roles rows e;
  }

  pub users-IsTable :
      (user : User)
      → user.deleted_at ≡ none
      → IsTable orm documented (users_table orm) (live_with_email user.email) user
  users-IsTable user live = record {
    tested = ground (arith, eq_refl (to_lower_case user.email));
    rows-write = λ rows db. refl;
    rows_extend = λ before after g. g.users;
    write_grows = λ db. record {
      users = (user ∷ [], refl);
      roles = Extends-refl db.roles;
      user_roles = Extends-refl db.user_roles;
      permissions = Extends-refl db.permissions;
      role_permissions = Extends-refl db.role_permissions;
      refresh_tokens = refl;
      password_reset_tokens = refl;
    };
    save_appends = λ db rows none_yet e. insert_appends _ user db.users rows e;
  }

  pub grants-IsTable :
      (rp : RolePermission) → IsTable orm documented (grants_table orm) (same_grant rp) rp
  grants-IsTable rp = record {
    tested = ground (arith, eq_refl rp.role_id, eq_refl rp.permission_id);
    rows-write = λ rows db. refl;
    rows_extend = λ before after g. g.role_permissions;
    write_grows = λ db. record {
      users = Extends-refl db.users;
      roles = Extends-refl db.roles;
      user_roles = Extends-refl db.user_roles;
      permissions = Extends-refl db.permissions;
      role_permissions = (rp ∷ [], refl);
      refresh_tokens = refl;
      password_reset_tokens = refl;
    };
    save_appends =
        λ db rows none_yet e. save_appends same_grant _ rp db.role_permissions rows none_yet e;
  }

  pub links-IsTable :
      (link : UserRole) → IsTable orm documented (links_table orm) (same_link link) link
  links-IsTable link = record {
    tested = ground (arith, eq_refl link.user_id, eq_refl link.role_id);
    rows-write = λ rows db. refl;
    rows_extend = λ before after g. g.user_roles;
    write_grows = λ db. record {
      users = Extends-refl db.users;
      roles = Extends-refl db.roles;
      user_roles = (link ∷ [], refl);
      permissions = Extends-refl db.permissions;
      role_permissions = Extends-refl db.role_permissions;
      refresh_tokens = refl;
      password_reset_tokens = refl;
    };
    save_appends =
        λ db rows none_yet e. save_appends same_link _ link db.user_roles rows none_yet e;
  }
