-- ===== src/Seeds/Again.antt =====
-- Seeding adds rows and changes none; seeding again changes nothing.
use nestjs_app.Prelude.{
  ◌≡◌, refl, ap, sym, subst, ◌∙◌, String, Bool, true, false, ◌||◌, Option, none, some, List, [],
  ◌∷◌, arith, str_eq, if◌then◌else◌,
}
use nestjs_app.Result.{or_throw, Exec, ok, pure, ◌>>◌, database, entity_not_found}
use nestjs_app.Db.{Orm, Db, Documented, Role, Permission, is_set}
use nestjs_app.Users.Create.{user_role}
use nestjs_app.Permissions.Cache.{PermissionRule}
use nestjs_app.Roles.{same_name}
use nestjs_app.Seeds.Tables.{permissions_table, roles_table, users_table, grants_table, links_table}
use nestjs_app.Seeds.{
  SeedEnv, SeedRole, PermissionMap, get, key_of, seed_permission, seed_permissions_of,
  seed_permissions, seed_grant, seed_grants, seed_role, seed_roles, admin_role, seed_admin,
  seed_if_set, seed_bootstrap_admin, seed, seed_roles_list,
}
use nestjs_app.Seeds.Growth.{
  Grows, Grows-refl, IsRepeatable, pure-IsRepeatable, bind-IsRepeatable, find_or_save-IsRepeatable,
  find_one-grown,
}
use nestjs_app.Seeds.Saves.{
  permissions-IsTable, roles-IsTable, users-IsTable, grants-IsTable, links-IsTable,
}

if-IsRepeatable :
    {A : Type 0} (b : Bool) (m m' n n' : Exec Db A)
    → IsRepeatable m m'
    → IsRepeatable n n'
    → IsRepeatable (if b then m else n) (if b then m' else n')
if-IsRepeatable true m m' n n' p q = p
if-IsRepeatable false m m' n n' p q = q

-- `!adminPassword`
abbrev pub is_missing : Option String → Bool
is_missing none = true
is_missing (some text) = str_eq text ""

or_true : (b : Bool) → (b || true) ≡ true
or_true true = refl
or_true false = refl

module _ (orm : Orm) (documented : Documented orm) where
  module _ (env env' : SeedEnv) where
    pub seed_permission-IsRepeatable :
        (r : PermissionRule) → IsRepeatable (seed_permission orm env r) (seed_permission orm env' r)
    unfolding seed_permission
    seed_permission-IsRepeatable r =
        find_or_save-IsRepeatable orm documented env env' (permissions_table orm) _ _ _
          (permissions-IsTable orm documented _)

    pub seed_permissions_of-IsRepeatable :
        (rs : List PermissionRule) (entries : PermissionMap)
        → IsRepeatable
            (seed_permissions_of orm env rs entries)
            (seed_permissions_of orm env' rs entries)
    unfolding seed_permissions_of
    seed_permissions_of-IsRepeatable [] entries = pure-IsRepeatable entries
    seed_permissions_of-IsRepeatable (r ∷ rs) entries =
        if-IsRepeatable (is_set (get (key_of r) entries)) _ _ _ _
          (seed_permissions_of-IsRepeatable rs entries)
          (bind-IsRepeatable _ _ _ _ (seed_permission-IsRepeatable r)
            (λ p. seed_permissions_of-IsRepeatable rs ((key_of r, p) ∷ entries)))

    pub seed_permissions-IsRepeatable :
        (rs : List SeedRole) (entries : PermissionMap)
        → IsRepeatable (seed_permissions orm env rs entries) (seed_permissions orm env' rs entries)
    unfolding seed_permissions
    seed_permissions-IsRepeatable [] entries = pure-IsRepeatable entries
    seed_permissions-IsRepeatable (r ∷ rs) entries =
        bind-IsRepeatable _ _ _ _ (seed_permissions_of-IsRepeatable r.permissions entries)
          (λ entries'. seed_permissions-IsRepeatable rs entries')

    pub then_nothing :
        {A : Type 0} (m m' : Exec Db A)
        → IsRepeatable m m'
        → IsRepeatable (m >> pure tt) (m' >> pure tt)
    then_nothing m m' h = bind-IsRepeatable m m' _ _ h (λ a. pure-IsRepeatable tt)

    pub seed_grant-IsRepeatable :
        (role : Role) (found : Option Permission)
        → IsRepeatable (seed_grant orm env role found) (seed_grant orm env' role found)
    unfolding seed_grant
    seed_grant-IsRepeatable role none = pure-IsRepeatable tt
    seed_grant-IsRepeatable role (some p) = then_nothing _ _ (
        find_or_save-IsRepeatable orm documented env env' (grants_table orm) _ _ _
          (grants-IsTable orm documented _))

    pub seed_grants-IsRepeatable :
        (role : Role) (entries : PermissionMap) (rs : List PermissionRule)
        → IsRepeatable (seed_grants orm env role entries rs) (seed_grants orm env' role entries rs)
    unfolding seed_grants
    seed_grants-IsRepeatable role entries [] = pure-IsRepeatable tt
    seed_grants-IsRepeatable role entries (r ∷ rs) =
        bind-IsRepeatable _ _ _ _ (seed_grant-IsRepeatable role (get (key_of r) entries))
          (λ t. seed_grants-IsRepeatable role entries rs)

    pub seed_role-IsRepeatable :
        (r : SeedRole) → IsRepeatable (seed_role orm env r) (seed_role orm env' r)
    unfolding seed_role
    seed_role-IsRepeatable r =
        find_or_save-IsRepeatable orm documented env env' (roles_table orm) _ _ _
          (roles-IsTable orm documented _)

    pub seed_roles-IsRepeatable :
        (rs : List SeedRole) (entries : PermissionMap)
        → IsRepeatable (seed_roles orm env rs entries) (seed_roles orm env' rs entries)
    unfolding seed_roles
    seed_roles-IsRepeatable [] entries = pure-IsRepeatable tt
    seed_roles-IsRepeatable (r ∷ rs) entries =
        bind-IsRepeatable _ _ _ _ (seed_role-IsRepeatable r) (λ role.
          bind-IsRepeatable _ _ _ _ (seed_grants-IsRepeatable role entries r.permissions)
            (λ t. seed_roles-IsRepeatable rs entries))

    abbrev role_or_throw : Option Role → Exec Db Role
    role_or_throw found = or_throw (database entity_not_found) found

    role-Grows : (db : Db) (found : Option Role) → Grows db (role_or_throw found db).1
    role-Grows db none = Grows-refl db
    role-Grows db (some role) = Grows-refl db

    role_later :
        (db after later : Db) (role : Role) (found : Option Role)
        → orm.find_one (same_name "admin") db.roles ≡ found
        → role_or_throw found db ≡ (ok role, after)
        → Grows after later
        → role_or_throw (orm.find_one (same_name "admin") later.roles) later ≡ (ok role, later)
    role_later db after later role (some x) e h g =
        let same : db ≡ after = ground arith in
        let role_same : x ≡ role = ground arith in
        let found =
          find_one-grown orm documented (same_name "admin") after.roles later.roles x
            (ap (λ (d : Db). orm.find_one (same_name "admin") d.roles) (sym same) ∙ e) g.roles in
        ap (λ o. role_or_throw o later) (found ∙ ap (λ x. some x) role_same)
    role_later db after later role none e h g = absurd (ground arith)

    pub admin_role-IsRepeatable : IsRepeatable (admin_role orm env) (admin_role orm env')
    unfolding admin_role
    admin_role-IsRepeatable = record {
      grows = λ db. role-Grows db (orm.find_one (same_name "admin") db.roles);
      repeats = λ db after role h later g.
          role_later db after later role (orm.find_one (same_name "admin") db.roles) refl h g;
    }

    seed_admin-IsRepeatable :
        (email password password' : String)
        → IsRepeatable (seed_admin orm env email password) (seed_admin orm env' email password')
    unfolding seed_admin
    seed_admin-IsRepeatable email password password' =
        bind-IsRepeatable _ _ _ _
          (find_or_save-IsRepeatable orm documented env env' (users_table orm) _ _ _
            (users-IsTable orm documented _ refl))
          (λ admin. bind-IsRepeatable _ _ _ _ admin_role-IsRepeatable (λ role. then_nothing _ _ (
            find_or_save-IsRepeatable orm documented env env' (links_table orm) _ _ _
              (links-IsTable orm documented (user_role admin.id env.now role.id)))))

    pub seed_if_set-IsRepeatable :
        (email password password' : Option String)
        → is_missing password ≡ is_missing password'
        → IsRepeatable (seed_if_set orm env email password) (seed_if_set orm env' email password')
    seed_if_set-IsRepeatable none password password' e = pure-IsRepeatable tt
    seed_if_set-IsRepeatable (some email) none none e = pure-IsRepeatable tt
    seed_if_set-IsRepeatable (some email) none (some password') e =
        subst
          (λ b.
            IsRepeatable (pure tt)
              (if str_eq email "" || b then pure tt else seed_admin orm env' email password'))
          e
          (subst
            (λ b.
              IsRepeatable (pure tt) (if b then pure tt else seed_admin orm env' email password'))
            (sym (or_true (str_eq email ""))) (pure-IsRepeatable tt))
    seed_if_set-IsRepeatable (some email) (some password) none e =
        subst
          (λ b.
            IsRepeatable
              (if str_eq email "" || b then pure tt else seed_admin orm env email password)
              (pure tt))
          (sym e)
          (subst
            (λ b. IsRepeatable (if b then pure tt else seed_admin orm env email password) (pure tt))
            (sym (or_true (str_eq email ""))) (pure-IsRepeatable tt))
    seed_if_set-IsRepeatable (some email) (some password) (some password') e =
        subst
          (λ b.
            IsRepeatable (seed_if_set orm env (some email) (some password))
              (if str_eq email "" || b then pure tt else seed_admin orm env' email password'))
          e
          (if-IsRepeatable (str_eq email "" || str_eq password "") _ _ _ _ (pure-IsRepeatable tt)
            (seed_admin-IsRepeatable email password password'))

    -- The two environments name the same administrator, and both give a password or neither does.
    pub record IsSameAdmin : Type 0 where
      pub same_email : env.admin_email ≡ env'.admin_email
      pub same_password : is_missing env.admin_password ≡ is_missing env'.admin_password

    seed-IsRepeatable : IsSameAdmin → IsRepeatable (seed orm env) (seed orm env')
    unfolding seed seed_bootstrap_admin
    seed-IsRepeatable h =
        bind-IsRepeatable _ _ _ _ (seed_permissions-IsRepeatable seed_roles_list []) (λ entries.
          bind-IsRepeatable _ _ _ _ (seed_roles-IsRepeatable seed_roles_list entries) (λ t.
            subst
              (λ email.
                IsRepeatable (seed_if_set orm env env.admin_email env.admin_password)
                  (seed_if_set orm env' email env'.admin_password))
              h.same_email
              (seed_if_set-IsRepeatable env.admin_email env.admin_password env'.admin_password
                h.same_password)))

  -- Whether it succeeds or stops half way: the seed only adds rows to users, roles, permissions and
  -- their join tables; each row that was there stays as it was, so no password is overwritten.
  pub seed-Grows : (env : SeedEnv) (db : Db) → Grows db (seed orm env db).1
  seed-Grows env db =
      (seed-IsRepeatable env env (record { same_email = refl; same_password = refl })).grows db

  -- After a seed that succeeded, seeding again writes nothing: at once or after other rows were
  -- added, at whatever later time and with whatever new ids, and with another password for the same
  -- administrator in the environment.
  pub seed_again :
      (env env' : SeedEnv) (db after later : Db)
      → IsSameAdmin env env'
      → seed orm env db ≡ (ok tt, after)
      → Grows after later
      → seed orm env' later ≡ (ok tt, later)
  seed_again env env' db after later same e g =
      (seed-IsRepeatable env env' same).repeats db after tt e later g
