-- ===== src/Seeds/RoleSteps.antt =====
-- The steps of the seed that write roles, their grants, and the administrator.
use nestjs_app.Prelude.{
  ◌≡◌, refl, ap, sym, subst, ◌∙◌, String, Option, some, List, ◌∷◌, arith, find?,
}
use nestjs_app.Result.{Result, ok, pure, or_throw, database, entity_not_found}
use nestjs_app.Db.{Orm, Db, Documented, User, Role, UserRole, RolePermission, Permission}
use nestjs_app.Users.Lookup.{live_with_email}
use nestjs_app.Users.Create.{same_link, user_role}
use nestjs_app.Permissions.Cache.{PermissionRule}
use nestjs_app.Roles.{same_name, same_grant, role_permission}
use nestjs_app.Seeds.Tables.{roles_table, users_table, grants_table, links_table}
use nestjs_app.Seeds.Again.{
  seed_grants-IsRepeatable, seed_roles-IsRepeatable, admin_role-IsRepeatable, then_nothing,
}
use nestjs_app.Seeds.{
  SeedEnv, find_or_save, SeedRole, PermissionMap, get, key_of, seed_grant, seed_grants, seed_role,
  seed_roles, admin_role, seed_admin,
}
use nestjs_app.Seeds.Growth.{
  IsRepeatable, pure-IsRepeatable, bind-IsRepeatable, find_or_save-IsRepeatable, find_or_save-found,
}
use nestjs_app.Seeds.Saves.{roles-IsTable, users-IsTable, grants-IsTable, links-IsTable}
use nestjs_app.Seeds.Success.{Succeeded, steps}

module _ (orm : Orm) (documented : Documented orm) (env : SeedEnv) (later : Db) where
  pub record GrantStep (role : Role) (p : Permission) (rs : List PermissionRule)
      (entries : PermissionMap) : Type 0 where
    pub grant : RolePermission
    pub found :
        find? (same_grant (role_permission role.id env.now p.id)) later.role_permissions
        ≡ some grant
    pub rest : Succeeded later (seed_grants orm env role entries rs) tt

  grant_found :
      (role : Role) (p : Permission)
      → Succeeded later (seed_grant orm env role (some p)) tt
      → (rp : RolePermission) × (find?
            (same_grant (role_permission role.id env.now p.id))
            later.role_permissions
          ≡ some rp)
  unfolding seed_grant
  grant_found role p s =
      let both = steps later _ (λ _. pure tt) (λ _. pure-IsRepeatable tt) tt s in
      (
        both.value,
        find_or_save-found orm documented env env (grants_table orm) _ _
            (role_permission role.id env.now p.id) (grants-IsTable orm documented _)
            both.first.before both.first.after later _ both.first.ran both.first.grown,
      )

  pub grant_step :
      (role : Role) (r : PermissionRule) (rs : List PermissionRule) (entries : PermissionMap)
      (p : Permission)
      → get (key_of r) entries ≡ some p
      → Succeeded later (seed_grants orm env role entries (r ∷ rs)) tt
      → GrantStep role p rs entries
  unfolding seed_grants
  grant_step role r rs entries p known s =
      let both =
        steps later (seed_grant orm env role (get (key_of r) entries)) _
          (λ _. seed_grants-IsRepeatable orm documented env env role entries rs) tt s in
      let (grant, found) = grant_found role p (
        subst (λ (o : Option Permission). Succeeded later (seed_grant orm env role o) tt) known
          both.first) in
      record { grant = grant; found = found; rest = both.second }

  -- The role that is looked up or made, and what is left of the loop.
  pub record RoleStep (r : SeedRole) (rs : List SeedRole) (entries : PermissionMap) : Type 0 where
    pub role : Role
    pub found : find? (same_name r.name) later.roles ≡ some role
    pub grants : Succeeded later (seed_grants orm env role entries r.permissions) tt
    pub rest : Succeeded later (seed_roles orm env rs entries) tt

  role_found :
      (r : SeedRole) {role : Role}
      → Succeeded later (seed_role orm env r) role
      → find? (same_name r.name) later.roles ≡ some role
  unfolding seed_role
  role_found r {role} s =
      find_or_save-found orm documented env env (roles_table orm) _ _ role
        (roles-IsTable orm documented _) s.before s.after later _ s.ran s.grown

  pub role_step :
      (r : SeedRole) (rs : List SeedRole) (entries : PermissionMap)
      → Succeeded later (seed_roles orm env (r ∷ rs) entries) tt
      → RoleStep r rs entries
  unfolding seed_roles
  role_step r rs entries s =
      let both =
        steps later (seed_role orm env r) _
          (λ role.
            bind-IsRepeatable _ _ _ _
              (seed_grants-IsRepeatable orm documented env env role entries r.permissions)
              (λ _. seed_roles-IsRepeatable orm documented env env rs entries))
          tt s in
      let more =
        steps later (seed_grants orm env both.value entries r.permissions) _
          (λ _. seed_roles-IsRepeatable orm documented env env rs entries) tt both.second in
      record {
        role = both.value;
        found = role_found r both.first;
        grants = more.first;
        rest = more.second;
      }

  -- The account of the administrator, and its link to the role.
  pub record AdminStep (email : String) (role : Role) : Type 0 where
    pub admin : User
    pub found : find? (live_with_email email) later.users ≡ some admin
    pub link : UserRole
    pub linked : find? (same_link (user_role admin.id env.now role.id)) later.user_roles ≡ some link

  admin_role-same :
      {role found : Role}
      → find? (same_name "admin") later.roles ≡ some role
      → Succeeded later (admin_role orm env) found
      → found ≡ role
  unfolding admin_role
  admin_role-same {role} {found} e s =
      let again =
        (admin_role-IsRepeatable orm documented env env).repeats s.before s.after found s.ran later
          s.grown in
      let known =
        ap (λ (o : Option Role). or_throw (database entity_not_found) o later)
          (documented.find_one_lem (same_name "admin") later.roles ∙ e) in
      let answers : ok role ≡ ok found = ap (λ (r : Result Role × Db). r.0) (sym known ∙ again) in
      ground arith

  pub admin_step :
      (email password : String) {role : Role}
      → find? (same_name "admin") later.roles ≡ some role
      → Succeeded later (seed_admin orm env email password) tt
      → AdminStep email role
  unfolding seed_admin
  admin_step email password {role} e s =
      let user =
        steps later _ _
          (λ admin.
            bind-IsRepeatable _ _ _ _ (admin_role-IsRepeatable orm documented env env)
              (λ role. then_nothing orm documented env env _ _ (link-IsRepeatable admin role)))
          tt s in
      let named =
        steps later (admin_role orm env) _
          (λ role. then_nothing orm documented env env _ _ (link-IsRepeatable user.value role)) tt
          user.second in
      let linked = steps later _ (λ _. pure tt) (λ _. pure-IsRepeatable tt) tt named.second in
      let same = admin_role-same e named.first in
      record {
        admin = user.value;
        found =
            find_or_save-found orm documented env env (users_table orm) _ _ user.value
              (users-IsTable orm documented _ refl) user.first.before user.first.after later _
              user.first.ran user.first.grown;
        link = linked.value;
        linked =
            subst
              (λ (r : Role).
                find? (same_link (user_role user.value.id env.now r.id)) later.user_roles
                ≡ some linked.value)
              same
              (find_or_save-found orm documented env env (links_table orm) _ _ linked.value
                (links-IsTable orm documented _) linked.first.before linked.first.after later _
                linked.first.ran linked.first.grown);
      }
    where
      link-IsRepeatable :
          (admin : User) (role : Role)
          → IsRepeatable
              (find_or_save orm env
                (links_table orm)
                (same_link (user_role admin.id env.now role.id))
                (user_role admin.id env.now role.id))
              (find_or_save orm env
                (links_table orm)
                (same_link (user_role admin.id env.now role.id))
                (user_role admin.id env.now role.id))
      link-IsRepeatable admin role =
          find_or_save-IsRepeatable orm documented env env (links_table orm) _ _ _
            (links-IsTable orm documented _)
