-- ===== src/Seeds/Administrator.antt =====
-- What the seeded administrator may do.
use nestjs_app.Prelude.{
  ◌≡◌, refl, sym, subst, ◌∙◌, String, Bool, true, false, ◌||◌, Option, some, [], ◌∷◌, find?, str_eq,
  if◌then◌else◌,
}
use nestjs_app.Result.{ok, pure}
use nestjs_app.Db.{Orm, Db, Documented, User, Permission, manage, read}
use nestjs_app.Users.Lookup.{live_with_email}
use nestjs_app.Permissions.Cache.{PermissionRule}
use nestjs_app.Permissions.{permission_key}
use nestjs_app.Guards.Access.{may}
use nestjs_app.Seeds.{
  SeedEnv, SeedRole, PermissionMap, get, key_of, rule, seed_permissions_of, seed_permissions,
  seed_roles, seed_admin, seed_if_set, seed_bootstrap_admin, seed, seed_roles_list,
}
use nestjs_app.Seeds.Growth.{Grows, bind-IsRepeatable}
use nestjs_app.Seeds.Again.{seed_roles-IsRepeatable, seed_if_set-IsRepeatable}
use nestjs_app.Seeds.Success.{Succeeded, steps}
use nestjs_app.Seeds.Steps.{
  IsFoundBy, may-rows, role_permissions_step, no_permission_left, no_role_left, permission_step,
}
use nestjs_app.Seeds.RoleSteps.{grant_step, role_step, admin_step}

-- The two roles of the seed.
abbrev admin_seed : SeedRole
admin_seed = record {
  name = "admin";
  description = "Full system administration access";
  is_system = true;
  permissions =
      rule manage "User"
      ∷ rule manage "Role"
      ∷ rule manage "Permission"
      ∷ rule manage "Metric"
      ∷ [];
}

abbrev user_seed : SeedRole
user_seed = record {
  name = "user";
  description = "Default registered user";
  is_system = true;
  permissions = rule read "User" ∷ rule read "Role" ∷ [];
}

module _ (orm : Orm) (documented : Documented orm) (env : SeedEnv) (later : Db) where
  -- A rule that the map has, with the row of its permission.
  record Known (entries : PermissionMap) (r : PermissionRule) : Type 0 where
    pub permission : Permission
    pub found : IsFoundBy later r permission
    pub known : get (key_of r) entries ≡ some permission

  record AllKnown (entries : PermissionMap) : Type 0 where
    pub users : Known entries (rule manage "User")
    pub roles : Known entries (rule manage "Role")
    pub permissions : Known entries (rule manage "Permission")
    pub metrics : Known entries (rule manage "Metric")

  all_known :
      (entries : PermissionMap)
      → Succeeded later (seed_permissions orm env (admin_seed ∷ user_seed ∷ []) []) entries
      → AllKnown entries
  unfolding permission_key
  all_known entries s =
      let first =
        role_permissions_step orm documented env later admin_seed (user_seed ∷ []) [] entries s in
      let a =
        permission_step orm documented env later (rule manage "User") _ [] first.value refl
          first.first in
      let b =
        permission_step orm documented env later (rule manage "Role") _ _ first.value refl a.rest in
      let c =
        permission_step orm documented env later (rule manage "Permission") _ _ first.value refl
          b.rest in
      let d =
        permission_step orm documented env later (rule manage "Metric") _ _ first.value refl
          c.rest in
      let second =
        role_permissions_step orm documented env later user_seed [] first.value entries
          first.second in
      let again =
        subst
          (λ (es : PermissionMap).
            Succeeded later (seed_permissions_of orm env user_seed.permissions es) second.value)
          (sym (no_permission_left orm documented env later d.rest)) second.first in
      let e =
        permission_step orm documented env later (rule read "User") _ _ second.value refl again in
      let f =
        permission_step orm documented env later (rule read "Role") _ _ second.value refl e.rest in
      let made =
        no_permission_left orm documented env later f.rest
        ∙ no_role_left orm documented env later second.second in
      record {
        users = record {
          permission = a.permission;
          found = a.found;
          known =
              subst (λ (es : PermissionMap). get "manage:User" es ≡ some a.permission) made refl;
        };
        roles = record {
          permission = b.permission;
          found = b.found;
          known =
              subst (λ (es : PermissionMap). get "manage:Role" es ≡ some b.permission) made refl;
        };
        permissions = record {
          permission = c.permission;
          found = c.found;
          known =
              subst (λ (es : PermissionMap). get "manage:Permission" es ≡ some c.permission) made
                refl;
        };
        metrics = record {
          permission = d.permission;
          found = d.found;
          known =
              subst (λ (es : PermissionMap). get "manage:Metric" es ≡ some d.permission) made refl;
        };
      }

  -- The account with the email, and that it may manage each of the four subjects.
  pub record IsAdministrator (email : String) : Type 0 where
    pub admin : User
    pub found : find? (live_with_email email) later.users ≡ some admin
    pub users : may later admin.id (rule manage "User") ≡ true
    pub roles : may later admin.id (rule manage "Role") ≡ true
    pub permissions : may later admin.id (rule manage "Permission") ≡ true
    pub metrics : may later admin.id (rule manage "Metric") ≡ true

  -- The three parts of the seed.
  record Parts : Type 0 where
    pub entries : PermissionMap
    pub permissions :
        Succeeded later (seed_permissions orm env (admin_seed ∷ user_seed ∷ []) []) entries
    pub roles : Succeeded later (seed_roles orm env (admin_seed ∷ user_seed ∷ []) entries) tt
    pub bootstrap : Succeeded later (seed_if_set orm env env.admin_email env.admin_password) tt

  parts : Succeeded later (seed orm env) tt → Parts
  unfolding seed seed_roles_list seed_bootstrap_admin
  parts s =
      let rest =
        seed_if_set-IsRepeatable orm documented env env env.admin_email env.admin_password
          env.admin_password refl in
      let first =
        steps later (seed_permissions orm env seed_roles_list []) _
          (λ es.
            bind-IsRepeatable _ _ _ _
              (seed_roles-IsRepeatable orm documented env env seed_roles_list es) (λ _. rest))
          tt s in
      let second =
        steps later (seed_roles orm env seed_roles_list first.value) _ (λ _. rest) tt
          first.second in
      record {
        entries = first.value;
        permissions = first.first;
        roles = second.first;
        bootstrap = second.second;
      }

  administrator :
      (email password : String)
      → env.admin_email ≡ some email
      → env.admin_password ≡ some password
      → str_eq email "" ≡ false
      → str_eq password "" ≡ false
      → Succeeded later (seed orm env) tt
      → IsAdministrator email
  administrator email password e p email_set password_set s =
      let run = parts s in
      let known = all_known run.entries run.permissions in
      let role = role_step orm documented env later admin_seed _ run.entries run.roles in
      let a =
        grant_step orm documented env later role.role _ _ run.entries known.users.permission
          known.users.known role.grants in
      let b =
        grant_step orm documented env later role.role _ _ run.entries known.roles.permission
          known.roles.known a.rest in
      let c =
        grant_step orm documented env later role.role _ _ run.entries known.permissions.permission
          known.permissions.known b.rest in
      let d =
        grant_step orm documented env later role.role _ _ run.entries known.metrics.permission
          known.metrics.known c.rest in
      let named =
        subst (λ (o : Option String). Succeeded later (seed_if_set orm env o env.admin_password) tt)
          e run.bootstrap in
      let given =
        subst (λ (o : Option String). Succeeded later (seed_if_set orm env (some email) o) tt) p
          named in
      let both_set : (str_eq email "" || str_eq password "") ≡ false =
        rw (email_set, password_set) refl in
      let made : Succeeded later (seed_admin orm env email password) tt =
        subst
          (λ (b : Bool).
            Succeeded later (if b then pure tt else seed_admin orm env email password) tt)
          both_set given in
      let account = admin_step orm documented env later email password role.found made in
      record {
        admin = account.admin;
        found = account.found;
        users =
            may-rows later _ _ env.now (rule manage "User") known.users.found a.found
              account.linked;
        roles =
            may-rows later _ _ env.now (rule manage "Role") known.roles.found b.found
              account.linked;
        permissions =
            may-rows later _ _ env.now (rule manage "Permission") known.permissions.found c.found
              account.linked;
        metrics =
            may-rows later _ _ env.now (rule manage "Metric") known.metrics.found d.found
              account.linked;
      }

  -- After a seed that succeeded, with an email and a password that are not empty, and in every
  -- database that has grown from it: there is a live account with the email, and that account may
  -- manage users, roles, permissions and metrics.
  pub seed-IsAdministrator :
      (email password : String) (db after : Db)
      → env.admin_email ≡ some email
      → env.admin_password ≡ some password
      → str_eq email "" ≡ false
      → str_eq password "" ≡ false
      → seed orm env db ≡ (ok tt, after)
      → Grows after later
      → IsAdministrator email
  seed-IsAdministrator email password db after e p email_set password_set ran grown =
      administrator email password e p email_set password_set
        (record { before = db; after = after; ran = ran; grown = grown })
