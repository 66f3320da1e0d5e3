-- ===== src/Seeds/Steps.antt =====
-- What each step of a seed that succeeded leaves in the database.
use nestjs_app.Prelude.{
  ℕ, ◌≡◌, refl, ap, subst, ◌∙◌, String, Bool, true, false, ◌&&◌, some, List, [], ◌∷◌, arith, find?,
  find?-holds, any, str_eq, eq_iff, Bool-cases, inl, inr, if◌then◌else◌,
}
use nestjs_app.Result.{◌>>=◌}
use nestjs_app.Db.{Orm, Db, Documented, UserRole, RolePermission, Permission, is_set}
use nestjs_app.Users.Create.{same_link, user_role}
use nestjs_app.Permissions.Cache.{PermissionRule}
use nestjs_app.Permissions.{action_text, granted, rule_of, links}
use nestjs_app.Roles.{same_grant, role_permission}
use nestjs_app.Guards.Access.{may, covers}
use nestjs_app.Seeds.Tables.{permissions_table}
use nestjs_app.Seeds.Again.{seed_permissions_of-IsRepeatable, seed_permissions-IsRepeatable}
use nestjs_app.Seeds.{
  SeedEnv, SeedRole, PermissionMap, get, key_of, seed_permission, seed_permissions_of,
  seed_permissions,
}
use nestjs_app.Seeds.Growth.{find_or_save-found}
use nestjs_app.Seeds.Saves.{permissions-IsTable}
use nestjs_app.Seeds.Success.{Succeeded, Both, steps, pure_value}

any_at :
    {A : Type 0} (f g : A → Bool) (xs : List A) {x : A}
    → find? f xs ≡ some x
    → g x ≡ true
    → any g xs ≡ true
any_at f g [] e h = absurd (ground arith)
any_at f g (y ∷ xs) {x} e h = elim (Bool-cases (f y)) [
  | inl hit ↦ (let same : y ≡ x = ground (arith, e, hit) in rw (ap g same ∙ h) refl)
  | inr miss ↦
      (let later : find? f xs ≡ some x = ground (arith, e, miss) in
        ground (arith, any_at f g xs later h))
]

-- The database finds this permission for the rule.
abbrev pub IsFoundBy : Db → PermissionRule → Permission → Type 0
IsFoundBy db r p =
    find?
      (λ (q : Permission).
        str_eq (action_text q.action) (action_text r.action) && str_eq q.subject r.subject)
      db.permissions
    ≡ some p

-- The row of a permission, that of its grant to a role, and that of the link of a user to the role.
pub may-rows :
    (db : Db) (user_id role_id : String) (now : ℕ) (r : PermissionRule) {p : Permission}
    {rp : RolePermission} {ur : UserRole}
    → IsFoundBy db r p
    → find? (same_grant (role_permission role_id now p.id)) db.role_permissions ≡ some rp
    → find? (same_link (user_role user_id now role_id)) db.user_roles ≡ some ur
    → may db user_id r ≡ true
may-rows db user_id role_id now r {p} {rp} {ur} found_p found_rp found_ur =
    let matched = find?-holds _ db.permissions found_p in
    let of_grant = find?-holds _ db.role_permissions found_rp in
    let of_link = find?-holds _ db.user_roles found_ur in
    let linked : any (λ ur'. links rp ur' && str_eq ur'.user_id user_id) db.user_roles ≡ true =
      any_at _ (λ ur'. links rp ur' && str_eq ur'.user_id user_id) db.user_roles found_ur
        (ground (
          arith,
          of_grant,
          of_link,
          eq_iff role_id rp.role_id,
          eq_iff role_id ur.role_id,
          eq_iff user_id ur.user_id,
          eq_iff ur.user_id user_id,
          eq_iff ur.role_id rp.role_id,
        )) in
    let held : granted db user_id p ≡ true =
      any_at _
        (λ rp'.
          str_eq rp'.permission_id p.id
          && any (λ ur'. links rp' ur' && str_eq ur'.user_id user_id) db.user_roles)
        db.role_permissions found_rp
        (ground
          (arith, linked, of_grant, eq_iff p.id rp.permission_id, eq_iff rp.permission_id p.id)) in
    any_at _ (λ q. granted db user_id q && covers r.action r.subject (rule_of q)) db.permissions
      found_p (ground (arith, held, matched))

module _ (orm : Orm) (documented : Documented orm) (env : SeedEnv) (later : Db) where
  permission_found :
      (r : PermissionRule) {p : Permission}
      → Succeeded later (seed_permission orm env r) p
      → IsFoundBy later r p
  unfolding seed_permission
  permission_found r {p} s =
      find_or_save-found orm documented env env (permissions_table orm) _ _ p
        (permissions-IsTable orm documented _) s.before s.after later _ s.ran s.grown

  -- A permission that was looked up or made, and what is left of the loop.
  pub record PermissionStep (r : PermissionRule) (rs : List PermissionRule)
      (entries out : PermissionMap) : Type 0 where
    pub permission : Permission
    pub found : IsFoundBy later r permission
    pub rest :
        Succeeded later (seed_permissions_of orm env rs ((key_of r, permission) ∷ entries)) out

  pub permission_step :
      (r : PermissionRule) (rs : List PermissionRule) (entries out : PermissionMap)
      → is_set (get (key_of r) entries) ≡ false
      → Succeeded later (seed_permissions_of orm env (r ∷ rs) entries) out
      → PermissionStep r rs entries out
  unfolding seed_permissions_of
  permission_step r rs entries out fresh s =
      let s' : Succeeded later
          (do
            p ← seed_permission orm env r
            seed_permissions_of orm env rs ((key_of r, p) ∷ entries))
          out =
        subst
          (λ (b : Bool).
            Succeeded later
              (if b then seed_permissions_of orm env rs entries else (do
                p ← seed_permission orm env r
                seed_permissions_of orm env rs ((key_of r, p) ∷ entries)))
              out)
          fresh s in
      let both =
        steps later (seed_permission orm env r) _
          (λ p.
            seed_permissions_of-IsRepeatable orm documented env env rs ((key_of r, p) ∷ entries))
          out s' in
      record { permission = both.value; found = permission_found r both.first; rest = both.second }

  pub no_permission_left :
      {entries out : PermissionMap}
      → Succeeded later (seed_permissions_of orm env [] entries) out
      → entries ≡ out
  unfolding seed_permissions_of
  no_permission_left s = pure_value s

  pub no_role_left :
      {entries out : PermissionMap}
      → Succeeded later (seed_permissions orm env [] entries) out
      → entries ≡ out
  unfolding seed_permissions
  no_role_left s = pure_value s

  pub role_permissions_step :
      (r : SeedRole) (rs : List SeedRole) (entries out : PermissionMap)
      → Succeeded later (seed_permissions orm env (r ∷ rs) entries) out
      → Both later
          (seed_permissions_of orm env r.permissions entries)
          (λ es. seed_permissions orm env rs es)
          out
  unfolding seed_permissions
  role_permissions_step r rs entries out s =
      steps later (seed_permissions_of orm env r.permissions entries) _
        (λ es. seed_permissions-IsRepeatable orm documented env env rs es) out s
