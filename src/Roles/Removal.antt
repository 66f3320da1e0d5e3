-- ===== src/Roles/Removal.antt =====
-- Removing a role: system roles stay, and the cached rules remain those of the database.
use nestjs_app.Prelude.{
  ◌≡◌, refl, sym, ap, ◌∙◌, inl, inr, String, Bool, true, false, not, ◌&&◌, none, some, List, [],
  ◌∷◌, map, arith, str_eq, eq_iff, any, keep, find?, Option-cases, Bool-cases,
}
use nestjs_app.Result.{err, http, not_found, forbidden}
use nestjs_app.Db.{Db, Documented, Role, Permission, RolePermission, UserRole}
use nestjs_app.Permissions.Cache.{Backend, World, IsRedis}
use nestjs_app.Permissions.{
  granted, rule_of, distinct_rules, load_permission_rules, find_user_ids_with_role,
  invalidate_users,
}
use nestjs_app.Permissions.Grants.{has-role}
use nestjs_app.Permissions.Coherence.{Coherent, AffectsOnly, Deletes, Coherent-invalidate_users}
use nestjs_app.Roles.{
  has_role_id, find_role_by_id, get_or_throw, assert_mutable, immutable_message, delete_role,
  remove_role,
}

abbrev pub has_role : String → String → List UserRole → Bool
has_role user_id role_id rows =
    any (λ ur. str_eq ur.role_id role_id && str_eq ur.user_id user_id) rows

-- What the delete leaves.
abbrev without : String → Db → Db
without id db = record db {
  roles = keep (λ (r : Role). not (has_role_id id r)) db.roles;
  user_roles = keep (λ (ur : UserRole). not (str_eq ur.role_id id)) db.user_roles;
  role_permissions = keep (λ (rp : RolePermission). not (str_eq rp.role_id id)) db.role_permissions;
}

has_role_drop :
    (id role_id user_id : String) (rows : List UserRole)
    → has_role user_id role_id (keep (λ ur. not (str_eq ur.role_id id)) rows)
      ≡ (not (str_eq role_id id) && has_role user_id role_id rows)
has_role_drop id role_id user_id [] = ground arith
has_role_drop id role_id user_id (ur ∷ rows) = ground (
  arith,
  has_role_drop id role_id user_id rows,
  eq_iff ur.role_id role_id,
  eq_iff ur.role_id id,
  eq_iff role_id id,
)

has_role_kept :
    (id role_id user_id : String) (rows : List UserRole)
    → has_role user_id id rows ≡ false
    → has_role user_id role_id (keep (λ ur. not (str_eq ur.role_id id)) rows)
      ≡ has_role user_id role_id rows
has_role_kept id role_id user_id rows h = elim (Bool-cases (str_eq role_id id)) [
  | inl e ↦ rw (has_role_drop id role_id user_id rows, e, (eq_iff role_id id).0 e, h)
  | inr e ↦ rw (has_role_drop id role_id user_id rows, e)
]

granted-kept :
    (id user_id permission_id : String) (rows : List UserRole) (grants : List RolePermission)
    → has_role user_id id rows ≡ false
    → any
        (λ rp.
          str_eq rp.permission_id permission_id
          && has_role user_id rp.role_id (keep (λ ur. not (str_eq ur.role_id id)) rows))
        (keep (λ rp. not (str_eq rp.role_id id)) grants)
      ≡ any (λ rp. str_eq rp.permission_id permission_id && has_role user_id rp.role_id rows) grants
granted-kept id user_id permission_id rows [] h = refl
granted-kept id user_id permission_id rows (rp ∷ grants) h =
    elim (Bool-cases (str_eq rp.role_id id)) [
      | inl e ↦
          rw (e, (eq_iff rp.role_id id).0 e, h)
            (ground (arith, granted-kept id user_id permission_id rows grants h))
      | inr e ↦ rw (
        e,
        has_role_kept id rp.role_id user_id rows h,
        granted-kept id user_id permission_id rows grants h,
      )
    ]

pub keep_cong :
    {A : Type 0} (p q : A → Bool) (xs : List A) → ((x : A) → p x ≡ q x) → keep p xs ≡ keep q xs
keep_cong p q [] h = refl
keep_cong p q (x ∷ xs) h = rw (h x, keep_cong p q xs h)

module _ (b : Backend) (documented : Documented b.orm) (laws : IsRedis b.redis) where
  -- Joins that grant every user but those with the role the same permissions, in the same table.
  pub AffectsOnly-role :
      (id : String) (before after : Db)
      → after.permissions ≡ before.permissions
      → ((user_id : String) (p : Permission)
          → has_role user_id id before.user_roles ≡ false
          → granted after user_id p ≡ granted before user_id p)
      → AffectsOnly b documented laws (find_user_ids_with_role b id before) before after
  unfolding load_permission_rules find_user_ids_with_role
  AffectsOnly-role id before after same kept user_id clear =
      let h : has_role user_id id before.user_roles ≡ false =
        sym (has-role user_id id before.user_roles) ∙ (rw documented.find_lem at clear) in
      rw (documented.find_lem, documented.find_lem, same)
        (ap (λ ps. distinct_rules (map rule_of ps))
          (keep_cong (granted after user_id) (granted before user_id) before.permissions
            (λ p. kept user_id p h)))

  remove_role-mutable :
      (id : String) (w : World b) {role : Role}
      → find? (has_role_id id) w.db.roles ≡ some role
      → role.is_system ≡ false
      → remove_role b id w
        ≡ invalidate_users b (find_user_ids_with_role b id w.db) (record w { db = without id w.db })
  unfolding remove_role get_or_throw find_role_by_id assert_mutable delete_role
  remove_role-mutable id w found own = rw (
    documented.find_one_lem, found, own, documented.delete_lem, documented.delete_lem,
    documented.delete_lem,
  )

  remove_role-missing :
      (id : String) (w : World b)
      → find? (has_role_id id) w.db.roles ≡ none
      → remove_role b id w ≡ (err (http not_found "Role not found"), w)
  unfolding remove_role get_or_throw find_role_by_id
  remove_role-missing id w missing = rw (documented.find_one_lem, missing)

  remove_role-system :
      (id : String) (w : World b) {role : Role}
      → find? (has_role_id id) w.db.roles ≡ some role
      → role.is_system ≡ true
      → remove_role b id w ≡ (err (http forbidden (immutable_message role.name "delete")), w)
  unfolding remove_role get_or_throw find_role_by_id assert_mutable
  remove_role-system id w found own = rw (documented.find_one_lem, found, own)

  -- If the cache is coherent and the delete of the affected users' keys succeeds, the cache is
  -- coherent after a role is removed, and after its removal is refused.
  pub remove_role-Coherent :
      (id : String) (w : World b)
      → Coherent b documented laws w
      → Deletes b documented laws (find_user_ids_with_role b id w.db) w
      → Coherent b documented laws (remove_role b id w).1
  remove_role-Coherent id w h d = elim (Option-cases (find? (has_role_id id) w.db.roles)) [
    | inl missing ↦ rw (remove_role-missing id w missing) h
    | inr (role, found) ↦ elim (Bool-cases role.is_system) [
      | inl system ↦ rw (remove_role-system id w found system) h
      | inr own ↦ rw (remove_role-mutable id w found own) (
          Coherent-invalidate_users b documented laws _ w (without id w.db) h d (
            AffectsOnly-role id w.db (without id w.db) refl (λ user_id p clear.
              granted-kept id user_id p.id w.db.user_roles w.db.role_permissions clear)))
    ]
  ]
