-- ===== src/Permissions/Removal.antt =====
-- Removing a permission keeps the cached rules those of the database.
use nestjs_app.Prelude.{
  ◌≡◌, refl, sym, ap, ◌∙◌, inl, inr, String, Bool, true, false, not, ◌&&◌, none, some, List, [],
  ◌∷◌, map, arith, str_eq, eq_iff, any, keep, find?, Option-cases, Bool-cases,
}
use nestjs_app.Result.{err, http, bad_request}
use nestjs_app.Db.{Db, Documented, Permission, RolePermission}
use nestjs_app.Permissions.Cache.{Backend, World, IsRedis}
use nestjs_app.Permissions.{
  links, granted, rule_of, distinct_rules, load_permission_rules, find_user_ids_with_permission,
  find_permission_by_id, delete_permission, remove_permission, invalidate_users,
}
use nestjs_app.Permissions.Grants.{has-granted}
use nestjs_app.Permissions.Coherence.{Coherent, AffectsOnly, Deletes, Coherent-invalidate_users}

-- Dropping the links of one permission does not change what another is granted to.
any-drop :
    (id other : String) (c : RolePermission → Bool) (rows : List RolePermission)
    → str_eq other id ≡ false
    → any
        (λ rp. str_eq rp.permission_id other && c rp)
        (keep (λ rp. not (str_eq rp.permission_id id)) rows)
      ≡ any (λ rp. str_eq rp.permission_id other && c rp) rows
any-drop id other c [] e = refl
any-drop id other c (rp ∷ rows) e = ground (
  arith,
  any-drop id other c rows e,
  eq_iff rp.permission_id other,
  eq_iff rp.permission_id id,
  eq_iff other id,
)

-- What the delete leaves.
abbrev without : String → Db → Db
without id db = record db {
  permissions = keep (λ (p : Permission). not (str_eq p.id id)) db.permissions;
  role_permissions =
      keep (λ (rp : RolePermission). not (str_eq rp.permission_id id)) db.role_permissions;
}

abbrev reached : String → String → Db → Bool
reached user_id id db =
    any
      (λ rp.
        str_eq rp.permission_id id
        && any (λ ur. links rp ur && str_eq ur.user_id user_id) db.user_roles)
      db.role_permissions

granted-id :
    (id user_id : String) (db : Db) (p : Permission)
    → reached user_id id db ≡ false
    → str_eq p.id id ≡ true
    → granted db user_id p ≡ false
granted-id id user_id db p h e = ap (λ x. reached user_id x db) ((eq_iff p.id id).0 e) ∙ h

keep-granted :
    (id user_id : String) (db : Db) (ps : List Permission)
    → reached user_id id db ≡ false
    → keep (granted (without id db) user_id) (keep (λ (p : Permission). not (str_eq p.id id)) ps)
      ≡ keep (granted db user_id) ps
keep-granted id user_id db [] h = refl
keep-granted id user_id db (p ∷ ps) h = elim (Bool-cases (str_eq p.id id)) [
  | inl e ↦ rw (e, granted-id id user_id db p h e) (keep-granted id user_id db ps h)
  | inr e ↦ rw (
    e,
    any-drop id p.id (λ rp. any (λ ur. links rp ur && str_eq ur.user_id user_id) db.user_roles)
        db.role_permissions e,
    keep-granted id user_id db ps h,
  )
]

module _ (b : Backend) (documented : Documented b.orm) (laws : IsRedis b.redis) where
  without-AffectsOnly :
      (id : String) (w : World b)
      → AffectsOnly b documented laws
          (find_user_ids_with_permission b id w.db)
          w.db
          (without id w.db)
  unfolding load_permission_rules find_user_ids_with_permission
  without-AffectsOnly id w user_id clear =
      let h : reached user_id id w.db ≡ false =
        sym (has-granted user_id id w.db) ∙ (rw documented.find_lem at clear) in
      rw (documented.find_lem, documented.find_lem)
        (ap (λ ps. distinct_rules (map rule_of ps))
          (keep-granted id user_id w.db w.db.permissions h))

  remove_permission-found :
      (id : String) (w : World b) {p : Permission}
      → find? (λ (q : Permission). str_eq q.id id) w.db.permissions ≡ some p
      → remove_permission b id w
        ≡ invalidate_users b
            (find_user_ids_with_permission b id w.db)
            (record w { db = without id w.db })
  unfolding remove_permission find_permission_by_id delete_permission
  remove_permission-found id w found =
      rw (documented.find_one_lem, found, documented.delete_lem, documented.delete_lem)

  remove_permission-missing :
      (id : String) (w : World b)
      → find? (λ (q : Permission). str_eq q.id id) w.db.permissions ≡ none
      → remove_permission b id w ≡ (err (http bad_request "Permission not found"), w)
  unfolding remove_permission find_permission_by_id
  remove_permission-missing id w missing = rw (documented.find_one_lem, missing)

  -- If the cache is coherent and the delete of the affected users' keys succeeds, the cache is
  -- coherent after a permission is removed, and after its removal is refused.
  pub remove_permission-Coherent :
      (id : String) (w : World b)
      → Coherent b documented laws w
      → Deletes b documented laws (find_user_ids_with_permission b id w.db) w
      → Coherent b documented laws (remove_permission b id w).1
  remove_permission-Coherent id w h d =
      elim (Option-cases (find? (λ (q : Permission). str_eq q.id id) w.db.permissions)) [
        | inl missing ↦ rw (remove_permission-missing id w missing) h
        | inr (p, found) ↦ rw (remove_permission-found id w found) (
            Coherent-invalidate_users b documented laws _ w (without id w.db) h d
              (without-AffectsOnly id w))
      ]
