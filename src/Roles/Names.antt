-- ===== src/Roles/Names.antt =====
-- Lists of roles without two of one name or one id.
pub mod Writers
use nestjs_app.Prelude.{
  ℕ, ◌+◌, ◌≤◌, ◌≡◌, refl, sym, ap, ◌∙◌, inl, inr, String, Bool, true, false, not, ◌&&◌, Option,
  none, some, List, [], ◌∷◌, ◌++◌, arith, str_eq, eq_iff, eq_refl, if◌then◌else◌, any, modify,
  Bool-cases,
}
use nestjs_app.Js.{trim, trim_or_null}
use nestjs_app.Result.{
  Exec, or_throw, http, not_found, Result, ok, err, continue, pure, ◌>>=◌, ◌>>◌,
}
use nestjs_app.Db.{Db, Documented, Role}
use nestjs_app.Users.Create.{catch_conflict}
use nestjs_app.Permissions.Cache.{Backend, World}
use nestjs_app.Roles.{
  role_name_exists, UpdateRoleDto, RoleWithPermissions, has_role_id, same_name, role_conflict,
  find_role_by_id, get_or_throw, save_role, create_role, save_loaded_role, new_name, assert_mutable,
  update_role, changed_description,
}

-- How many roles have the name, and how many the id.
abbrev pub named : String → List Role → ℕ
named name [] = 0
named name (r ∷ rs) = (if same_name name r then 1 else 0) + named name rs

abbrev pub identified : String → List Role → ℕ
identified id [] = 0
identified id (r ∷ rs) = (if has_role_id id r then 1 else 0) + identified id rs

abbrev pub HasUniqueRoles : Db → Type 0
HasUniqueRoles db =
    ((name : String) → named name db.roles ≤ 1) × ((id : String) → identified id db.roles ≤ 1)

named-append :
    (name : String) (xs ys : List Role) → named name (xs ++ ys) ≡ named name xs + named name ys
named-append name [] ys = omega arith
named-append name (x ∷ xs) ys = omega (arith, named-append name xs ys)

named-none : (name : String) (rs : List Role) → any (same_name name) rs ≡ false → named name rs ≡ 0
named-none name [] h = refl
named-none name (r ∷ rs) h = ground (arith, named-none name rs)

pub named-new :
    (name : String) (rs : List Role) (role : Role)
    → any (same_name role.name) rs ≡ false
    → named name rs ≤ 1
    → named name (rs ++ role ∷ []) ≤ 1
named-new name rs role free h = elim (Bool-cases (str_eq role.name name)) [
  | inl own ↦ ground (
    arith,
    named-append name rs (role ∷ []),
    named-none role.name rs free,
    ap (λ n. named n rs) ((eq_iff role.name name).0 own),
  )
  | inr other ↦ ground (arith, named-append name rs (role ∷ []))
]

identified-append :
    (id : String) (xs ys : List Role)
    → identified id (xs ++ ys) ≡ identified id xs + identified id ys
identified-append id [] ys = omega arith
identified-append id (x ∷ xs) ys = omega (arith, identified-append id xs ys)

pub identified-new :
    (id : String) (rs : List Role) (role : Role)
    → identified role.id rs ≡ 0
    → identified id rs ≤ 1
    → identified id (rs ++ role ∷ []) ≤ 1
identified-new id rs role new h = elim (Bool-cases (str_eq role.id id)) [
  | inl own ↦ ground (
    arith,
    identified-append id rs (role ∷ []),
    ap (λ i. identified i rs) ((eq_iff role.id id).0 own),
  )
  | inr other ↦ ground (arith, identified-append id rs (role ∷ []))
]

-- Writing a role over the rows with its id.
abbrev pub overwrite : Role → List Role → List Role
overwrite role = modify (has_role_id role.id) (λ _. role)

named-overwrite_other :
    (name : String) (role : Role) (rs : List Role)
    → str_eq role.name name ≡ false
    → named name (overwrite role rs) ≤ named name rs
named-overwrite_other name role [] h = omega arith
named-overwrite_other name role (r ∷ rs) h = ground (arith, named-overwrite_other name role rs)

named-overwrite_own :
    (role : Role) (rs : List Role)
    → any (λ other. same_name role.name other && not (has_role_id role.id other)) rs ≡ false
    → named role.name (overwrite role rs) ≤ identified role.id rs
named-overwrite_own role [] h = omega arith
named-overwrite_own role (r ∷ rs) h = ground (arith, named-overwrite_own role rs)

identified-overwrite :
    (id : String) (role : Role) (rs : List Role)
    → identified id (overwrite role rs) ≡ identified id rs
identified-overwrite id role [] = refl
identified-overwrite id role (r ∷ rs) = ground (
  arith,
  identified-overwrite id role rs,
  eq_iff r.id role.id,
  ap (λ i. str_eq i id) {x = r.id} {y = role.id},
)

pub overwrite-HasUniqueRoles :
    (role : Role) (db : Db)
    → any (λ other. same_name role.name other && not (has_role_id role.id other)) db.roles ≡ false
    → HasUniqueRoles db
    → HasUniqueRoles (record db { roles = overwrite role db.roles })
overwrite-HasUniqueRoles role db free (names, ids) = (
  λ name. elim (Bool-cases (str_eq role.name name)) [
    | inl own ↦ ground (
      arith,
      named-overwrite_own role db.roles free,
      ids role.id,
      ap (λ n. named n (overwrite role db.roles)) ((eq_iff role.name name).0 own),
    )
    | inr other ↦ ground (arith, named-overwrite_other name role db.roles other, names name)
  ],
  λ id. ground (arith, identified-overwrite id role db.roles, ids id),
)
