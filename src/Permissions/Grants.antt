-- ===== src/Permissions/Grants.antt =====
-- Which users a change of the join rows affects: those that the service looks up before it.
use nestjs_app.Prelude.{
  ◌≡◌, refl, ◌∙◌, String, Bool, false, ◌&&◌, ◌||◌, List, [], ◌∷◌, map, arith, str_eq, eq_iff, any,
  keep, ap, sym,
}
use nestjs_app.Db.{Db, RolePermission, UserRole}
use nestjs_app.Users.JoinRows.{has, distinct}
use nestjs_app.Users.JoinRows.Sets.{has-distinct}
use nestjs_app.Permissions.{links}

any-or-and :
    {A : Type 0} (c : Bool) (l r g : A → Bool) (xs : List A)
    → any (λ x. ((l x && c) || r x) && g x) xs
      ≡ ((c && any (λ x. l x && g x) xs) || any (λ x. r x && g x) xs)
any-or-and c l r g [] = ground arith
any-or-and c l r g (x ∷ xs) = ground (arith, any-or-and c l r g xs)

any_nothing : {A : Type 0} (g : A → Bool) (xs : List A) → any (λ x. false && g x) xs ≡ false
any_nothing g [] = refl
any_nothing g (x ∷ xs) = any_nothing g xs

-- Two nested searches in the other order.
pub any-swap :
    {A B : Type 0} (f : A → Bool) (l : A → B → Bool) (g : B → Bool) (xs : List A) (ys : List B)
    → any (λ x. f x && any (λ y. l x y && g y) ys) xs
      ≡ any (λ y. any (λ x. l x y && f x) xs && g y) ys
any-swap f l g [] ys = sym (any_nothing g ys)
any-swap f l g (x ∷ xs) ys =
    ap (λ rest. (f x && any (λ y. l x y && g y) ys) || rest) (any-swap f l g xs ys)
    ∙ sym (any-or-and (f x) (l x) (λ y. any (λ x. l x y && f x) xs) g ys)

has-users :
    (user_id : String) (q : UserRole → Bool) (rows : List UserRole)
    → has user_id (map (λ (ur : UserRole). ur.user_id) (keep q rows))
      ≡ any (λ ur. q ur && str_eq ur.user_id user_id) rows
has-users user_id q [] = refl
has-users user_id q (ur ∷ rows) =
    ground (arith, has-users user_id q rows, eq_iff user_id ur.user_id, eq_iff ur.user_id user_id)

-- The users whom the roles give the permission.
pub has-granted :
    (user_id permission_id : String) (db : Db)
    → has user_id (
        distinct (
          map
            (λ (ur : UserRole). ur.user_id)
            (keep
              (λ ur.
                any
                  (λ rp. links rp ur && str_eq rp.permission_id permission_id)
                  db.role_permissions)
              db.user_roles)))
      ≡ any
          (λ rp.
            str_eq rp.permission_id permission_id
            && any (λ ur. links rp ur && str_eq ur.user_id user_id) db.user_roles)
          db.role_permissions
has-granted user_id permission_id db =
    has-distinct user_id _
    ∙ has-users user_id _ db.user_roles
    ∙ sym (
        any-swap (λ (rp : RolePermission). str_eq rp.permission_id permission_id) links
          (λ ur. str_eq ur.user_id user_id) db.role_permissions db.user_roles)

-- The users who have the role.
pub has-role :
    (user_id role_id : String) (rows : List UserRole)
    → has user_id
        (map (λ (ur : UserRole). ur.user_id) (keep (λ ur. str_eq ur.role_id role_id) rows))
      ≡ any (λ ur. str_eq ur.role_id role_id && str_eq ur.user_id user_id) rows
has-role user_id role_id rows = has-users user_id _ rows
