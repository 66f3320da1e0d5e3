-- ===== src/Users/Create/Emails.antt =====
-- No two live accounts share an email: what creating an account does to the users.
use nestjs_app.Prelude.{
  ℕ, ◌+◌, ◌≤◌, ◌≡◌, refl, ◌∙◌, ◌⊎◌, inl, inr, String, true, false, Option, List, [], ◌∷◌, ◌++◌,
  arith, eq_iff, if◌then◌else◌, any, Bool-cases, ltb, length,
}
use nestjs_app.Js.{to_lower_case}
use nestjs_app.Result.{Exec, Result, ok, err, pure, ◌>>◌, database, unique_violation}
use nestjs_app.Db.{Orm, Db, Documented, settle, User}
use nestjs_app.Users.Lookup.{same_email, live_with_email}
use nestjs_app.Users.JoinRows.{
  replace_join_rows, replace_distinct, check_ids, delete_owned, save_rows,
}
use nestjs_app.Users.Create.{
  CreateUserInput, new_user, given_ids, assign_roles, assign_default_role,
  create_user_in_transaction,
}

-- How many live accounts answer to the email.
abbrev pub accounts : String → List User → ℕ
accounts email [] = 0
accounts email (u ∷ us) = (if live_with_email email u then 1 else 0) + accounts email us

abbrev pub HasUniqueEmails : Db → Type 0
HasUniqueEmails db = (email : String) → accounts email db.users ≤ 1

accounts-append :
    (email : String) (us vs : List User)
    → accounts email (us ++ vs) ≡ accounts email us + accounts email vs
accounts-append email [] vs = omega arith
accounts-append email (u ∷ us) vs = omega (arith, accounts-append email us vs)

accounts-any :
    (email : String) (us : List User)
    → any (live_with_email email) us ≡ false
    → accounts email us ≡ 0
accounts-any email [] h = refl
accounts-any email (u ∷ us) h = ground (arith, accounts-any email us)

accounts-same :
    (a b : String) (us : List User)
    → to_lower_case a ≡ to_lower_case b
    → accounts a us ≡ accounts b us
accounts-same a b [] e = refl
accounts-same a b (u ∷ us) e = rw (e, accounts-same a b us e)

-- A new account whose email no live account has leaves the emails unique.
pub accounts-new :
    (email : String) (us : List User) (new : User)
    → any (live_with_email new.email) us ≡ false
    → accounts email us ≤ 1
    → accounts email (us ++ new ∷ []) ≤ 1
accounts-new email us new free h = elim (Bool-cases (same_email email new)) [
  | inl same ↦ ground (
    arith,
    accounts-append email us (new ∷ []),
    accounts-any new.email us free,
    accounts-same new.email email us ((eq_iff _ _).0 same),
  )
  | inr other ↦ ground (arith, accounts-append email us (new ∷ []))
]

module _ (orm : Orm) (documented : Documented orm) where
  -- Creating an account adds it to the users, or leaves them as they are.
  abbrev pub AddsAtMost : User → List User → List User → Type 0
  AddsAtMost new before after =
      (after ≡ before)
      ⊎ ((any (live_with_email new.email) before ≡ false) × (after ≡ before ++ new ∷ []))

  assign_roles-users :
      (user_id : String) (ids : List String) (now : ℕ) (db : Db)
      → (assign_roles orm user_id ids now db).1.users ≡ db.users
  unfolding assign_roles replace_join_rows replace_distinct check_ids delete_owned save_rows
  assign_roles-users user_id ids now db = ground arith

  assign_default_role-users :
      (user_id : String) (now : ℕ) (db : Db)
      → (assign_default_role orm user_id now db).1.users ≡ db.users
  unfolding assign_default_role
  assign_default_role-users user_id now db = ground arith

  -- The rest of the transaction, after the user's row is saved.
  settle-users :
      (new : User) (db saved : Db) (r : Result User × Db)
      → any (live_with_email new.email) db.users ≡ false
      → saved.users ≡ db.users ++ new ∷ []
      → r.1.users ≡ saved.users
      → AddsAtMost new db.users (settle db r).1.users
  settle-users new db saved (ok user, after) free e k = inr (free, k ∙ e)
  settle-users new db saved (err e', after) free e k = inl refl

  abbrev saved_with : User → Db → Db
  saved_with new db = record db { users = db.users ++ new ∷ [] }

  -- The transaction's steps after the user's row is saved.
  assign : CreateUserInput → Option (List String) → String → ℕ → Exec Db User
  assign input role_ids id now = do
    if ltb 0 (length (given_ids role_ids))
        then assign_roles orm id (given_ids role_ids) now
        else assign_default_role orm id now
    pure (new_user input id now)

  assign-users :
      (input : CreateUserInput) (role_ids : Option (List String)) (id : String) (now : ℕ) (db : Db)
      → (assign input role_ids id now db).1.users ≡ db.users
  unfolding assign
  assign-users input role_ids id now db = ground (
    arith,
    assign_roles-users id (given_ids role_ids) now db,
    assign_default_role-users id now db,
  )

  create_user_free :
      (input : CreateUserInput) (role_ids : Option (List String)) (id : String) (now : ℕ) (db : Db)
      → any (live_with_email input.email) db.users ≡ false
      → create_user_in_transaction orm input role_ids id now db
        ≡ settle db (assign input role_ids id now (saved_with (new_user input id now) db))
  unfolding create_user_in_transaction assign
  create_user_free input role_ids id now db free =
      rw (documented.transaction_lem, documented.insert_lem, free)

  -- An email that a live account has is refused by the unique index, and the transaction is undone.
  pub create_user_taken :
      (input : CreateUserInput) (role_ids : Option (List String)) (id : String) (now : ℕ) (db : Db)
      → any (live_with_email input.email) db.users ≡ true
      → create_user_in_transaction orm input role_ids id now db
        ≡ (err (database unique_violation), db)
  unfolding create_user_in_transaction
  create_user_taken input role_ids id now db taken =
      rw (documented.transaction_lem, documented.insert_lem, taken)

  pub create_user-users :
      (input : CreateUserInput) (role_ids : Option (List String)) (id : String) (now : ℕ) (db : Db)
      → AddsAtMost
          (new_user input id now)
          db.users
          (create_user_in_transaction orm input role_ids id now db).1.users
  create_user-users input role_ids id now db =
      elim (Bool-cases (any (live_with_email input.email) db.users)) [
        | inl taken ↦ rw (create_user_taken input role_ids id now db taken) (inl refl)
        | inr free ↦ rw (create_user_free input role_ids id now db free) (
            settle-users (new_user input id now) db (saved_with (new_user input id now) db) _ free
              refl (assign-users input role_ids id now (saved_with (new_user input id now) db)))
      ]

  pub create_user-HasUniqueEmails :
      (input : CreateUserInput) (role_ids : Option (List String)) (id : String) (now : ℕ) (db : Db)
      → HasUniqueEmails db
      → HasUniqueEmails (create_user_in_transaction orm input role_ids id now db).1
  create_user-HasUniqueEmails input role_ids id now db unique email =
      elim (create_user-users input role_ids id now db) [
        | inl same ↦ rw same (unique email)
        | inr (free, added) ↦
            rw added (accounts-new email db.users (new_user input id now) free (unique email))
      ]
