-- ===== src/Seeds/Growth.antt =====
-- Computations that only add rows, and that, once they have succeeded, find all that they need.
use nestjs_app.Prelude.{
  ◌≡◌, refl, ap, sym, subst, ◌∙◌, Bool, true, Option, none, some, List, [], ◌∷◌, ◌++◌, arith, find?,
  find?-append, find?-append_last, any_of_missing,
}
use mathlib.Core.List.{append_assoc, append-nil}
use nestjs_app.Result.{Exec, Result, ok, err, pure, continue, ◌>>=◌}
use nestjs_app.Db.{Orm, Db, Documented}
use nestjs_app.Seeds.Tables.{Table}
use nestjs_app.Seeds.{SeedEnv, save_missing, find_or_save}

module _ {ℓ} {A : Type ℓ} where
  -- The second list continues the first.
  abbrev pub Extends : List A → List A → Type ℓ
  Extends xs ys = (more : List A) × (ys ≡ xs ++ more)

  pub Extends-refl : (xs : List A) → Extends xs xs
  Extends-refl xs = ([], sym (append-nil xs))

  pub Extends-trans : (xs ys zs : List A) → Extends xs ys → Extends ys zs → Extends xs zs
  Extends-trans xs ys zs (m, e) (n, f) = (m ++ n, f ∙ ap (λ l. l ++ n) e ∙ append_assoc xs m n)

-- Rows are only added, and the tokens are left alone.
pub record Grows (before after : Db) : Type 0 where
  pub users : Extends before.users after.users
  pub roles : Extends before.roles after.roles
  pub user_roles : Extends before.user_roles after.user_roles
  pub permissions : Extends before.permissions after.permissions
  pub role_permissions : Extends before.role_permissions after.role_permissions
  pub refresh_tokens : after.refresh_tokens ≡ before.refresh_tokens
  pub password_reset_tokens : after.password_reset_tokens ≡ before.password_reset_tokens

pub Grows-refl : (db : Db) → Grows db db
Grows-refl db = record {
  users = Extends-refl db.users;
  roles = Extends-refl db.roles;
  user_roles = Extends-refl db.user_roles;
  permissions = Extends-refl db.permissions;
  role_permissions = Extends-refl db.role_permissions;
  refresh_tokens = refl;
  password_reset_tokens = refl;
}

pub Grows-trans : {a b c : Db} → Grows a b → Grows b c → Grows a c
Grows-trans g h = record {
  users = Extends-trans _ _ _ g.users h.users;
  roles = Extends-trans _ _ _ g.roles h.roles;
  user_roles = Extends-trans _ _ _ g.user_roles h.user_roles;
  permissions = Extends-trans _ _ _ g.permissions h.permissions;
  role_permissions = Extends-trans _ _ _ g.role_permissions h.role_permissions;
  refresh_tokens = h.refresh_tokens ∙ g.refresh_tokens;
  password_reset_tokens = h.password_reset_tokens ∙ g.password_reset_tokens;
}

-- A computation, and the same one at a later time.
pub record IsRepeatable {A : Type 0} (m again : Exec Db A) : Type 0 where
  pub grows : (db : Db) → Grows db (m db).1
  -- After a success the later one answers the same on every database that has grown since, and
  -- writes nothing.
  pub repeats :
      (db after : Db) (a : A)
      → m db ≡ (ok a, after)
      → (later : Db) → Grows after later
      → again later ≡ (ok a, later)

pub pure-IsRepeatable : {A : Type 0} (a : A) → IsRepeatable (pure {S = Db} a) (pure a)
pure-IsRepeatable a = record { grows = Grows-refl; repeats = λ db after b e later g. ground arith }

module _ {A B : Type 0} (m m' : Exec Db A) (f f' : A → Exec Db B) (first : IsRepeatable m m')
    (second : (a : A) → IsRepeatable (f a) (f' a)) where
  bind-Grows : (db : Db) (r : Result A × Db) → m db ≡ r → Grows db (continue r.0 f r.1).1
  bind-Grows db (ok a, db1) e =
      Grows-trans (subst (λ (x : Result A × Db). Grows db x.1) e (first.grows db))
        ((second a).grows db1)
  bind-Grows db (err x, db1) e = subst (λ (x : Result A × Db). Grows db x.1) e (first.grows db)

  bind_repeats :
      (db after : Db) (b : B) (r : Result A × Db)
      → m db ≡ r
      → continue r.0 f r.1 ≡ (ok b, after)
      → (later : Db) → Grows after later
      → (m' >>= f') later ≡ (ok b, later)
  bind_repeats db after b (ok a, db1) e h later g =
      let grown : Grows db1 after =
        subst (λ (x : Result B × Db). Grows db1 x.1) h ((second a).grows db1) in
      let found = first.repeats db db1 a e later (Grows-trans grown g) in
      ap (λ (x : Result A × Db). continue x.0 f' x.1) found
      ∙ (second a).repeats db1 after b h later g
  bind_repeats db after b (err x, db1) e h later g = absurd (ground arith)

  pub bind-IsRepeatable : IsRepeatable (m >>= f) (m' >>= f')
  bind-IsRepeatable = record {
    grows = λ db. bind-Grows db (m db) refl;
    repeats = λ db after b h later g. bind_repeats db after b (m db) refl h later g;
  }

module _ (orm : Orm) (documented : Documented orm) where
  -- What is found stays found.
  pub find_one-grown :
      {R : Type 0} (test : R → Bool) (rows later : List R) (row : R)
      → orm.find_one test rows ≡ some row
      → Extends rows later
      → orm.find_one test later ≡ some row
  find_one-grown test rows later row e (more, same) =
      documented.find_one_lem test later
      ∙ ap (find? test) same
      ∙ find?-append test rows more (sym (documented.find_one_lem test rows) ∙ e)

  -- A table of the database, in which saving a row appends it.
  pub record IsTable (t : Table orm) (test : t.Row → Bool) (row : t.Row) : Type 0 where
    pub tested : test row ≡ true
    pub rows-write : (rows : List t.Row) (db : Db) → t.rows (t.write rows db) ≡ rows
    pub rows_extend :
        (before after : Db) → Grows before after → Extends (t.rows before) (t.rows after)
    pub write_grows : (db : Db) → Grows db (t.write (t.rows db ++ row ∷ []) db)
    pub save_appends :
        (db : Db) (rows : List t.Row)
        → find? test (t.rows db) ≡ none
        → t.save row db ≡ ok rows
        → rows ≡ t.rows db ++ row ∷ []

  module _ (env env' : SeedEnv) (t : Table orm) (test : t.Row → Bool) (row row' : t.Row)
      (is_table : IsTable t test row) where
    stored-Grows :
        (db : Db) (r : Result (List t.Row))
        → find? test (t.rows db) ≡ none
        → t.save row db ≡ r
        → Grows db (continue r (λ saved later. (Result.ok row, t.write saved later)) db).1
    stored-Grows db (ok saved) none_yet e =
        rw (is_table.save_appends db saved none_yet e) (is_table.write_grows db)
    stored-Grows db (err x) none_yet e = Grows-refl db

    missing-Grows :
        (db : Db) (found : Option t.Row)
        → find? test (t.rows db) ≡ found
        → Grows db (save_missing orm env t row found db).1
    missing-Grows db (some x) e = Grows-refl db
    missing-Grows db none e = stored-Grows db (t.save row db) e refl

    -- Where the row is found, the same row is found later.
    found_later :
        (after later : Db) (x : t.Row)
        → find? test (t.rows after) ≡ some x
        → Grows after later
        → find_or_save orm env' t test row' later ≡ (ok x, later)
    unfolding find_or_save
    found_later after later x e g =
        ap (λ found. save_missing orm env' t row' found later)
          (find_one-grown test (t.rows after) (t.rows later) x
            (documented.find_one_lem test (t.rows after) ∙ e) (is_table.rows_extend after later g))

    stored_later :
        (db after : Db) (a : t.Row) (r : Result (List t.Row))
        → find? test (t.rows db) ≡ none
        → t.save row db ≡ r
        → continue r (λ saved later. (Result.ok row, t.write saved later)) db ≡ (ok a, after)
        → find? test (t.rows after) ≡ some a
    stored_later db after a (ok saved) none_yet e h =
        let same : after ≡ t.write saved db = ground arith in
        let row_same : row ≡ a = ground arith in
        ap (λ d. find? test (t.rows d)) same
        ∙ ap (find? test) (is_table.rows-write saved db ∙ is_table.save_appends db saved none_yet e)
        ∙ find?-append_last test (t.rows db) row (any_of_missing test (t.rows db) none_yet)
            is_table.tested
        ∙ ap (λ x. some x) row_same
    stored_later db after a (err x) none_yet e h = absurd (ground arith)

    missing_later :
        (db after : Db) (a : t.Row) (found : Option t.Row)
        → find? test (t.rows db) ≡ found
        → save_missing orm env t row found db ≡ (ok a, after)
        → find? test (t.rows after) ≡ some a
    missing_later db after a (some x) e h =
        let same : db ≡ after = ground arith in
        let row_same : x ≡ a = ground arith in
        ap (λ d. find? test (t.rows d)) (sym same) ∙ e ∙ ap (λ x. some x) row_same
    missing_later db after a none e h = stored_later db after a (t.save row db) e refl h

    -- What a success returns is found from then on.
    pub find_or_save-found :
        (db after later : Db) (a : t.Row)
        → find_or_save orm env t test row db ≡ (ok a, after)
        → Grows after later
        → find? test (t.rows later) ≡ some a
    unfolding find_or_save
    find_or_save-found db after later a h g =
        let now = missing_later db after a (find? test (t.rows db)) refl (
          ap (λ found. save_missing orm env t row found db)
            (sym (documented.find_one_lem test (t.rows db)))
          ∙ h) in
        sym (documented.find_one_lem test (t.rows later))
        ∙ find_one-grown test (t.rows after) (t.rows later) a
            (documented.find_one_lem test (t.rows after) ∙ now) (is_table.rows_extend after later g)

    pub find_or_save-IsRepeatable :
        IsRepeatable (find_or_save orm env t test row) (find_or_save orm env' t test row')
    unfolding find_or_save
    find_or_save-IsRepeatable = record {
      grows = λ db.
          subst (λ found. Grows db (save_missing orm env t row found db).1)
            (sym (documented.find_one_lem test (t.rows db))) (missing-Grows db _ refl);
      repeats = λ db after a h later g.
          found_later after later a
            (missing_later db after a (find? test (t.rows db)) refl (
              ap (λ found. save_missing orm env t row found db)
                (sym (documented.find_one_lem test (t.rows db)))
              ∙ h))
            g;
    }
