-- ===== src/Db/TypeOrm.antt =====
-- What the code uses of TypeORM and PostgreSQL, neither of which is in the repository: the
-- operations are a parameter of the model, and `Documented` is what their documentation says.
use nestjs_app.Prelude.{
  ◌≡◌, refl, ◌&&◌, Bool, Option, List, [], ◌∷◌, ◌++◌, find?, any, all, keep, modify, not,
  if◌then◌else◌,
}
use nestjs_app.Result.{Exec, Result, ok, err, database, unique_violation, foreign_key_violation}
use nestjs_app.Db.Entities.{Db}

pub record Orm : Type 1 where
  pub find_one : {R : Type 0} → (R → Bool) → List R → Option R
  pub find : {R : Type 0} → (R → Bool) → List R → List R
  -- `save` of a new row; the test tells the stored rows that a unique index sets against it.
  pub insert : {R : Type 0} → (R → Bool) → R → List R → Result (List R)
  -- `save` of a row that was loaded, an UPDATE: the first test tells the stored row with its primary
  -- key, the second the rows that a unique index sets against it.
  pub save_loaded : {R : Type 0} → (R → Bool) → (R → Bool) → R → List R → Result (List R)
  -- `save` of rows that carry their primary keys: a stored row with the same key is kept, and the
  -- foreign keys of every row are checked by the second test.
  pub save_all : {R : Type 0} → (R → R → Bool) → (R → Bool) → List R → List R → Result (List R)
  pub update : {R : Type 0} → (R → Bool) → (R → R) → List R → List R
  pub delete : {R : Type 0} → (R → Bool) → List R → List R
  pub transaction : {A : Type 0} → Exec Db A → Exec Db A

-- COMMIT keeps what the transaction wrote, ROLLBACK restores what stood before.
abbrev pub settle : {A : Type 0} → Db → Result A × Db → Result A × Db
settle db (ok a, db') = (ok a, db')
settle db (err e, db') = (err e, db)

abbrev pub insert_unless : {R : Type 0} → (R → Bool) → R → List R → Result (List R)
insert_unless clash row rows =
    if any clash rows then err (database unique_violation) else ok (rows ++ row ∷ [])

abbrev pub overwrite_unless : {R : Type 0} → (R → Bool) → (R → Bool) → R → List R → Result (List R)
overwrite_unless same clash row rows =
    if any (λ other. clash other && not (same other)) rows
    then err (database unique_violation)
    else ok (modify same (λ _. row) rows)

abbrev pub merge : {R : Type 0} → (R → R → Bool) → List R → List R → List R
merge same [] rows = rows
merge same (new ∷ more) rows =
    merge same more (if any (same new) rows then rows else rows ++ new ∷ [])

abbrev pub merge_if_referenced :
    {R : Type 0} → (R → R → Bool) → (R → Bool) → List R → List R → Result (List R)
merge_if_referenced same refers new rows =
    if all refers new then ok (merge same new rows) else err (database foreign_key_violation)

pub record Documented (orm : Orm) : Type 1 where
  pub find_one_lem :
      {R : Type 0} (p : R → Bool) (rows : List R) → orm.find_one p rows ≡ find? p rows
  pub find_lem : {R : Type 0} (p : R → Bool) (rows : List R) → orm.find p rows ≡ keep p rows
  pub insert_lem :
      {R : Type 0} (clash : R → Bool) (row : R) (rows : List R)
      → orm.insert clash row rows ≡ insert_unless clash row rows
  pub save_loaded_lem :
      {R : Type 0} (same clash : R → Bool) (row : R) (rows : List R)
      → orm.save_loaded same clash row rows ≡ overwrite_unless same clash row rows
  pub save_all_lem :
      {R : Type 0} (same : R → R → Bool) (refers : R → Bool) (new rows : List R)
      → orm.save_all same refers new rows ≡ merge_if_referenced same refers new rows
  pub update_lem :
      {R : Type 0} (p : R → Bool) (f : R → R) (rows : List R)
      → orm.update p f rows ≡ modify p f rows
  pub delete_lem :
      {R : Type 0} (p : R → Bool) (rows : List R) → orm.delete p rows ≡ keep (λ r. not (p r)) rows
  pub transaction_lem :
      {A : Type 0} (m : Exec Db A) (db : Db) → orm.transaction m db ≡ settle db (m db)

-- The operations on plain lists, which behave as documented.
abbrev pub list_orm : Orm
list_orm = record {
  find_one = find?;
  find = keep;
  insert = insert_unless;
  save_loaded = overwrite_unless;
  save_all = merge_if_referenced;
  update = modify;
  delete = λ p. keep (λ r. not (p r));
  transaction = λ m db. settle db (m db);
}

pub list_orm-Documented : Documented list_orm
list_orm-Documented = record {
  find_one_lem = λ p rows. refl;
  find_lem = λ p rows. refl;
  insert_lem = λ clash row rows. refl;
  save_loaded_lem = λ same clash row rows. refl;
  save_all_lem = λ same refers new rows. refl;
  update_lem = λ p f rows. refl;
  delete_lem = λ p rows. refl;
  transaction_lem = λ m db. refl;
}
