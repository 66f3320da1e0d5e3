-- ===== src/Users/JoinRows/Laws.antt =====
-- What `replaceJoinRows` writes, and when it refuses.
use mathlib.Core.List.{append-nil, append_assoc}
use nestjs_app.Prelude.{
  ℕ, suc, ◌≡◌, refl, sym, ap, ◌∙◌, ◌≢◌, inl, inr, String, Bool, true, false, not, ◌||◌, List, [],
  ◌∷◌, ◌++◌, map, arith, str_eq, eq_iff, ◌==◌, ltb, if◌then◌else◌, length, any, all, keep,
  Bool-cases,
}
use nestjs_app.Result.{ok, err}
use nestjs_app.Db.{Orm, Db, Documented, merge}
use nestjs_app.Users.JoinRows.{
  JoinTable, has, distinct, missing_ids, unknown_ids, check_ids, delete_owned, save_rows,
  replace_distinct, replace_join_rows,
}
use nestjs_app.Users.JoinRows.Sets.{
  IsDistinct, distinct-IsDistinct, length-found_iff, has-keep, all-has, nil_of_length,
}

-- What the join tables of the program have in common: the rows are a field of the database, a
-- created row belongs to the owner, and its key is the owner and the id.
pub record IsJoinTable (table : JoinTable) : Type 0 where
  pub rows-write : (rows : List table.Row) (db : Db) → table.rows (table.write rows db) ≡ rows
  pub write-write :
      (rows rows' : List table.Row) (db : Db)
      → table.write rows (table.write rows' db) ≡ table.write rows db
  pub owner-write :
      (rows : List table.Row) (db : Db)
      → table.owner_exists (table.write rows db) ≡ table.owner_exists db
  pub of_owner-create : (id : String) → table.of_owner (table.create id) ≡ true
  pub same_key-create :
      (a b : String) → table.same_key (table.create a) (table.create b) ≡ str_eq a b
  pub same_key-owner :
      (a : String) (row : table.Row)
      → table.of_owner row ≡ false
      → table.same_key (table.create a) row ≡ false

module _ (orm : Orm) (documented : Documented orm) (table : JoinTable)
    (laws : IsJoinTable table) where
  open table use {Row, rows, write, of_owner, same_key, create, referenced_ids, owner_exists, label}

  -- The rows of the other owners.
  abbrev pub others : Db → List Row
  others db = keep (λ row. not (of_owner row)) (rows db)

  any-others :
      (a : String) (rs : List Row)
      → any (same_key (create a)) (keep (λ row. not (of_owner row)) rs) ≡ false
  any-others a [] = refl
  any-others a (r ∷ rs) = ground (arith, any-others a rs, laws.same_key-owner a r)

  any-append : (p : Row → Bool) (xs ys : List Row) → any p (xs ++ ys) ≡ (any p xs || any p ys)
  any-append p [] ys = refl
  any-append p (x ∷ xs) ys = ground (arith, any-append p xs ys)

  -- No id of the first list stands in the second.
  abbrev AreApart : List String → List Row → Type 0
  AreApart [] rs = Unit
  AreApart (x ∷ xs) rs = (any (same_key (create x)) rs ≡ false) × AreApart xs rs

  AreApart-concat :
      (xs : List String) (rs : List Row) (x : String)
      → has x xs ≡ false
      → AreApart xs rs
      → AreApart xs (rs ++ create x ∷ [])
  AreApart-concat [] rs x h k = tt
  AreApart-concat (y ∷ xs) rs x h (p, k) = (
    ground (
      arith,
      any-append (same_key (create y)) rs (create x ∷ []),
      laws.same_key-create y x,
      eq_iff x y,
      eq_iff y x,
    ),
    AreApart-concat xs rs x (ground arith) k,
  )

  merge-create :
      (ids : List String) (rs : List Row)
      → IsDistinct ids
      → AreApart ids rs
      → merge same_key (map create ids) rs ≡ rs ++ map create ids
  merge-create [] rs d k = sym (append-nil rs)
  merge-create (x ∷ ids) rs (new, d) (p, k) =
      rw (p, merge)
        (merge-create ids (rs ++ create x ∷ []) d (AreApart-concat ids rs x new k)
          ∙ append_assoc rs (create x ∷ []) (map create ids))

  AreApart-others :
      (ids : List String) (rs : List Row) → AreApart ids (keep (λ row. not (of_owner row)) rs)
  AreApart-others [] rs = tt
  AreApart-others (x ∷ ids) rs = (any-others x rs, AreApart-others ids rs)

  all-referenced : (b : Bool) (rs : List Row) → b ≡ true → all (λ row. b) rs ≡ true
  all-referenced b [] e = refl
  all-referenced b (r ∷ rs) e = ground (arith, all-referenced b rs e)

  -- Deleting the owner's rows and saving the new ones.
  abbrev pub replaced : List String → Db → Db
  replaced distinct_ids db = write (others db ++ map create distinct_ids) db

  delete_owned-lem : (db : Db) → delete_owned orm table db ≡ (ok tt, write (others db) db)
  unfolding delete_owned
  delete_owned-lem db = rw documented.delete_lem

  save_rows-lem :
      (ids : List String) (db : Db)
      → IsDistinct ids
      → owner_exists db ≡ true
      → save_rows orm table ids (write (others db) db) ≡ (ok tt, replaced ids db)
  unfolding save_rows
  save_rows-lem ids db d owner = rw (
    documented.save_all_lem,
    laws.owner-write,
    owner,
    all-referenced true (map create ids) refl,
    laws.rows-write,
    merge-create ids (others db) d (AreApart-others ids (rows db)),
    laws.write-write,
  )

  missing-keep :
      (ids known xs : List String)
      → all (λ x. has x ids) xs ≡ true
      → missing_ids (keep (λ id. has id ids) known) xs ≡ missing_ids known xs
  missing-keep ids known [] h = refl
  missing-keep ids known (x ∷ xs) h =
      ground (arith, has-keep x (λ id. has id ids) known, missing-keep ids known xs)

  abbrev missing : List String → Db → List String
  missing ids db = missing_ids (referenced_ids db) (distinct ids)

  check_ids-ok :
      (ids : List String) (db : Db)
      → IsDistinct ids
      → IsDistinct (referenced_ids db)
      → missing_ids (referenced_ids db) ids ≡ []
      → check_ids orm table ids db ≡ (ok tt, db)
  unfolding check_ids
  check_ids-ok ids db d k none_missing =
      rw (documented.find_lem, (length-found_iff (referenced_ids db) ids k d).1 none_missing)

  check_ids-err :
      (ids : List String) (db : Db)
      → IsDistinct ids
      → IsDistinct (referenced_ids db)
      → missing_ids (referenced_ids db) ids ≢ []
      → check_ids orm table ids db
        ≡ (err (unknown_ids label (missing_ids (referenced_ids db) ids)), db)
  unfolding check_ids
  check_ids-err ids db d k some_missing =
      elim (Bool-cases (length (keep (λ id. has id ids) (referenced_ids db)) == length ids)) [
        | inl e ↦ absurd (some_missing ((length-found_iff (referenced_ids db) ids k d).0 e))
        | inr e ↦ rw (
          documented.find_lem,
          e,
          missing-keep ids (referenced_ids db) ids (all-has ids ids (λ x h. h)),
        )
      ]

  nonempty : (n : ℕ) → ltb 0 (suc n) ≡ true
  nonempty n = ground arith

  replace_known :
      (ids : List String) (db : Db)
      → IsDistinct ids
      → IsDistinct (referenced_ids db)
      → owner_exists db ≡ true
      → missing_ids (referenced_ids db) ids ≡ []
      → replace_distinct orm table ids db ≡ (ok tt, replaced ids db)
  unfolding replace_distinct
  replace_known [] db d k owner e =
      rw (delete_owned-lem db)
        (ap (λ (rs : List Row). (ok tt, write rs db)) (sym (append-nil (others db))))
  replace_known (x ∷ ids) db d k owner e = rw (
    nonempty (length ids),
    check_ids-ok (x ∷ ids) db d k e,
    delete_owned-lem db,
    save_rows-lem (x ∷ ids) db d owner,
  )

  replace_unknown :
      (ids : List String) (db : Db)
      → IsDistinct ids
      → IsDistinct (referenced_ids db)
      → missing_ids (referenced_ids db) ids ≢ []
      → replace_distinct orm table ids db
        ≡ (err (unknown_ids label (missing_ids (referenced_ids db) ids)), db)
  unfolding replace_distinct
  replace_unknown [] db d k e = absurd (e refl)
  replace_unknown (x ∷ ids) db d k e = rw (nonempty (length ids), check_ids-err (x ∷ ids) db d k e)

  -- An id that the referenced table does not hold is refused by name, and nothing is written;
  -- otherwise the owner's rows are exactly one for each distinct id, and the other rows stay.
  pub replace_join_rows_lem :
      (ids : List String) (db : Db)
      → IsDistinct (referenced_ids db)
      → owner_exists db ≡ true
      → replace_join_rows orm table ids db ≡ (
          if 0 == length (missing ids db)
          then (ok tt, replaced (distinct ids) db)
          else (err (unknown_ids label (missing ids db)), db))
  unfolding replace_join_rows
  replace_join_rows_lem ids db known owner = elim (Bool-cases (0 == length (missing ids db))) [
    | inl none_missing ↦ rw none_missing (
        replace_known (distinct ids) db (distinct-IsDistinct ids) known owner
          (nil_of_length _ (ground arith)))
    | inr some_missing ↦ rw some_missing (
        replace_unknown (distinct ids) db (distinct-IsDistinct ids) known
          (λ e. ground (arith, ap length e)))
  ]
