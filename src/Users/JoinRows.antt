-- ===== src/Users/JoinRows.antt =====
-- src/common/utils/replace-join-rows.ts, over any join table.
pub mod Sets
pub mod Laws
use Prim.Native.String
use nestjs_app.Prelude.{
  String, Bool, not, List, [], ◌∷◌, map, str_eq, ◌==◌, ltb, if◌then◌else◌, length, any, keep,
}
use nestjs_app.Js.{join}
use nestjs_app.Result.{Exec, Result, pure, throw, gets, ◌>>=◌, ◌>>◌, http, bad_request, Exception}
use nestjs_app.Db.{Orm, Db}

-- `set.has(id)`
abbrev pub has : String → List String → Bool
has id = any (str_eq id)

-- `[...new Set(ids)]`: each id once, in the order of its first occurrence.
distinct_from : List String → List String → List String
distinct_from seen [] = []
distinct_from seen (id ∷ ids) =
    let rest = distinct_from (id ∷ seen) ids in
    if has id seen then distinct_from seen ids else id ∷ rest

unfoldable pub distinct : List String → List String
unfolding distinct_from
distinct ids = distinct_from [] ids

-- The arguments `joinEntity`, `filter`, `foreignKeyField`, `referencedEntity` and `label`: where
-- the join rows stand, which belong to the owner, how a row for an id is made, when two rows
-- have the same primary key, the ids of the referenced table, and whether the owner's row exists.
pub record JoinTable : Type 1 where
  pub Row : Type 0
  pub rows : Db → List Row
  pub write : List Row → Db → Db
  pub of_owner : Row → Bool
  pub same_key : Row → Row → Bool
  pub create : String → Row
  pub referenced_ids : Db → List String
  pub owner_exists : Db → Bool
  pub label : String

unfoldable pub unknown_ids : String → List String → Exception
unfolding join
unknown_ids label missing =
    http bad_request
      (String.◌++◌ "Unknown " (String.◌++◌ label (String.◌++◌ " id(s): " (join ", " missing))))

-- The ids that the referenced table does not hold.
abbrev pub missing_ids : List String → List String → List String
missing_ids found ids = keep (λ id. not (has id found)) ids

module _ (orm : Orm) (table : JoinTable) where
  open table use {Row, rows, write, of_owner, same_key, create, referenced_ids, owner_exists, label}

  -- The rows of the referenced table are read by their ids; the database holds each id once.
  unfoldable pub check_ids : List String → Exec Db (Unit {0})
  unfolding unknown_ids
  check_ids distinct_ids = do
    existing ← gets (λ db. orm.find (λ id. has id distinct_ids) (referenced_ids db))
    if length existing == length distinct_ids
        then pure tt
        else throw (unknown_ids label (missing_ids existing distinct_ids))

  unfoldable pub delete_owned : Exec Db (Unit {0})
  delete_owned db = (Result.ok tt, write (orm.delete of_owner (rows db)) db)

  -- `save` of the new join rows, whose foreign keys name the owner's row.
  unfoldable pub save_rows : List String → Exec Db (Unit {0})
  save_rows distinct_ids = do
    saved ← λ db.
        (orm.save_all same_key (λ row. owner_exists db) (map create distinct_ids) (rows db), db)
    λ db. (Result.ok tt, write saved db)

  unfoldable pub replace_distinct : List String → Exec Db (Unit {0})
  replace_distinct distinct_ids = do
    if ltb 0 (length distinct_ids) then check_ids distinct_ids else pure tt
    delete_owned
    if ltb 0 (length distinct_ids) then save_rows distinct_ids else pure tt

  unfoldable pub replace_join_rows : List String → Exec Db (Unit {0})
  replace_join_rows ids = replace_distinct (distinct ids)
