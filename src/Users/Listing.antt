-- ===== src/Users/Listing.antt =====
-- The listing of src/modules/users/users.service.ts: `findAll` and `loadUsersWithRoles`.
pub mod Items
pub mod Samples
use Prim.Native.String
use nestjs_app.Prelude.{
  ℕ, ◌*◌, ◌-◌, String, Bool, true, false, ◌&&◌, ◌||◌, Option, none, some, List, [], ◌∷◌, map,
  str_eq, length, ◌==◌, if◌then◌else◌,
}
use nestjs_app.Js.{trim}
use nestjs_app.Db.{Orm, Db, User, Role}
use nestjs_app.Users.Lookup.{UserWithRoles, is_live, role_of}
use nestjs_app.Users.JoinRows.{has}

pub record ListUsersQueryDto : Type 0 where
  pub page : Option ℕ
  pub limit : Option ℕ
  pub q : Option String

-- What one page of `findAndCount` is: its rows, and the number of all rows.
pub record Page : Type 0 where
  pub rows : List User
  pub count : ℕ

-- `findAndCount` ordered by `createdAt` descending, with the filter, `skip` and `take`; and
-- `ILIKE` of a pattern and a text.
pub record Query : Type 0 where
  pub find_and_count : (User → Bool) → ℕ → ℕ → List User → Page
  pub i_like : String → String → Bool

pub record UserPage : Type 0 where
  pub items : List UserWithRoles
  pub total : ℕ
  pub page : ℕ
  pub limit : ℕ

abbrev pub or_default : ℕ → Option ℕ → ℕ
or_default default none = default
or_default default (some n) = n

abbrev pub pattern_of : String → String
pattern_of q = String.◌++◌ "%" (String.◌++◌ q "%")

abbrev pub prefer {ℓ} : {A : Type ℓ} → Option A → Option A → Option A
prefer (some a) other = some a
prefer none other = other

-- `new Map(…).get(id)`: the last entry with the key.
abbrev pub get_last : String → List UserWithRoles → Option (List Role)
get_last id [] = none
get_last id (u ∷ us) = prefer (get_last id us) (if str_eq u.user.id id then some u.roles else none)

-- `rolesById.get(user.id) ?? []`
abbrev pub or_empty : Option (List Role) → List Role
or_empty none = []
or_empty (some roles) = roles

module _ (orm : Orm) (query : Query) where
  abbrev pub name_like : String → Option String → Bool
  name_like pattern none = false
  name_like pattern (some name) = query.i_like pattern name

  -- The filter of a search; an empty search has none.
  unfoldable pub matches : Option String → User → Bool
  matches none user = true
  matches (some q) user =
      str_eq (trim q) ""
      || query.i_like (pattern_of (trim q)) user.email
      || name_like (pattern_of (trim q)) user.first_name
      || name_like (pattern_of (trim q)) user.last_name

  abbrev pub with_own_roles : Db → User → UserWithRoles
  with_own_roles db user = record {
    user = user;
    roles = orm.find (role_of db.user_roles user.id) db.roles;
  }

  unfoldable pub load_users_with_roles : List String → Db → List UserWithRoles
  load_users_with_roles ids db =
      if length ids == 0
      then []
      else map (with_own_roles db) (orm.find (λ user. is_live user && has user.id ids) db.users)

  unfoldable pub find_all : ListUsersQueryDto → Db → UserPage
  unfolding matches load_users_with_roles
  find_all dto db =
      let page = or_default 1 dto.page in
      let limit = or_default 10 dto.limit in
      let found =
        query.find_and_count (λ user. is_live user && matches dto.q user) ((page - 1) * limit) limit
          db.users in
      let loaded = load_users_with_roles (map (λ (user : User). user.id) found.rows) db in
      record {
        items =
            map (λ user. record { user = user; roles = or_empty (get_last user.id loaded) })
              found.rows;
        total = found.count;
        page = page;
        limit = limit;
      }
