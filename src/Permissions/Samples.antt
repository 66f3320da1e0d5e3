-- ===== src/Permissions/Samples.antt =====
-- Small data for the tests: a cache that computes, and users whose roles have permissions.
use nestjs_app.Prelude.{
  ℕ, ◌+◌, ◌≡◌, ◌⊎◌, inl, inr, String, Bool, true, false, Option, none, some, [], ◌∷◌, arith, str_eq,
  eq_iff, ltb, if◌then◌else◌, ◌≢◌, Bool-cases,
}
use nestjs_app.Result.{Result, ok}
use nestjs_app.Db.{Db, Role, Permission, read, list_orm, list_orm-Documented}
use nestjs_app.Users.JoinRows.{has}
use nestjs_app.Auth.Samples.{two_sessions}
use nestjs_app.Permissions.Cache.{Redis, IsRedis, Backend, World, Rules}
use nestjs_app.Permissions.{get_permission_rules_for_user}
use nestjs_app.Permissions.Coherence.{Coherent, get_permission_rules-ReadsRules}

-- What a key holds, and until when.
abbrev pub Entries : Type 0
Entries = String → Option (ℕ × Rules)

abbrev pub unless_expired : ℕ → Option (ℕ × Rules) → Option Rules
unless_expired now none = none
unless_expired now (some (expiry, rules)) = if ltb now expiry then some rules else none

abbrev pub map_redis : Redis
map_redis = record {
  State = Entries;
  get = λ now key entries. ok (unless_expired now (entries key));
  set = λ now key rules ttl entries.
      (ok tt, λ other. if str_eq other key then some (now + ttl, rules) else entries other);
  del = λ keys entries. (ok tt, λ key. if has key keys then none else entries key);
}

abbrev answered : Option Rules → Result (Option Rules)
answered found = ok found

kept_by_del :
    (t : ℕ) (deleted : Bool) (entry : Option (ℕ × Rules)) (v : Rules)
    → answered (unless_expired t (if deleted then none else entry)) ≡ ok (some v)
    → answered (unless_expired t entry) ≡ ok (some v)
kept_by_del t true entry v e = absurd (ground arith)
kept_by_del t false entry v e = e

gone_by_del :
    (t : ℕ) (deleted : Bool) (entry : Option (ℕ × Rules)) (v : Rules)
    → deleted ≡ true
    → answered (unless_expired t (if deleted then none else entry)) ≢ ok (some v)
gone_by_del t deleted entry v d e = absurd (ground arith)

changed_by_set :
    (t expiry : ℕ) (key other : String) (value v : Rules) (entry : Option (ℕ × Rules))
    → answered (unless_expired t (if str_eq key other then some (expiry, value) else entry))
      ≡ ok (some v)
    → ((key ≡ other) × (v ≡ value)) ⊎ (answered (unless_expired t entry) ≡ ok (some v))
changed_by_set t expiry key other value v entry e = elim (Bool-cases (str_eq key other)) [
  | inl same ↦ inl ((eq_iff key other).0 same, ground arith)
  | inr differs ↦ inr (rw differs at e)
]

pub map_redis-IsRedis : IsRedis map_redis
map_redis-IsRedis = record {
  get-del = λ t key keys s v e. kept_by_del t (has key keys) (s key) v e;
  get-del_deleted = λ t key keys s v d h. gone_by_del t (has key keys) (s key) v h;
  get-set =
      λ t now key other value v ttl s e. changed_by_set t (now + ttl) key other value v (s key) e;
}

abbrev pub backend : Backend
backend = record { orm = list_orm; redis = map_redis; cache_ttl_ms = 300000 }

abbrev pub role_named : String → String → Bool → Role
role_named id name is_system = record {
  id = id;
  name = name;
  description = none;
  is_system = is_system;
  created_at = 0;
  updated_at = 0;
}

abbrev pub permission_on : String → String → Permission
permission_on id subject = record {
  id = id;
  action = read;
  subject = subject;
  description = none;
  created_at = 0;
  updated_at = 0;
}

-- Jane edits; the editors may read users, and nobody may read roles.
abbrev pub editors_db : Db
editors_db = record two_sessions {
  roles = role_named "r1" "editor" false ∷ role_named "r2" "admin" true ∷ [];
  user_roles = record { user_id = "u1"; role_id = "r1"; created_at = 0 } ∷ [];
  permissions = permission_on "p1" "User" ∷ permission_on "p2" "Role" ∷ [];
  role_permissions = record { role_id = "r1"; permission_id = "p1"; created_at = 0 } ∷ [];
}

abbrev pub cold : World backend
cold = record { db = editors_db; cache = λ key. none }

cold-Coherent : Coherent backend list_orm-Documented map_redis-IsRedis cold
cold-Coherent t user_id v e = absurd (ground arith)

-- Jane's rules have been read, and are cached.
abbrev pub warm : World backend
warm = (get_permission_rules_for_user backend 10 "u1" cold).1

pub warm-Coherent : Coherent backend list_orm-Documented map_redis-IsRedis warm
warm-Coherent =
    (get_permission_rules-ReadsRules backend list_orm-Documented map_redis-IsRedis 10 "u1" cold
      cold-Coherent).2
