-- ===== src/Guards/Access.antt =====
-- Whom `PermissionsGuard` lets through: those whose roles grant every rule that is required.
use nestjs_app.Prelude.{
  ℕ, suc, ◌≡◌, refl, sym, ap, ◌∙◌, inl, inr, String, Bool, true, false, not, ◌||◌, ◌&&◌, some, List,
  [], ◌∷◌, map, arith, str_eq, eq_iff, any, all, keep, length, ltb, ◌==◌, Bool-cases, if◌then◌else◌,
}
use nestjs_app.Result.{◌>>=◌, ◌>>◌, pure, continue, Result, ok, err, http, forbidden}
use nestjs_app.Db.{Db, Documented, User, PermissionAction, Permission}
use nestjs_app.Permissions.Cache.{PermissionRule, Rules, Backend, World, IsRedis}
use nestjs_app.Permissions.{
  action_text, same_rule, rule_of, granted, distinct_rules, load_permission_rules,
}
use nestjs_app.Permissions.Coherence.{Coherent, get_permission_rules-ReadsRules}
use nestjs_app.Guards.Permission.{
  Casl, create_app_ability, assert_permission_rules, get_ability_for_user, check_user,
  permissions_guard,
}

-- A rule allows its action, and `manage` every action; its subject, and `all` every subject.
abbrev pub covers : PermissionAction → String → PermissionRule → Bool
covers action subject rule =
    (str_eq (action_text rule.action) "manage"
      || str_eq (action_text rule.action) (action_text action))
    && (str_eq rule.subject "all" || str_eq rule.subject subject)

-- What the documentation of @casl/ability says of rules without conditions.
pub record IsCasl (casl : Casl) : Type 0 where
  pub can_lem :
      (rules : Rules) (action : PermissionAction) (subject : String)
      → casl.can (casl.create_ability rules) action subject ≡ any (covers action subject) rules

covers-same :
    (action : PermissionAction) (subject : String) (r s : PermissionRule)
    → same_rule r s ≡ true
    → covers action subject r ≡ covers action subject s
covers-same action subject r s h =
    ground (arith, eq_iff (action_text r.action) (action_text s.action), eq_iff r.subject s.subject)

any-same :
    (action : PermissionAction) (subject : String) (r : PermissionRule) (rules : Rules)
    → any (same_rule r) rules ≡ true
    → covers action subject r ≡ true
    → any (covers action subject) rules ≡ true
any-same action subject r [] h k = absurd (ground arith)
any-same action subject r (s ∷ rules) h k = elim (Bool-cases (same_rule r s)) [
  | inl same ↦ rw (sym (covers-same action subject r s same), k)
  | inr differs ↦ ground (arith, any-same action subject r rules)
]

any-distinct_rules :
    (action : PermissionAction) (subject : String) (rules : Rules)
    → any (covers action subject) (distinct_rules rules) ≡ any (covers action subject) rules
unfolding distinct_rules
any-distinct_rules action subject [] = refl
any-distinct_rules action subject (r ∷ rules) = ground (
  arith,
  any-distinct_rules action subject rules,
  any-same action subject r (distinct_rules rules),
)

-- The rules of a user cover what a granted permission covers.
any-rules :
    (action : PermissionAction) (subject user_id : String) (db : Db) (ps : List Permission)
    → any (covers action subject) (map rule_of (keep (granted db user_id) ps))
      ≡ any (λ p. granted db user_id p && covers action subject (rule_of p)) ps
any-rules action subject user_id db [] = refl
any-rules action subject user_id db (p ∷ ps) =
    ground (arith, any-rules action subject user_id db ps)

map_id :
    (rules : Rules)
    → map (λ (rule : PermissionRule). record { action = rule.action; subject = rule.subject }) rules
      ≡ rules
map_id [] = refl
map_id (r ∷ rules) = ap (λ rest. r ∷ rest) (map_id rules)

pub suc-eq-zero : (n : ℕ) → (suc n == 0) ≡ false
suc-eq-zero n = ground arith

-- The user has a permission that covers what the rule asks for.
abbrev pub may : Db → String → PermissionRule → Bool
may db user_id rule =
    any (λ p. granted db user_id p && covers rule.action rule.subject (rule_of p)) db.permissions

module _ (casl : Casl) (is_casl : IsCasl casl) (b : Backend) (documented : Documented b.orm)
    (laws : IsRedis b.redis) where
  create_app_ability-lem :
      (rules : Rules) → create_app_ability casl rules ≡ casl.create_ability rules
  unfolding create_app_ability
  create_app_ability-lem rules = ap casl.create_ability (map_id rules)

  can-may :
      (db : Db) (user_id : String) (rule : PermissionRule)
      → casl.can
          (create_app_ability casl (load_permission_rules b db user_id))
          rule.action
          rule.subject
        ≡ may db user_id rule
  unfolding load_permission_rules
  can-may db user_id rule =
      rw
        (
          create_app_ability-lem,
          documented.find_lem,
          is_casl.can_lem,
          any-distinct_rules rule.action rule.subject
              (map rule_of (keep (granted db user_id) db.permissions)),
        )
        (any-rules rule.action rule.subject user_id db db.permissions)

  any-all :
      (db : Db) (user_id : String) (rules : Rules)
      → any
          (λ (rule : PermissionRule). not (
            casl.can
              (create_app_ability casl (load_permission_rules b db user_id))
              rule.action
              rule.subject))
          rules
        ≡ not (all (may db user_id) rules)
  any-all db user_id [] = refl
  any-all db user_id (r ∷ rules) = ground (arith, can-may db user_id r, any-all db user_id rules)

  ability-lem :
      (now : ℕ) (user_id : String) (w : World b)
      → Coherent b documented laws w
      → (get_ability_for_user casl b now user_id w).0
        ≡ ok (create_app_ability casl (load_permission_rules b w.db user_id))
  unfolding get_ability_for_user
  ability-lem now user_id w h =
      rw ((get_permission_rules-ReadsRules b documented laws now user_id w h).0)

  after_ability :
      (rules : Rules) (ability : casl.Ability) (found : Result casl.Ability × World b)
      → found.0 ≡ ok ability
      → (continue found.0
          (λ given. assert_permission_rules casl given rules >> pure true)
          found.1).0
        ≡ (if ltb 0 (length rules)
              && any
                  (λ (rule : PermissionRule). not (casl.can ability rule.action rule.subject))
                  rules
            then err (http forbidden "Insufficient permissions")
            else ok true)
  unfolding assert_permission_rules
  after_ability rules ability (ok given, w) e =
      let same : given ≡ ability = ground arith in rw same (ground arith)
  after_ability rules ability (err x, w) e = absurd (ground arith)

  -- With a coherent cache the guard lets a user through exactly if each rule that is required is
  -- covered by a permission that one of the user's roles has in the database.
  pub permissions_guard-may :
      (rules : Rules) (now : ℕ) (user : User) (w : World b)
      → Coherent b documented laws w
      → (permissions_guard casl b (some rules) now (some user) w).0 ≡ (
          if all (may w.db user.id) rules
          then ok true
          else err (http forbidden "Insufficient permissions"))
  unfolding permissions_guard check_user
  permissions_guard-may [] now user w h = refl
  permissions_guard-may (r ∷ rules) now user w h = rw (suc-eq-zero (length rules)) (
      after_ability (r ∷ rules) (create_app_ability casl (load_permission_rules b w.db user.id))
        (get_ability_for_user casl b now user.id w) (ability-lem now user.id w h)
      ∙ rw (any-all w.db user.id (r ∷ rules)) (ground arith))

  asserted :
      (rules : Rules) (ability : casl.Ability) (found : Result casl.Ability × World b)
      → found.0 ≡ ok ability
      → (continue found.0 (λ given. assert_permission_rules casl given rules) found.1).0 ≡ (
          if ltb 0 (length rules)
            && any
                (λ (rule : PermissionRule). not (casl.can ability rule.action rule.subject))
                rules
          then err (http forbidden "Insufficient permissions")
          else ok tt)
  unfolding assert_permission_rules
  asserted rules ability (ok given, w) e =
      let same : given ≡ ability = ground arith in rw same (ground arith)
  asserted rules ability (err x, w) e = absurd (ground arith)

  -- The same where a handler asserts the rules itself.
  pub assert_rules-may :
      (rules : Rules) (now : ℕ) (user_id : String) (w : World b)
      → Coherent b documented laws w
      → ((get_ability_for_user casl b now user_id >>= λ ability.
            assert_permission_rules casl ability rules)
          w).0
        ≡ (if all (may w.db user_id) rules
            then ok tt
            else err (http forbidden "Insufficient permissions"))
  assert_rules-may [] now user_id w h =
      asserted [] (create_app_ability casl (load_permission_rules b w.db user_id))
        (get_ability_for_user casl b now user_id w) (ability-lem now user_id w h)
  assert_rules-may (r ∷ rules) now user_id w h =
      asserted (r ∷ rules) (create_app_ability casl (load_permission_rules b w.db user_id))
        (get_ability_for_user casl b now user_id w) (ability-lem now user_id w h)
      ∙ rw (any-all w.db user_id (r ∷ rules)) (ground arith)
