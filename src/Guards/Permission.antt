-- ===== src/Guards/Permission.antt =====
-- `PermissionsGuard`, `assertPermissionRules` and `createAppAbility`. @casl/ability is a parameter.
use nestjs_app.Prelude.{
  ℕ, String, Bool, true, not, Option, none, some, map, any, length, ltb, ◌&&◌, ◌==◌, if◌then◌else◌,
}
use nestjs_app.Result.{Exec, pure, throw, ◌>>=◌, ◌>>◌, http, forbidden, unauthorized}
use nestjs_app.Db.{PermissionAction, User}
use nestjs_app.Permissions.Cache.{PermissionRule, Rules, Backend, World}
use nestjs_app.Permissions.{get_permission_rules_for_user}

-- `createMongoAbility`, and `ability.can`.
pub record Casl : Type 1 where
  pub Ability : Type 0
  pub create_ability : Rules → Ability
  pub can : Ability → PermissionAction → String → Bool

module _ (casl : Casl) where
  unfoldable pub create_app_ability : Rules → casl.Ability
  create_app_ability rules = casl.create_ability (
      map (λ (rule : PermissionRule). record { action = rule.action; subject = rule.subject })
        rules)

  unfoldable pub assert_permission_rules : {S : Type 0} → casl.Ability → Rules → Exec S (Unit {0})
  assert_permission_rules ability rules =
      if ltb 0 (length rules)
        && any (λ (rule : PermissionRule). not (casl.can ability rule.action rule.subject)) rules
      then throw (http forbidden "Insufficient permissions")
      else pure tt

  module _ (b : Backend) where
    unfoldable pub get_ability_for_user : ℕ → String → Exec (World b) casl.Ability
    unfolding create_app_ability
    get_ability_for_user now user_id = do
      rules ← get_permission_rules_for_user b now user_id
      pure (create_app_ability rules)

    unfoldable pub check_user : Rules → ℕ → Option User → Exec (World b) Bool
    check_user rules now none = throw (http unauthorized "Unauthorized")
    check_user rules now (some user) = do
      ability ← get_ability_for_user now user.id
      assert_permission_rules ability rules
      pure true

    -- The rules that the handler, or else its class, requires; `none` where neither does.
    unfoldable pub permissions_guard : Option Rules → ℕ → Option User → Exec (World b) Bool
    permissions_guard none now user = pure true
    permissions_guard (some rules) now user =
        if length rules == 0 then pure true else check_user rules now user
