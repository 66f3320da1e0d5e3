-- ===== src/Http/Guarded.antt =====
-- Who reaches a handler behind the guards.
use nestjs_app.Prelude.{
  ℕ, ◌≡◌, refl, ◌⊎◌, inl, inr, String, Bool, true, Option, none, some, [], ◌∷◌, arith, all, find?,
  length, ltb, Bool-cases, if◌then◌else◌, any, not, ◌&&◌,
}
use nestjs_app.Result.{
  Exec, Result, ok, err, pure, continue, Exception, http, forbidden, ◌>>=◌, ◌>>◌,
}
use nestjs_app.Db.{Db, Documented, Orm, User, active}
use nestjs_app.Users.Lookup.{live_with_id, find_by_id}
use nestjs_app.Permissions.Cache.{Rules, Backend, World, IsRedis}
use nestjs_app.Permissions.Coherence.{Coherent, get_permission_rules-ReadsRules}
use nestjs_app.Permissions.{get_permission_rules_for_user}
use nestjs_app.Guards.Permission.{
  Casl, permissions_guard, check_user, get_ability_for_user, assert_permission_rules,
}
use nestjs_app.Guards.Access.{IsCasl, may, permissions_guard-may, suc-eq-zero}
use nestjs_app.Guards.Identity.{
  Jwt, JwtPayload, validate, validate_subject, subject_of, find_active_user_by_id, require_active,
}
use nestjs_app.Http.{
  Request, Framework, Passport, requires, guards, serve, jwt_auth_guard, user_throttler_guard,
  as_user,
}

-- What the documentation of @nestjs/passport says: a user that a request gets is one that
-- `validate` answers for the payload of a token that verifies.
pub record IsPassport (jwt : Jwt) (passport : Passport) : Type 0 where
  pub authenticated :
      (header : Option String) (validate : JwtPayload → Result (Option User)) (user : User)
      → passport.authenticate header validate ≡ ok user
      → (token : String) × (payload : JwtPayload) × (jwt.verify token ≡ some payload)
        × (validate payload ≡ ok (some user))

-- The user is the live, active account that a token names.
abbrev pub IsLoggedIn : Jwt → Db → User → Type 0
IsLoggedIn jwt db user =
    (token : String) × (payload : JwtPayload) × (sub : String) × (jwt.verify token ≡ some payload)
    × (subject_of payload ≡ some sub)
    × (find? (live_with_id sub) db.users ≡ some user)
    × (user.status ≡ active)

module _ (orm : Orm) (documented : Documented orm) (jwt : Jwt) where
  validated_found :
      (sub : String) (db : Db) (user : User) (o : Option User)
      → find? (live_with_id sub) db.users ≡ o
      → (validate_subject orm jwt (some sub) db).0 ≡ ok (some user)
      → (o ≡ some user) × (user.status ≡ active)
  unfolding validate_subject find_active_user_by_id find_by_id require_active
  validated_found sub db user none e h =
      absurd (ground (arith, documented.find_one_lem (live_with_id sub) db.users))
  validated_found sub db user (some u) e h =
      ground (arith, documented.find_one_lem (live_with_id sub) db.users)

  validated_subject :
      (subject : Option String) (db : Db) (user : User)
      → (validate_subject orm jwt subject db).0 ≡ ok (some user)
      → (sub : String) × (subject ≡ some sub)
        × (find? (live_with_id sub) db.users ≡ some user)
        × (user.status ≡ active)
  unfolding validate_subject
  validated_subject none db user h = absurd (ground arith)
  validated_subject (some sub) db user h =
      let (a, c) = validated_found sub db user _ refl h in (sub, refl, a, c)

  pub authenticated-IsLoggedIn :
      (passport : Passport)
      → IsPassport jwt passport
      → (header : Option String) (db : Db) (user : User)
      → passport.authenticate header (λ payload. (validate orm jwt payload db).0) ≡ ok user
      → IsLoggedIn jwt db user
  unfolding validate
  authenticated-IsLoggedIn passport is_passport header db user h =
      let (token, payload, verified, answered) = is_passport.authenticated header _ user h in
      let (sub, a, c, d) = validated_subject (subject_of payload) db user answered in
      (token, payload, sub, verified, a, c, d)

module _ (casl : Casl) (is_casl : IsCasl casl) (b : Backend) (documented : Documented b.orm)
    (laws : IsRedis b.redis) where
  -- The database is as it was, and the cache coherent.
  abbrev pub Unchanged : World b → World b → Type 0
  Unchanged before after = (after.db ≡ before.db) × Coherent b documented laws after

  assert-Unchanged :
      (rules : Rules) (w : World b) (found : Result casl.Ability × World b)
      → Unchanged w found.1
      → Unchanged w
          (continue found.0
            (λ given. assert_permission_rules casl given rules >> pure true)
            found.1).1
  unfolding assert_permission_rules
  assert-Unchanged rules w (err e, w') h = h
  assert-Unchanged rules w (ok given, w') h =
      elim (Bool-cases (
        ltb 0 (length rules)
        && any
            (λ (rule : nestjs_app.Permissions.Cache.PermissionRule).
              not (casl.can given rule.action rule.subject))
            rules)) [ inl refused ↦ rw refused h | inr fine ↦ rw fine h ]

  ability-Unchanged :
      (now : ℕ) (user_id : String) (w : World b)
      → Coherent b documented laws w
      → Unchanged w (get_ability_for_user casl b now user_id w).1
  unfolding get_ability_for_user
  ability-Unchanged now user_id w h =
      let (right, same, coherent) =
        get_permission_rules-ReadsRules b documented laws now user_id w h in
      rw right (same, coherent)

  permissions_guard-Unchanged :
      (rules : Rules) (now : ℕ) (user : Option User) (w : World b)
      → Coherent b documented laws w
      → Unchanged w (permissions_guard casl b (some rules) now user w).1
  unfolding permissions_guard check_user
  permissions_guard-Unchanged [] now user w h = (refl, h)
  permissions_guard-Unchanged (r ∷ rules) now none w h = rw (suc-eq-zero (length rules)) (refl, h)
  permissions_guard-Unchanged (r ∷ rules) now (some user) w h = rw (suc-eq-zero (length rules)) (
      assert-Unchanged (r ∷ rules) w (get_ability_for_user casl b now user.id w)
        (ability-Unchanged now user.id w h))

  -- The request is answered by an exception, and nothing is written.
  abbrev pub Refused : {A : Type 0} → World b → Result A × World b → Type 0
  Refused w r = (e : Exception) × (r.0 ≡ err e) × Unchanged w r.1

  module _ (framework : Framework) (is_passport : IsPassport framework.jwt framework.passport)
      {A : Type 0} (handler : Option User → Exec (World b) A) (rules : Rules) (request : Request)
      (now : ℕ) (w : World b) where
    -- The handler runs on the same database, for an account that holds every rule.
    abbrev pub Reached : Result A × World b → Type 0
    Reached r =
        (user : User) × (w' : World b) × IsLoggedIn framework.jwt w.db user
        × (all (may w.db user.id) rules ≡ true)
        × Unchanged w w'
        × (r ≡ handler (some user) w')

    abbrev after_permissions : User → Result Bool × World b → Result A × World b
    after_permissions user g =
        let passed = continue g.0 (λ _. pure (some user)) g.1 in continue passed.0 handler passed.1

    permissions-cases :
        (user : User) (g : Result Bool × World b)
        → IsLoggedIn framework.jwt w.db user
        → Unchanged w g.1
        → g.0 ≡ (
            if all (may w.db user.id) rules
            then ok true
            else err (http forbidden "Insufficient permissions"))
        → Refused w (after_permissions user g) ⊎ Reached (after_permissions user g)
    permissions-cases user (ok passed, w') logged same e =
        inr (user, w', logged, ground arith, same, refl)
    permissions-cases user (err x, w') logged same e = inl (x, refl, same)

    abbrev after_authentication : Result User → Result A × World b
    after_authentication found =
        let passed =
          (do
            user ← λ (v : World b). (as_user found, v)
            user_throttler_guard framework casl b user request
            permissions_guard casl b (some rules) now user
            pure user)
            w in
        continue passed.0 handler passed.1

    wall-cases :
        (user : User) (wall : Result (Unit {0}))
        → framework.user_wall user.id ≡ wall
        → IsLoggedIn framework.jwt w.db user
        → Coherent b documented laws w
        → Refused w (after_authentication (ok user)) ⊎ Reached (after_authentication (ok user))
    unfolding user_throttler_guard
    wall-cases user (ok t) e logged h = rw e (
        permissions-cases user (permissions_guard casl b (some rules) now (some user) w) logged
          (permissions_guard-Unchanged rules now (some user) w h)
          (permissions_guard-may casl is_casl b documented laws rules now user w h))
    wall-cases user (err x) e logged h = rw e (inl (x, refl, (refl, h)))

    authentication-cases :
        (found : Result User)
        → framework.passport.authenticate request.authorization
            (λ payload. (validate b.orm framework.jwt payload w.db).0)
          ≡ found
        → Coherent b documented laws w
        → Refused w (after_authentication found) ⊎ Reached (after_authentication found)
    authentication-cases (ok user) e h =
        wall-cases user _ refl
          (authenticated-IsLoggedIn b.orm documented framework.jwt framework.passport is_passport
            request.authorization w.db user e)
          h
    authentication-cases (err x) e h = inl (x, refl, (refl, h))

    ip-cases :
        (wall : Result (Unit {0}))
        → framework.ip_wall request.ip ≡ wall
        → Coherent b documented laws w
        → Refused w (serve framework casl b (requires rules) request now handler w)
          ⊎ Reached (serve framework casl b (requires rules) request now handler w)
    unfolding serve guards jwt_auth_guard
    ip-cases (ok t) e h = rw e (authentication-cases _ refl h)
    ip-cases (err x) e h = rw e (inl (x, refl, (refl, h)))

    -- A handler that requires permissions: with a coherent cache, either the request is answered by
    -- an exception and the database is as it was, or the answer is that of the handler, run on the
    -- same database for the live and active account that the token names, whose roles grant each
    -- rule that is required. The cache stays coherent until then.
    pub serve-Reached :
        Coherent b documented laws w
        → Refused w (serve framework casl b (requires rules) request now handler w)
          ⊎ Reached (serve framework casl b (requires rules) request now handler w)
    serve-Reached h = ip-cases _ refl h
