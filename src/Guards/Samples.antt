-- ===== src/Guards/Samples.antt =====
-- Small data for the tests: abilities, tokens and a passport that compute.
use nestjs_app.Prelude.{
  ◌≡◌, refl, arith, String, Option, none, some, any, str_eq, if◌then◌else◌, Bool-cases, inl, inr,
}
use nestjs_app.Result.{Result, ok, err, http, unauthorized}
use nestjs_app.Db.{User}
use nestjs_app.Permissions.Cache.{Rules}
use nestjs_app.Guards.Permission.{Casl}
use nestjs_app.Guards.Access.{IsCasl, covers}
use nestjs_app.Guards.Identity.{Jwt, JwtPayload}
use nestjs_app.Http.{Passport}
use nestjs_app.Http.Guarded.{IsPassport}

abbrev pub casl : Casl
casl = record {
  Ability = Rules;
  create_ability = λ rules. rules;
  can = λ rules action subject. any (covers action subject) rules;
}

pub casl-IsCasl : IsCasl casl
casl-IsCasl = record { can_lem = λ rules action subject. refl }

abbrev pub claims : JwtPayload
claims = record { sub = some "u1"; email = some "jane@example.com" }

abbrev pub jwt : Jwt
jwt = record { verify = λ token. if str_eq token "jwt:u1" then some claims else none }

abbrev pub as_user_or : Result (Option User) → Result User
as_user_or (ok (some user)) = ok user
as_user_or (ok none) = err (http unauthorized "Unauthorized")
as_user_or (err e) = err e

abbrev pub by_header : Option String → (JwtPayload → Result (Option User)) → Result User
by_header none validate = err (http unauthorized "Unauthorized")
by_header (some header) validate =
    if str_eq header "Bearer jwt:u1"
    then as_user_or (validate claims)
    else err (http unauthorized "Unauthorized")

abbrev pub passport : Passport
passport = record { authenticate = by_header }

answered_user :
    (r : Result (Option User)) (user : User) → as_user_or r ≡ ok user → r ≡ ok (some user)
answered_user (ok (some u)) user e = ground arith
answered_user (ok none) user e = absurd (ground arith)
answered_user (err x) user e = absurd (ground arith)

passport_answers :
    (header : Option String) (validate : JwtPayload → Result (Option User)) (user : User)
    → by_header header validate ≡ ok user
    → (token : String) × (payload : JwtPayload) × (jwt.verify token ≡ some payload)
      × (validate payload ≡ ok (some user))
passport_answers none validate user e = absurd (ground arith)
passport_answers (some header) validate user e = elim (Bool-cases (str_eq header "Bearer jwt:u1")) [
  | inl h ↦ ("jwt:u1", claims, refl, answered_user (validate claims) user (rw h at e))
  | inr h ↦
      let refused : err (http unauthorized "Unauthorized") ≡ ok user = rw h at e in
      absurd (ground arith)
]

pub passport-IsPassport : IsPassport jwt passport
passport-IsPassport = record { authenticated = passport_answers }
