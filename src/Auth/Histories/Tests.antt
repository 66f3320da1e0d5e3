-- ===== src/Auth/Histories/Tests.antt =====
-- The theorems on sequences of requests, and on signing in and out, at concrete inputs.
use nestjs_app.Prelude.{
  ◌≡◌, ◌++◌, ◌⊎◌, inr, subst, false, refl, arith, eq_iff, [], ◌∷◌, none, some, true, false, keep,
}
use nestjs_app.Result.{ok, err, http, unauthorized, conflict}
use nestjs_app.Db.{Db, User, active, list_orm-Documented}
use nestjs_app.Users.Create.Emails.{HasUniqueEmails}
use nestjs_app.Users.Lookup.{role_of, find_by_email}
use nestjs_app.Auth.Session.{Draw, build_session, new_refresh_token, refresh_expiry}
use nestjs_app.Auth.Refresh.{refresh, logout}
use nestjs_app.Auth.Refresh.Families.{HasOneLivePerFamily}
use nestjs_app.Auth.Credentials.{
  LoginDto, RegisterDto, login, register, normalize_email, check_credentials, register_insert,
  register_input,
}
use nestjs_app.Auth.Credentials.Access.{account_of, login-eq-ok, login_uniform}
use nestjs_app.Auth.Credentials.Signup.{register_taken, register-HasUniqueEmails}
use nestjs_app.Auth.RoundTrips.{refresh_after_login, signed_out_refused}
use nestjs_app.Auth.Histories.{Reaches, start, login_step, register_step, refresh_step}
use nestjs_app.Auth.Histories.Invariant.{Reaches-HasUniqueEmails, Reaches-HasOneLivePerFamily}
use nestjs_app.Auth.Samples.{providers, no_metadata, draw_at, jane, two_sessions, token_of}

abbrev entry : LoginDto
entry = record { email = " Jane@Example.com "; password = "secret123" }

abbrev newcomer : RegisterDto
newcomer = record {
  email = "joe@example.com";
  password = "secret456";
  first_name = none;
  last_name = none;
}

abbrev third : Draw
third = draw_at 10 "tablet" "f3" "r3"

abbrev entered : Db
entered = (login providers entry no_metadata third two_sessions).1

-- Jane logs in on a third device, and refreshes on the second while Joe signs up.
abbrev refreshed : Db
refreshed = (refresh providers (some "phone") no_metadata (draw_at 20 "phone-2" "x" "r4") entered).1

abbrev joined : Db
joined =
    (register providers newcomer no_metadata (λ _. refreshed) (draw_at 30 "x" "x" "u2")
      (draw_at 30 "joe" "f4" "r5") entered).1

history : Reaches providers two_sessions joined
unfolding login refresh register normalize_email find_by_email check_credentials
history =
    let signed_in = login_step entry no_metadata third two_sessions start refl in
    register_step newcomer no_metadata (draw_at 30 "x" "x" "u2") (draw_at 30 "joe" "f4" "r5")
      entered refreshed signed_in
      (refresh_step (some "phone") no_metadata (draw_at 20 "phone-2" "x" "r4") entered signed_in)
      refl

unique : HasUniqueEmails two_sessions
unique email = ground arith

one_live : HasOneLivePerFamily two_sessions
one_live family = ground (arith, eq_iff "f1" family, eq_iff "f2" family, eq_iff "f1" "f2")

Reaches-HasUniqueEmails_example : HasUniqueEmails joined
Reaches-HasUniqueEmails_example =
    Reaches-HasUniqueEmails providers list_orm-Documented two_sessions joined history unique

Reaches-HasOneLivePerFamily_example : HasOneLivePerFamily joined
Reaches-HasOneLivePerFamily_example =
    Reaches-HasOneLivePerFamily providers list_orm-Documented two_sessions joined history one_live

refresh_after_login_example :
    (refresh providers (some "tablet") no_metadata (draw_at 20 "tablet-2" "x" "r4") entered).0
    ≡ ok (build_session providers jane [] "tablet-2" (draw_at 20 "tablet-2" "x" "r4"))
unfolding login normalize_email build_session refresh_expiry find_by_email check_credentials
refresh_after_login_example =
    refresh_after_login providers list_orm-Documented entry no_metadata no_metadata third
      (draw_at 20 "tablet-2" "x" "r4") two_sessions
      {session = build_session providers jane [] "tablet" third} {db' = entered} {user = jane} refl
      refl refl (ground (arith, eq_iff "tablet" "")) refl (ground arith) refl

signed_out_refused_example :
    let (answer, after) = logout providers (some "phone") third two_sessions in
    (answer ≡ ok tt)
    × ((refresh providers (some "phone") no_metadata (draw_at 20 "t" "x" "r4") after).0
        ≡ err (http unauthorized "Invalid refresh token"))
signed_out_refused_example =
    signed_out_refused providers list_orm-Documented "phone" no_metadata third
      (draw_at 20 "t" "x" "r4") two_sessions {stored = token_of "r2" "phone" "f2"}
      (ground (arith, eq_iff "phone" "")) refl

login-eq-ok_example :
    (user : User) × (account_of providers list_orm-Documented entry two_sessions ≡ some user)
    × (providers.crypto.verify_password user.password_hash "secret123" ≡ true)
    × (user.status ≡ active)
    × (build_session providers jane [] "tablet" third
        ≡ build_session providers user
            (keep (role_of [] user.id) two_sessions.roles)
            "tablet"
            third)
    × (entered ≡ record two_sessions {
      refresh_tokens =
          two_sessions.refresh_tokens
          ++ new_refresh_token providers user "f3" no_metadata third ∷ [];
    })
unfolding login normalize_email build_session find_by_email check_credentials
login-eq-ok_example =
    login-eq-ok providers list_orm-Documented entry no_metadata third two_sessions
      {session = build_session providers jane [] "tablet" third} {db' = entered} refl

abbrev mistyped : LoginDto
mistyped = record { email = "jane@example.com"; password = "secret124" }

login_uniform_example :
    login providers mistyped no_metadata third two_sessions
    ≡ (err (http unauthorized "Invalid credentials"), two_sessions)
unfolding normalize_email
login_uniform_example =
    login_uniform providers list_orm-Documented mistyped no_metadata third two_sessions
      (λ user found.
        let same : jane ≡ user = ground arith in
        subst (λ (u : User). providers.crypto.verify_password u.password_hash "secret124" ≡ false)
          same refl)

register-HasUniqueEmails_example :
    HasUniqueEmails
      (register providers newcomer no_metadata (λ _. joined) third third two_sessions).1
register-HasUniqueEmails_example =
    register-HasUniqueEmails providers list_orm-Documented newcomer no_metadata (λ _. joined) third
      third two_sessions unique Reaches-HasUniqueEmails_example

register_taken_example :
    let (answer, state) =
      register providers newcomer no_metadata (λ _. joined) third third two_sessions in
    (answer ≡ err (http conflict "Email is already registered"))
    × ((state ≡ two_sessions) ⊎ (state ≡ joined))
unfolding login refresh register normalize_email find_by_email check_credentials register_insert
    register_input
register_taken_example =
    register_taken providers list_orm-Documented newcomer no_metadata (λ _. joined) third third
      two_sessions (inr refl)
