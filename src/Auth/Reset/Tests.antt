-- ===== src/Auth/Reset/Tests.antt =====
-- The theorems on resets at concrete inputs: Jane resets her password with the stored token.
use nestjs_app.Prelude.{◌≡◌, ◌≤◌, refl, arith, eq_iff, [], ◌∷◌, none, some, find?}
use nestjs_app.Result.{ok, err, http, unauthorized}
use nestjs_app.Db.{Db, User, PasswordResetToken, active, list_orm-Documented}
use nestjs_app.Users.Lookup.{live_with_id}
use nestjs_app.Auth.Session.{Draw, build_session}
use nestjs_app.Auth.Refresh.{refresh}
use nestjs_app.Auth.Credentials.{login, normalize_email}
use nestjs_app.Auth.Reset.{reset_password, forgot_password, invalid_reset, set_password}
use nestjs_app.Auth.Reset.Effects.{reset-eq-ok, reset_stored, after_reset}
use nestjs_app.Auth.Reset.Consequences.{reset_single_use, refresh_after_reset, login_after_reset}
use nestjs_app.Auth.Reset.Requests.{unused, HasNewPassword, forgot-unused, reset_after_forgot}
use nestjs_app.Auth.Samples.{
  providers, no_metadata, draw_at, jane, two_sessions, token_of, reset_token,
}

abbrev draw : Draw
draw = draw_at 10 "t" "x" "r9"

abbrev after : Db
after = (reset_password providers "reset" "newsecret1" draw two_sessions).1

reset-eq-ok_example :
    (reset : PasswordResetToken) × (user : User) × (reset_stored providers list_orm-Documented
        "reset" two_sessions
      ≡ some reset)
    × (reset.used_at ≡ none)
    × (10 ≤ reset.expires_at)
    × (find? (live_with_id reset.user_id) two_sessions.users ≡ some user)
    × (user.status ≡ active)
    × (after ≡ after_reset providers list_orm-Documented "newsecret1" draw reset user two_sessions)
unfolding reset_password
reset-eq-ok_example =
    reset-eq-ok providers list_orm-Documented "reset" "newsecret1" draw two_sessions {db' = after}
      refl

reset_single_use_example :
    reset_password providers "reset" "other" (draw_at 20 "t" "x" "r9") after
    ≡ (err invalid_reset, after)
unfolding reset_password
reset_single_use_example =
    reset_single_use providers list_orm-Documented "reset" "newsecret1" "other" draw
      (draw_at 20 "t" "x" "r9") two_sessions {db' = after} refl

refresh_after_reset_example :
    (refresh providers (some "phone") no_metadata (draw_at 20 "u" "x" "r8") after).0
    ≡ err (http unauthorized "Invalid refresh token")
unfolding reset_password
refresh_after_reset_example =
    refresh_after_reset providers list_orm-Documented "reset" "newsecret1" "phone" no_metadata draw
      (draw_at 20 "u" "x" "r8") two_sessions {db' = after} {reset = reset_token}
      {session = token_of "r2" "phone" "f2"} refl refl refl refl (ground (arith, eq_iff "phone" ""))

abbrev later : Draw
later = draw_at 20 "u" "f9" "r8"

login_after_reset_example :
    ((login providers
        (record { email = "jane@example.com"; password = "newsecret1" })
        no_metadata
        later
        after).0
      ≡ ok (build_session providers (set_password 10 "argon:newsecret1" jane) [] "u" later))
    × (login providers
          (record { email = "jane@example.com"; password = "secret123" })
          no_metadata
          later
          after
        ≡ (err (http unauthorized "Invalid credentials"), after))
unfolding reset_password normalize_email build_session
login_after_reset_example =
    login_after_reset providers list_orm-Documented "reset" "newsecret1" "secret123"
      "jane@example.com" no_metadata draw later two_sessions {db' = after} {reset = reset_token}
      {account = jane} refl refl refl refl refl refl refl refl

forgot-unused_example :
    unused "u1"
      (forgot_password providers "JANE@example.com" no_metadata draw
        two_sessions).1.password_reset_tokens
    ≡ 1
unfolding normalize_email
forgot-unused_example =
    forgot-unused providers list_orm-Documented "JANE@example.com" no_metadata draw two_sessions
      jane (refl, refl) refl

reset_after_forgot_example :
    let (mail, db) = forgot_password providers "JANE@example.com" no_metadata draw two_sessions in
    let (answer, last) = reset_password providers "t" "newsecret1" later db in
    (mail ≡ ok (record { email = "jane@example.com"; token = "t" } ∷ []))
    × (answer ≡ ok tt)
    × HasNewPassword providers list_orm-Documented "u1" "newsecret1" later.salt last
unfolding normalize_email nestjs_app.Auth.Session.reset_expiry
reset_after_forgot_example =
    reset_after_forgot providers list_orm-Documented "JANE@example.com" "newsecret1" no_metadata
      draw later two_sessions jane (refl, refl) refl refl (ground arith)
