-- ===== src/Auth/Tests.antt =====
-- The theorems on sessions at concrete inputs.
use nestjs_app.Prelude.{
  none, false, ◌∷◌, ◌++◌, find?, any, modify, ◌≤◌, ◌≡◌, refl, ◌≢◌, arith, eq_iff, String, some, [],
}
use nestjs_app.Result.{err, http, unauthorized}
use nestjs_app.Users.Lookup.{live_with_id}
use nestjs_app.Db.{User, RefreshToken, active, Db, list_orm-Documented}
use nestjs_app.Auth.Session.{same_hash, new_refresh_token, Draw, AuthSession, build_session}
use nestjs_app.Auth.Refresh.{refresh, has_id, rotate}
use nestjs_app.Auth.Refresh.Rotation.{refresh_replayed, stored_for, refresh-eq-ok}
use nestjs_app.Auth.Refresh.Families.{unrevoked, refresh-unrevoked_le}
use nestjs_app.Auth.Samples.{providers, no_metadata, draw_at, jane, two_sessions}

abbrev first_draw : Draw
first_draw = draw_at 10 "laptop-2" "x" "r3"

abbrev rotated_db : Db
rotated_db = (refresh providers (some "laptop") no_metadata first_draw two_sessions).1

abbrev rotated_session : AuthSession
rotated_session = build_session providers jane [] "laptop-2" first_draw

token_given : ◌≢◌ {A = String} "laptop-2" ""
token_given = ground (arith, eq_iff "laptop-2" "")

refresh_replayed_example :
    let again =
      refresh providers (some "laptop") no_metadata (draw_at 20 "y" "x" "r4") rotated_db in
    (again.0 ≡ err (http unauthorized "Invalid refresh token"))
    × ((refresh providers (some "laptop-2") no_metadata (draw_at 30 "z" "x" "r5") again.1).0
        ≡ err (http unauthorized "Invalid refresh token"))
unfolding refresh build_session
refresh_replayed_example =
    refresh_replayed providers list_orm-Documented "laptop" no_metadata no_metadata no_metadata
      first_draw (draw_at 20 "y" "x" "r4") (draw_at 30 "z" "x" "r5") two_sessions {db' = rotated_db}
      {session = rotated_session} token_given refl

refresh-unrevoked_le_example :
    unrevoked "f1"
      (refresh providers (some "phone") no_metadata first_draw two_sessions).1.refresh_tokens
    ≤ 1
refresh-unrevoked_le_example =
    refresh-unrevoked_le providers list_orm-Documented (some "phone") no_metadata first_draw
      two_sessions "f1"

refresh-eq-ok_example :
    (stored : RefreshToken) × (user : User) × (stored_for providers list_orm-Documented "laptop"
        two_sessions
      ≡ some stored)
    × (stored.revoked_at ≡ none)
    × (stored.used_at ≡ none)
    × (10 ≤ stored.expires_at)
    × (find? (live_with_id stored.user_id) two_sessions.users ≡ some user)
    × (user.status ≡ active)
    × (any (same_hash "sha:laptop-2") two_sessions.refresh_tokens ≡ false)
    × (rotated_session ≡ build_session providers user [] "laptop-2" first_draw)
    × (rotated_db ≡ record two_sessions {
      refresh_tokens = modify (has_id stored.id) (rotate 10 "r3") (
          two_sessions.refresh_tokens
          ++ new_refresh_token providers user stored.family_id no_metadata first_draw ∷ []);
    })
unfolding refresh build_session
refresh-eq-ok_example =
    refresh-eq-ok providers list_orm-Documented "laptop" no_metadata first_draw two_sessions
      {db' = rotated_db} {session = rotated_session} refl
