-- ===== src/Auth/RoundTrips.antt =====
-- What one request hands out is good for the next: the refresh token of a login, the token that a
-- reset is mailed with; and a logged-out session is over.
use nestjs_app.Prelude.{
  ◌≤◌, ◌≡◌, ◌≢◌, refl, ap, inl, inr, String, false, none, some, [], ◌∷◌, ◌++◌, arith, str_eq,
  eq_iff, eq_refl, if◌then◌else◌, find?, find?-append_last, find?-modify, any, modify, Bool-cases,
}
use nestjs_app.Result.{continue, Result, ok, err, http, unauthorized}
use nestjs_app.Db.{Db, Documented, settle, User, RefreshToken, is_set, active}
use nestjs_app.Users.Lookup.{live_with_id}
use nestjs_app.Auth.Session.{
  Providers, Draw, SessionMetadata, AuthSession, same_hash, build_session, new_refresh_token,
  refresh_expiry, save_refresh_token,
}
use nestjs_app.Auth.Refresh.{
  refresh, examine, rotate_for, rotate_token, answer, rotated, invalid, theft, expired, inactive,
  Outcome, logout, revoke_found, has_id, revoke,
}
use nestjs_app.Auth.Refresh.Rotation.{stored_for, refresh-examine, refresh_reused}
use nestjs_app.Auth.Credentials.{LoginDto, login}
use nestjs_app.Auth.Credentials.Access.{account_of, login-eq-ok}

module _ (p : Providers) (documented : Documented p.orm) where
  open p use {crypto}

  examine_live :
      (meta : SessionMetadata) (draw : Draw) (db : Db) (stored : RefreshToken) (user : User)
      → stored.revoked_at ≡ none
      → stored.used_at ≡ none
      → draw.now ≤ stored.expires_at
      → find? (live_with_id stored.user_id) db.users ≡ some user
      → user.status ≡ active
      → any (same_hash (crypto.hash_token draw.opaque_token)) db.refresh_tokens ≡ false
      → (examine p meta draw (some stored) db).0 ≡ ok (rotated user draw.opaque_token)
  unfolding examine rotate_for rotate_token save_refresh_token
  examine_live meta draw db stored user live unused current owner working fresh = ground (
    arith,
    documented.find_one_lem (live_with_id stored.user_id) db.users,
    documented.insert_lem (same_hash (crypto.hash_token draw.opaque_token))
        (new_refresh_token p user stored.family_id meta draw) db.refresh_tokens,
  )

  refresh_live :
      (presented : String) (meta : SessionMetadata) (draw : Draw) (db : Db) (stored : RefreshToken)
      (user : User)
      → presented ≢ ""
      → stored_for p documented presented db ≡ some stored
      → (examine p meta draw (some stored) db).0 ≡ ok (rotated user draw.opaque_token)
      → (refresh p (some presented) meta draw db).0
        ≡ ok (build_session p user [] draw.opaque_token draw)
  unfolding answer
  refresh_live presented meta draw db stored user given held passes =
      rw (refresh-examine p documented presented meta draw db given, held)
        (settled (examine p meta draw (some stored) db) passes)
    where
      settled :
          (r : Result Outcome × Db)
          → r.0 ≡ ok (rotated user draw.opaque_token)
          → (let (o, db') = settle db r in continue o (answer p draw) db').0
            ≡ ok (build_session p user [] draw.opaque_token draw)
      settled (ok (rotated u t), db') e = ground arith
      settled (ok invalid, db') e = cc
      settled (ok theft, db') e = cc
      settled (ok expired, db') e = cc
      settled (ok inactive, db') e = cc
      settled (err x, db') e = cc

  -- The database with a new session.
  abbrev pub with_session : User → SessionMetadata → Draw → Db → Db
  with_session user meta draw db = record db {
    refresh_tokens = db.refresh_tokens ++ new_refresh_token p user draw.uuid meta draw ∷ [];
  }

  refresh_new :
      (user : User) (meta meta' : SessionMetadata) (draw draw' : Draw) (db : Db)
      → find? (live_with_id user.id) db.users ≡ some user
      → user.status ≡ active
      → draw.opaque_token ≢ ""
      → any (same_hash (crypto.hash_token draw.opaque_token)) db.refresh_tokens ≡ false
      → draw'.now ≤ refresh_expiry p draw
      → any
          (same_hash (crypto.hash_token draw'.opaque_token))
          (with_session user meta draw db).refresh_tokens
        ≡ false
      → (refresh p (some draw.opaque_token) meta' draw' (with_session user meta draw db)).0
        ≡ ok (build_session p user [] draw'.opaque_token draw')
  unfolding new_refresh_token
  refresh_new user meta meta' draw draw' db byid working given fresh current fresh' =
      let new = new_refresh_token p user draw.uuid meta draw in
      let held : stored_for p documented draw.opaque_token (with_session user meta draw db)
          ≡ some new =
        find?-append_last (same_hash (crypto.hash_token draw.opaque_token)) db.refresh_tokens new
          fresh (eq_refl _) in
      refresh_live draw.opaque_token meta' draw' (with_session user meta draw db) new user given
        held
        (examine_live meta' draw' (with_session user meta draw db) new user refl refl current byid
          working fresh')

  -- The refresh token of a login opens a session for the same account until it expires, if the
  -- account is the one with its id and the new token is new.
  pub refresh_after_login :
      (dto : LoginDto) (meta meta' : SessionMetadata) (draw draw' : Draw) (db : Db)
      {session : AuthSession} {db' : Db} {user : User}
      → login p dto meta draw db ≡ (ok session, db')
      → account_of p documented dto db ≡ some user
      → find? (live_with_id user.id) db.users ≡ some user
      → draw.opaque_token ≢ ""
      → any (same_hash (crypto.hash_token draw.opaque_token)) db.refresh_tokens ≡ false
      → draw'.now ≤ refresh_expiry p draw
      → any (same_hash (crypto.hash_token draw'.opaque_token)) db'.refresh_tokens ≡ false
      → (refresh p (some session.refresh_token) meta' draw' db').0
        ≡ ok (build_session p user [] draw'.opaque_token draw')
  unfolding build_session new_refresh_token
  refresh_after_login dto meta meta' draw draw' db {session} {db'} {user} entered found byid given
        fresh current fresh' =
      let (user', found', _, working, built, written) =
        login-eq-ok p documented dto meta draw db entered in
      let same : user' ≡ user = ground arith in
      let state : db' ≡ with_session user meta draw db = rw same at written in
      rw (state, built)
        (refresh_new user meta meta' draw draw' db byid (rw same at working) given fresh current
          (rw state at fresh'))

  logout-found :
      (presented : String) (draw : Draw) (db : Db) {stored : RefreshToken}
      → presented ≢ ""
      → stored_for p documented presented db ≡ some stored
      → logout p (some presented) draw db ≡ (
        ok tt,
        record db {
          refresh_tokens =
              if is_set stored.revoked_at
              then db.refresh_tokens
              else modify (has_id stored.id) (revoke draw.now) db.refresh_tokens;
        },
      )
  unfolding logout revoke_found
  logout-found presented draw db {stored} given held = elim (Bool-cases (str_eq presented "")) [
    | inl e ↦ absurd (given ((eq_iff _ _).0 e))
    | inr e ↦
        rw (e, documented.find_one_lem, held)
          (elim (Bool-cases (is_set stored.revoked_at)) [
            | inl dead ↦ rw dead
            | inr live ↦ rw (live, documented.update_lem)
          ])
  ]

  -- Logging out with a token that is stored succeeds, and that token cannot be refreshed
  -- afterwards.
  pub signed_out_refused :
      (presented : String) (meta : SessionMetadata) (draw draw' : Draw) (db : Db)
      {stored : RefreshToken}
      → presented ≢ ""
      → stored_for p documented presented db ≡ some stored
      → let (answer, after) = logout p (some presented) draw db in
        (answer ≡ ok tt)
        × ((refresh p (some presented) meta draw' after).0
            ≡ err (http unauthorized "Invalid refresh token"))
  signed_out_refused presented meta draw draw' db {stored} given held =
      let test = same_hash (crypto.hash_token presented) in
      let dead : RefreshToken =
        if is_set stored.revoked_at then stored else revoke draw.now stored in
      rw (logout-found presented draw db given held) (
        refl,
        ap (λ (r : Result AuthSession × Db). r.0)
            (refresh_reused p documented presented meta draw' _ dead given
              (elim (Bool-cases (is_set stored.revoked_at)) [
                | inl gone ↦ rw (gone, held)
                | inr live ↦ rw (
                  live,
                  find?-modify test (has_id stored.id) (revoke draw.now) db.refresh_tokens
                      (λ t. refl),
                  held,
                  eq_refl,
                )
              ])
              (ground arith)),
      )
