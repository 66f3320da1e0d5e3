-- ===== src/Auth/Refresh/Rotation.antt =====
-- What `refresh` does with the presented token, and what it leaves of its family.
use nestjs_app.Prelude.{
  ℕ, ◌≤◌, ◌≡◌, refl, ap, subst, ◌∙◌, ◌≢◌, inl, inr, String, true, false, ◌||◌, Option, none, some,
  List, [], ◌∷◌, ◌++◌, arith, str_eq, eq_iff, if◌then◌else◌, find?, any, modify, find?-modify,
  find?-append, find?-append_last, eq_refl, Bool-cases, Option-cases,
}
use nestjs_app.Result.{Result, ok, err, continue, http, unauthorized}
use nestjs_app.Db.{Db, Documented, settle, User, RefreshToken, is_set, active}
use nestjs_app.Auth.Session.{
  Providers, Draw, SessionMetadata, AuthSession, same_hash, build_session, new_refresh_token,
}
use nestjs_app.Users.Lookup.{live_with_id}
use nestjs_app.Auth.Refresh.{
  Outcome, invalid, theft, expired, inactive, rotated, unrevoked_in_family, revoke, has_id, rotate,
  examine, answer, refresh,
}

module _ (p : Providers) (documented : Documented p.orm) where
  open p use {crypto}

  -- The stored row for a token.
  abbrev pub stored_for : String → Db → Option RefreshToken
  stored_for presented db = find? (same_hash (crypto.hash_token presented)) db.refresh_tokens

  pub refresh-examine :
      (presented : String) (meta : SessionMetadata) (draw : Draw) (db : Db)
      → presented ≢ ""
      → refresh p (some presented) meta draw db ≡ (
          let (r, db') = settle db (examine p meta draw (stored_for presented db) db) in
          continue r (answer p draw) db')
  unfolding refresh
  refresh-examine presented meta draw db h = elim (Bool-cases (str_eq presented "")) [
    | inl e ↦ absurd (h ((eq_iff _ _).0 e))
    | inr e ↦ rw (e, documented.transaction_lem, documented.find_one_lem)
  ]

  pub refresh_reused :
      (presented : String) (meta : SessionMetadata) (draw : Draw) (db : Db) (stored : RefreshToken)
      → presented ≢ ""
      → stored_for presented db ≡ some stored
      → (is_set stored.revoked_at || is_set stored.used_at) ≡ true
      → refresh p (some presented) meta draw db ≡ (
        err (http unauthorized "Invalid refresh token"),
        record db {
          refresh_tokens =
              modify (unrevoked_in_family stored.family_id) (revoke draw.now) db.refresh_tokens;
        },
      )
  unfolding examine answer
  refresh_reused presented meta draw db stored h e used =
      rw (refresh-examine presented meta draw db h, e, used, documented.update_lem)

  examine-eq-ok :
      (meta : SessionMetadata) (draw : Draw) (db : Db) (stored : RefreshToken) (user : User)
      (tok : String) {db' : Db}
      → examine p meta draw (some stored) db ≡ (ok (rotated user tok), db')
      → (stored.revoked_at ≡ none)
        × (stored.used_at ≡ none)
        × (draw.now ≤ stored.expires_at)
        × (find? (live_with_id stored.user_id) db.users ≡ some user)
        × (user.status ≡ active)
        × (any (same_hash (crypto.hash_token draw.opaque_token)) db.refresh_tokens ≡ false)
        × (tok ≡ draw.opaque_token)
        × (db' ≡ record db {
          refresh_tokens =
              modify
                (has_id stored.id)
                (rotate draw.now draw.row_id)
                (db.refresh_tokens ++ new_refresh_token p user stored.family_id meta draw ∷ []);
        })
  unfolding examine
  examine-eq-ok meta draw db stored user tok h = ground (
    arith,
    documented.find_one_lem (live_with_id stored.user_id) db.users,
    documented.insert_lem (same_hash (crypto.hash_token draw.opaque_token))
        (new_refresh_token p user stored.family_id meta draw) db.refresh_tokens,
    documented.update_lem (has_id stored.id) (rotate draw.now draw.row_id)
        (db.refresh_tokens ++ new_refresh_token p user stored.family_id meta draw ∷ []),
  )

  examine-none :
      (meta : SessionMetadata) (draw : Draw) (db : Db) {user : User} {token : String} {db' : Db}
      → examine p meta draw none db ≢ (ok (rotated user token), db')
  unfolding examine
  examine-none meta draw db h = cc (ap (λ (r : Result Outcome × Db). r.0) h)

  refresh-ne-empty :
      (presented : String) (meta : SessionMetadata) (draw : Draw) (db : Db) {db' : Db}
      {session : AuthSession}
      → refresh p (some presented) meta draw db ≡ (ok session, db')
      → presented ≢ ""
  unfolding refresh
  refresh-ne-empty presented meta draw db h e = ground (arith, eq_iff presented "")

  settle-answer :
      (draw : Draw) (db : Db) (o : Result Outcome × Db) {db' : Db} {session : AuthSession}
      → (let (r, db'') = settle db o in continue r (answer p draw) db'') ≡ (ok session, db')
      → (user : User) × (token : String) × (o ≡ (ok (rotated user token), db'))
        × (session ≡ build_session p user [] token draw)
  unfolding answer
  settle-answer draw db (ok (rotated user token), db'') h =
      (user, token, ground arith, ground arith)
  settle-answer draw db (ok theft, db'') h = cc (ap (λ (r : Result AuthSession × Db). r.0) h)
  settle-answer draw db (ok invalid, db'') h = cc (ap (λ (r : Result AuthSession × Db). r.0) h)
  settle-answer draw db (ok expired, db'') h = cc (ap (λ (r : Result AuthSession × Db). r.0) h)
  settle-answer draw db (ok inactive, db'') h = cc (ap (λ (r : Result AuthSession × Db). r.0) h)
  settle-answer draw db (err e, db'') h = cc (ap (λ (r : Result AuthSession × Db). r.0) h)

  -- A session is issued only for a stored token that is neither used nor revoked nor expired and
  -- whose owner is an active account; the token is then spent and has one successor in its family.
  pub refresh-eq-ok :
      (presented : String) (meta : SessionMetadata) (draw : Draw) (db : Db) {db' : Db}
      {session : AuthSession}
      → refresh p (some presented) meta draw db ≡ (ok session, db')
      → (stored : RefreshToken) × (user : User) × (stored_for presented db ≡ some stored)
        × (stored.revoked_at ≡ none)
        × (stored.used_at ≡ none)
        × (draw.now ≤ stored.expires_at)
        × (find? (live_with_id stored.user_id) db.users ≡ some user)
        × (user.status ≡ active)
        × (any (same_hash (crypto.hash_token draw.opaque_token)) db.refresh_tokens ≡ false)
        × (session ≡ build_session p user [] draw.opaque_token draw)
        × (db' ≡ record db {
          refresh_tokens =
              modify
                (has_id stored.id)
                (rotate draw.now draw.row_id)
                (db.refresh_tokens ++ new_refresh_token p user stored.family_id meta draw ∷ []);
        })
  refresh-eq-ok presented meta draw db {db'} {session} h =
      let given = refresh-ne-empty presented meta draw db h in
      let (user, token, examined, same) =
        settle-answer draw db (examine p meta draw (stored_for presented db) db)
          (rw (refresh-examine presented meta draw db given) at h) in
      elim (Option-cases (stored_for presented db)) [
        | inl missing ↦ absurd (
            examine-none meta draw db (
              subst (λ o. examine p meta draw o db ≡ (ok (rotated user token), db')) missing
                examined))
        | inr (stored, found) ↦
            let (a, b, c, d, e, u, f, g) = examine-eq-ok meta draw db stored user token (
              subst (λ o. examine p meta draw o db ≡ (ok (rotated user token), db')) found
                examined) in
            (
              stored,
              user,
              found,
              a,
              b,
              c,
              d,
              e,
              u,
              same ∙ ap (λ t. build_session p user [] t draw) f,
              g,
            )
      ]

  -- The row that the presented token's row becomes once it is rotated.
  stored_for-rotated :
      (presented : String) (meta : SessionMetadata) (draw : Draw) (db : Db) {stored : RefreshToken}
      (new : RefreshToken)
      → stored_for presented db ≡ some stored
      → stored_for presented (record db {
        refresh_tokens =
            modify (has_id stored.id) (rotate draw.now draw.row_id) (db.refresh_tokens ++ new ∷ []);
      })
        ≡ some (rotate draw.now draw.row_id stored)
  stored_for-rotated presented meta draw db {stored} new found =
      let test = same_hash (crypto.hash_token presented) in
      rw (
        find?-modify test (has_id stored.id) (rotate draw.now draw.row_id)
            (db.refresh_tokens ++ new ∷ []) (λ t. refl),
        find?-append test db.refresh_tokens (new ∷ []) found,
        eq_refl,
      )

  stored_for-successor :
      (token : String) (rows : List RefreshToken) (new : RefreshToken) (id family next : String)
      (now later : ℕ) (db : Db)
      → any (same_hash (crypto.hash_token token)) rows ≡ false
      → new.token_hash ≡ crypto.hash_token token
      → new.family_id ≡ family
      → (t : RefreshToken) × (stored_for token (record db {
        refresh_tokens =
            modify
              (unrevoked_in_family family)
              (revoke later)
              (modify (has_id id) (rotate now next) (rows ++ new ∷ []));
      })
          ≡ some t)
        × (is_set t.revoked_at ≡ true)
  stored_for-successor token rows new id family next now later db fresh hash fam =
      let test = same_hash (crypto.hash_token token) in
      let spent : RefreshToken = if has_id id new then rotate now next new else new in
      (
        if unrevoked_in_family family spent then revoke later spent else spent,
        rw
            (
              find?-modify test (unrevoked_in_family family) (revoke later)
                  (modify (has_id id) (rotate now next) (rows ++ new ∷ [])) (λ t. refl),
              find?-modify test (has_id id) (rotate now next) (rows ++ new ∷ []) (λ t. refl),
              find?-append_last test rows new fresh (rw hash (eq_refl _)),
            )
            refl,
        ground (arith, eq_refl family),
      )

  -- A refresh token is good for one refresh. When it is presented a second time the answer is an
  -- error, and the session that its first use established is dead too: its token is refused.
  pub refresh_replayed :
      (presented : String) (meta meta' meta'' : SessionMetadata) (draw draw' draw'' : Draw)
      (db : Db) {db' : Db} {session : AuthSession}
      → draw.opaque_token ≢ ""
      → refresh p (some presented) meta draw db ≡ (ok session, db')
      → let again = refresh p (some presented) meta' draw' db' in
        (again.0 ≡ err (http unauthorized "Invalid refresh token"))
        × ((refresh p (some session.refresh_token) meta'' draw'' again.1).0
            ≡ err (http unauthorized "Invalid refresh token"))
  unfolding build_session new_refresh_token
  refresh_replayed presented meta meta' meta'' draw draw' draw'' db random first =
      let (stored, user, found, _, _, _, _, _, fresh, session_built, written) =
        refresh-eq-ok presented meta draw db first in
      let new = new_refresh_token p user stored.family_id meta draw in
      let after : Db = record db {
        refresh_tokens =
            modify (has_id stored.id) (rotate draw.now draw.row_id) (db.refresh_tokens ++ new ∷ []);
      } in
      let rotated_row = rotate draw.now draw.row_id stored in
      let second =
        refresh_reused presented meta' draw' after rotated_row
          (refresh-ne-empty presented meta draw db first)
          (stored_for-rotated presented meta draw db new found) refl in
      let (successor, held, revoked) =
        stored_for-successor draw.opaque_token db.refresh_tokens new stored.id stored.family_id
          draw.row_id draw.now draw'.now db fresh refl refl in
      rw (written, second, session_built)
        (
          refl,
          ap (λ (r : Result AuthSession × Db). r.0)
              (refresh_reused draw.opaque_token meta'' draw'' _ successor random held (rw revoked)),
        )
