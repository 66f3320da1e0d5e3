-- ===== src/Users/Service/Deletion.antt =====
-- Deleting a user: who may not be deleted, and what the deleted user can no longer do.
use nestjs_app.Prelude.{
  ℕ, ◌≤◌, ◌≡◌, ◌≢◌, refl, ap, inl, inr, String, true, false, Option, none, some, List, [], ◌∷◌,
  arith, str_eq, eq_iff, eq_refl, if◌then◌else◌, find?, find?-modify, any, modify, Option-cases,
  Bool-cases, any_of_missing, any_of_found,
}
use nestjs_app.Result.{Result, ok, err, http, not_found, bad_request, unauthorized}
use nestjs_app.Db.{Db, Documented, User, RefreshToken}
use nestjs_app.Users.Lookup.{
  live_with_id, live_with_email, find_with_roles_by_id, find_with_roles_or_fail,
}
use nestjs_app.Users.Create.Emails.{accounts, HasUniqueEmails}
use nestjs_app.Permissions.Cache.{Backend, World, Redis}
use nestjs_app.Permissions.{invalidate_user, safe_del}
use nestjs_app.Auth.Session.{Providers, Draw, SessionMetadata, AuthSession, same_hash}
use nestjs_app.Auth.Refresh.{refresh, revoke}
use nestjs_app.Auth.Refresh.Rotation.{stored_for, refresh_reused}
use nestjs_app.Auth.Reset.{spend, unused_of, unrevoked_of}
use nestjs_app.Auth.Credentials.{LoginDto, login, normalize_email}
use nestjs_app.Auth.Credentials.Access.{account_of, login_uniform}
use nestjs_app.Users.Service.{is_self, delete_rows, soft_delete}

abbrev pub mark_deleted : ℕ → User → User
mark_deleted now u = record u { deleted_at = some now; updated_at = now }

-- What the transaction writes.
abbrev pub deleted : String → ℕ → Db → Db
deleted id now db = record db {
  users = modify (λ (u : User). str_eq u.id id) (mark_deleted now) db.users;
  refresh_tokens = modify (unrevoked_of id) (revoke now) db.refresh_tokens;
  password_reset_tokens = modify (unused_of id) (spend now) db.password_reset_tokens;
}

any-deleted :
    (email id : String) (now : ℕ) (us : List User)
    → any (live_with_email email) us ≡ false
    → any (live_with_email email) (modify (λ (u : User). str_eq u.id id) (mark_deleted now) us)
      ≡ false
any-deleted email id now [] h = refl
any-deleted email id now (u ∷ us) h = ground (arith, any-deleted email id now us)

no_accounts :
    (email : String) (us : List User)
    → accounts email us ≤ 0
    → any (live_with_email email) us ≡ false
no_accounts email [] h = refl
no_accounts email (u ∷ us) h = ground (arith, no_accounts email us)

-- If the only live account with the email is deleted, no live account has it.
any-deleted_only :
    (email id : String) (now : ℕ) (us : List User) (u : User)
    → accounts email us ≤ 1
    → find? (live_with_email email) us ≡ some u
    → u.id ≡ id
    → any (live_with_email email) (modify (λ (v : User). str_eq v.id id) (mark_deleted now) us)
      ≡ false
any-deleted_only email id now [] u h e k = cc
any-deleted_only email id now (v ∷ us) u h e k = elim (Bool-cases (live_with_email email v)) [
  | inl hit ↦
      let same : v ≡ u = ground arith in
      let own : str_eq v.id id ≡ true = rw (same, k) (eq_refl id) in
      ground (arith, any-deleted email id now us, no_accounts email us)
  | inr miss ↦ ground (arith, any-deleted_only email id now us u)
]

module _ (p : Providers) (documented : Documented p.orm) (redis : Redis) (ttl : ℕ) where
  open p use {crypto}

  -- The services share the database.
  abbrev pub backend : Backend
  backend = record { orm = p.orm; redis = redis; cache_ttl_ms = ttl }

  abbrev pub after_delete : String → ℕ → World backend → World backend
  after_delete id now w = (invalidate_user backend id (record w { db = deleted id now w.db })).1

  soft_delete-found :
      (id : String) (acting : Option String) (now : ℕ) (w : World backend) {user : User}
      → is_self id acting ≡ false
      → find? (live_with_id id) w.db.users ≡ some user
      → soft_delete backend id acting now w ≡ (ok tt, after_delete id now w)
  unfolding soft_delete find_with_roles_or_fail find_with_roles_by_id delete_rows invalidate_user
      safe_del
  soft_delete-found id acting now w other found = rw (
    other, documented.find_one_lem, found, documented.transaction_lem, documented.update_lem,
    documented.update_lem, documented.update_lem,
  )

  soft_delete-missing :
      (id : String) (acting : Option String) (now : ℕ) (w : World backend)
      → is_self id acting ≡ false
      → find? (live_with_id id) w.db.users ≡ none
      → soft_delete backend id acting now w ≡ (err (http not_found "User not found"), w)
  unfolding soft_delete find_with_roles_or_fail find_with_roles_by_id
  soft_delete-missing id acting now w other missing = rw (other, documented.find_one_lem, missing)

  soft_delete_self :
      (id : String) (acting : Option String) (now : ℕ) (w : World backend)
      → is_self id acting ≡ true
      → soft_delete backend id acting now w
        ≡ (err (http bad_request "Cannot delete your own account"), w)
  unfolding soft_delete
  soft_delete_self id acting now w self = rw self

  -- Nobody deletes the own account or one that is not there, and then nothing is written;
  -- otherwise the row is marked, the sessions are revoked, the reset tokens are spent and the
  -- user's cached rules are invalidated.
  pub soft_delete_lem :
      (id : String) (acting : Option String) (now : ℕ) (w : World backend)
      → soft_delete backend id acting now w ≡ (
          if is_self id acting
          then (err (http bad_request "Cannot delete your own account"), w)
          else if any (live_with_id id) w.db.users
          then (ok tt, after_delete id now w)
          else (err (http not_found "User not found"), w))
  soft_delete_lem id acting now w = elim (Bool-cases (is_self id acting)) [
    | inl self ↦ rw (soft_delete_self id acting now w self, self)
    | inr other ↦ elim (Option-cases (find? (live_with_id id) w.db.users)) [
      | inl missing ↦ rw (
        soft_delete-missing id acting now w other missing,
        other,
        any_of_missing (live_with_id id) w.db.users missing,
      )
      | inr (user, found) ↦ rw (
        soft_delete-found id acting now w other found,
        other,
        any_of_found (live_with_id id) w.db.users found,
      )
    ]
  ]

  deleted-eq :
      (id : String) (acting : Option String) (now : ℕ) (w : World backend) {w' : World backend}
      → soft_delete backend id acting now w ≡ (ok tt, w')
      → w'.db ≡ deleted id now w.db
  unfolding invalidate_user safe_del
  deleted-eq id acting now w h = ground (arith, soft_delete_lem id acting now w)

  -- After an account is deleted none of its stored sessions can be refreshed.
  pub refresh_after_delete :
      (id : String) (acting : Option String) (now : ℕ) (w : World backend) (presented : String)
      (meta : SessionMetadata) (draw : Draw) {w' : World backend} {session : RefreshToken}
      → soft_delete backend id acting now w ≡ (ok tt, w')
      → stored_for p documented presented w.db ≡ some session
      → session.user_id ≡ id
      → presented ≢ ""
      → (refresh p (some presented) meta draw w'.db).0
        ≡ err (http unauthorized "Invalid refresh token")
  refresh_after_delete id acting now w presented meta draw {w'} {session} gone held own given =
      let test = same_hash (crypto.hash_token presented) in
      let dead : RefreshToken = if unrevoked_of id session then revoke now session else session in
      let held' : stored_for p documented presented (deleted id now w.db) ≡ some dead =
        rw (find?-modify test (unrevoked_of id) (revoke now) w.db.refresh_tokens (λ t. refl), held)
          refl in
      rw (deleted-eq id acting now w gone) (
        ap (λ (r : Result AuthSession × Db). r.0)
          (refresh_reused p documented presented meta draw (deleted id now w.db) dead given held'
            (ground (arith, eq_iff session.user_id id))))

  -- After an account is deleted, logging in with its email is refused as an unknown email is, and
  -- nothing is written, if no two live accounts shared an email.
  pub login_after_delete :
      (id : String) (acting : Option String) (now : ℕ) (w : World backend) (dto : LoginDto)
      (meta : SessionMetadata) (draw : Draw) {w' : World backend} {user : User}
      → HasUniqueEmails w.db
      → account_of p documented dto w.db ≡ some user
      → user.id ≡ id
      → soft_delete backend id acting now w ≡ (ok tt, w')
      → login p dto meta draw w'.db ≡ (err (http unauthorized "Invalid credentials"), w'.db)
  login_after_delete id acting now w dto meta draw {w'} {user} unique held own gone =
      rw (deleted-eq id acting now w gone) (
        login_uniform p documented dto meta draw (deleted id now w.db) (λ u found. absurd (
          ground (
            arith,
            any-deleted_only (normalize_email dto.email) id now w.db.users user
                (unique (normalize_email dto.email)) held own,
            any_of_found (live_with_email (normalize_email dto.email)) (deleted id now w.db).users
                found,
          ))))
