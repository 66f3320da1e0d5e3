-- ===== src/Auth/Credentials/Signup.antt =====
-- Signing up, while other requests write between the check of the email and the insert.
use nestjs_app.Prelude.{
  ◌≡◌, refl, inl, inr, String, true, none, some, List, [], ◌⊎◌, arith, find?, any_of_missing, any,
  Option-cases,
}
use nestjs_app.Result.{Result, ok, err, continue, http, conflict}
use nestjs_app.Db.{Db, Documented, User, Role}
use nestjs_app.Users.Lookup.{live_with_email, find_by_email}
use nestjs_app.Users.Create.{create_with_default_role, catch_conflict, rethrow_conflict_or_original}
use nestjs_app.Users.Create.Emails.{HasUniqueEmails, create_user-HasUniqueEmails, create_user_taken}
use nestjs_app.Auth.Session.{
  Providers, Draw, SessionMetadata, same_hash, create_session, new_refresh_token,
}
use nestjs_app.Auth.Credentials.{
  RegisterDto, register, register_insert, register_input, normalize_email,
}

module _ (p : Providers) (documented : Documented p.orm) where
  open p use {crypto}

  pub create_session-users :
      (user : User) (roles : List Role) (meta : SessionMetadata) (draw : Draw) (db : Db)
      → (create_session p user roles meta draw db).1.users ≡ db.users
  unfolding create_session
  create_session-users user roles meta draw db = ground (
    arith,
    documented.insert_lem (same_hash (crypto.hash_token draw.opaque_token))
        (new_refresh_token p user draw.uuid meta draw) db.refresh_tokens,
  )

  -- What stands in the users after the insert is what the transaction left.
  insert-users :
      (message : String) (meta : SessionMetadata) (draw : Draw) (r : Result User × Db)
      → (let (o, db) = catch_conflict message r in
          continue o (λ user. create_session p user [] meta draw) db).1.users
        ≡ r.1.users
  insert-users message meta draw (ok user, db) = create_session-users user [] meta draw db
  insert-users message meta draw (err e, db) = refl

  register_insert-HasUniqueEmails :
      (dto : RegisterDto) (meta : SessionMetadata) (draw session_draw : Draw) (db : Db)
      → HasUniqueEmails db
      → HasUniqueEmails (register_insert p dto meta draw session_draw db).1
  unfolding register_insert create_with_default_role
  register_insert-HasUniqueEmails dto meta draw session_draw db unique email =
      rw
        (insert-users "Email is already registered" meta session_draw
          (create_with_default_role p.orm (register_input p dto draw) draw.row_id draw.now db))
        (create_user-HasUniqueEmails p.orm documented (register_input p dto draw) none draw.row_id
          draw.now db unique email)

  register_insert_taken :
      (dto : RegisterDto) (meta : SessionMetadata) (draw session_draw : Draw) (db : Db)
      → any (live_with_email (normalize_email dto.email)) db.users ≡ true
      → register_insert p dto meta draw session_draw db
        ≡ (err (http conflict "Email is already registered"), db)
  unfolding register_insert create_with_default_role register_input rethrow_conflict_or_original
  register_insert_taken dto meta draw session_draw db taken = rw (
      create_user_taken p.orm documented (register_input p dto draw) none draw.row_id draw.now db
        taken)

  pub register_known :
      (dto : RegisterDto) (meta : SessionMetadata) (meanwhile : Db → Db) (draw session_draw : Draw)
      (db : Db) {user : User}
      → find? (live_with_email (normalize_email dto.email)) db.users ≡ some user
      → register p dto meta meanwhile draw session_draw db
        ≡ (err (http conflict "Email is already registered"), db)
  unfolding register find_by_email
  register_known dto meta meanwhile draw session_draw db found = rw (documented.find_one_lem, found)

  pub register_unknown :
      (dto : RegisterDto) (meta : SessionMetadata) (meanwhile : Db → Db) (draw session_draw : Draw)
      (db : Db)
      → find? (live_with_email (normalize_email dto.email)) db.users ≡ none
      → register p dto meta meanwhile draw session_draw db
        ≡ register_insert p dto meta draw session_draw (meanwhile db)
  unfolding register find_by_email
  register_unknown dto meta meanwhile draw session_draw db missing =
      rw (documented.find_one_lem, missing)

  -- Whatever is written between the check and the insert, signing up leaves no two live accounts
  -- with one email, if there were none before.
  pub register-HasUniqueEmails :
      (dto : RegisterDto) (meta : SessionMetadata) (meanwhile : Db → Db) (draw session_draw : Draw)
      (db : Db)
      → HasUniqueEmails db
      → HasUniqueEmails (meanwhile db)
      → HasUniqueEmails (register p dto meta meanwhile draw session_draw db).1
  register-HasUniqueEmails dto meta meanwhile draw session_draw db unique unique' =
      elim (Option-cases (find? (live_with_email (normalize_email dto.email)) db.users)) [
        | inl missing ↦
            rw (register_unknown dto meta meanwhile draw session_draw db missing)
              (register_insert-HasUniqueEmails dto meta draw session_draw (meanwhile db) unique')
        | inr (user, found) ↦
            rw (register_known dto meta meanwhile draw session_draw db found) unique
      ]

  -- An email that is taken when it is checked, or by the time of the insert, is answered by a
  -- conflict (never by the database's own error), and this request has then written nothing.
  pub register_taken :
      (dto : RegisterDto) (meta : SessionMetadata) (meanwhile : Db → Db) (draw session_draw : Draw)
      (db : Db)
      → let taken = λ (state : Db). any (live_with_email (normalize_email dto.email)) state.users in
        (taken db ≡ true) ⊎ (taken (meanwhile db) ≡ true)
        → let (answer, state) = register p dto meta meanwhile draw session_draw db in
          (answer ≡ err (http conflict "Email is already registered"))
          × ((state ≡ db) ⊎ (state ≡ meanwhile db))
  register_taken dto meta meanwhile draw session_draw db taken =
      elim (Option-cases (find? (live_with_email (normalize_email dto.email)) db.users)) [
        | inl missing ↦
            let late : any (live_with_email (normalize_email dto.email)) (meanwhile db).users
                ≡ true =
              ground (
                arith,
                any_of_missing (live_with_email (normalize_email dto.email)) db.users missing,
              ) in
            rw
              (
                register_unknown dto meta meanwhile draw session_draw db missing,
                register_insert_taken dto meta draw session_draw (meanwhile db) late,
              )
              (refl, inr refl)
        | inr (user, found) ↦
            rw (register_known dto meta meanwhile draw session_draw db found) (refl, inl refl)
      ]
