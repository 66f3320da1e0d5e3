-- ===== src/Auth/Histories/Sessions.antt =====
-- What each request does to the number of live tokens of a family.
use nestjs_app.Prelude.{
  ℕ, ◌≤◌, ◌≡◌, refl, ◌∙◌, inl, inr, String, false, Option, none, some, List, [], ◌∷◌, arith, str_eq,
  eq_iff, any, find?, Option-cases,
}
use nestjs_app.Result.{Result, ok, err, continue}
use nestjs_app.Db.{Db, Documented, settle, User, Role, RefreshToken}
use nestjs_app.Users.Lookup.{UserWithRoles, find_by_email, live_with_email}
use nestjs_app.Users.Create.{
  CreateUserInput, catch_conflict, create_user_in_transaction, create_with_default_role, save_user,
  assign_default_role,
}
use nestjs_app.Auth.Session.{
  Providers, Draw, SessionMetadata, same_hash, create_session, new_refresh_token,
}
use nestjs_app.Auth.Refresh.{has_id, revoke, revoke_found, logout}
use nestjs_app.Auth.Refresh.Families.{unrevoked, unrevoked-append, unrevoked-revoke}
use nestjs_app.Auth.Credentials.{
  LoginDto, RegisterDto, login, check_credentials, register, register_insert, register_input,
  normalize_email,
}
use nestjs_app.Auth.Credentials.Signup.{register_known, register_unknown}
use nestjs_app.Auth.Reset.{
  forgot_password, forgot_for, issue_reset, update_reset_tokens, save_reset_token, unrevoked_of,
  reset_password, reset_with,
}
use nestjs_app.Auth.Reset.Effects.{reset-settle, reset-eq-ok}
use nestjs_app.Auth.Histories.{IsNewFamily}

new_family :
    (family : String) (ts : List RefreshToken)
    → any (λ (t : RefreshToken). str_eq t.family_id family) ts ≡ false
    → unrevoked family ts ≡ 0
new_family family [] h = refl
new_family family (t ∷ ts) h = ground (arith, new_family family ts)

module _ (p : Providers) (documented : Documented p.orm) where
  open p use {crypto}

  pub create_session-unrevoked_le :
      (user : User) (roles : List Role) (meta : SessionMetadata) (draw : Draw) (db : Db)
      (family : String)
      → IsNewFamily draw db
      → unrevoked family db.refresh_tokens ≤ 1
      → unrevoked family (create_session p user roles meta draw db).1.refresh_tokens ≤ 1
  unfolding create_session
  create_session-unrevoked_le user roles meta draw db family new h =
      let row = new_refresh_token p user draw.uuid meta draw in
      ground (
        arith,
        documented.insert_lem (same_hash (crypto.hash_token draw.opaque_token)) row
            db.refresh_tokens,
        unrevoked-append family db.refresh_tokens (row ∷ []),
        new_family family db.refresh_tokens,
        eq_iff draw.uuid family,
      )

  check_credentials-unrevoked_le :
      (password : String) (meta : SessionMetadata) (draw : Draw) (found : Option UserWithRoles)
      (db : Db) (family : String)
      → IsNewFamily draw db
      → unrevoked family db.refresh_tokens ≤ 1
      → unrevoked family (check_credentials p password meta draw found db).1.refresh_tokens ≤ 1
  unfolding check_credentials
  check_credentials-unrevoked_le password meta draw none db family new h = h
  check_credentials-unrevoked_le password meta draw (some found) db family new h =
      ground (arith, create_session-unrevoked_le found.user found.roles meta draw db family new h)

  pub login-unrevoked_le :
      (dto : LoginDto) (meta : SessionMetadata) (draw : Draw) (db : Db) (family : String)
      → IsNewFamily draw db
      → unrevoked family db.refresh_tokens ≤ 1
      → unrevoked family (login p dto meta draw db).1.refresh_tokens ≤ 1
  unfolding login find_by_email
  login-unrevoked_le dto meta draw db family new h =
      check_credentials-unrevoked_le dto.password meta draw _ db family new h

  revoke_found-unrevoked_le :
      (found : Option RefreshToken) (draw : Draw) (db : Db) (family : String)
      → unrevoked family (revoke_found p found draw db).1.refresh_tokens
        ≤ unrevoked family db.refresh_tokens
  unfolding revoke_found
  revoke_found-unrevoked_le none draw db family = omega arith
  revoke_found-unrevoked_le (some t) draw db family = ground (
    arith,
    documented.update_lem (has_id t.id) (revoke draw.now) db.refresh_tokens,
    unrevoked-revoke family (has_id t.id) draw.now db.refresh_tokens,
  )

  pub logout-unrevoked_le :
      (presented : Option String) (draw : Draw) (db : Db) (family : String)
      → unrevoked family (logout p presented draw db).1.refresh_tokens
        ≤ unrevoked family db.refresh_tokens
  unfolding logout
  logout-unrevoked_le none draw db family = omega arith
  logout-unrevoked_le (some presented) draw db family = ground (
    arith,
    revoke_found-unrevoked_le
        (p.orm.find_one (same_hash (crypto.hash_token presented)) db.refresh_tokens) draw db family,
  )

  -- A reset that fails leaves the database; one that succeeds is `reset-eq-ok`.
  pub reset-cases :
      (P : Db → Type 0) (token password : String) (draw : Draw) (db : Db)
      → P db
      → ((db' : Db) → reset_password p token password draw db ≡ (ok tt, db') → P db')
      → P (reset_password p token password draw db).1
  reset-cases P token password draw db h k = rw (reset-settle p documented token password draw db) (
      settled (reset_with p password draw _ db)
        (λ db' e. k db' (reset-settle p documented token password draw db ∙ e)))
    where
      settled :
          (r : Result (Unit {0}) × Db)
          → ((db' : Db) → settle db r ≡ (ok tt, db') → P db')
          → P (settle db r).1
      settled (ok tt, db') k' = k' db' refl
      settled (err e, db') k' = h

  pub reset-unrevoked_le :
      (token password : String) (draw : Draw) (db : Db) (family : String)
      → unrevoked family (reset_password p token password draw db).1.refresh_tokens
        ≤ unrevoked family db.refresh_tokens
  reset-unrevoked_le token password draw db family =
      reset-cases (λ db'. unrevoked family db'.refresh_tokens ≤ unrevoked family db.refresh_tokens)
        token password draw db (omega arith)
        (λ db' e.
          let (reset, user, _, _, _, _, _, written) =
            reset-eq-ok p documented token password draw db e in
          rw written (unrevoked-revoke family (unrevoked_of user.id) draw.now db.refresh_tokens))

  forgot_for-kept :
      (meta : SessionMetadata) (draw : Draw) (found : Option UserWithRoles) (db : Db)
      → let after = (forgot_for p meta draw found db).1 in
        (after.refresh_tokens ≡ db.refresh_tokens) × (after.users ≡ db.users)
  unfolding forgot_for issue_reset update_reset_tokens save_reset_token
  forgot_for-kept meta draw none db = (refl, refl)
  forgot_for-kept meta draw (some found) db = (ground arith, ground arith)

  -- Asking for a reset changes no session and no user.
  pub forgot-kept :
      (email : String) (meta : SessionMetadata) (draw : Draw) (db : Db)
      → let after = (forgot_password p email meta draw db).1 in
        (after.refresh_tokens ≡ db.refresh_tokens) × (after.users ≡ db.users)
  unfolding forgot_password find_by_email
  forgot-kept email meta draw db = forgot_for-kept meta draw _ db

  -- The transaction that creates an account leaves the sessions.
  create_user-refresh_tokens :
      (input : CreateUserInput) (id : String) (now : ℕ) (db : Db)
      → (create_with_default_role p.orm input id now db).1.refresh_tokens ≡ db.refresh_tokens
  unfolding create_with_default_role create_user_in_transaction save_user assign_default_role
  create_user-refresh_tokens input id now db = rw documented.transaction_lem (ground arith)

  insert-unrevoked_le :
      (message : String) (meta : SessionMetadata) (draw : Draw) (r : Result User × Db)
      (family : String)
      → IsNewFamily draw r.1
      → unrevoked family r.1.refresh_tokens ≤ 1
      → unrevoked family
          (let (o, db) = catch_conflict message r in
            continue o (λ user. create_session p user [] meta draw) db).1.refresh_tokens
        ≤ 1
  insert-unrevoked_le message meta draw (ok user, db) family new h =
      create_session-unrevoked_le user [] meta draw db family new h
  insert-unrevoked_le message meta draw (err e, db) family new h = h

  register_insert-unrevoked_le :
      (dto : RegisterDto) (meta : SessionMetadata) (draw session_draw : Draw) (db : Db)
      (family : String)
      → IsNewFamily session_draw db
      → unrevoked family db.refresh_tokens ≤ 1
      → unrevoked family (register_insert p dto meta draw session_draw db).1.refresh_tokens ≤ 1
  unfolding register_insert
  register_insert-unrevoked_le dto meta draw session_draw db family new h =
      let kept = create_user-refresh_tokens (register_input p dto draw) draw.row_id draw.now db in
      insert-unrevoked_le "Email is already registered" meta session_draw
        (create_with_default_role p.orm (register_input p dto draw) draw.row_id draw.now db) family
        (rw kept new) (rw kept h)

  -- Signing up, while others take the database from one state to another.
  pub register-unrevoked_le :
      (dto : RegisterDto) (meta : SessionMetadata) (draw session_draw : Draw) (db db' : Db)
      (family : String)
      → IsNewFamily session_draw db'
      → unrevoked family db.refresh_tokens ≤ 1
      → unrevoked family db'.refresh_tokens ≤ 1
      → unrevoked family (register p dto meta (λ _. db') draw session_draw db).1.refresh_tokens ≤ 1
  register-unrevoked_le dto meta draw session_draw db db' family new h h' =
      elim (Option-cases (find? (live_with_email (normalize_email dto.email)) db.users)) [
        | inl missing ↦
            rw (register_unknown p documented dto meta (λ _. db') draw session_draw db missing)
              (register_insert-unrevoked_le dto meta draw session_draw db' family new h')
        | inr (user, found) ↦
            rw (register_known p documented dto meta (λ _. db') draw session_draw db found) h
      ]
