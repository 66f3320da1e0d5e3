-- ===== src/Auth/Reset/Requests.antt =====
-- Asking for a password reset: what is mailed, to whom, and what the mailed token is good for.
use nestjs_app.Prelude.{
  ℕ, ◌+◌, ◌≤◌, ◌≡◌, refl, ◌∙◌, String, Bool, true, false, not, ◌&&◌, str_eq, none, some, List, [],
  ◌∷◌, ◌++◌, arith, eq_refl, if◌then◌else◌, find?, find?-append_last, find?-modify, any, any-modify,
  modify,
}
use nestjs_app.Result.{ok}
use nestjs_app.Db.{Db, Documented, User, PasswordResetToken, RefreshToken, active, is_set}
use nestjs_app.Users.Lookup.{live_with_id, live_with_email, find_by_email, UserWithRoles, role_of}
use nestjs_app.Auth.Session.{Providers, Draw, SessionMetadata, reset_expiry}
use nestjs_app.Auth.Credentials.{normalize_email}
use nestjs_app.Auth.Refresh.{revoke}
use nestjs_app.Auth.Reset.{
  forgot_password, forgot_for, issue_reset, update_reset_tokens, save_reset_token, has_hash, spend,
  unused_of, new_reset_token, reset_password, reset_with, set_password, unrevoked_of,
}
use nestjs_app.Auth.Reset.Effects.{reset-settle, reset_stored, after_reset, apply_reset-lem}

-- How many reset tokens of the user are unused.
abbrev pub unused : String → List PasswordResetToken → ℕ
unused user_id [] = 0
unused user_id (t ∷ ts) = (if unused_of user_id t then 1 else 0) + unused user_id ts

unused-append :
    (user_id : String) (xs ys : List PasswordResetToken)
    → unused user_id (xs ++ ys) ≡ unused user_id xs + unused user_id ys
unused-append user_id [] ys = omega arith
unused-append user_id (x ∷ xs) ys = omega (arith, unused-append user_id xs ys)

unused-spend :
    (user_id : String) (now : ℕ) (ts : List PasswordResetToken)
    → unused user_id (modify (unused_of user_id) (spend now) ts) ≡ 0
unused-spend user_id now [] = refl
unused-spend user_id now (t ∷ ts) = ground (arith, unused-spend user_id now ts)

-- Spending leaves no token unused of those that were not, and of a last one that is chosen.
unused-spend_last :
    (user_id : String) (now : ℕ) (q : PasswordResetToken → Bool) (ts : List PasswordResetToken)
    (t : PasswordResetToken)
    → unused user_id ts ≡ 0
    → q t ≡ true
    → unused user_id (modify q (spend now) (ts ++ t ∷ [])) ≡ 0
unused-spend_last user_id now q [] t h chosen = ground arith
unused-spend_last user_id now q (x ∷ ts) t h chosen =
    ground (arith, unused-spend_last user_id now q ts t)

revoked_all :
    (user_id : String) (now : ℕ) (ts : List RefreshToken)
    → any
        (λ (t : RefreshToken). str_eq t.user_id user_id && not (is_set t.revoked_at))
        (modify (unrevoked_of user_id) (revoke now) ts)
      ≡ false
revoked_all user_id now [] = refl
revoked_all user_id now (t ∷ ts) = ground (arith, revoked_all user_id now ts)

module _ (p : Providers) (documented : Documented p.orm) where
  open p use {crypto}

  -- The database after a token is issued.
  abbrev pub with_reset : User → SessionMetadata → Draw → Db → Db
  with_reset user meta draw db = record db {
    password_reset_tokens =
        modify (unused_of user.id) (spend draw.now) db.password_reset_tokens
        ++ new_reset_token p user meta draw ∷ [];
  }

  abbrev pub is_new_reset : Draw → Db → Bool
  is_new_reset draw db =
      not (any (has_hash (crypto.hash_token draw.opaque_token)) db.password_reset_tokens)

  issue_reset-new :
      (user : User) (meta : SessionMetadata) (draw : Draw) (db : Db)
      → is_new_reset draw db ≡ true
      → issue_reset p meta draw user db ≡ (
        ok (record { email = user.email; token = draw.opaque_token } ∷ []),
        with_reset user meta draw db,
      )
  unfolding issue_reset update_reset_tokens save_reset_token
  issue_reset-new user meta draw db new =
      let test = has_hash (crypto.hash_token draw.opaque_token) in
      let fresh : any test (modify (unused_of user.id) (spend draw.now) db.password_reset_tokens)
          ≡ false =
        any-modify test (unused_of user.id) (spend draw.now) db.password_reset_tokens (λ t. refl)
        ∙ ground arith in
      rw (documented.update_lem, documented.insert_lem, fresh)

  -- Who has an account that can be reset.
  abbrev pub IsResettable : String → User → Db → Type 0
  IsResettable email user db =
      (find? (live_with_email (normalize_email email)) db.users ≡ some user)
      × (user.status ≡ active)

  forgot-user :
      (email : String) (meta : SessionMetadata) (draw : Draw) (db : Db) (user : User)
      → find? (live_with_email (normalize_email email)) db.users ≡ some user
      → forgot_password p email meta draw db
        ≡ forgot_for p meta draw
            (some
              (record { user = user; roles = p.orm.find (role_of db.user_roles user.id) db.roles }))
            db
  unfolding forgot_password find_by_email
  forgot-user email meta draw db user found = rw (documented.find_one_lem, found)

  forgot-nobody :
      (email : String) (meta : SessionMetadata) (draw : Draw) (db : Db)
      → find? (live_with_email (normalize_email email)) db.users ≡ none
      → forgot_password p email meta draw db ≡ (ok [], db)
  unfolding forgot_password find_by_email forgot_for
  forgot-nobody email meta draw db missing = rw (documented.find_one_lem, missing)

  forgot_for-active :
      (found : UserWithRoles) (meta : SessionMetadata) (draw : Draw) (db : Db)
      → found.user.status ≡ active
      → forgot_for p meta draw (some found) db ≡ issue_reset p meta draw found.user db
  unfolding forgot_for
  forgot_for-active found meta draw db working = rw working

  pub forgot-active :
      (email : String) (meta : SessionMetadata) (draw : Draw) (db : Db) (user : User)
      → IsResettable email user db
      → is_new_reset draw db ≡ true
      → forgot_password p email meta draw db ≡ (
        ok (record { email = user.email; token = draw.opaque_token } ∷ []),
        with_reset user meta draw db,
      )
  forgot-active email meta draw db user (found, working) new =
      rw
        (
          forgot-user email meta draw db user found,
          forgot_for-active
              (record { user = user; roles = p.orm.find (role_of db.user_roles user.id) db.roles })
              meta draw db working,
        )
        (issue_reset-new user meta draw db new)

  -- After a request for an active account, with a token that is new, the account has one unused
  -- reset token.
  pub forgot-unused :
      (email : String) (meta : SessionMetadata) (draw : Draw) (db : Db) (user : User)
      → IsResettable email user db
      → is_new_reset draw db ≡ true
      → unused user.id (forgot_password p email meta draw db).1.password_reset_tokens ≡ 1
  forgot-unused email meta draw db user able new =
      rw (forgot-active email meta draw db user able new) (
        ground (
          arith,
          unused-append user.id
              (modify (unused_of user.id) (spend draw.now) db.password_reset_tokens)
              (new_reset_token p user meta draw ∷ []),
          unused-spend user.id draw.now db.password_reset_tokens,
          eq_refl user.id,
        ))

  reset_with_live :
      (password : String) (draw : Draw) (reset : PasswordResetToken) (user : User) (db : Db)
      → reset.used_at ≡ none
      → draw.now ≤ reset.expires_at
      → find? (live_with_id reset.user_id) db.users ≡ some user
      → user.status ≡ active
      → reset_with p password draw (some reset) db
        ≡ (ok tt, after_reset p documented password draw reset user db)
  unfolding reset_with
  reset_with_live password draw reset user db unspent current owner working = ground (
    arith,
    documented.find_one_lem (live_with_id reset.user_id) db.users,
    apply_reset-lem p documented password draw reset user db,
  )

  -- The mailed token is stored, and is that of the account.
  mailed_stored :
      (user : User) (meta : SessionMetadata) (draw : Draw) (db : Db)
      → is_new_reset draw db ≡ true
      → reset_stored p documented draw.opaque_token (with_reset user meta draw db)
        ≡ some (new_reset_token p user meta draw)
  mailed_stored user meta draw db new =
      let test = has_hash (crypto.hash_token draw.opaque_token) in
      let fresh : any test (modify (unused_of user.id) (spend draw.now) db.password_reset_tokens)
          ≡ false =
        any-modify test (unused_of user.id) (spend draw.now) db.password_reset_tokens (λ t. refl)
        ∙ ground arith in
      find?-append_last test (modify (unused_of user.id) (spend draw.now) db.password_reset_tokens)
        (new_reset_token p user meta draw) fresh (eq_refl _)

  -- What a reset leaves of an account: a password that is the hash of the new one, no unused reset
  -- token, and no session that is not revoked.
  pub record HasNewPassword (user_id password salt : String) (db : Db) : Type 0 where
    pub account : User
    pub found : find? (live_with_id user_id) db.users ≡ some account
    pub new_password : account.password_hash ≡ crypto.hash_password salt password
    pub no_token : unused user_id db.password_reset_tokens ≡ 0
    pub no_session :
        any
          (λ (t : RefreshToken). str_eq t.user_id user_id && not (is_set t.revoked_at))
          db.refresh_tokens
        ≡ false

  after_reset-HasNewPassword :
      (password : String) (meta : SessionMetadata) (draw draw' : Draw) (user : User) (db : Db)
      → find? (live_with_id user.id) db.users ≡ some user
      → HasNewPassword user.id password draw'.salt (
          after_reset p documented password draw'
            (new_reset_token p user meta draw)
            user
            (with_reset user meta draw db))
  after_reset-HasNewPassword password meta draw draw' user db byid = record {
    account = set_password draw'.now (crypto.hash_password draw'.salt password) user;
    found = rw (
      find?-modify (live_with_id user.id) (λ (u : User). str_eq u.id user.id)
          (set_password draw'.now (crypto.hash_password draw'.salt password)) db.users (λ u. refl),
      byid,
      eq_refl,
    );
    new_password = refl;
    no_token =
        unused-spend_last user.id draw'.now (λ t. str_eq t.id draw.row_id)
          (modify (unused_of user.id) (spend draw.now) db.password_reset_tokens)
          (new_reset_token p user meta draw)
          (unused-spend user.id draw.now db.password_reset_tokens) (eq_refl draw.row_id);
    no_session = revoked_all user.id draw'.now db.refresh_tokens;
  }

  -- For an active account that is the one with its id, and a new token: a request mails the token
  -- to the account's email. Until it expires, a reset with it succeeds, and then the password of the
  -- account is the hash of the new one, and the account has no unused reset token and no session
  -- that is not revoked.
  pub reset_after_forgot :
      (email password : String) (meta : SessionMetadata) (draw draw' : Draw) (db : Db) (user : User)
      → IsResettable email user db
      → find? (live_with_id user.id) db.users ≡ some user
      → is_new_reset draw db ≡ true
      → draw'.now ≤ reset_expiry p draw
      → let (mail, after) = forgot_password p email meta draw db in
        let (answer, last) = reset_password p draw.opaque_token password draw' after in
        (mail ≡ ok (record { email = user.email; token = draw.opaque_token } ∷ []))
        × (answer ≡ ok tt)
        × HasNewPassword user.id password draw'.salt last
  reset_after_forgot email password meta draw draw' db user (found, working) byid new current =
      rw
        (
          forgot-active email meta draw db user (found, working) new,
          reset-settle p documented,
          mailed_stored user meta draw db new,
          reset_with_live password draw' (new_reset_token p user meta draw) user
              (with_reset user meta draw db) refl current byid working,
        )
        (refl, refl, after_reset-HasNewPassword password meta draw draw' user db byid)
