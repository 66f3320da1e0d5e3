-- ===== src/Guards/Identity/Agreement.antt =====
-- A socket and a request with the same token are the same user.
use nestjs_app.Prelude.{
  ◌≡◌, refl, ap, String, Bool, true, false, not, Option, none, some, arith, find?, str_eq,
  Bool-cases, inl, inr, if◌then◌else◌,
}
use nestjs_app.Result.{continue, pure, Result, ok, err}
use nestjs_app.Db.{Db, Documented, Orm, User, active, is_active}
use nestjs_app.Users.Lookup.{live_with_id, find_by_id}
use nestjs_app.Guards.Identity.{
  Jwt, JwtPayload, Socket, truthy, subject_of, validate, validate_subject, verify_token, identify,
  identify_verified, find_active_user_by_id, require_active, authenticate, authenticate_token,
  extract_token, accept, correlation,
}

-- A correlation id that is there and not empty.
abbrev pub has_correlation : Option String → Bool
has_correlation none = false
has_correlation (some id) = not (str_eq id "")

-- The account that a claim names: the live row with that id, if it is active.
abbrev active_only : Option User → Option User
active_only none = none
active_only (some user) = if is_active user.status then some user else none

abbrev pub account_of : Option String → Db → Option User
account_of none db = none
account_of (some sub) db =
    if str_eq sub "" then none else active_only (find? (live_with_id sub) db.users)

-- The user that a request is answered by, if any.
abbrev pub user_of : Result (Option User) → Option User
user_of (ok found) = found
user_of (err e) = none

-- What a socket is answered for an account, and what becomes of it: it is accepted, is that user's,
-- and has a correlation id, the one it had or the new one; or it is refused and disconnected.
abbrev pub as_account : String → Option User → Socket → Bool × Socket
as_account generated (some user) socket = (
  true,
  record {
    auth_token = socket.auth_token;
    authorization = socket.authorization;
    user = some user;
    correlation_id =
        if has_correlation socket.correlation_id then socket.correlation_id else some generated;
    disconnected = socket.disconnected;
  },
)
as_account generated none socket = (false, record socket { disconnected = true })

correlation-kept :
    (generated : String) (given : Option String)
    → correlation generated given ≡ (if has_correlation given then given else some generated)
correlation-kept generated none = refl
correlation-kept generated (some id) = ground arith

module _ (orm : Orm) (jwt : Jwt) (documented : Documented orm) where
  -- An answer of the service, as both callers use it, for the account that it should find.
  record Finds (account : Option User) (r : Result User × Db) : Type 0 where
    pub accepted :
        (generated : String) (socket : Socket)
        → accept generated r.0 socket ≡ as_account generated account socket
    pub answered : user_of (continue r.0 (λ user. pure (some user)) r.1).0 ≡ account

  found-Finds : (user : User) (db : Db) → Finds (some user) (ok user, db)
  found-Finds user db = record {
    accepted = λ generated socket.
        ap (λ (id : Option String). (true, record socket { user = some user; correlation_id = id }))
          (correlation-kept generated socket.correlation_id);
    answered = refl;
  }

  active-Finds :
      (db : Db) (found : Option User) → Finds (active_only found) (require_active orm jwt found db)
  unfolding require_active
  active-Finds db none = record { accepted = λ generated socket. refl; answered = refl }
  active-Finds db (some user) = elim (Bool-cases (is_active user.status)) [
    | inl working ↦ rw working (found-Finds user db)
    | inr other ↦ rw other (record { accepted = λ generated socket. refl; answered = refl })
  ]

  find_active-Finds :
      (sub : String) (db : Db)
      → Finds
          (active_only (find? (live_with_id sub) db.users))
          (find_active_user_by_id orm jwt sub db)
  unfolding find_active_user_by_id find_by_id
  find_active-Finds sub db =
      rw (documented.find_one_lem) (active-Finds db (find? (live_with_id sub) db.users))

  -- What both do for a claim, be it empty.
  record Agree (generated : String) (subject : Option String) (account : Option User) (db : Db)
      (socket : Socket) : Type 0 where
    pub by_socket :
        accept generated (identify orm jwt subject db).0 socket
        ≡ as_account generated account socket
    pub by_request : user_of (validate_subject orm jwt subject db).0 ≡ account

  claim-Agree :
      (generated : String) (sub : Option String) (db : Db) (socket : Socket)
      → Agree generated (truthy sub) (account_of sub db) db socket
  unfolding identify validate_subject
  claim-Agree generated none db socket = record { by_socket = refl; by_request = refl }
  claim-Agree generated (some sub) db socket = elim (Bool-cases (str_eq sub "")) [
    | inl empty ↦ rw empty (record { by_socket = refl; by_request = refl })
    | inr given ↦ rw given (
        let finds = find_active-Finds sub db in
        record { by_socket = finds.accepted generated socket; by_request = finds.answered })
  ]

  -- With a token that verifies: a request with its payload is answered by the account that the
  -- payload names, if that is live and active, and by no user otherwise; and the socket is accepted
  -- for the same account, is then that user's, and keeps its correlation id, or gets the new one
  -- where it had none or an empty one; without an account it is refused and disconnected. Nothing
  -- else of the socket changes.
  pub authenticate-validate :
      (generated token : String) (payload : JwtPayload) (db : Db) (socket : Socket)
      → truthy (extract_token socket) ≡ some token
      → jwt.verify token ≡ some payload
      → let account = account_of payload.sub db in
        (user_of (validate orm jwt payload db).0 ≡ account)
        × (authenticate orm jwt generated db socket ≡ as_account generated account socket)
  unfolding authenticate authenticate_token verify_token identify_verified validate subject_of
  authenticate-validate generated token payload db socket held verified =
      let both = claim-Agree generated payload.sub db socket in
      (both.by_request, rw (held, verified) both.by_socket)

module _ (orm : Orm) (jwt : Jwt) (documented : Documented orm) where
  accepted_active :
      (generated sub : String) (db : Db) (socket : Socket) (o : Option User)
      → find? (live_with_id sub) db.users ≡ o
      → (accept generated (find_active_user_by_id orm jwt sub db).0 socket).0 ≡ true
      → (user : User) × (o ≡ some user)
        × (user.status ≡ active)
        × ((accept generated (find_active_user_by_id orm jwt sub db).0 socket).1.user ≡ some user)
  unfolding find_active_user_by_id find_by_id require_active
  accepted_active generated sub db socket none e h =
      absurd (ground (arith, documented.find_one_lem (live_with_id sub) db.users))
  accepted_active generated sub db socket (some user) e h = (
    user,
    refl,
    ground (arith, documented.find_one_lem (live_with_id sub) db.users),
    ground (arith, documented.find_one_lem (live_with_id sub) db.users),
  )

  accepted_subject :
      (generated : String) (subject : Option String) (db : Db) (socket : Socket)
      → (accept generated (identify orm jwt subject db).0 socket).0 ≡ true
      → (sub : String) × (user : User) × (subject ≡ some sub)
        × (find? (live_with_id sub) db.users ≡ some user)
        × (user.status ≡ active)
        × ((accept generated (identify orm jwt subject db).0 socket).1.user ≡ some user)
  unfolding identify
  accepted_subject generated none db socket h = absurd (ground arith)
  accepted_subject generated (some sub) db socket h =
      let (user, a, b, c) = accepted_active generated sub db socket _ refl h in
      (sub, user, refl, a, b, c)

  accepted_payload :
      (generated : String) (payload : Option JwtPayload) (db : Db) (socket : Socket)
      → (accept generated (identify_verified orm jwt payload db).0 socket).0 ≡ true
      → (claims : JwtPayload) × (sub : String) × (user : User) × (payload ≡ some claims)
        × (subject_of claims ≡ some sub)
        × (find? (live_with_id sub) db.users ≡ some user)
        × (user.status ≡ active)
        × ((accept generated (identify_verified orm jwt payload db).0 socket).1.user ≡ some user)
  unfolding identify_verified
  accepted_payload generated none db socket h = absurd (ground arith)
  accepted_payload generated (some claims) db socket h =
      let (sub, user, a, b, c, d) = accepted_subject generated (subject_of claims) db socket h in
      (claims, sub, user, refl, a, b, c, d)

  accepted_token :
      (generated : String) (given : Option String) (db : Db) (socket : Socket)
      → (authenticate_token orm jwt given generated db socket).0 ≡ true
      → (token : String) × (claims : JwtPayload) × (sub : String) × (user : User) × (given
          ≡ some token)
        × (jwt.verify token ≡ some claims)
        × (subject_of claims ≡ some sub)
        × (find? (live_with_id sub) db.users ≡ some user)
        × (user.status ≡ active)
        × ((authenticate_token orm jwt given generated db socket).1.user ≡ some user)
  unfolding authenticate_token verify_token
  accepted_token generated none db socket h = absurd (ground arith)
  accepted_token generated (some token) db socket h =
      let (claims, sub, user, a, b, c, d, e) =
        accepted_payload generated (jwt.verify token) db socket h in
      (token, claims, sub, user, refl, a, b, c, d, e)

  -- A socket is accepted only with a token that verifies and names a live, active account, and
  -- then it is that account's.
  pub authenticate-eq-true :
      (generated : String) (db : Db) (socket : Socket)
      → (authenticate orm jwt generated db socket).0 ≡ true
      → (token : String) × (claims : JwtPayload) × (sub : String) × (user : User) × (truthy
            (extract_token socket)
          ≡ some token)
        × (jwt.verify token ≡ some claims)
        × (subject_of claims ≡ some sub)
        × (find? (live_with_id sub) db.users ≡ some user)
        × (user.status ≡ active)
        × ((authenticate orm jwt generated db socket).1.user ≡ some user)
  unfolding authenticate
  authenticate-eq-true generated db socket h =
      accepted_token generated (truthy (extract_token socket)) db socket h
