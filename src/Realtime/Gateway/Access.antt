-- ===== src/Realtime/Gateway/Access.antt =====
-- Who joins a room, and who may broadcast.
use nestjs_app.Prelude.{
  ℕ, ◌≡◌, ◌≢◌, refl, ◌⊎◌, inl, inr, String, Bool, true, false, Option, none, some, List, [], ◌∷◌,
  ◌++◌, arith, find?, if◌then◌else◌, ap, sym, subst, ◌∙◌,
}
use nestjs_app.Result.{Result, ok, err, http, forbidden}
use nestjs_app.Db.{Db, Documented, User, active, manage}
use nestjs_app.Users.Lookup.{live_with_id}
use nestjs_app.Permissions.Cache.{Backend, World, IsRedis}
use nestjs_app.Permissions.Coherence.{Coherent}
use nestjs_app.Guards.Permission.{Casl}
use nestjs_app.Guards.Access.{IsCasl, may, assert_rules-may}
use nestjs_app.Guards.Identity.{
  Jwt, JwtPayload, Socket, authenticate, truthy, extract_token, subject_of, authenticate_token,
  accept,
}
use nestjs_app.Guards.Identity.Agreement.{authenticate-eq-true}
use nestjs_app.Guards.Throttle.{Verdict, passed, exceeded, throttle, ThrottleState}
use nestjs_app.Controllers.App.{manages, notification_subject}
use nestjs_app.Realtime.Gateway.{
  Live, Reply, replied, Emission, BroadcastNotificationDto, user_room, handle_connection, broadcast,
  check_broadcast, on_broadcast, emit_if, if_accepted, if_passed, broadcast_to_all, join_if,
  broadcast_options, broadcast_event,
}

module _ (b : Backend) (documented : Documented b.orm) (jwt : Jwt) where
  -- The token that the socket presents verifies and names this live, active account.
  abbrev pub Presents : Db → Socket → User → Type 0
  Presents db socket user =
      (token : String) × (claims : JwtPayload) × (sub : String) × (truthy (extract_token socket)
        ≡ some token)
      × (jwt.verify token ≡ some claims)
      × (subject_of claims ≡ some sub)
      × (find? (live_with_id sub) db.users ≡ some user)
      × (user.status ≡ active)

  accepted_user :
      (generated : String) (db : Db) (socket : Socket)
      → (authenticate b.orm jwt generated db socket).0 ≡ true
      → (user : User) × Presents db socket user
        × ((authenticate b.orm jwt generated db socket).1.user ≡ some user)
  accepted_user generated db socket h =
      let (token, claims, sub, user, k, v, s, f, a, u) =
        authenticate-eq-true b.orm jwt documented generated db socket h in
      (user, (token, claims, sub, k, v, s, f, a), u)

  module _ (casl : Casl) (is_casl : IsCasl casl) (laws : IsRedis b.redis) where
    -- Nothing is emitted, and the reply is not that of a broadcast.
    abbrev pub IsSilent : List Emission → Reply × Live b → Type 0
    IsSilent before r = (r.1.emitted ≡ before) × (r.0 ≢ replied)

    abbrev pub IsSent : BroadcastNotificationDto → List Emission → Reply × Live b → Type 0
    IsSent dto before r =
        (r.0 ≡ replied)
        × (r.1.emitted
            ≡ before ++ record { room = none; event = "notifications:new"; payload = dto } ∷ [])

    checked :
        (dto : BroadcastNotificationDto) (allowed : Bool) (live : Live b)
        (r : Result (Unit {0}) × World b)
        → r.0 ≡ (if allowed then ok tt else err (http forbidden "Insufficient permissions"))
        → IsSilent live.emitted (emit_if b jwt casl dto live r)
          ⊎ ((allowed ≡ true) × IsSent dto live.emitted (emit_if b jwt casl dto live r))
    unfolding broadcast_to_all
    checked dto allowed live (ok t, w) h = inr (ground arith, (refl, refl))
    checked dto allowed live (err e, w) h = inl (refl, λ x. cc)

    -- The account that the socket presents may manage notifications.
    abbrev pub MayBroadcast : Live b → Type 0
    MayBroadcast live =
        (user : User) × Presents live.world.db live.socket user
        × (may live.world.db user.id (record { action = manage; subject = "Notification" }) ≡ true)

    spoken :
        (dto : BroadcastNotificationDto) (now : ℕ) (user : User) (live : Live b)
        → Coherent b documented laws live.world
        → IsSilent live.emitted (broadcast b jwt casl dto now (some user) live)
          ⊎ ((may live.world.db user.id (record { action = manage; subject = "Notification" })
                ≡ true)
              × IsSent dto live.emitted (broadcast b jwt casl dto now (some user) live))
    unfolding broadcast check_broadcast
    spoken dto now user live h =
        elim (checked dto _ live _ (
          assert_rules-may casl is_casl b documented laws (manages notification_subject) now user.id
            live.world h)) [
              | inl silent ↦ inl silent
              | inr (allowed, sent) ↦ inr (ground arith, sent)
            ]

    -- After the throttle has let the message through.
    accepted :
        (dto : BroadcastNotificationDto) (now : ℕ) (live before : Live b) (result : Bool × Socket)
        → (result.0 ≡ true
            → (user : User) × Presents before.world.db before.socket user
              × (result.1.user ≡ some user))
        → live.world ≡ before.world
        → live.emitted ≡ before.emitted
        → Coherent b documented laws live.world
        → IsSilent before.emitted (if_accepted b jwt casl dto now result live)
          ⊎ (MayBroadcast before
              × IsSent dto before.emitted (if_accepted b jwt casl dto now result live))
    accepted dto now live before (false, socket) who same quiet h = inl (quiet, λ x. cc)
    accepted dto now live before (true, socket) who same quiet h =
        let (user, presents, held) = who refl in
        subst
          (λ o.
            let r = broadcast b jwt casl dto now o (record live { socket = socket }) in
            IsSilent before.emitted r ⊎ (MayBroadcast before × IsSent dto before.emitted r))
          (sym held)
          (elim (spoken dto now user (record live { socket = socket }) h) [
            | inl (silent, other) ↦ inl (silent ∙ quiet, other)
            | inr (allowed, (answer, sent)) ↦ inr (
              (user, presents, rw same at allowed),
              (
                answer,
                sent
                    ∙ ap
                        (λ (es : List Emission).
                          es
                          ++ record { room = none; event = "notifications:new"; payload = dto }
                            ∷ [])
                        quiet,
              ),
            )
          ])

    passed_on :
        (dto : BroadcastNotificationDto) (now : ℕ) (generated : String) (live : Live b)
        (verdict : Verdict × ThrottleState)
        → Coherent b documented laws live.world
        → IsSilent live.emitted (if_passed b jwt casl dto now generated verdict live)
          ⊎ ((verdict.0 ≡ passed)
              × MayBroadcast live
              × IsSent dto live.emitted (if_passed b jwt casl dto now generated verdict live))
    passed_on dto now generated live (exceeded message, state) h = inl (refl, λ x. cc)
    passed_on dto now generated live (passed, state) h =
        elim (accepted dto now (record live { throttle = state }) live
          (authenticate b.orm jwt generated live.world.db live.socket)
          (accepted_user generated live.world.db live.socket) refl refl h) [
            | inl silent ↦ inl silent
            | inr (may_broadcast, sent) ↦ inr (refl, may_broadcast, sent)
          ]

    -- A broadcast message, with a coherent cache: either nothing is emitted and the reply is not
    -- `{ ok: true }`, or the message is emitted once to all, the throttle has let it through, the
    -- socket presents a token of a live and active account, and a role of that account has a
    -- permission to manage notifications.
    pub on_broadcast-MayBroadcast :
        (dto : BroadcastNotificationDto) (now : ℕ) (generated : String) (live : Live b)
        → Coherent b documented laws live.world
        → IsSilent live.emitted (on_broadcast b jwt casl dto now generated live)
          ⊎ (((throttle (some broadcast_options) broadcast_event now live.throttle).0 ≡ passed)
              × MayBroadcast live
              × IsSent dto live.emitted (on_broadcast b jwt casl dto now generated live))
    unfolding on_broadcast
    on_broadcast-MayBroadcast dto now generated live h = passed_on dto now generated live _ h

    joined :
        (live : Live b) (result : Bool × Socket)
        → (result.0 ≡ true
            → (user : User) × Presents live.world.db live.socket user × (result.1.user ≡ some user))
        → (result.0 ≡ false → result.1.disconnected ≡ true)
        → ((join_if b jwt casl result.0 result.1.user live.rooms ≡ live.rooms)
            × (result.1.disconnected ≡ true))
          ⊎ ((user : User) × Presents live.world.db live.socket user
              × (join_if b jwt casl result.0 result.1.user live.rooms
                  ≡ user_room user.id ∷ live.rooms))
    joined live (false, socket) who cut = inl (refl, cut refl)
    joined live (true, socket) who cut =
        let (user, presents, held) = who refl in inr (user, presents, rw held refl)

    cut_off :
        (generated : String) (r : Result User) (socket : Socket)
        → (accept generated r socket).0 ≡ false
        → (accept generated r socket).1.disconnected ≡ true
    cut_off generated (ok user) socket h = absurd (ground arith)
    cut_off generated (err e) socket h = refl

    refused_cut :
        (generated : String) (token : Option String) (db : Db) (socket : Socket)
        → (authenticate_token b.orm jwt token generated db socket).0 ≡ false
        → (authenticate_token b.orm jwt token generated db socket).1.disconnected ≡ true
    unfolding authenticate_token
    refused_cut generated none db socket h = refl
    refused_cut generated (some token) db socket h = cut_off generated _ socket h

    -- A connection: either the socket joins no room and is disconnected, or it joins exactly the
    -- room of the live and active account that its token names.
    pub handle_connection-rooms :
        (generated : String) (live : Live b)
        → let after = handle_connection b jwt casl generated live in
          ((after.rooms ≡ live.rooms) × (after.socket.disconnected ≡ true))
          ⊎ ((user : User) × Presents live.world.db live.socket user
              × (after.rooms ≡ user_room user.id ∷ live.rooms))
    unfolding handle_connection authenticate
    handle_connection-rooms generated live =
        joined live (authenticate b.orm jwt generated live.world.db live.socket)
          (accepted_user generated live.world.db live.socket)
          (refused_cut generated (truthy (extract_token live.socket)) live.world.db live.socket)
