-- ===== src/Realtime/Gateway.antt =====
-- src/modules/realtime/gateways/notifications.gateway.ts: who joins which room, and who may
-- broadcast. Socket.IO's rooms are the list that a socket has joined; what the server emits is a
-- list of messages.
pub mod Access
use Prim.Native.String
use nestjs_app.Prelude.{ℕ, String, Bool, true, false, Option, none, some, List, [], ◌∷◌, ◌++◌, map}
use nestjs_app.Result.{Exec, Result, ok, err, pure, throw, ◌>>=◌, ◌>>◌, http, forbidden, Exception}
use nestjs_app.Db.{Db, User}
use nestjs_app.Permissions.Cache.{Backend, World}
use nestjs_app.Guards.Permission.{Casl, get_ability_for_user, assert_permission_rules}
use nestjs_app.Guards.Identity.{Jwt, Socket, authenticate}
use nestjs_app.Guards.Throttle.{
  WsThrottleOptions, ThrottleState, Verdict, passed, exceeded, throttle,
}
use nestjs_app.Controllers.App.{manages, notification_subject}

pub record BroadcastNotificationDto : Type 0 where
  pub title : String
  pub message : String

-- `emit(event, payload)`, to one room or to all.
pub record Emission : Type 0 where
  pub room : Option String
  pub event : String
  pub payload : BroadcastNotificationDto

unfoldable pub user_room : String → String
user_room user_id = String.◌++◌ "user:" user_id

abbrev pub broadcast_options : WsThrottleOptions
broadcast_options = record { limit = 10; window_ms = 60000 }

abbrev pub broadcast_event : String
broadcast_event = "notifications:broadcast"

-- One socket, the stores, and what the server has emitted.
pub record Live (b : Backend) : Type 0 where
  pub world : World b
  pub socket : Socket
  pub throttle : ThrottleState
  pub rooms : List String
  pub emitted : List Emission

-- What a handler of a message ends in: an answer, or the exception that a guard or it throws.
pub data Reply : Type 0 where
  replied : Reply
  throttled : String → Reply
  not_authenticated : Reply
  failed : Exception → Reply

-- `broadcastToAll` and `sendToUser`.
unfoldable pub broadcast_to_all : String → BroadcastNotificationDto → List Emission → List Emission
broadcast_to_all event payload emitted =
    emitted ++ record { room = none; event = event; payload = payload } ∷ []

unfoldable pub send_to_user :
    String → String → BroadcastNotificationDto → List Emission → List Emission
unfolding user_room
send_to_user user_id event payload emitted =
    emitted ++ record { room = some (user_room user_id); event = event; payload = payload } ∷ []

abbrev pub room_of : Option User → List String → List String
room_of none rooms = rooms
room_of (some user) rooms = user_room user.id ∷ rooms

module _ (b : Backend) (jwt : Jwt) (casl : Casl) where
  -- `if (!result) return; socket.join(…)`
  abbrev pub join_if : Bool → Option User → List String → List String
  join_if false user rooms = rooms
  join_if true user rooms = room_of user rooms

  unfoldable pub handle_connection : (generated : String) → Live b → Live b
  unfolding user_room
  handle_connection generated live =
      let (result, socket) = authenticate b.orm jwt generated live.world.db live.socket in
      record live { socket = socket; rooms = join_if result socket.user live.rooms }

  -- The body of `broadcast`, for the user of the socket.
  unfoldable pub check_broadcast : ℕ → User → Exec (World b) (Unit {0})
  check_broadcast now user = do
    ability ← get_ability_for_user casl b now user.id
    assert_permission_rules casl ability (manages notification_subject)

  abbrev pub emit_if :
      BroadcastNotificationDto → Live b → Result (Unit {0}) × World b → Reply × Live b
  emit_if dto live (ok t, w) = (
    replied,
    record live { world = w; emitted = broadcast_to_all "notifications:new" dto live.emitted },
  )
  emit_if dto live (err e, w) = (failed e, record live { world = w })

  unfoldable pub broadcast : BroadcastNotificationDto → ℕ → Option User → Live b → Reply × Live b
  unfolding check_broadcast broadcast_to_all
  broadcast dto now none live = (not_authenticated, live)
  broadcast dto now (some user) live = emit_if dto live (check_broadcast now user live.world)

  abbrev pub if_accepted : BroadcastNotificationDto → ℕ → Bool × Socket → Live b → Reply × Live b
  if_accepted dto now (false, socket) live = (not_authenticated, record live { socket = socket })
  if_accepted dto now (true, socket) live =
      broadcast dto now socket.user (record live { socket = socket })

  abbrev pub if_passed :
      BroadcastNotificationDto
      → ℕ
      → (generated : String) → Verdict × ThrottleState
      → Live b
      → Reply × Live b
  if_passed dto now generated (exceeded message, state) live =
      (throttled message, record live { throttle = state })
  if_passed dto now generated (passed, state) live =
      if_accepted dto now (authenticate b.orm jwt generated live.world.db live.socket)
        (record live { throttle = state })

  -- The message behind its guards: `WsThrottleGuard` of the class, then `WsJwtGuard`.
  unfoldable pub on_broadcast :
      BroadcastNotificationDto → ℕ → (generated : String) → Live b → Reply × Live b
  unfolding broadcast
  on_broadcast dto now generated live =
      if_passed dto now generated
        (throttle (some broadcast_options) broadcast_event now live.throttle) live
