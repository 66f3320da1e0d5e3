-- ===== src/Realtime/Validation.antt =====
-- src/common/pipes/ws-validation.pipe.ts: what a message that does not validate is answered.
-- The validation itself is a parameter.
use nestjs_app.Prelude.{Option, none, some}
use nestjs_app.Http.Filter.{Message, one, Body, text, object, Thrown}

-- What `super.transform` ends in: the value, a `BadRequestException`, or another exception.
pub data Validated {ℓ} (A : Type ℓ) : Type ℓ where
  valid : A → Validated A
  bad_request : Body → Validated A
  failed : Thrown → Validated A

-- What the pipe ends in: the value, a `WsException`, or the exception as it was.
pub data Transformed {ℓ} (A : Type ℓ) : Type ℓ where
  transformed : A → Transformed A
  ws_exception : Message → Transformed A
  rethrown : Thrown → Transformed A

abbrev pub message_or_default : Option Message → Message
message_or_default none = one "Validation failed"
message_or_default (some message) = message

unfoldable pub transform {ℓ} : {A : Type ℓ} → Validated A → Transformed A
transform (valid value) = transformed value
transform (bad_request (text message)) = ws_exception (one message)
transform (bad_request (object message error)) = ws_exception (message_or_default message)
transform (failed thrown) = rethrown thrown
