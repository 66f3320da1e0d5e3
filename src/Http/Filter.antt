-- ===== src/Http/Filter.antt =====
-- src/common/filters/http-exception.filter.ts. The response that NestJS gives each of its
-- exceptions is a parameter.
use nestjs_app.Prelude.{ℕ, String, Option, none, some, List, ◌≡◌, refl, ◌≢◌, arith}
use nestjs_app.Result.{
  Status, bad_request, unauthorized, forbidden, not_found, conflict, Exception, http, database,
  DbError,
}

pub data Message : Type 0 where
  one : String → Message
  many : List String → Message

-- `getResponse()`: a text, or an object with a message and an error.
pub data Body : Type 0 where
  text : String → Body
  object : Option Message → Option String → Body

-- What the filter reads of an exception; `other` is one that is no `HttpException`.
pub data Thrown : Type 0 where
  http_exception : (status : ℕ) → Body → (message : String) → Thrown
  other : Thrown

pub record ErrorResponse : Type 0 where
  pub status_code : ℕ
  pub message : Message
  pub error : Option String
  pub path : String
  pub timestamp : ℕ

abbrev or_message : Option Message → String → Message
or_message none message = one message
or_message (some given) message = given

unfoldable pub catch_exception : (url : String) (now : ℕ) → Thrown → ErrorResponse
catch_exception url now (http_exception status (text given) message) = record {
  status_code = status;
  message = one given;
  error = none;
  path = url;
  timestamp = now;
}
catch_exception url now (http_exception status (object given error) message) = record {
  status_code = status;
  message = or_message given message;
  error = error;
  path = url;
  timestamp = now;
}
catch_exception url now other = record {
  status_code = 500;
  message = one "Internal server error";
  error = some "Internal Server Error";
  path = url;
  timestamp = now;
}

abbrev pub code_of : Status → ℕ
code_of bad_request = 400
code_of unauthorized = 401
code_of forbidden = 403
code_of not_found = 404
code_of conflict = 409

module _ (body_of : Status → String → Body) where
  -- An exception of the services, as the filter meets it.
  abbrev pub thrown : Exception → Thrown
  thrown (http status message) = http_exception (code_of status) (body_of status message) message
  thrown (database e) = other

  -- A failure of the database is answered like every other failure of the database: nothing that
  -- the driver reports reaches the client, and the code is 500; a thrown HTTP exception keeps its
  -- code, which is none of 500.
  pub catch_exception-hides :
      (url : String) (now : ℕ)
      → ((d e : DbError)
          → catch_exception url now (thrown (database d))
            ≡ catch_exception url now (thrown (database e)))
        × ((d : DbError) → (catch_exception url now (thrown (database d))).status_code ≡ 500)
        × ((status : Status) (message : String)
            → ((catch_exception url now (thrown (http status message))).status_code
                ≡ code_of status)
              × (code_of status ≢ 500))
  unfolding catch_exception
  catch_exception-hides url now = (
    λ d e. refl,
    λ d. refl,
    λ status message. (kept status (body_of status message) message, not_500 status),
  )
    where
      kept :
          (status : Status) (body : Body) (message : String)
          → (catch_exception url now (http_exception (code_of status) body message)).status_code
            ≡ code_of status
      kept status (text given) message = refl
      kept status (object given error) message = refl

      not_500 : (status : Status) → code_of status ≢ 500
      not_500 bad_request e = absurd (omega arith)
      not_500 unauthorized e = absurd (omega arith)
      not_500 forbidden e = absurd (omega arith)
      not_500 not_found e = absurd (omega arith)
      not_500 conflict e = absurd (omega arith)
