-- ===== src/Shared/Logging/Recorded.antt =====
-- The interceptor records the status that the filter answers.
use nestjs_app.Prelude.{ℕ, ◌-◌, ◌≡◌, refl, String}
use nestjs_app.Metrics.{Limits, Metrics, record_request}
use nestjs_app.Http.Filter.{text, object, Thrown, http_exception, other, catch_exception}
use nestjs_app.Shared.Logging.{HttpRequest, error, status_of, intercept, route_key}

status_of-catch_exception :
    (url : String) (now : ℕ) (e : Thrown)
    → status_of (error e) ≡ (catch_exception url now e).status_code
unfolding status_of catch_exception
status_of-catch_exception url now (http_exception status (text given) message) = refl
status_of-catch_exception url now (http_exception status (object given err) message) = refl
status_of-catch_exception url now other = refl

-- A request whose handler throws is recorded in the metrics under its route, with the status code
-- that `HttpExceptionFilter` answers.
pub intercept-catch_exception :
    (replace_ids : String → String) (limits : Limits) (request : HttpRequest) (start now later : ℕ)
    (e : Thrown) (m : Metrics)
    → intercept replace_ids limits request start now (error e) m
      ≡ record_request limits
          (route_key replace_ids request)
          (catch_exception request.original_url later e).status_code
          (now - start)
          now
          m
unfolding intercept
intercept-catch_exception replace_ids limits request start now later e m =
    rw (status_of-catch_exception request.original_url later e) refl
