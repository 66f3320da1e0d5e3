-- ===== src/Shared/Logging.antt =====
-- src/common/interceptors/logging.interceptor.ts: what a request leaves in the metrics, and in the
-- log. The replacement of id-like segments is a parameter.
pub mod Recorded
use Prim.Native.String
use nestjs_app.Prelude.{
  ℕ, ◌-◌, String, Bool, true, false, Option, none, some, str_eq, if◌then◌else◌,
}
use nestjs_app.Http.Filter.{Thrown, http_exception, other}
use nestjs_app.Metrics.{Limits, Metrics, record_request}

-- `route.path` where a route matched, and the path of the request.
pub record HttpRequest : Type 0 where
  pub method : String
  pub original_url : String
  pub matched_path : Option String
  pub path : String

-- What the handler ends in: a response with its status, or an exception.
pub data Ending : Type 0 where
  next : (status_code : ℕ) → Ending
  error : Thrown → Ending

unfoldable pub status_of : Ending → ℕ
status_of (next status_code) = status_code
status_of (error (http_exception status body message)) = status
status_of (error other) = 500

module _ (replace_ids : String → String) where
  abbrev pub path_or_slash : String → String
  path_or_slash path =
      let replaced = replace_ids path in if str_eq replaced "" then "/" else replaced

  unfoldable pub route_key : HttpRequest → String
  route_key request = key_of request.matched_path request.path
    where
      key_of : Option String → String → String
      key_of none path = path_or_slash path
      key_of (some matched) path = if str_eq matched "" then path_or_slash path else matched

  -- The metrics after a request that began at `start` and ends at `now`.
  unfoldable pub intercept : Limits → HttpRequest → (start now : ℕ) → Ending → Metrics → Metrics
  unfolding route_key status_of
  intercept limits request start now ending m =
      record_request limits (route_key request) (status_of ending) (now - start) now m
