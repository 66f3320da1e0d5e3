-- ===== src/Metrics.antt =====
-- src/shared/metrics/metrics.service.ts: the counters of the routes, and the window of samples.
pub mod Window
pub mod Monitor
pub mod Routes
mod Tests
use nestjs_app.Prelude.{
  ℕ, zero, suc, ◌+◌, ◌*◌, ◌/◌, ◌%◌, ◌-◌, min, max, String, Bool, true, false, not, ◌&&◌, List, [],
  ◌∷◌, ◌++◌, map, str_eq, ltb, ◌==◌, if◌then◌else◌, length, any, keep,
}

pub record RouteMetric : Type 0 where
  pub count : ℕ
  pub errors : ℕ
  pub latency_sum_ms : ℕ
  pub latency_min_ms : ℕ
  pub latency_max_ms : ℕ

-- An entry of the map of routes, which keeps the order of insertion.
pub record RouteEntry : Type 0 where
  pub route : String
  pub metric : RouteMetric

pub record WindowSample : Type 0 where
  pub timestamp : ℕ
  pub route : String
  pub status_code : ℕ

-- `MAX_ROUTES` and `WINDOW_CAPACITY`; the code's values are `code_limits`.
pub record Limits : Type 0 where
  pub max_routes : ℕ
  pub window_capacity : ℕ

abbrev pub code_limits : Limits
code_limits = record { max_routes = 500; window_capacity = 20000 }

pub record Metrics : Type 0 where
  pub routes : List RouteEntry
  pub samples : List WindowSample
  pub next_sample_index : ℕ
  pub total_requests : ℕ

abbrev pub no_metrics : Metrics
no_metrics = record { routes = []; samples = []; next_sample_index = 0; total_requests = 0 }

abbrev pub is_error : ℕ → Bool
is_error status_code = not (ltb status_code 500)

abbrev pub error_count : ℕ → ℕ
error_count status_code = if is_error status_code then 1 else 0

abbrev pub count_request : ℕ → ℕ → RouteMetric → RouteMetric
count_request status_code duration_ms m = record {
  count = m.count + 1;
  errors = m.errors + error_count status_code;
  latency_sum_ms = m.latency_sum_ms + duration_ms;
  latency_min_ms = min m.latency_min_ms duration_ms;
  latency_max_ms = max m.latency_max_ms duration_ms;
}

abbrev pub first_request : ℕ → ℕ → RouteMetric
first_request status_code duration_ms = record {
  count = 1;
  errors = error_count status_code;
  latency_sum_ms = duration_ms;
  latency_min_ms = duration_ms;
  latency_max_ms = duration_ms;
}

abbrev pub is_route : String → RouteEntry → Bool
is_route route e = str_eq e.route route

-- The metric of the route is changed in place.
abbrev pub count_route : String → ℕ → ℕ → List RouteEntry → List RouteEntry
count_route route status_code duration_ms [] = []
count_route route status_code duration_ms (e ∷ es) =
    (if is_route route e
      then record e { metric = count_request status_code duration_ms e.metric }
      else e)
    ∷ count_route route status_code duration_ms es

-- A route that is new while the table is full is dropped, with a warning.
unfoldable pub record_route : Limits → String → ℕ → ℕ → List RouteEntry → List RouteEntry
record_route limits route status_code duration_ms routes =
    if any (is_route route) routes
    then count_route route status_code duration_ms routes
    else if ltb (length routes) limits.max_routes
    then routes ++ record { route = route; metric = first_request status_code duration_ms } ∷ []
    else routes

-- `this.samples[index] = sample`
abbrev pub replace_at {ℓ} : {A : Type ℓ} → ℕ → A → List A → List A
replace_at index new [] = []
replace_at zero new (x ∷ xs) = new ∷ xs
replace_at (suc index) new (x ∷ xs) = x ∷ replace_at index new xs

unfoldable pub push_sample : Limits → WindowSample → Metrics → Metrics
push_sample limits sample m =
    if ltb (length m.samples) limits.window_capacity
    then record m { samples = m.samples ++ sample ∷ [] }
    else record m {
      samples = replace_at m.next_sample_index sample m.samples;
      next_sample_index = (m.next_sample_index + 1) % limits.window_capacity;
    }

-- `record`, at a time.
unfoldable pub record_request : Limits → String → ℕ → ℕ → ℕ → Metrics → Metrics
unfolding record_route push_sample
record_request limits route status_code duration_ms now m =
    push_sample limits (record { timestamp = now; route = route; status_code = status_code })
      (record m {
        total_requests = m.total_requests + 1;
        routes = record_route limits route status_code duration_ms m.routes;
      })

-- `recentErrorRate`: the errors and the samples, whose quotient is the rate.
pub record ErrorRate : Type 0 where
  pub errors : ℕ
  pub samples : ℕ

-- `sample.timestamp < Date.now() - windowMs`, where the difference may be negative.
abbrev pub is_old : ℕ → ℕ → WindowSample → Bool
is_old now window_ms s = ltb (s.timestamp + window_ms) now

abbrev pub count_samples : ℕ → ℕ → List WindowSample → ErrorRate
count_samples now window_ms [] = record { errors = 0; samples = 0 }
count_samples now window_ms (s ∷ ss) =
    let rest = count_samples now window_ms ss in
    if is_old now window_ms s
    then rest
    else record { errors = error_count s.status_code + rest.errors; samples = 1 + rest.samples }

unfoldable pub recent_error_rate : ℕ → ℕ → Metrics → ErrorRate
recent_error_rate now window_ms m = count_samples now window_ms m.samples

pub record RouteSnapshot : Type 0 where
  pub route : String
  pub count : ℕ
  pub errors : ℕ
  pub avg_ms : ℕ
  pub min_ms : ℕ
  pub max_ms : ℕ

-- `Math.round` of a quotient.
abbrev pub round_quotient : ℕ → ℕ → ℕ
round_quotient a b = if b == 0 then 0 else (2 * a + b) / (2 * b)

abbrev pub route_snapshot : RouteEntry → RouteSnapshot
route_snapshot e = record {
  route = e.route;
  count = e.metric.count;
  errors = e.metric.errors;
  avg_ms = round_quotient e.metric.latency_sum_ms e.metric.count;
  min_ms = e.metric.latency_min_ms;
  max_ms = e.metric.latency_max_ms;
}

-- `sort((a, b) => b.count - a.count)`, which is stable.
insert_route : RouteSnapshot → List RouteSnapshot → List RouteSnapshot
insert_route r [] = r ∷ []
insert_route r (s ∷ ss) =
    let rest = insert_route r ss in if ltb r.count s.count then s ∷ rest else r ∷ s ∷ ss

sort_routes : List RouteSnapshot → List RouteSnapshot
unfolding insert_route
sort_routes [] = []
sort_routes (r ∷ rs) = insert_route r (sort_routes rs)

-- The error rate is in thousandths.
pub record MetricsSnapshot : Type 0 where
  pub total_requests : ℕ
  pub tracked_routes : ℕ
  pub window_ms : ℕ
  pub sampled_at : ℕ
  pub error_rate : ℕ
  pub samples : ℕ
  pub per_route : List RouteSnapshot

unfoldable pub snapshot : ℕ → ℕ → Metrics → MetricsSnapshot
unfolding recent_error_rate sort_routes
snapshot window_ms now m =
    let recent = recent_error_rate now window_ms m in
    let per_route = sort_routes (map route_snapshot m.routes) in
    record {
      total_requests = m.total_requests;
      tracked_routes = length per_route;
      window_ms = window_ms;
      sampled_at = now;
      error_rate = round_quotient (recent.errors * 1000) recent.samples;
      samples = recent.samples;
      per_route = per_route;
    }
