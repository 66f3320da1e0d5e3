-- ===== src/Metrics/Routes.antt =====
-- The counters of the routes: they stay bounded, and miss only dropped routes.
use nestjs_app.Prelude.{
  ℕ, zero, suc, ap, ◌∙◌, ◌+◌, ◌≤◌, ◌≡◌, refl, List, [], ◌∷◌, arith, length, length-append, String,
}
use nestjs_app.Metrics.{
  Limits, Metrics, WindowSample, RouteEntry, count_route, record_route, first_request, push_sample,
  replace_at, record_request,
}
use nestjs_app.Metrics.Window.Latest.{Request, record_all, sample_of}

length-count_route :
    (route : String) (status duration : ℕ) (es : List RouteEntry)
    → length (count_route route status duration es) ≡ length es
length-count_route route status duration [] = refl
length-count_route route status duration (e ∷ es) =
    ground (arith, length-count_route route status duration es)

length-record_route :
    (limits : Limits) (route : String) (status duration : ℕ) (es : List RouteEntry)
    → length es ≤ limits.max_routes
    → length (record_route limits route status duration es) ≤ limits.max_routes
unfolding record_route
length-record_route limits route status duration es h = ground (
  arith,
  length-count_route route status duration es,
  length-append es (record { route = route; metric = first_request status duration } ∷ []),
)

push_sample-routes :
    (limits : Limits) (s : WindowSample) (m : Metrics) → (push_sample limits s m).routes ≡ m.routes
unfolding push_sample
push_sample-routes limits s m = ground arith

push_sample-total :
    (limits : Limits) (s : WindowSample) (m : Metrics)
    → (push_sample limits s m).total_requests ≡ m.total_requests
unfolding push_sample
push_sample-total limits s m = ground arith

length-replace_at :
    (index : ℕ) (new : WindowSample) (xs : List WindowSample)
    → length (replace_at index new xs) ≡ length xs
length-replace_at index new [] = refl
length-replace_at zero new (x ∷ xs) = refl
length-replace_at (suc index) new (x ∷ xs) = ap suc (length-replace_at index new xs)

length-push_sample :
    (limits : Limits) (s : WindowSample) (m : Metrics)
    → length m.samples ≤ limits.window_capacity
    → length (push_sample limits s m).samples ≤ limits.window_capacity
unfolding push_sample
length-push_sample limits s m h =
    ground
      (arith, length-append m.samples (s ∷ []), length-replace_at m.next_sample_index s m.samples)

-- Whatever requests are recorded, neither the table of routes nor the ring of samples outgrows
-- its limit, and every request is counted in the total.
pub record_all-bounds :
    (limits : Limits) (rs : List Request) (m : Metrics)
    → length m.routes ≤ limits.max_routes
    → length m.samples ≤ limits.window_capacity
    → (length (record_all limits rs m).routes ≤ limits.max_routes)
      × (length (record_all limits rs m).samples ≤ limits.window_capacity)
      × ((record_all limits rs m).total_requests ≡ m.total_requests + length rs)
unfolding record_request
record_all-bounds limits [] m h k = (h, k, ground arith)
record_all-bounds limits (r ∷ rs) m h k =
    let (a, b, c) =
      record_all-bounds limits rs
        (record_request limits r.route r.status_code r.duration_ms r.now m)
        (rw (push_sample-routes limits)
          (length-record_route limits r.route r.status_code r.duration_ms m.routes h))
        (length-push_sample limits (sample_of r) _ k) in
    (a, b, c ∙ rw (push_sample-total limits) (omega arith))
