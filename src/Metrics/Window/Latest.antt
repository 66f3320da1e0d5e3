-- ===== src/Metrics/Window/Latest.antt =====
-- After any requests, the error rate is that of the last ones, as many as the ring holds.
use nestjs_app.Prelude.{
  ℕ, suc, ◌+◌, ◌<◌, ◌≤◌, ◌≡◌, refl, sym, ap, ◌∙◌, List, [], ◌∷◌, ◌++◌, map, arith, ltb,
  if◌then◌else◌, length, length-append, String,
}
use mathlib.Core.List.{append-nil, append_assoc}
use nestjs_app.Metrics.{
  Limits, Metrics, RouteEntry, WindowSample, push_sample, record_request, count_samples,
  recent_error_rate, no_metrics,
}
use nestjs_app.Metrics.Window.{
  slide, Represents, filling, full, slide-filling, slide-full, push-filling, push-full,
  push-full-Represents, Represents-start,
}

-- The last elements of a list, `capacity` at most.
abbrev pub latest : ℕ → List WindowSample → List WindowSample
latest capacity [] = []
latest capacity (x ∷ xs) = if ltb (length xs) capacity then x ∷ xs else latest capacity xs

latest-short :
    (capacity : ℕ) (xs : List WindowSample) → length xs ≤ capacity → latest capacity xs ≡ xs
latest-short capacity [] h = refl
latest-short capacity (x ∷ xs) h = ground arith

slide-latest :
    (capacity : ℕ) (xs : List WindowSample) (new : WindowSample)
    → 0 < capacity
    → slide capacity new (latest capacity xs) ≡ latest capacity (xs ++ new ∷ [])
slide-latest capacity [] new h = ground arith
slide-latest capacity (x ∷ xs) new h = ground (
  arith,
  length-append xs (new ∷ []),
  latest-short capacity (xs ++ new ∷ []),
  slide-latest capacity xs new h,
)

pub push-Represents :
    (limits : Limits) (new : WindowSample) (m : Metrics) (queue : List WindowSample)
    → Represents limits.window_capacity m queue
    → Represents limits.window_capacity
        (push_sample limits new m)
        (slide limits.window_capacity new queue)
push-Represents limits new m queue (filling e i h) =
    rw (push-filling limits new m (rw e h), slide-filling limits.window_capacity new queue h)
      (Represents-start limits.window_capacity _ queue new (ap (λ s. s ++ new ∷ []) e) i
        (ground (arith, length-append queue (new ∷ []))))
push-Represents limits new m queue (full newer older oldest e i q h) =
    let size : suc (length older) + length newer ≡ limits.window_capacity =
      ground (arith, length-append older newer, ap length q) in
    rw
      (
        push-full limits new oldest newer older m e i
            (ground (arith, ap length e, length-append newer (oldest ∷ older))),
        q,
        slide-full limits.window_capacity new oldest (older ++ newer)
            (ground (arith, length-append older newer)),
      )
      (push-full-Represents limits new oldest newer older m size)

-- A request that is complete.
pub record Request : Type 0 where
  pub route : String
  pub status_code : ℕ
  pub duration_ms : ℕ
  pub now : ℕ

abbrev pub sample_of : Request → WindowSample
sample_of r = record { timestamp = r.now; route = r.route; status_code = r.status_code }

abbrev pub record_all : Limits → List Request → Metrics → Metrics
record_all limits [] m = m
record_all limits (r ∷ rs) m =
    record_all limits rs (record_request limits r.route r.status_code r.duration_ms r.now m)

-- The counters and routes do not matter to the ring.
Represents-counted :
    (capacity total : ℕ) (routes : List RouteEntry) (m : Metrics) (queue : List WindowSample)
    → Represents capacity m queue
    → Represents capacity (record m { total_requests = total; routes = routes }) queue
Represents-counted capacity total routes m queue (filling e i h) = filling e i h
Represents-counted capacity total routes m queue (full newer older oldest e i q h) =
    full newer older oldest e i q h

record_all-Represents :
    (limits : Limits) (rs : List Request) (m : Metrics) (xs : List WindowSample)
    → 0 < limits.window_capacity
    → Represents limits.window_capacity m (latest limits.window_capacity xs)
    → Represents limits.window_capacity
        (record_all limits rs m)
        (latest limits.window_capacity (xs ++ map sample_of rs))
unfolding record_request
record_all-Represents limits [] m xs h k = rw (append-nil xs) k
record_all-Represents limits (r ∷ rs) m xs h k =
    rw (sym (append_assoc xs (sample_of r ∷ []) (map sample_of rs))) (
      record_all-Represents limits rs _ (xs ++ sample_of r ∷ []) h (
        rw (sym (slide-latest limits.window_capacity xs (sample_of r) h)) (
          push-Represents limits (sample_of r) _ (latest limits.window_capacity xs) (
            Represents-counted limits.window_capacity _ _ m (latest limits.window_capacity xs) k))))

count_samples-append :
    (now window_ms : ℕ) (xs ys : List WindowSample)
    → ((count_samples now window_ms (xs ++ ys)).errors
        ≡ (count_samples now window_ms xs).errors + (count_samples now window_ms ys).errors)
      × ((count_samples now window_ms (xs ++ ys)).samples
          ≡ (count_samples now window_ms xs).samples + (count_samples now window_ms ys).samples)
count_samples-append now window_ms [] ys = (ground arith, ground arith)
count_samples-append now window_ms (x ∷ xs) ys =
    let (e, s) = count_samples-append now window_ms xs ys in (ground arith, ground arith)

Represents-errors :
    (capacity now window_ms : ℕ) (m : Metrics) (queue : List WindowSample)
    → Represents capacity m queue
    → ((count_samples now window_ms m.samples).errors ≡ (count_samples now window_ms queue).errors)
      × ((count_samples now window_ms m.samples).samples
          ≡ (count_samples now window_ms queue).samples)
Represents-errors capacity now window_ms m queue (filling e i h) = rw e (refl, refl)
Represents-errors capacity now window_ms m queue (full newer older oldest e i q h) =
    let (a, b) = count_samples-append now window_ms newer (oldest ∷ older) in
    let (c, d) = count_samples-append now window_ms (oldest ∷ older) newer in
    rw (e, q) (a ∙ (omega arith) ∙ sym c, b ∙ (omega arith) ∙ sym d)

-- With room for a sample, whatever requests are recorded: the errors and the number of samples
-- that the error rate is computed from are those of the latest requests, as many as the ring
-- holds, that are in the window.
pub recent_error_rate-latest :
    (limits : Limits) (rs : List Request) (now window_ms : ℕ)
    → 0 < limits.window_capacity
    → let rate = recent_error_rate now window_ms (record_all limits rs no_metrics) in
      let expected =
        count_samples now window_ms (latest limits.window_capacity (map sample_of rs)) in
      (rate.errors ≡ expected.errors) × (rate.samples ≡ expected.samples)
unfolding recent_error_rate
recent_error_rate-latest limits rs now window_ms h =
    Represents-errors limits.window_capacity now window_ms _ _
      (record_all-Represents limits rs no_metrics [] h (filling refl refl h))
