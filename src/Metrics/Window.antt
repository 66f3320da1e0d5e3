-- ===== src/Metrics/Window.antt =====
-- The ring of samples holds the last requests, and the error rate is theirs.
pub mod Latest
use mathlib.Core.List.{append-nil, append_assoc}
use native.Mathlib.Nat.{mod-eq_of_lt, mod_self}
use nestjs_app.Prelude.{
  ℕ, zero, suc, ◌+◌, ◌-◌, ◌%◌, ◌<◌, ◌≤◌, ◌≡◌, ◌≢◌, refl, sym, ap, ◌∙◌, ◌⊎◌, inl, inr, Bool, true,
  false, not, List, [], ◌∷◌, ◌++◌, arith, ltb, if◌then◌else◌, length, length-append, Bool-cases,
  String,
}
use nestjs_app.Metrics.{
  Limits, Metrics, RouteEntry, WindowSample, ErrorRate, is_old, error_count, replace_at,
  push_sample, record_request, record_route, count_samples, recent_error_rate, no_metrics,
}

-- A queue of at most `capacity` samples, the oldest first: what the window promises to be.
abbrev pub slide : ℕ → WindowSample → List WindowSample → List WindowSample
slide capacity new [] = new ∷ []
slide capacity new (oldest ∷ rest) =
    if ltb (suc (length rest)) capacity then oldest ∷ rest ++ new ∷ [] else rest ++ new ∷ []

replace_at-length :
    (new old : WindowSample) (xs ys : List WindowSample)
    → replace_at (length xs) new (xs ++ old ∷ ys) ≡ xs ++ new ∷ ys
replace_at-length new old [] ys = refl
replace_at-length new old (x ∷ xs) ys = ap (λ rest. x ∷ rest) (replace_at-length new old xs ys)

-- The ring `newer ++ older`, whose next index is where `older` begins, stands for the queue
-- `older ++ newer`; before the ring is full the next index is 0.
pub data Represents (capacity : ℕ) (m : Metrics) (queue : List WindowSample) : Type 0 where
  filling :
      m.samples ≡ queue
      → m.next_sample_index ≡ 0
      → length queue < capacity
      → Represents capacity m queue
  full :
      (newer older : List WindowSample) (oldest : WindowSample)
      → m.samples ≡ newer ++ oldest ∷ older
      → m.next_sample_index ≡ length newer
      → queue ≡ oldest ∷ older ++ newer
      → length queue ≡ capacity
      → Represents capacity m queue

slide-filling :
    (capacity : ℕ) (new : WindowSample) (queue : List WindowSample)
    → length queue < capacity
    → slide capacity new queue ≡ queue ++ new ∷ []
slide-filling capacity new [] h = refl
slide-filling capacity new (q ∷ queue) h = ground arith

slide-full :
    (capacity : ℕ) (new oldest : WindowSample) (rest : List WindowSample)
    → suc (length rest) ≡ capacity
    → slide capacity new (oldest ∷ rest) ≡ rest ++ new ∷ []
slide-full capacity new oldest rest h = ground arith

split_first :
    (queue : List WindowSample) (new : WindowSample)
    → (oldest : WindowSample) × (older : List WindowSample) × (queue ++ new ∷ [] ≡ oldest ∷ older)
split_first [] new = (new, [], refl)
split_first (q ∷ queue) new = (q, queue ++ new ∷ [], refl)

-- A ring whose next index is 0 stands for its samples in order.
Represents-start :
    (capacity : ℕ) (m : Metrics) (queue : List WindowSample) (new : WindowSample)
    → m.samples ≡ queue ++ new ∷ []
    → m.next_sample_index ≡ 0
    → length (queue ++ new ∷ []) ≤ capacity
    → Represents capacity m (queue ++ new ∷ [])
Represents-start capacity m queue new e i h =
    elim (Bool-cases (ltb (length (queue ++ new ∷ [])) capacity)) [
      | inl less ↦ filling e i (ground arith)
      | inr equal ↦
          let (oldest, older, split) = split_first queue new in
          full [] older oldest (e ∙ split) i
            (split ∙ ap (λ rest. oldest ∷ rest) (sym (append-nil older))) (ground arith)
    ]

push-filling :
    (limits : Limits) (new : WindowSample) (m : Metrics)
    → length m.samples < limits.window_capacity
    → push_sample limits new m ≡ record m { samples = m.samples ++ new ∷ [] }
unfolding push_sample
push-filling limits new m h = ground arith

push-full :
    (limits : Limits) (new oldest : WindowSample) (newer older : List WindowSample) (m : Metrics)
    → m.samples ≡ newer ++ oldest ∷ older
    → m.next_sample_index ≡ length newer
    → length m.samples ≡ limits.window_capacity
    → push_sample limits new m ≡ record m {
      samples = newer ++ new ∷ older;
      next_sample_index = (length newer + 1) % limits.window_capacity;
    }
unfolding push_sample
push-full limits new oldest newer older m e i h =
    let not_less : ltb (length m.samples) limits.window_capacity ≡ false = ground arith in
    rw (not_less, e, i, replace_at-length new oldest newer older)

push-full-Represents :
    (limits : Limits) (new oldest : WindowSample) (newer older : List WindowSample) (m : Metrics)
    → suc (length older) + length newer ≡ limits.window_capacity
    → Represents limits.window_capacity
        (record m {
          samples = newer ++ new ∷ older;
          next_sample_index = (length newer + 1) % limits.window_capacity;
        })
        ((older ++ newer) ++ new ∷ [])
push-full-Represents limits new oldest newer [] m h =
    let round : length newer + 1 ≡ limits.window_capacity = ground arith in
    Represents-start limits.window_capacity _ newer new refl
      (rw round (mod_self limits.window_capacity)) (ground (arith, length-append newer (new ∷ [])))
push-full-Represents limits new oldest newer (o ∷ older) m h =
    full (newer ++ new ∷ []) older o (sym (append_assoc newer (new ∷ []) (o ∷ older)))
      (mod-eq_of_lt (ground arith) ∙ sym (length-append newer (new ∷ [])))
      (ap (λ rest. o ∷ rest) (append_assoc older newer (new ∷ [])))
      (ground (arith, length-append (older ++ newer) (new ∷ []), length-append older newer))
