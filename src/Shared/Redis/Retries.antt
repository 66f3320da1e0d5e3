-- ===== src/Shared/Redis/Retries.antt =====
-- How long the client of Redis tries to connect again.
use nestjs_app.Prelude.{
  ℕ, zero, suc, ◌+◌, ◌*◌, ◌-◌, ◌≤◌, ◌<◌, ◌≡◌, Bool, true, false, Option, none, some, List, [], ◌∷◌,
  length, leb, arith, min, ◌⊎◌, inl, inr,
}
use nestjs_app.Shared.Redis.{retry_strategy}

abbrev pub after_pause : Option ℕ → List ℕ × Bool → List ℕ × Bool
after_pause none later = ([], false)
after_pause (some delay) (delays, tries) = (delay ∷ delays, tries)

-- The pauses after as many failures in a row, from an attempt on, and whether the client still
-- tries then.
abbrev pub retry_all : (failures times : ℕ) → List ℕ × Bool
retry_all zero times = ([], true)
retry_all (suc failures) times =
    let later = retry_all failures (suc times) in after_pause (retry_strategy times) later

abbrev pub sum : List ℕ → ℕ
sum [] = 0
sum (n ∷ ns) = n + sum ns

square-suc : (t : ℕ) → suc t * suc t ≡ t * t + 2 * t + 1
square-suc t = grind arith

square_bound : (t : ℕ) → t ≤ 21 → t * t ≤ 21 * t
square_bound t h = grind arith

strategy_cases :
    (t : ℕ)
    → ((20 < t) × (retry_strategy t ≡ none))
      ⊎ ((t ≤ 20) × (retry_strategy t ≡ some (min (t * 100) 2000)))
unfolding retry_strategy
strategy_cases t = ground arith

-- From an attempt on: how often and how long the client waits.
record IsLimited (failures times : ℕ) (r : List ℕ × Bool) : Type 0 where
  pub count : length r.0 ≡ min failures (21 - times)
  pub waited : 2 * sum r.0 + 100 * (times * times) ≤ 42000 + 100 * times
  pub tries : r.1 ≡ leb (failures + times) 21

retry_all-IsLimited :
    (failures times : ℕ) → times ≤ 21 → IsLimited failures times (retry_all failures times)
retry_all-IsLimited zero times h = record {
  count = omega arith;
  waited = ground (arith, square_bound times h);
  tries = ground arith;
}
retry_all-IsLimited (suc failures) times h = elim (strategy_cases times) [
  | inl (over, e) ↦ rw e (record {
    count = omega arith;
    waited = ground (arith, square_bound times h);
    tries = ground arith;
  })
  | inr (within, e) ↦
      (let later = retry_all-IsLimited failures (suc times) (omega arith) in
        rw e (record {
          count = ground (arith, later.count);
          waited = ground (arith, later.waited, square-suc times);
          tries = ground (arith, later.tries);
        }))
]

-- However many attempts fail in a row, the client waits as often, but not more than 20 times and
-- not longer than 21 seconds in all; it goes on trying exactly if no more than 20 have failed.
pub retries_end :
    (failures : ℕ)
    → let (delays, tries) = retry_all failures 1 in
      (length delays ≡ min failures 20) × (sum delays ≤ 21000) × (tries ≡ leb failures 20)
retries_end failures =
    let limited = retry_all-IsLimited failures 1 (omega arith) in
    (limited.count, ground (arith, limited.waited), ground (arith, limited.tries))
