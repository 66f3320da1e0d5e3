-- ===== src/Metrics/Monitor/Alerts.antt =====
-- How often the monitor alerts, over a sequence of checks.
use nestjs_app.Prelude.{
  ℕ, ◌+◌, ◌*◌, ◌≤◌, ◌≡◌, refl, ap, arith, true, false, Option, none, some, List, [], ◌∷◌, ltb,
  length, map, inl, inr, ◌⊎◌,
}
use nestjs_app.Metrics.{ErrorRate}
use nestjs_app.Metrics.Monitor.{MetricsConfig, exceeds, check_rate}

-- When a check runs, and the rate that it finds.
pub record Check : Type 0 where
  pub now : ℕ
  pub rate : ErrorRate

abbrev pub with_alert : Option ErrorRate → List ErrorRate → List ErrorRate
with_alert none alerts = alerts
with_alert (some rate) alerts = rate ∷ alerts

-- The alerts of a sequence of checks, from a time of the last alert.
abbrev pub alerts_of : MetricsConfig → List Check → ℕ → List ErrorRate
alerts_of config [] last = []
alerts_of config (c ∷ cs) last =
    let (alert, last') = check_rate config c.now c.rate last in
    with_alert alert (alerts_of config cs last')

-- The checks are in the order of time, between a start and an end.
abbrev pub Ordered : ℕ → List Check → ℕ → Type 0
Ordered start [] end = start ≤ end
Ordered start (c ∷ cs) end = (start ≤ c.now) × Ordered c.now cs end

-- No rate exceeds the threshold by 0.2.
abbrev pub Calm : MetricsConfig → List Check → Type 0
Calm config [] = Unit
Calm config (c ∷ cs) = (exceeds c.rate (config.error_rate_threshold + 200) ≡ false) × Calm config cs

-- Every check has enough samples and a rate that exceeds the threshold by 0.2.
abbrev pub Severe : MetricsConfig → List Check → Type 0
Severe config [] = Unit
Severe config (c ∷ cs) =
    ((ltb c.rate.samples config.min_samples ≡ false)
      × (exceeds c.rate (config.error_rate_threshold + 200) ≡ true))
    × Severe config cs

-- A check of a calm sequence alerts only when the cooldown is over.
calm_check :
    (config : MetricsConfig) (c : Check) (last : ℕ)
    → last ≤ c.now
    → exceeds c.rate (config.error_rate_threshold + 200) ≡ false
    → ((check_rate config c.now c.rate last ≡ (none, last))
        ⊎ ((check_rate config c.now c.rate last ≡ (some c.rate, c.now))
            × (last + config.alert_cooldown_ms ≤ c.now)))
unfolding check_rate
calm_check config c last h calm = ground arith

-- Checks in the order of time that do not start before the last alert, none of which finds a rate
-- that exceeds the threshold by 0.2: as many cooldowns as the checks make alerts fit between the
-- last alert before them and the end.
pub alerts_spaced :
    (config : MetricsConfig) (cs : List Check) (start end last : ℕ)
    → last ≤ start
    → Ordered start cs end
    → Calm config cs
    → length (alerts_of config cs last) * config.alert_cooldown_ms + last ≤ end
alerts_spaced config [] start end last h o calm = omega arith
alerts_spaced config (c ∷ cs) start end last h (first, o) (calm, rest) =
    elim (calm_check config c last (omega arith) calm) [
      | inl quiet ↦ rw quiet (alerts_spaced config cs c.now end last (omega arith) o rest)
      | inr (alert, spaced) ↦
          rw alert
            (let more = alerts_spaced config cs c.now end c.now (omega arith) o rest in omega arith)
    ]

exceeds_more :
    (rate : ErrorRate) (threshold more : ℕ)
    → exceeds rate (threshold + more) ≡ true
    → exceeds rate threshold ≡ true
exceeds_more rate threshold more h = ground (arith, mul_add threshold more rate.samples)
  where
    mul_add : (a b n : ℕ) → (a + b) * n ≡ a * n + b * n
    mul_add a b n = grind arith

severe_check :
    (config : MetricsConfig) (c : Check) (last : ℕ)
    → ltb c.rate.samples config.min_samples ≡ false
    → exceeds c.rate (config.error_rate_threshold + 200) ≡ true
    → check_rate config c.now c.rate last ≡ (some c.rate, c.now)
unfolding check_rate
severe_check config c last enough severe =
    ground (arith, exceeds_more c.rate config.error_rate_threshold 200 severe)

-- While every check finds enough samples and a rate that exceeds the threshold by 0.2, every check
-- alerts, whenever it runs and whenever the last alert was.
pub alerts_repeated :
    (config : MetricsConfig) (cs : List Check) (last : ℕ)
    → Severe config cs
    → alerts_of config cs last ≡ map (λ (c : Check). c.rate) cs
alerts_repeated config [] last h = refl
alerts_repeated config (c ∷ cs) last ((enough, severe), rest) =
    rw (severe_check config c last enough severe)
      (ap (λ rates. c.rate ∷ rates) (alerts_repeated config cs c.now rest))
