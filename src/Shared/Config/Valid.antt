-- ===== src/Shared/Config/Valid.antt =====
-- What a configuration that loads is known to have.
use nestjs_app.Prelude.{
  ℕ, ◌≡◌, ◌≢◌, refl, subst, String, Option, none, some, arith, str_eq, eq_iff, Bool-cases, inl, inr,
}
use nestjs_app.Js.{trim}
use nestjs_app.Durations.{parse_duration_to_ms}
use nestjs_app.Durations.Format.{IsDuration, parse_duration_iff}
use nestjs_app.Shared.Config.{Env, JwtSettings, with_durations, with_secret, jwt_config}

-- A secret, and times that are the durations of their texts.
pub record IsUsable (s : JwtSettings) : Type 0 where
  pub secret_given : s.access_secret ≢ ""
  pub access : IsDuration (trim s.access_expires_in) s.access_expires_in_ms
  pub refresh : IsDuration (trim s.refresh_expires_in) s.refresh_expires_in_ms
  pub reset : IsDuration (trim s.reset_token_ttl) s.reset_token_ttl_ms

some_inj : {a b : JwtSettings} → Option.some a ≡ some b → a ≡ b
some_inj e = cc

durations-IsUsable :
    (env : Env) (secret access refresh reset : String) (a r t : Option ℕ) (s : JwtSettings)
    → secret ≢ ""
    → parse_duration_to_ms access ≡ a
    → parse_duration_to_ms refresh ≡ r
    → parse_duration_to_ms reset ≡ t
    → with_durations env secret access refresh reset a r t ≡ some s
    → IsUsable s
durations-IsUsable env secret access refresh reset (some a) (some r) (some t) s given ea er et e =
    subst IsUsable (some_inj e) (record {
      secret_given = given;
      access = (parse_duration_iff access a).0 ea;
      refresh = (parse_duration_iff refresh r).0 er;
      reset = (parse_duration_iff reset t).0 et;
    })
durations-IsUsable env secret access refresh reset none r t s given ea er et e =
    absurd (ground arith)
durations-IsUsable env secret access refresh reset (some a) none t s given ea er et e =
    absurd (ground arith)
durations-IsUsable env secret access refresh reset (some a) (some r) none s given ea er et e =
    absurd (ground arith)

secret-IsUsable :
    (env : Env) (secret : Option String) (s : JwtSettings)
    → with_secret env secret ≡ some s
    → IsUsable s
secret-IsUsable env none s e = absurd (ground arith)
secret-IsUsable env (some secret) s e = elim (Bool-cases (str_eq secret "")) [
  | inl empty ↦ let failed : none ≡ some s = rw empty at e in absurd (ground arith)
  | inr given ↦
      durations-IsUsable env secret _ _ _ _ _ _ s
        (λ same. absurd (ground (arith, (eq_iff secret "").1 same))) refl refl refl (rw given at e)
]

-- Where the JWT configuration loads, whatever the environment: the secret is not empty, and the
-- three lifetimes in milliseconds are what their texts say in the format of durations.
pub jwt_config-IsUsable : (env : Env) (s : JwtSettings) → jwt_config env ≡ some s → IsUsable s
unfolding jwt_config
jwt_config-IsUsable env s e = secret-IsUsable env (env "JWT_ACCESS_SECRET") s e
